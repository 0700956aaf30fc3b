-- ===== src/Msgpack/Heads.antt =====
-- The heads of strings, byte arrays, arrays and maps: what is read behind each.
use webrun_wire.Common.{
  ℕ, suc, ◌+◌, ◌-◌, ◌^◌, ◌<◌, ◌≤◌, ◌≡◌, refl, ap, ◌∙◌, arith, List, [], ◌∷◌, ◌++◌, length,
}
use webrun_wire.Common.{leb, Bool-cases, inl, inr, true}
use webrun_wire.Common.Bytes.{byte, be16, be32}
use webrun_wire.Msgpack.Value.{Value, Result, ok, ◌>>=◌, arr, obj, str, bin, end}
use webrun_wire.Msgpack.Utf8.{decode_utf8}
use webrun_wire.Msgpack.Encode.{string_head, array_head, bin_head, map_head}
use webrun_wire.Msgpack.Decode.{
  Host, read, read_byte, read_tagged, read_array, read_map, read_string, read_binary,
}
use webrun_wire.Msgpack.Decode.{
  read_items, read_fields, read_str, read_bin, read_size, read_bytes, known, prefixed, uint_loop,
}
use webrun_wire.Msgpack.Reading.{read_size-append}

one_byte : (n : ℕ) → n < 2 ^ 8 → uint_loop 0 (byte n ∷ []) ≡ n
unfolding uint_loop
one_byte n h = omega arith

two_bytes : (n : ℕ) → n < 2 ^ 16 → uint_loop 0 (be16 n) ≡ n
unfolding uint_loop
two_bytes n h = omega arith

four_bytes : (n : ℕ) → n < 2 ^ 32 → uint_loop 0 (be32 n) ≡ n
unfolding uint_loop
four_bytes n h = omega arith

-- Reading a size in each of its forms.
size1 : (n : ℕ) (rest : List ℕ) → n < 2 ^ 8 → read_size (prefixed 1) (byte n ∷ rest) ≡ ok (n, rest)
size1 n rest h = read_size-append (byte n ∷ []) rest ∙ ap (λ (k : ℕ). ok (k, rest)) (one_byte n h)

size2 :
    (n : ℕ) (rest : List ℕ) → n < 2 ^ 16 → read_size (prefixed 2) (be16 n ++ rest) ≡ ok (n, rest)
size2 n rest h = read_size-append (be16 n) rest ∙ ap (λ (k : ℕ). ok (k, rest)) (two_bytes n h)

size4 :
    (n : ℕ) (rest : List ℕ) → n < 2 ^ 32 → read_size (prefixed 4) (be32 n ++ rest) ≡ ok (n, rest)
size4 n rest h = read_size-append (be32 n) rest ∙ ap (λ (k : ℕ). ok (k, rest)) (four_bytes n h)

module _ (host : Host) (fuel n : ℕ) (rest : List ℕ) where
  -- The reader of the elements.
  abbrev pub elements : Result (Value × List ℕ)
  elements = read_items host (read host fuel) n rest >>= λ q. ok (arr q.0, q.1)

  abbrev pub properties : Result (Value × List ℕ)
  properties = read_fields host (read host fuel) n end rest >>= λ q. ok (obj q.0, q.1)

  abbrev pub text : Result (Value × List ℕ)
  text = read_bytes n rest >>= λ q. ok (str (decode_utf8 host.utf8_decoder q.0), q.1)

  abbrev pub binary : Result (Value × List ℕ)
  binary = read_bytes n rest >>= λ q. ok (bin q.0, q.1)

-- The ranges of the one-byte heads.
module _ (host : Host) (r : List ℕ → Result (Value × List ℕ)) (b : ℕ) (rest : List ℕ) where
  array_range :
      0x90 ≤ b → b ≤ 0x9f → read_byte host r b rest ≡ read_array host r (known (b - 0x90)) rest
  unfolding read_byte
  array_range h k = ground arith

  map_range :
      0x80 ≤ b → b ≤ 0x8f → read_byte host r b rest ≡ read_map host r (known (b - 0x80)) rest
  unfolding read_byte
  map_range h k = ground arith

  string_range :
      0xa0 ≤ b → b ≤ 0xbf → read_byte host r b rest ≡ read_string host r (known (b - 0xa0)) rest
  unfolding read_byte
  string_range h k = ground arith

module _ (host : Host) (fuel n : ℕ) (rest : List ℕ) where
  pub read-array_head :
      n < 2 ^ 32 → read host (suc fuel) (array_head n ++ rest) ≡ elements host fuel n rest
  unfolding array_head read read_byte read_tagged read_array
  read-array_head h = elim (Bool-cases (leb n 0xf)) [
    | inl a ↦ rw a (
        array_range host (read host fuel) (byte (0x90 + n)) rest (ground arith) (ground arith)
        ∙ rw (fix_lem a) (unfold read_size in refl))
    | inr a ↦ elim (Bool-cases (leb n 0xffff)) [
      | inl b ↦ rw (a, b, size2 n rest (ground arith))
      | inr b ↦ rw (a, b, size4 n rest h)
    ]
  ]
    where
      fix_lem : leb n 0xf ≡ true → byte (0x90 + n) - 0x90 ≡ n
      fix_lem a = ground arith

  pub read-map_head :
      n < 2 ^ 32 → read host (suc fuel) (map_head n ++ rest) ≡ properties host fuel n rest
  unfolding map_head read read_byte read_tagged read_map
  read-map_head h = elim (Bool-cases (leb n 0xf)) [
    | inl a ↦ rw a (
        map_range host (read host fuel) (byte (0x80 + n)) rest (ground arith) (ground arith)
        ∙ rw (fix_lem a) (unfold read_size in refl))
    | inr a ↦ elim (Bool-cases (leb n 0xffff)) [
      | inl b ↦ rw (a, b, size2 n rest (ground arith))
      | inr b ↦ rw (a, b, size4 n rest h)
    ]
  ]
    where
      fix_lem : leb n 0xf ≡ true → byte (0x80 + n) - 0x80 ≡ n
      fix_lem a = ground arith

  pub read-string_head :
      n < 2 ^ 32 → read host (suc fuel) (string_head n ++ rest) ≡ text host fuel n rest
  unfolding string_head read read_byte read_tagged read_string read_str
  read-string_head h = elim (Bool-cases (leb n 0x1f)) [
    | inl a ↦ rw a (
        string_range host (read host fuel) (byte (0xa0 + n)) rest (ground arith) (ground arith)
        ∙ rw (fix_lem a) (unfold read_size in text_lem))
    | inr a ↦ elim (Bool-cases (leb n 0xff)) [
      | inl b ↦ rw (a, b, size1 n rest (ground arith)) text_lem
      | inr b ↦ elim (Bool-cases (leb n 0xffff)) [
        | inl c ↦ rw (a, b, c, size2 n rest (ground arith)) text_lem
        | inr c ↦ rw (a, b, c, size4 n rest h) text_lem
      ]
    ]
  ]
    where
      fix_lem : leb n 0x1f ≡ true → byte (0xa0 + n) - 0xa0 ≡ n
      fix_lem a = ground arith

      text_lem :
          ◌>>=◌ {A = List ℕ × List ℕ}
            (read_bytes n rest >>= λ q. ok (decode_utf8 host.utf8_decoder q.0, q.1))
            (λ p. ok (str p.0, p.1))
          ≡ text host fuel n rest
      text_lem = ground arith

  pub read-bin_head :
      n < 2 ^ 32 → read host (suc fuel) (bin_head n ++ rest) ≡ binary host fuel n rest
  unfolding bin_head read read_byte read_tagged read_binary read_bin
  read-bin_head h = elim (Bool-cases (leb n 0xff)) [
    | inl a ↦ rw (a, size1 n rest (ground arith))
    | inr a ↦ elim (Bool-cases (leb n 0xffff)) [
      | inl b ↦ rw (a, b, size2 n rest (ground arith))
      | inr b ↦ rw (a, b, size4 n rest h)
    ]
  ]

pub array_head-pos : (n : ℕ) → 1 ≤ length (array_head n)
unfolding array_head
array_head-pos n = ground arith

pub map_head-pos : (n : ℕ) → 1 ≤ length (map_head n)
unfolding map_head
map_head-pos n = ground arith

pub string_head-pos : (n : ℕ) → 1 ≤ length (string_head n)
unfolding string_head
string_head-pos n = ground arith

pub bin_head-pos : (n : ℕ) → 1 ≤ length (bin_head n)
unfolding bin_head
bin_head-pos n = ground arith
