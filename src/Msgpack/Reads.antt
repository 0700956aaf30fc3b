-- ===== src/Msgpack/Reads.antt =====
-- What `deserialize` reads of what `serialize` has written, one kind of value at a time.
use webrun_wire.Common.{
  ℕ, zero, suc, ◌+◌, ◌^◌, ◌<◌, ◌≤◌, ◌≡◌, refl, ap, ◌∙◌, arith, List, ◌∷◌, ◌++◌, append_assoc,
  length, length-append,
}
use webrun_wire.Msgpack.Value.{ℤ, pos, negsuc, Value, Items, Fields, ok}
use webrun_wire.Msgpack.Value.{float, str, bin, arr, obj}
use webrun_wire.Msgpack.Value.{cons, end, field}
use webrun_wire.Msgpack.Utf8.{encode_utf8}
use webrun_wire.Msgpack.Encode.{
  append_int, append_string, append_bin_array, append_date, date_bytes,
}
use webrun_wire.Msgpack.Encode.{array_head, map_head, string_head, bin_head}
use webrun_wire.Msgpack.Decode.{
  Host, read, read_byte, read_tagged, read_float, read_items, read_fields,
}
use webrun_wire.Msgpack.Reading.{read_bytes-append}
use webrun_wire.Msgpack.Texts.{DecodesUtf8, IsText, decode_utf8-encode_utf8}
use webrun_wire.Msgpack.Heads.{read-array_head, read-map_head, read-string_head, read-bin_head}
use webrun_wire.Msgpack.Heads.{array_head-pos, map_head-pos, string_head-pos, bin_head-pos}
use webrun_wire.Msgpack.Wire.{join, Absent, put-Absent}

pub append_int-pos : (z : ℤ) → 1 ≤ length (append_int z)
unfolding append_int
append_int-pos (pos n) = ground arith
append_int-pos (negsuc m) = ground arith

pub append_date-pos : (t : ℤ) → 1 ≤ length (append_date t)
unfolding append_date date_bytes
append_date-pos (pos n) = ground arith
append_date-pos (negsuc m) = ground arith

pub join-end : (fs : Fields) → fs ≡ join fs end
join-end end = refl
join-end (field k v fs) = ap (field k v) (join-end fs)

module _ (host : Host) (good : DecodesUtf8 host) where
  -- `bytes` is read as `v`, whatever follows, with at least as much fuel as it has bytes.
  abbrev pub ReadsAs : List ℕ → Value → Type 0
  ReadsAs bytes v =
      (1 ≤ length bytes)
      × ((fuel : ℕ) (rest : List ℕ)
          → length bytes ≤ fuel
          → read host fuel (bytes ++ rest) ≡ ok (v, rest))

  -- It is enough to show it for the successors.
  pub with_fuel :
      (bytes : List ℕ) (v : Value)
      → 1 ≤ length bytes
      → ((fuel : ℕ) (rest : List ℕ)
          → length bytes ≤ suc fuel
          → read host (suc fuel) (bytes ++ rest) ≡ ok (v, rest))
      → ReadsAs bytes v
  with_fuel bytes v h reads = (h, go)
    where
      go :
          (fuel : ℕ) (rest : List ℕ)
          → length bytes ≤ fuel
          → read host fuel (bytes ++ rest) ≡ ok (v, rest)
      go zero rest le = absurd (omega arith)
      go (suc fuel) rest le = reads fuel rest le

  pub string_reads : (s : List ℕ) → IsText s → ReadsAs (append_string s) (str s)
  unfolding append_string
  string_reads s t =
      with_fuel _ _
        (omega (
          arith,
          length-append (string_head (length (encode_utf8 s))) (encode_utf8 s),
          string_head-pos (length (encode_utf8 s)),
        ))
        go
    where
      go :
          (fuel : ℕ) (rest : List ℕ)
          → length (append_string s) ≤ suc fuel
          → read host (suc fuel) (append_string s ++ rest) ≡ ok (str s, rest)
      go fuel rest le =
          rw (append_assoc (string_head (length (encode_utf8 s))) (encode_utf8 s) rest) (
            read-string_head host fuel (length (encode_utf8 s)) ((encode_utf8 s) ++ rest) t.short
            ∙ rw (read_bytes-append (encode_utf8 s) rest, decode_utf8-encode_utf8 host s good t)
                refl)

  pub bin_reads :
      (bytes : List ℕ) → length bytes < 2 ^ 32 → ReadsAs (append_bin_array bytes) (bin bytes)
  unfolding append_bin_array
  bin_reads bytes h =
      with_fuel _ _
        (omega (arith, length-append (bin_head (length bytes)) bytes, bin_head-pos (length bytes)))
        go
    where
      go :
          (fuel : ℕ) (rest : List ℕ)
          → length (append_bin_array bytes) ≤ suc fuel
          → read host (suc fuel) (append_bin_array bytes ++ rest) ≡ ok (bin bytes, rest)
      go fuel rest le = rw (append_assoc (bin_head (length bytes)) bytes rest) (
          read-bin_head host fuel (length bytes) (bytes ++ rest) h
          ∙ rw (read_bytes-append bytes rest) refl)

  read_float8 :
      (bits rest : List ℕ) → length bits ≡ 8 → read_float 8 (bits ++ rest) ≡ ok (float bits, rest)
  unfolding read_float
  read_float8 bits rest h = rw (← h, read_bytes-append bits rest) refl

  pub float_reads : (bits : List ℕ) → length bits ≡ 8 → ReadsAs (0xcb ∷ bits) (float bits)
  unfolding read read_byte read_tagged
  float_reads bits h =
      with_fuel (0xcb ∷ bits) (float bits) (omega arith) λ fuel rest le. read_float8 bits rest h

  -- `bytes` is read as the elements `vs`, or as properties `fs` behind those there are.
  abbrev pub ReadsItems : List ℕ → ℕ → Items → Type 0
  ReadsItems bytes n vs =
      (fuel : ℕ) (rest : List ℕ)
      → length bytes ≤ fuel
      → read_items host (read host fuel) n (bytes ++ rest) ≡ ok (vs, rest)

  abbrev pub ReadsFields : List ℕ → ℕ → Fields → Fields → Type 0
  ReadsFields bytes n acc all =
      (fuel : ℕ) (rest : List ℕ)
      → length bytes ≤ fuel
      → read_fields host (read host fuel) n acc (bytes ++ rest) ≡ ok (all, rest)

  pub cons_reads :
      (first body : List ℕ) (n : ℕ) (v : Value) (vs : Items)
      → ReadsAs first v
      → ReadsItems body n vs
      → ReadsItems (first ++ body) (suc n) (cons v vs)
  unfolding read_items
  cons_reads first body n v vs h k fuel rest le =
      rw
        (
          append_assoc first body rest,
          h.1 fuel (body ++ rest) (omega (arith, length-append first body)),
          k fuel rest (omega (arith, length-append first body)),
        )
        refl

  pub array_reads :
      (body : List ℕ) (n : ℕ) (vs : Items)
      → n < 2 ^ 32
      → ReadsItems body n vs
      → ReadsAs (array_head n ++ body) (arr vs)
  array_reads body n vs h k =
      with_fuel (array_head n ++ body) (arr vs)
        (omega (arith, length-append (array_head n) body, array_head-pos n))
        λ fuel rest le. rw (append_assoc (array_head n) body rest) (
          read-array_head host fuel n (body ++ rest) h
          ∙ rw (k fuel rest (omega (arith, length-append (array_head n) body, array_head-pos n)))
              refl)

  pub map_reads :
      (body : List ℕ) (n : ℕ) (fs : Fields)
      → n < 2 ^ 32
      → ReadsFields body n end fs
      → ReadsAs (map_head n ++ body) (obj fs)
  map_reads body n fs h k =
      with_fuel (map_head n ++ body) (obj fs)
        (omega (arith, length-append (map_head n) body, map_head-pos n))
        λ fuel rest le. rw (append_assoc (map_head n) body rest) (
          read-map_head host fuel n (body ++ rest) h
          ∙ rw (k fuel rest (omega (arith, length-append (map_head n) body, map_head-pos n))) refl)

  pub field_reads :
      (key first body : List ℕ) (n : ℕ) (k : List ℕ) (v : Value) (acc all : Fields)
      → ReadsAs key (str k)
      → ReadsAs first v
      → Absent k acc
      → ReadsFields body n (join acc (field k v end)) all
      → ReadsFields (key ++ first ++ body) (suc n) acc all
  unfolding read_fields
  field_reads key first body n k v acc all hk hv a hb fuel rest le =
      rw
        (
          append_assoc (key ++ first) body rest,
          append_assoc key first (body ++ rest),
          hk.1 fuel (first ++ (body ++ rest)) (omega (arith, lengths, lengths2)),
          hv.1 fuel (body ++ rest) (omega (arith, lengths, lengths2)),
          put-Absent k v acc a,
        )
        (hb fuel rest (omega (arith, lengths, lengths2)))
    where
      lengths : length (key ++ first ++ body) ≡ length (key ++ first) + length body
      lengths = length-append (key ++ first) body

      lengths2 : length (key ++ first) ≡ length key + length first
      lengths2 = length-append key first
