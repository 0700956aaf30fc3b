-- ===== src/Msgpack/Numbers.antt =====
-- Integers on the wire.
use webrun_wire.Common.{
  ℕ, suc, ◌+◌, ◌-◌, ◌*◌, ◌/◌, ◌%◌, ◌^◌, ◌<◌, ◌≤◌, ◌≡◌, refl, ap, ◌∙◌, arith, List, [], ◌∷◌, ◌++◌,
}
use webrun_wire.Common.{leb, ltb, Bool-cases, inl, inr, lt→ltb, leb_of_le}
use webrun_wire.Common.Bytes.{byte, be16, be32}
use webrun_wire.Msgpack.Value.{ℤ, pos, negsuc, int, ok, Result, Value}
use webrun_wire.Msgpack.Encode.{append_int, append_int64, bits32}
use webrun_wire.Msgpack.Decode.{
  Host, read, read_byte, read_tagged, read_unsigned, read_signed, uint_loop, int_loop, signed,
  first_byte, shift_in,
}
use webrun_wire.Msgpack.Reading.{read_uint-append, read_int-append}

-- `Number.isSafeInteger`.
abbrev pub IsSafe : ℤ → Type 0
IsSafe (pos n) = n < 2 ^ 53
IsSafe (negsuc m) = m + 1 < 2 ^ 53

-- The bytes that follow a tag, for each tag of an integer.
module _ (host : Host) (fuel : ℕ) (rest : List ℕ) where
  read_cc :
      (a : ℕ) → read host (suc fuel) (0xcc ∷ a ∷ rest) ≡ ok (int (pos (uint_loop 0 (a ∷ []))), rest)
  unfolding read read_byte read_tagged read_unsigned
  read_cc a = rw (read_uint-append (a ∷ []) rest)

  read_cd :
      (a b : ℕ)
      → read host (suc fuel) (0xcd ∷ a ∷ b ∷ rest) ≡ ok (int (pos (uint_loop 0 (a ∷ b ∷ []))), rest)
  unfolding read read_byte read_tagged read_unsigned
  read_cd a b = rw (read_uint-append (a ∷ b ∷ []) rest)

  read_ce :
      (a b c d : ℕ)
      → read host (suc fuel) (0xce ∷ a ∷ b ∷ c ∷ d ∷ rest)
        ≡ ok (int (pos (uint_loop 0 (a ∷ b ∷ c ∷ d ∷ []))), rest)
  unfolding read read_byte read_tagged read_unsigned
  read_ce a b c d = rw (read_uint-append (a ∷ b ∷ c ∷ d ∷ []) rest)

  read_cf :
      (a b c d e f g h : ℕ)
      → let bs = a ∷ b ∷ c ∷ d ∷ e ∷ f ∷ g ∷ h ∷ [] in
        read host (suc fuel) (0xcf ∷ (bs ++ rest)) ≡ ok (int (pos (uint_loop 0 bs)), rest)
  unfolding read read_byte read_tagged read_unsigned
  read_cf a b c d e f g h = rw (read_uint-append (a ∷ b ∷ c ∷ d ∷ e ∷ f ∷ g ∷ h ∷ []) rest)

  read_d0 : (a : ℕ) → read host (suc fuel) (0xd0 ∷ a ∷ rest) ≡ ok (int (signed (a ∷ [])), rest)
  unfolding read read_byte read_tagged read_signed
  read_d0 a = rw (read_int-append (a ∷ []) rest)

  read_d1 :
      (a b : ℕ) → read host (suc fuel) (0xd1 ∷ a ∷ b ∷ rest) ≡ ok (int (signed (a ∷ b ∷ [])), rest)
  unfolding read read_byte read_tagged read_signed
  read_d1 a b = rw (read_int-append (a ∷ b ∷ []) rest)

  read_d2 :
      (a b c d : ℕ)
      → read host (suc fuel) (0xd2 ∷ a ∷ b ∷ c ∷ d ∷ rest)
        ≡ ok (int (signed (a ∷ b ∷ c ∷ d ∷ [])), rest)
  unfolding read read_byte read_tagged read_signed
  read_d2 a b c d = rw (read_int-append (a ∷ b ∷ c ∷ d ∷ []) rest)

  read_d3 :
      (a b c d e f g h : ℕ)
      → let bs = a ∷ b ∷ c ∷ d ∷ e ∷ f ∷ g ∷ h ∷ [] in
        read host (suc fuel) (0xd3 ∷ (bs ++ rest)) ≡ ok (int (signed bs), rest)
  unfolding read read_byte read_tagged read_signed
  read_d3 a b c d e f g h = rw (read_int-append (a ∷ b ∷ c ∷ d ∷ e ∷ f ∷ g ∷ h ∷ []) rest)

-- Eight bytes of a natural number below 2^64, and of the complement of one.
uint64_lem : (n : ℕ) → n < 2 ^ 53 → uint_loop 0 (be32 (n / 2 ^ 32) ++ be32 (n % 2 ^ 32)) ≡ n
unfolding uint_loop
uint64_lem n h = omega arith

uint32_lem : (n : ℕ) → n < 2 ^ 32 → uint_loop 0 (be32 n) ≡ n
unfolding uint_loop
uint32_lem n h = omega arith

uint16_lem : (n : ℕ) → n < 2 ^ 16 → uint_loop 0 (be16 n) ≡ n
unfolding uint_loop
uint16_lem n h = omega arith

-- A byte of a complement, shifted into a negative number.
shift_complement :
    (k b x : ℕ) → b < 256 → x ≡ 255 - b → shift_in (negsuc k) x ≡ negsuc (k * 256 + b)
shift_complement k b x h e = ap negsuc (rw e (omega arith))

complement32 :
    (x : ℕ)
    → x < 2 ^ 32
    → let y = 0xffff_ffff - x in
      (byte (y / 2 ^ 24) ≡ 255 - byte (x / 2 ^ 24))
      × (byte (y / 2 ^ 16) ≡ 255 - byte (x / 2 ^ 16))
      × (byte (y / 2 ^ 8) ≡ 255 - byte (x / 2 ^ 8))
      × (byte y ≡ 255 - byte x)
complement32 x h = (omega arith, omega arith, omega arith, omega arith)

-- Four bytes of a complement behind a negative number.
int_loop-complement32 :
    (k x : ℕ) (bytes : List ℕ)
    → x < 2 ^ 32
    → int_loop (negsuc k) (be32 (0xffff_ffff - x) ++ bytes)
      ≡ int_loop (negsuc (k * 2 ^ 32 + x)) bytes
unfolding int_loop
int_loop-complement32 k x bytes h =
    ap (λ m. int_loop (negsuc m) bytes) (omega (arith, complement32 x h))

read_fix :
    (host : Host) (fuel a : ℕ) (rest : List ℕ)
    → a < 128
    → read host (suc fuel) (a ∷ rest) ≡ ok (int (pos a), rest)
unfolding read read_byte
read_fix host fuel a rest h = ground arith

read_negative_fix :
    (host : Host) (fuel a : ℕ) (rest : List ℕ)
    → 0xe0 ≤ a
    → a < 256
    → read host (suc fuel) (a ∷ rest) ≡ ok (int (negsuc (255 - a)), rest)
unfolding read read_byte
read_negative_fix host fuel a rest h k = ground arith

-- A number and its successor's complement, as results.
same_pos :
    (rest : List ℕ) (a b : ℕ)
    → a ≡ b
    → ◌≡◌ {A = Result (Value × List ℕ)} (ok (int (pos a), rest)) (ok (int (pos b), rest))
same_pos rest a b e = ap (λ n. ok (int (pos n), rest)) e

same_int :
    (rest : List ℕ) (a b : ℤ)
    → a ≡ b
    → ◌≡◌ {A = Result (Value × List ℕ)} (ok (int a, rest)) (ok (int b, rest))
same_int rest a b e = ap (λ n. ok (int n, rest)) e

read_pos :
    (host : Host) (fuel n : ℕ) (rest : List ℕ)
    → n < 2 ^ 53
    → read host (suc fuel) (append_int (pos n) ++ rest) ≡ ok (int (pos n), rest)
unfolding append_int append_int64
read_pos host fuel n rest h = elim (Bool-cases (leb n 0x7f)) [
  | inl a ↦
      rw a
        (read_fix host fuel (byte n) rest (ground arith) ∙ same_pos rest (byte n) n (ground arith))
  | inr a ↦ elim (Bool-cases (leb n 0xff)) [
    | inl b ↦
        rw (a, b)
          (read_cc host fuel rest (byte n) ∙ same_pos rest _ n (unfold uint_loop in ground arith))
    | inr b ↦ elim (Bool-cases (leb n 0xffff)) [
      | inl c ↦
          rw (a, b, c)
            (read_cd host fuel rest (byte (n / 2 ^ 8)) (byte n)
              ∙ same_pos rest _ n (uint16_lem n (ground arith)))
      | inr c ↦ elim (Bool-cases (leb n 0xffff_ffff)) [
        | inl d ↦
            rw (a, b, c, d)
              (read_ce host fuel rest _ _ _ _ ∙ same_pos rest _ n (uint32_lem n (ground arith)))
        | inr d ↦
            rw (a, b, c, d, leb_of_le n (2 ^ 64) (omega arith))
              (read_cf host fuel rest _ _ _ _ _ _ _ _ ∙ same_pos rest _ n (uint64_lem n h))
      ]
    ]
  ]
]

-- The first byte of a complement is negative.
signed_complement :
    (b : ℕ) (bytes : List ℕ) → b < 128 → signed ((255 - b) ∷ bytes) ≡ int_loop (negsuc b) bytes
unfolding signed
signed_complement b bytes h = ap (λ z. int_loop z bytes) first
  where
    first : first_byte (255 - b) ≡ negsuc b
    first = ground arith

signed8 : (m : ℕ) → m < 2 ^ 7 → signed (byte (bits32 m) ∷ []) ≡ negsuc m
signed8 m h =
    ap (λ b. signed (b ∷ [])) (omega arith) ∙ signed_complement m [] h ∙ unfold int_loop in refl

signed16 : (m : ℕ) → m < 2 ^ 15 → signed (be16 (bits32 m)) ≡ negsuc m
unfolding int_loop
signed16 m h =
    ap (λ a. signed (a ∷ byte (bits32 m) ∷ [])) high
    ∙ signed_complement (m / 2 ^ 8) (byte (bits32 m) ∷ []) (omega arith)
    ∙ ap negsuc (omega arith)
  where
    high : byte (bits32 m / 2 ^ 8) ≡ 255 - m / 2 ^ 8
    high = omega arith

signed-be32 :
    (x : ℕ) (bytes : List ℕ)
    → x < 2 ^ 31
    → signed (be32 (0xffff_ffff - x) ++ bytes) ≡ int_loop (negsuc x) bytes
unfolding int_loop
signed-be32 x bytes h =
    let y = 0xffff_ffff - x in
    let others : List ℕ = byte (y / 2 ^ 16) ∷ byte (y / 2 ^ 8) ∷ byte y ∷ bytes in
    ap (λ a. signed (a ∷ others)) high
    ∙ signed_complement (x / 2 ^ 24) others (omega arith)
    ∙ ap (λ m. int_loop (negsuc m) bytes) (omega (arith, complement32 x (omega arith)))
  where
    high : byte ((0xffff_ffff - x) / 2 ^ 24) ≡ 255 - x / 2 ^ 24
    high = omega arith

signed32 : (m : ℕ) → m < 2 ^ 31 → signed (be32 (bits32 m)) ≡ negsuc m
unfolding int_loop
signed32 m h = ap (λ x. signed (be32 (0xffff_ffff - x))) same ∙ signed-be32 m [] h
  where
    same : m % 2 ^ 32 ≡ m
    same = omega arith

pub signed64 :
    (m : ℕ)
    → m + 1 < 2 ^ 53
    → signed (be32 (0xffff_ffff - m / 2 ^ 32 % 2 ^ 32) ++ be32 (0xffff_ffff - m % 2 ^ 32))
      ≡ negsuc m
unfolding int_loop
signed64 m h =
    signed-be32 (m / 2 ^ 32 % 2 ^ 32) (be32 (0xffff_ffff - m % 2 ^ 32)) (omega arith)
    ∙ int_loop-complement32 (m / 2 ^ 32 % 2 ^ 32) (m % 2 ^ 32) [] (omega arith)
    ∙ ap negsuc (omega arith)

read_negsuc :
    (host : Host) (fuel m : ℕ) (rest : List ℕ)
    → m + 1 < 2 ^ 53
    → read host (suc fuel) (append_int (negsuc m) ++ rest) ≡ ok (int (negsuc m), rest)
unfolding append_int append_int64
read_negsuc host fuel m rest h = elim (Bool-cases (ltb m 0x20)) [
  | inl a ↦ rw a (
      read_negative_fix host fuel (byte (bits32 m)) rest (ground arith) (omega arith)
      ∙ same_int rest _ (negsuc m) (ap negsuc (ground arith)))
  | inr a ↦ elim (Bool-cases (ltb m 0x80)) [
    | inl b ↦
        rw (a, b)
          (read_d0 host fuel rest (byte (bits32 m)) ∙ same_int rest _ _ (signed8 m (ground arith)))
    | inr b ↦ elim (Bool-cases (ltb m 0x8000)) [
      | inl c ↦
          rw (a, b, c) (read_d1 host fuel rest _ _ ∙ same_int rest _ _ (signed16 m (ground arith)))
      | inr c ↦ elim (Bool-cases (ltb m 0x8000_0000)) [
        | inl d ↦
            rw (a, b, c, d)
              (read_d2 host fuel rest _ _ _ _ ∙ same_int rest _ _ (signed32 m (ground arith)))
        | inr d ↦
            rw (a, b, c, d, lt→ltb m (2 ^ 63) (omega arith))
              (read_d3 host fuel rest _ _ _ _ _ _ _ _ ∙ same_int rest _ _ (signed64 m h))
      ]
    ]
  ]
]

-- Every safe integer is read back from what `appendNumber` wrote for it, whatever follows.
pub read-append_int :
    (host : Host) (fuel : ℕ) (z : ℤ) (rest : List ℕ)
    → IsSafe z
    → read host (suc fuel) (append_int z ++ rest) ≡ ok (int z, rest)
read-append_int host fuel (pos n) rest h = read_pos host fuel n rest h
read-append_int host fuel (negsuc m) rest h = read_negsuc host fuel m rest h
