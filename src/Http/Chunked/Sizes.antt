-- ===== src/Http/Chunked/Sizes.antt =====
-- Chunk sizes in hexadecimal: `to_hex` and `parse_size` of Http/Chunked.
use webrun_wire.Common.{
  ℕ, zero, suc, ◌+◌, ◌*◌, ◌/◌, ◌%◌, ◌^◌, ◌<◌, ◌≤◌, ◌≡◌, refl, ap, ◌∙◌, arith, List, [], ◌∷◌, length,
}
use webrun_wire.Common.{true, false, ltb, ◌==◌, leb_of_le, Bool-cases, inl, inr}
use webrun_wire.Http.Bytes.{ok}
use webrun_wire.Http.Headers.{all_of}
use webrun_wire.Http.Chunked.{
  hex_digit, hex_loop, to_hex, is_hex, hex_value, parse_hex, parse_size, size_text,
}

hex_value-hex_digit : (d : ℕ) → d < 16 → hex_value (hex_digit d) ≡ d
hex_value-hex_digit d h = ground arith

is_hex-hex_digit : (d : ℕ) → d < 16 → is_hex (hex_digit d) ≡ true
is_hex-hex_digit d h = ground arith

-- What the loop adds in front, read in base 16.
parse_hex-hex_loop :
    (fuel n : ℕ) (digits : List ℕ)
    → n < fuel
    → parse_hex 0 (hex_loop fuel n digits) ≡ parse_hex n digits
unfolding hex_loop parse_hex
parse_hex-hex_loop zero n digits h = absurd (omega arith)
parse_hex-hex_loop (suc fuel) n digits h = elim (Bool-cases (ltb n 16)) [
  | inl small ↦
      rw small
        (ap (λ (m : ℕ). parse_hex m digits) (omega (arith, hex_value-hex_digit n (ground arith))))
  | inr large ↦ rw large (
      parse_hex-hex_loop fuel (n / 16) (hex_digit (n % 16) ∷ digits) (ground arith)
      ∙ ap (λ (m : ℕ). parse_hex m digits)
          (omega (arith, hex_value-hex_digit (n % 16) (omega arith))))
]

all_hex :
    (fuel n : ℕ) (digits : List ℕ)
    → all_of is_hex digits ≡ true
    → all_of is_hex (hex_loop fuel n digits) ≡ true
unfolding hex_loop
all_hex zero n digits h = h
all_hex (suc fuel) n digits h = elim (Bool-cases (ltb n 16)) [
  | inl small ↦ rw (small, is_hex-hex_digit n (ground arith)) h
  | inr large ↦ rw large (
      all_hex fuel (n / 16) (hex_digit (n % 16) ∷ digits)
        (rw (is_hex-hex_digit (n % 16) (omega arith)) h))
]

-- A power of 16.
abbrev bound : ℕ → ℕ
bound zero = 16
bound (suc k) = 16 * bound k

hex_length :
    (fuel k n : ℕ) (digits : List ℕ)
    → n < bound k
    → length (hex_loop fuel n digits) ≤ suc k + length digits
unfolding hex_loop
hex_length zero k n digits h = omega arith
hex_length (suc fuel) zero n digits h = elim (Bool-cases (ltb n 16)) [
  | inl small ↦ rw small (omega arith)
  | inr large ↦ absurd (ground arith)
]
hex_length (suc fuel) (suc k) n digits h = elim (Bool-cases (ltb n 16)) [
  | inl small ↦ rw small (omega arith)
  | inr large ↦
      rw large
        (omega (arith, hex_length fuel k (n / 16) (hex_digit (n % 16) ∷ digits) (omega (arith, h))))
]

hex_grows : (fuel n : ℕ) (digits : List ℕ) → length digits ≤ length (hex_loop fuel n digits)
unfolding hex_loop
hex_grows zero n digits = omega arith
hex_grows (suc fuel) n digits = elim (Bool-cases (ltb n 16)) [
  | inl small ↦ rw small (omega arith)
  | inr large ↦ rw large (omega (arith, hex_grows fuel (n / 16) (hex_digit (n % 16) ∷ digits)))
]

hex_pos : (n : ℕ) → 1 ≤ length (to_hex n)
unfolding to_hex hex_loop
hex_pos n = elim (Bool-cases (ltb n 16)) [
  | inl small ↦ rw small (omega arith)
  | inr large ↦ rw large (hex_grows n (n / 16) (hex_digit (n % 16) ∷ []))
]

size_text-hex : (text : List ℕ) → all_of is_hex text ≡ true → size_text text ≡ text
unfolding size_text
size_text-hex [] h = refl
size_text-hex (c ∷ text) h = rw (other, size_text-hex text (ground arith)) refl
  where
    other : (c == 0x3b) ≡ false
    other = ground arith

pub all_of-to_hex : (n : ℕ) → all_of is_hex (to_hex n) ≡ true
unfolding to_hex
all_of-to_hex n = all_hex (suc n) n [] refl

pub length-to_hex : (n : ℕ) → n < 2 ^ 53 → length (to_hex n) ≤ 14
unfolding to_hex
length-to_hex n h = omega (arith, hex_length (suc n) 13 n [] (omega (arith, h)))

-- A chunk size below 2^53, written in hexadecimal as `encodeChunked` writes it, is read back as the same
-- number.
pub parse_size-to_hex : (n : ℕ) → n < 2 ^ 53 → parse_size (to_hex n) ≡ ok n
unfolding parse_size
parse_size-to_hex n h =
    rw
      (
        size_text-hex (to_hex n) hex,
        hex,
        leb_of_le 1 (length (to_hex n)) (hex_pos n),
        leb_of_le (length (to_hex n)) 32 short,
        value,
      )
      (ground arith)
  where
    hex : all_of is_hex (to_hex n) ≡ true
    hex = all_of-to_hex n

    short : length (to_hex n) ≤ 32
    short = omega (arith, length-to_hex n h)

    value : parse_hex 0 (to_hex n) ≡ n
    value = unfold to_hex in unfold parse_hex in parse_hex-hex_loop (suc n) n [] (omega arith)
