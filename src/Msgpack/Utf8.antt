-- ===== src/Msgpack/Utf8.antt =====
-- packages/webrun-msgpack/src/msgpack-core.ts, `encodeUtf8` and `decodeUtf8`. A string is the list of its
-- UTF-16 code units.
use webrun_wire.Common.{
  ℕ, ◌+◌, ◌-◌, ◌*◌, ◌/◌, ◌%◌, ◌^◌, ◌≤◌, ◌<◌, ◌≡◌, refl, ap, arith, List, [], ◌∷◌, ◌++◌,
}
use webrun_wire.Common.{Bool, true, false, ◌&&◌, ltb, leb, if◌then◌else◌, length, All}
use webrun_wire.Common.{◌⊎◌, dec_lt, lt→ltb, ltb_of_le, sym, ◌∙◌, ap₂, append-nil}
use webrun_wire.Common.Bits.{low_bits, shr, or-128, or-192, or-224, or-240}
use Prim.Native.Nat.{bit_or}

-- The two bytes behind the first of a three-byte form, and the last byte of any longer form.
abbrev tail_byte : ℕ → ℕ → ℕ
tail_byte c k = bit_or (low_bits (shr c k) 6) 128

abbrev two_bytes : ℕ → List ℕ
two_bytes c = bit_or (shr c 6) 192 ∷ tail_byte c 0 ∷ []

abbrev three_bytes : ℕ → List ℕ
three_bytes c = bit_or (shr c 12) 224 ∷ tail_byte c 6 ∷ tail_byte c 0 ∷ []

abbrev four_bytes : ℕ → List ℕ
four_bytes c = bit_or (shr c 18) 240 ∷ tail_byte c 12 ∷ tail_byte c 6 ∷ tail_byte c 0 ∷ []

abbrev is_high : ℕ → Bool
is_high c = ltb 0xd7ff c && ltb c 0xdc00

abbrev is_low : ℕ → Bool
is_low c = leb 0xdc00 c && leb c 0xdfff

-- A surrogate without its partner is written as U+FFFD.
abbrev replaced : ℕ → ℕ
replaced c = if ltb 0xd7ff c && ltb c 0xe000 then 0xfffd else c

-- The code point of a surrogate pair.
abbrev pair_point : ℕ → ℕ → ℕ
pair_point c c2 = 0x10000 + low_bits c 10 * 2 ^ 10 + low_bits c2 10

-- A code unit that is not the first of a pair.
unfoldable pub encode_unit : ℕ → List ℕ
encode_unit c =
    if ltb c 128 then c ∷ [] else if ltb c 2048 then two_bytes c else three_bytes (replaced c)

unfoldable pub is_pair : ℕ → ℕ → Bool
is_pair c c2 = leb 2048 c && (is_high c && is_low c2)

-- The loop over the code units. A pair takes two of them (`ci++`).
unfoldable pub encode_utf8 : List ℕ → List ℕ
unfolding encode_unit is_pair
encode_utf8 [] = []
encode_utf8 (c ∷ []) = encode_unit c
encode_utf8 (c ∷ c2 ∷ units) =
    let rest = encode_utf8 (c2 ∷ units) in
    let after_pair = encode_utf8 units in
    if is_pair c c2 then four_bytes (pair_point c c2) ++ after_pair else encode_unit c ++ rest

-- Every byte is plain ASCII.
abbrev pub all_ascii : List ℕ → Bool
all_ascii [] = true
all_ascii (b ∷ bytes) = leb b 127 && all_ascii bytes

-- `utf8_decoder` is `TextDecoder("utf-8", { ignoreBOM: true }).decode`.
unfoldable pub decode_utf8 : (List ℕ → List ℕ) → List ℕ → List ℕ
decode_utf8 utf8_decoder bytes =
    if leb (length bytes) 12 && all_ascii bytes then bytes else utf8_decoder bytes

-- The Unicode scalar values, and the two encodings of a text, as the standard has them.
abbrev pub IsScalar : ℕ → Type 0
IsScalar c = ((c < 0xd800) ⊎ (0xdfff < c)) × (c < 0x110000)

unfoldable pub utf16 : List ℕ → List ℕ
utf16 [] = []
utf16 (c ∷ cs) =
    if ltb c 0x10000
    then c ∷ utf16 cs
    else (0xd800 + (c - 0x10000) / 1024) ∷ (0xdc00 + (c - 0x10000) % 1024) ∷ utf16 cs

unfoldable pub utf8 : List ℕ → List ℕ
utf8 [] = []
utf8 (c ∷ cs) =
    if ltb c 0x80
    then c ∷ utf8 cs
    else if ltb c 0x800
    then (192 + c / 64) ∷ (128 + c % 64) ∷ utf8 cs
    else if ltb c 0x10000
    then (224 + c / 4096) ∷ (128 + c / 64 % 64) ∷ (128 + c % 64) ∷ utf8 cs
    else (240 + c / 262144) ∷ (128 + c / 4096 % 64) ∷ (128 + c / 64 % 64) ∷ (128 + c % 64) ∷ utf8 cs

two_bytes_lem : (c : ℕ) → c < 2048 → two_bytes c ≡ (192 + c / 64) ∷ (128 + c % 64) ∷ []
two_bytes_lem c h = ground (arith, or-192 (c / 64), or-128 (c % 64))

three_bytes_lem :
    (c : ℕ)
    → c < 0x10000
    → three_bytes c ≡ (224 + c / 4096) ∷ (128 + c / 64 % 64) ∷ (128 + c % 64) ∷ []
three_bytes_lem c h = ground (arith, or-224 (c / 4096), or-128 (c / 64 % 64), or-128 (c % 64))

four_bytes_lem :
    (c : ℕ)
    → c < 0x110000
    → four_bytes c
      ≡ (240 + c / 262144) ∷ (128 + c / 4096 % 64) ∷ (128 + c / 64 % 64) ∷ (128 + c % 64) ∷ []
four_bytes_lem c h =
    ground
      (arith, or-240 (c / 262144), or-128 (c / 4096 % 64), or-128 (c / 64 % 64), or-128 (c % 64))

encode_unit_lem : (c : ℕ) → IsScalar c → c < 0x10000 → encode_unit c ≡ utf8 (c ∷ [])
unfolding encode_unit utf8
encode_unit_lem c h k = elim (dec_lt c 2048) [
  | yes small ↦ ground (arith, two_bytes_lem c small)
  | no large ↦
      rw (ltb_of_le c 128 (omega arith), ltb_of_le c 2048 (omega arith), plain, lt→ltb c 0x10000 k)
        (three_bytes_lem c k)
]
  where
    plain : replaced c ≡ c
    plain = ground arith

not_pair : (c d : ℕ) → IsScalar c → is_pair c d ≡ false
unfolding is_pair
not_pair c d h = ground arith

encode_utf8_single :
    (c d : ℕ) (units : List ℕ)
    → is_pair c d ≡ false
    → encode_utf8 (c ∷ d ∷ units) ≡ encode_unit c ++ encode_utf8 (d ∷ units)
unfolding encode_utf8
encode_utf8_single c d units e = rw (e, encode_utf8)

encode_utf8_double :
    (c d : ℕ) (units : List ℕ)
    → is_pair c d ≡ true
    → encode_utf8 (c ∷ d ∷ units) ≡ four_bytes (pair_point c d) ++ encode_utf8 units
unfolding encode_utf8
encode_utf8_double c d units e = rw (e, encode_utf8)

pair_found :
    (c : ℕ)
    → 0x10000 ≤ c
    → c < 0x110000
    → is_pair (0xd800 + (c - 0x10000) / 1024) (0xdc00 + (c - 0x10000) % 1024) ≡ true
unfolding is_pair
pair_found c h k = ground arith

-- One scalar value of the basic plane, and one beyond it.
encode_utf8-plain :
    (c : ℕ) (units : List ℕ)
    → IsScalar c
    → c < 0x10000
    → encode_utf8 (c ∷ units) ≡ utf8 (c ∷ []) ++ encode_utf8 units
encode_utf8-plain c [] h k = unfold encode_utf8 in encode_unit_lem c h k ∙ sym (append-nil _)
encode_utf8-plain c (d ∷ units) h k =
    encode_utf8_single c d units (not_pair c d h)
    ∙ ap (λ r. r ++ encode_utf8 (d ∷ units)) (encode_unit_lem c h k)

pair_point_lem :
    (c : ℕ)
    → 0x10000 ≤ c
    → c < 0x110000
    → pair_point (0xd800 + (c - 0x10000) / 1024) (0xdc00 + (c - 0x10000) % 1024) ≡ c
pair_point_lem c h k = omega arith

encode_utf8-pair :
    (c : ℕ) (units : List ℕ)
    → 0x10000 ≤ c
    → c < 0x110000
    → encode_utf8 ((0xd800 + (c - 0x10000) / 1024) ∷ (0xdc00 + (c - 0x10000) % 1024) ∷ units)
      ≡ four_bytes c ++ encode_utf8 units
encode_utf8-pair c units h k =
    encode_utf8_double _ _ units (pair_found c h k)
    ∙ ap (λ p. four_bytes p ++ encode_utf8 units) (pair_point_lem c h k)

utf16_basic : (c : ℕ) (cs : List ℕ) → c < 0x10000 → utf16 (c ∷ cs) ≡ c ∷ utf16 cs
unfolding utf16
utf16_basic c cs h = ground arith

utf16_beyond :
    (c : ℕ) (cs : List ℕ)
    → 0x10000 ≤ c
    → utf16 (c ∷ cs) ≡ (0xd800 + (c - 0x10000) / 1024) ∷ (0xdc00 + (c - 0x10000) % 1024) ∷ utf16 cs
unfolding utf16
utf16_beyond c cs h = ground arith

utf8-cons : (c : ℕ) (cs : List ℕ) → utf8 (c ∷ cs) ≡ utf8 (c ∷ []) ++ utf8 cs
unfolding utf8
utf8-cons c cs = ground arith

utf8-astral : (c : ℕ) → 0x10000 ≤ c → c < 0x110000 → utf8 (c ∷ []) ≡ four_bytes c
unfolding utf8
utf8-astral c h k =
    rw (ltb_of_le c 0x80 (omega arith), ltb_of_le c 0x800 (omega arith), ltb_of_le c 0x10000 h)
      (sym (four_bytes_lem c k))

-- On the UTF-16 form of any text of Unicode scalar values the encoder writes its UTF-8 form.
pub encode_utf8-utf16 : (cs : List ℕ) → All IsScalar cs → encode_utf8 (utf16 cs) ≡ utf8 cs
encode_utf8-utf16 [] h = unfold encode_utf8 utf16 utf8 in refl
encode_utf8-utf16 (c ∷ cs) h = elim (dec_lt c 0x10000) [
  | yes basic ↦
      ap encode_utf8 (utf16_basic c cs basic)
      ∙ encode_utf8-plain c (utf16 cs) h.0 basic
      ∙ ap (λ r. utf8 (c ∷ []) ++ r) (encode_utf8-utf16 cs h.1)
      ∙ sym (utf8-cons c cs)
  | no beyond ↦
      ap encode_utf8 (utf16_beyond c cs (omega arith))
      ∙ encode_utf8-pair c (utf16 cs) (omega arith) h.0.1
      ∙ ap₂ (λ p r. p ++ r) (sym (utf8-astral c (omega arith) h.0.1)) (encode_utf8-utf16 cs h.1)
      ∙ sym (utf8-cons c cs)
]
