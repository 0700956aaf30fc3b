-- ===== src/Msgpack/Tests.antt =====
-- A decoder of UTF-8 as the environment has one, and the codec at concrete values.
use webrun_wire.Common.{
  ℕ, zero, suc, ◌+◌, ◌-◌, ◌*◌, ◌/◌, ◌%◌, ◌<◌, ◌≤◌, ◌≡◌, refl, ap, ◌∙◌, arith, List, [], ◌∷◌, ◌++◌,
  All, length,
}
use webrun_wire.Common.{ltb, if◌then◌else◌, inl, inr, Bool-cases}
use webrun_wire.Msgpack.Value.{
  pos, negsuc, Value, ok, undefined, int, str, arr, obj, date, nil, cons, end, field,
}
use webrun_wire.Msgpack.Utf8.{IsScalar, utf8, utf16, encode_utf8, encode_utf8-utf16}
use webrun_wire.Msgpack.Encode.{serialize, append_int, append_date, count_items, count_fields}
use webrun_wire.Msgpack.Decode.{Host, read, deserialize}
use webrun_wire.Msgpack.Texts.{IsText}
use webrun_wire.Msgpack.Wire.{IsWire, AreWire, AreWireFields, normal}
use webrun_wire.Msgpack.Numbers.{read-append_int}
use webrun_wire.Msgpack.Dates.{read-append_date}
use webrun_wire.Msgpack.RoundTrip.{deserialize-serialize}

-- The UTF-16 form of one code point.
unfoldable units : ℕ → List ℕ → List ℕ
units c rest =
    if ltb c 0x10000
    then c ∷ rest
    else (0xd800 + (c - 0x10000) / 1024) ∷ (0xdc00 + (c - 0x10000) % 1024) ∷ rest

-- A decoder: `n` continuation bytes are missing, and `v` is what was read of the code point.
unfoldable decode_from : ℕ → ℕ → List ℕ → List ℕ
decode_from n v [] = []
decode_from zero v (b ∷ bytes) =
    let single = units b (decode_from 0 0 bytes) in
    let two = decode_from 1 (b - 192) bytes in
    let three = decode_from 2 (b - 224) bytes in
    let four = decode_from 3 (b - 240) bytes in
    if ltb b 0x80 then single else if ltb b 224 then two else if ltb b 240 then three else four
decode_from (suc zero) v (b ∷ bytes) = units (v * 64 + (b - 128)) (decode_from 0 0 bytes)
decode_from (suc (suc n)) v (b ∷ bytes) = decode_from (suc n) (v * 64 + (b - 128)) bytes

abbrev plain_host : Host
plain_host = record { utf8_decoder = decode_from 0 0; to_text = λ v. [] }

starts_two :
    (b : ℕ) (bytes : List ℕ)
    → 192 ≤ b
    → b < 224
    → decode_from 0 0 (b ∷ bytes) ≡ decode_from 1 (b - 192) bytes
unfolding decode_from
starts_two b bytes h k = ground arith

starts_three :
    (b : ℕ) (bytes : List ℕ)
    → 224 ≤ b
    → b < 240
    → decode_from 0 0 (b ∷ bytes) ≡ decode_from 2 (b - 224) bytes
unfolding decode_from
starts_three b bytes h k = ground arith

starts_four :
    (b : ℕ) (bytes : List ℕ) → 240 ≤ b → decode_from 0 0 (b ∷ bytes) ≡ decode_from 3 (b - 240) bytes
unfolding decode_from
starts_four b bytes h = ground arith

decode_one :
    (c : ℕ) (bytes : List ℕ)
    → c < 128
    → decode_from 0 0 (c ∷ bytes) ≡ units c (decode_from 0 0 bytes)
unfolding decode_from
decode_one c bytes h = ground arith

decode_two :
    (c : ℕ) (bytes : List ℕ)
    → c < 2048
    → decode_from 0 0 ((192 + c / 64) ∷ (128 + c % 64) ∷ bytes) ≡ units c (decode_from 0 0 bytes)
decode_two c bytes h =
    starts_two (192 + c / 64) ((128 + c % 64) ∷ bytes) (omega arith) (omega arith)
    ∙ (unfold decode_from in ap (λ (m : ℕ). units m (decode_from 0 0 bytes)) (omega arith))

decode_three :
    (c : ℕ) (bytes : List ℕ)
    → c < 0x10000
    → decode_from 0 0 ((224 + c / 4096) ∷ (128 + c / 64 % 64) ∷ (128 + c % 64) ∷ bytes)
      ≡ units c (decode_from 0 0 bytes)
decode_three c bytes h =
    starts_three (224 + c / 4096) ((128 + c / 64 % 64) ∷ (128 + c % 64) ∷ bytes) (omega arith)
      (omega arith)
    ∙ (unfold decode_from in ap (λ (m : ℕ). units m (decode_from 0 0 bytes)) (omega arith))

decode_four :
    (c : ℕ) (bytes : List ℕ)
    → c < 0x110000
    → decode_from 0 0
        ((240 + c / 262144) ∷ (128 + c / 4096 % 64) ∷ (128 + c / 64 % 64) ∷ (128 + c % 64) ∷ bytes)
      ≡ units c (decode_from 0 0 bytes)
decode_four c bytes h =
    starts_four (240 + c / 262144)
      ((128 + c / 4096 % 64) ∷ (128 + c / 64 % 64) ∷ (128 + c % 64) ∷ bytes) (omega arith)
    ∙ (unfold decode_from in ap (λ (m : ℕ). units m (decode_from 0 0 bytes)) (omega arith))

utf16-units : (c : ℕ) (cs : List ℕ) → units c (utf16 cs) ≡ utf16 (c ∷ cs)
unfolding units utf16
utf16-units c cs = refl

decode_from-utf8 : (cs : List ℕ) → All IsScalar cs → decode_from 0 0 (utf8 cs) ≡ utf16 cs
decode_from-utf8 [] h = unfold decode_from in unfold utf8 in unfold utf16 in refl
decode_from-utf8 (c ∷ cs) (s, h) = step c cs s (decode_from-utf8 cs h)
  where
    step :
        (c : ℕ) (cs : List ℕ)
        → IsScalar c
        → decode_from 0 0 (utf8 cs) ≡ utf16 cs
        → decode_from 0 0 (utf8 (c ∷ cs)) ≡ utf16 (c ∷ cs)
    step c cs s ih = one c cs s ∙ ap (units c) ih ∙ utf16-units c cs
      where
        one :
            (c : ℕ) (cs : List ℕ)
            → IsScalar c
            → decode_from 0 0 (utf8 (c ∷ cs)) ≡ units c (decode_from 0 0 (utf8 cs))
        one c cs s =
            unfold utf8 in
            (elim (Bool-cases (ltb c 0x80)) [
              | inl a ↦ rw a (decode_one c (utf8 cs) (ground arith))
              | inr a ↦ elim (Bool-cases (ltb c 0x800)) [
                | inl b ↦ rw (a, b) (decode_two c (utf8 cs) (ground arith))
                | inr b ↦ elim (Bool-cases (ltb c 0x10000)) [
                  | inl d ↦ rw (a, b, d) (decode_three c (utf8 cs) (ground arith))
                  | inr d ↦ rw (a, b, d) (decode_four c (utf8 cs) s.1)
                ]
              ]
            ])

-- {"a": [1, undefined, "é"], "b": undefined, "c": -1.5 s before the epoch}
abbrev sample : Value
sample = obj (
    field (0x61 ∷ []) (arr (cons (int (pos 1)) (cons undefined (cons (str (0xe9 ∷ [])) nil))))
      (field (0x62 ∷ []) undefined (field (0x63 ∷ []) (date (negsuc 1499)) end)))

letter_same : (c : ℕ) → c < 0x800 → c ∷ [] ≡ utf16 (c ∷ [])
unfolding utf16
letter_same c h = ground arith

letter_length : (c : ℕ) → c < 0x800 → length (utf8 (c ∷ [])) ≤ 2
unfolding utf8
letter_length c h = ground arith

letter_scalars : (c : ℕ) → c < 0x800 → All IsScalar (c ∷ [])
letter_scalars c h = ((inl (omega arith), omega arith), tt)

letter : (c : ℕ) → c < 0x800 → IsText (c ∷ [])
letter c h = record {
  points = c ∷ [];
  scalars = letter_scalars c h;
  units = letter_same c h;
  short = omega (arith, letter_length c h, ap length bytes);
}
  where
    bytes : encode_utf8 (c ∷ []) ≡ utf8 (c ∷ [])
    bytes = ap encode_utf8 (letter_same c h) ∙ encode_utf8-utf16 (c ∷ []) (letter_scalars c h)

sample-IsWire : IsWire sample
unfolding IsWire AreWire AreWireFields count_items count_fields
sample-IsWire = (
  omega arith,
  (
    letter 0x61 (omega arith),
    (omega arith, (omega arith, (tt, (letter 0xe9 (omega arith), tt)))),
    (refl, (refl, tt)),
    (letter 0x62 (omega arith), tt, (refl, tt), (letter 0x63 (omega arith), omega arith, tt, tt)),
  ),
)

deserialize-serialize_example :
    (bytes : List ℕ) × (serialize sample ≡ ok bytes)
    × (deserialize plain_host bytes ≡ ok (normal sample))
deserialize-serialize_example =
    deserialize-serialize plain_host sample decode_from-utf8 sample-IsWire

read-append_int_example :
    read plain_host 1 (append_int (negsuc 4999) ++ (0xc0 ∷ [])) ≡ ok (int (negsuc 4999), 0xc0 ∷ [])
read-append_int_example = read-append_int plain_host 0 (negsuc 4999) (0xc0 ∷ []) (omega arith)

read-append_date_example :
    read plain_host 1 (append_date (negsuc 1499) ++ (0xc0 ∷ []))
    ≡ ok (date (negsuc 1499), 0xc0 ∷ [])
read-append_date_example = read-append_date plain_host 0 (negsuc 1499) (0xc0 ∷ []) (omega arith)

encode_utf8-utf16_example : encode_utf8 (utf16 (0x1f600 ∷ 0xe9 ∷ [])) ≡ utf8 (0x1f600 ∷ 0xe9 ∷ [])
encode_utf8-utf16_example =
    encode_utf8-utf16 (0x1f600 ∷ 0xe9 ∷ [])
      ((inr (omega arith), omega arith), ((inl (omega arith), omega arith), tt))
