-- ===== src/Browser/WsFrames.antt =====
-- packages/webrun-http-browser/src/ws/frames.ts: the sizes of messages, and the frames that a message's
-- data is taken for. A string is the list of its code units, and an ArrayBuffer its bytes.
use webrun_wire.Common.{
  ℕ, ◌+◌, ◌≤◌, ◌≡◌, refl, sym, ap, ◌∙◌, arith, List, [], ◌∷◌, length, length-append,
}
use webrun_wire.Common.{
  Option, none, some, Bool, true, false, ◌&&◌, ◌==◌, ltb, leb, if◌then◌else◌, Bool-cases, inl, inr,
}
use webrun_wire.Msgpack.Utf8.{encode_utf8, encode_unit, is_pair}

-- `utf8Length`.
unfoldable pub utf8_length : List ℕ → ℕ
utf8_length [] = 0
utf8_length (c ∷ []) = if ltb c 0x80 then 1 else if ltb c 0x800 then 2 else 3
utf8_length (c ∷ d ∷ text) =
    let rest = utf8_length (d ∷ text) in
    let after_pair = utf8_length text in
    if ltb c 0x80
    then 1 + rest
    else if ltb c 0x800
    then 2 + rest
    else if leb 0xd800 c && leb c 0xdbff
    then if leb 0xdc00 d && leb d 0xdfff then 4 + after_pair else 3 + rest
    else 3 + rest

pub data Payload : Type 0 where
  text_payload buffer_payload : List ℕ → Payload

unfoldable pub message_size : Payload → ℕ
message_size (text_payload s) = utf8_length s
message_size (buffer_payload bytes) = length bytes

unit_length :
    (c : ℕ) → length (encode_unit c) ≡ (if ltb c 0x80 then 1 else if ltb c 0x800 then 2 else 3)
unfolding encode_unit
unit_length c = ground arith

abbrev high : ℕ → Bool
high c = leb 0xd800 c && leb c 0xdbff

abbrev low : ℕ → Bool
low d = leb 0xdc00 d && leb d 0xdfff

pair_high : (c d : ℕ) → is_pair c d ≡ true → high c ≡ true
unfolding is_pair
pair_high c d h = ground arith

pair_low : (c d : ℕ) → is_pair c d ≡ true → low d ≡ true
unfolding is_pair
pair_low c d h = ground arith

no_pair : (c d : ℕ) → is_pair c d ≡ false → high c ≡ true → low d ≡ false
unfolding is_pair
no_pair c d h k = ground arith

high_large : (c n : ℕ) → n ≤ 0x800 → high c ≡ true → ltb c n ≡ false
high_large c n le h = ground arith

-- How many code units the loop's round takes and counts.
counts_pair :
    (c d : ℕ) (text : List ℕ)
    → is_pair c d ≡ true
    → utf8_length (c ∷ d ∷ text) ≡ 4 + utf8_length text
unfolding utf8_length
counts_pair c d text h =
    let k = pair_high c d h in
    rw (high_large c 0x80 (omega arith) k, high_large c 0x800 (omega arith) k, k, pair_low c d h)
      refl

counts_one :
    (c d : ℕ) (text : List ℕ)
    → is_pair c d ≡ false
    → utf8_length (c ∷ d ∷ text) ≡ length (encode_unit c) + utf8_length (d ∷ text)
unfolding utf8_length
counts_one c d text h = rw (unit_length c) (elim (Bool-cases (ltb c 0x80)) [
  | inl a ↦ rw a refl
  | inr a ↦ elim (Bool-cases (ltb c 0x800)) [
    | inl b ↦ rw (a, b) refl
    | inr b ↦ elim (Bool-cases (high c)) [
      | inl k ↦ rw (a, b, k, no_pair c d h k) refl
      | inr k ↦ rw (a, b, k) refl
    ]
  ]
])

-- The size that a text counts for, which is found without encoding it, is the number of bytes that it is
-- encoded in, lone surrogates included.
pub utf8_length-encode_utf8 : (text : List ℕ) → utf8_length text ≡ length (encode_utf8 text)
unfolding encode_utf8
utf8_length-encode_utf8 [] = unfold utf8_length in refl
utf8_length-encode_utf8 (c ∷ []) = unfold utf8_length in sym (unit_length c)
utf8_length-encode_utf8 (c ∷ d ∷ text) = elim (Bool-cases (is_pair c d)) [
  | inl pair ↦ rw pair (
      counts_pair c d text pair
      ∙ ap (λ (n : ℕ). 4 + n) (utf8_length-encode_utf8 text)
      ∙ omega arith)
  | inr single ↦ rw single (
      counts_one c d text single
      ∙ omega (
        arith,
        utf8_length-encode_utf8 (d ∷ text),
        length-append (encode_unit c) (encode_utf8 (d ∷ text)),
      ))
]

-- A field of the data: of a type that the code asks for, or `other_field`, as when it is missing.
pub data JsField : Type 0 where
  string_field buffer_field : List ℕ → JsField
  number_field : ℕ → JsField
  other_field : JsField

-- The fields of the data that the code looks at; `t` is its text when it is a string.
pub record FrameData : Type 0 where
  pub t : List ℕ
  pub d : JsField
  pub code : JsField
  pub reason : JsField
  pub hb : JsField
  pub n : JsField

pub data WsFrame : Type 0 where
  message : Payload → WsFrame
  close_frame : ℕ → List ℕ → WsFrame
  ping : ℕ → WsFrame
  pong : WsFrame
  ack : ℕ → WsFrame

abbrev pub default_heartbeat_ms : ℕ
default_heartbeat_ms = 10_000

abbrev is_letter : ℕ → List ℕ → Bool
is_letter c [] = false
is_letter c (x ∷ []) = x == c
is_letter c (x ∷ y ∷ ys) = false

abbrev message_frame : JsField → Option WsFrame
message_frame (string_field s) = some (message (text_payload s))
message_frame (buffer_field b) = some (message (buffer_payload b))
message_frame (number_field k) = none
message_frame other_field = none

abbrev number_or : ℕ → JsField → ℕ
number_or k (number_field x) = x
number_or k _ = k

abbrev string_or_empty : JsField → List ℕ
string_or_empty (string_field s) = s
string_or_empty _ = []

abbrev positive_or : ℕ → JsField → ℕ
positive_or k (number_field x) = if ltb 0 x then x else k
positive_or k _ = k

abbrev ack_frame : JsField → Option WsFrame
ack_frame (number_field k) = some (ack k)
ack_frame _ = none

-- `readFrame` of an object, with numbers that are natural.
unfoldable pub read_frame : FrameData → Option WsFrame
read_frame f =
    if is_letter b'm' f.t
    then message_frame f.d
    else if is_letter b'c' f.t
    then some (close_frame (number_or 1005 f.code) (string_or_empty f.reason))
    else if is_letter b'p' f.t
    then some (ping (positive_or default_heartbeat_ms f.hb))
    else if is_letter b'q' f.t
    then some pong
    else if is_letter b'a' f.t
    then ack_frame f.n
    else none
