-- ===== src/Streams/Mux/Frame.antt =====
-- The frames on the wire: a varint stream id, a type byte and the payload.
use webrun_wire.Common.{ℕ, ◌^◌, ◌%◌, ◌<◌, ◌≤◌, ◌≡◌, ap, arith, List, [], ◌∷◌, ◌++◌}
use webrun_wire.Common.{
  Option, none, some, length, drop, drop-append, length-append, ltb, ltb_of_le, false,
  if◌then◌else◌,
}
use webrun_wire.Streams.Varint.{decoded, refused, encode_varint, decode_varint}
use webrun_wire.Streams.Varint.RoundTrip.{decode_varint-encode_varint}

abbrev pub type_open : ℕ
type_open = 0x01

abbrev pub type_data : ℕ
type_data = 0x02

abbrev pub type_ack : ℕ
type_ack = 0x03

abbrev pub type_end : ℕ
type_end = 0x04

abbrev pub type_error : ℕ
type_error = 0x05

abbrev pub type_close : ℕ
type_close = 0x06

pub record Frame : Type 0 where
  pub id : ℕ
  pub kind : ℕ
  pub payload : List ℕ

-- The bytes that `sendFrame` hands to the channel.
unfoldable pub frame_bytes : (id kind : ℕ) → List ℕ → List ℕ
frame_bytes id kind payload = encode_varint id ++ (kind ∷ payload)

-- The type byte and the payload, behind the id.
abbrev split_frame : ℕ → List ℕ → Option Frame
split_frame id [] = none
split_frame id (kind ∷ payload) = some (record { id = id; kind = kind; payload = payload })

-- The head of `handleFrame`: `none` for the frames that it drops.
unfoldable pub parse_frame : List ℕ → Option Frame
parse_frame frame = if ltb (length frame) 2 then none else elim (decode_varint frame) [
  | refused e ↦ none
  | decoded id offset ↦ split_frame id (drop offset frame)
]

encode_varint_pos : (v : ℕ) → 1 ≤ length (encode_varint v)
unfolding encode_varint
encode_varint_pos v = ground arith

-- `handleFrame` reads back what `sendFrame` sent, if the stream id is below 2^32.
pub parse_frame-frame_bytes :
    (id kind : ℕ) (payload : List ℕ)
    → id < 2 ^ 32
    → parse_frame (frame_bytes id kind payload)
      ≡ some (record { id = id; kind = kind; payload = payload })
unfolding parse_frame frame_bytes
parse_frame-frame_bytes id kind payload h = rw two (
    rw
      (
        decode_varint-encode_varint id (kind ∷ payload),
        drop-append (encode_varint id) (kind ∷ payload),
      )
      (ap some same))
  where
    two : ltb (length (encode_varint id ++ (kind ∷ payload))) 2 ≡ false
    two =
        ltb_of_le _ _
          (omega (arith, length-append (encode_varint id) (kind ∷ payload), encode_varint_pos id))

    same :
        ◌≡◌ {A = Frame}
          (record { id = id % 2 ^ 32; kind = kind; payload = payload })
          (record { id = id; kind = kind; payload = payload })
    same = ground arith
