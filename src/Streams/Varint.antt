-- ===== src/Streams/Varint.antt =====
-- packages/webrun-streams/src/emulate-mux.ts, `encodeVarint` and `decodeVarint`: stream ids on the
-- wire. JavaScript's `&`, `|` and `>>>` see the low 32 bits of a number; what `|=` collects is read as
-- the unsigned number that `>>> 0` makes of it at the end.
pub mod RoundTrip
use webrun_wire.Common.{
  ℕ, zero, suc, ◌+◌, ◌*◌, ◌/◌, ◌%◌, ◌^◌, ◌≤◌, ◌<◌, ◌≡◌, refl, sym, ap, ◌∙◌, arith,
}
use webrun_wire.Common.{
  List, [], ◌∷◌, ◌++◌, length, length-append, ltb, if◌then◌else◌, Bool-cases, inl, inr, ltb→lt,
  append_assoc,
}
use webrun_wire.Common.{Bool, true, false}
use webrun_wire.Common.Bits.{or-128}
use Prim.Native.Nat.{bit_or}
use native.Mathlib.Nat.{div-add-mod}
use native.Mathlib.Numerals.{towards_suc}

pub data VarintError : Type 0 where
  too_long truncated : VarintError

pub data Decoded : Type 0 where
  decoded : (value offset : ℕ) → Decoded
  refused : VarintError → Decoded

-- The loop `while (v >= 0x80)`, on fuel. Five groups are enough for any `v`, since the first
-- `v >>>= 7` leaves at most 25 bits.
unfoldable pub encode_loop : ℕ → ℕ → List ℕ
encode_loop zero v = []
encode_loop (suc fuel) v =
    let rest = encode_loop fuel (v % 2 ^ 32 / 2 ^ 7) in
    if ltb v 0x80 then (v % 128) ∷ [] else bit_or (v % 128) 0x80 ∷ rest

unfoldable pub encode_varint : ℕ → List ℕ
unfolding encode_loop
encode_varint value = encode_loop 5 value

-- The loop of `decodeVarint` over the bytes from `i` on.
unfoldable pub decode_loop : (bytes : List ℕ) (value shift i : ℕ) → Decoded
decode_loop [] value shift i = refused truncated
decode_loop (b ∷ bytes) value shift i =
    let value' = (value + b % 128 * 2 ^ shift) % 2 ^ 32 in
    let rest = decode_loop bytes value' (shift + 7) (i + 1) in
    if ltb (b % 256) 0x80
    then decoded value' (i + 1)
    else if ltb 28 (shift + 7)
    then refused too_long
    else rest

unfoldable pub decode_varint : List ℕ → Decoded
unfolding decode_loop
decode_varint buf = decode_loop buf 0 0 0
