-- ===== src/Streams/Varint/RoundTrip.antt =====
-- What `decodeVarint` reads of what `encodeVarint` wrote.
use webrun_wire.Common.{ℕ, zero, suc, ◌+◌, ◌*◌, ◌/◌, ◌%◌, ◌^◌, ◌≤◌, ◌<◌, ◌≡◌, ap, arith}
use webrun_wire.Common.{List, [], ◌∷◌, ◌++◌, length, All, dec_lt}
use webrun_wire.Common.Bits.{or-128}
use webrun_wire.Common.Bytes.{IsByte}
use webrun_wire.Streams.Varint.{decoded, encode_loop, encode_varint, decode_loop, decode_varint}
use Prim.Native.Nat.{bit_or}
use native.Mathlib.Nat.{div-add-mod}
use native.Mathlib.Numerals.{towards_suc}

shift_seven : (s : ℕ) → 2 ^ (s + 7) ≡ 128 * 2 ^ s
shift_seven s = simp towards_suc (omega arith)

-- One group at `shift`, and what is above it.
split_group : (v s : ℕ) → v * 2 ^ s ≡ v % 128 * 2 ^ s + v / 128 * 2 ^ (s + 7)
split_group v s = omega (
  arith,
  ap (λ (t : ℕ). t * 2 ^ s) (div-add-mod v 128),
  ap (λ (t : ℕ). v / 128 * t) (shift_seven s),
)

last_group :
    (v value shift i : ℕ) (rest : List ℕ)
    → v < 128
    → value + v * 2 ^ shift < 2 ^ 32
    → decode_loop ((v % 128) ∷ rest) value shift i ≡ decoded (value + v * 2 ^ shift) (i + 1)
unfolding decode_loop
last_group v value shift i rest h fits = ground arith

inner_group :
    (v value shift i : ℕ) (rest : List ℕ)
    → shift ≤ 21
    → value + v % 128 * 2 ^ shift < 2 ^ 32
    → decode_loop (bit_or (v % 128) 0x80 ∷ rest) value shift i
      ≡ decode_loop rest (value + v % 128 * 2 ^ shift) (shift + 7) (i + 1)
unfolding decode_loop
inner_group v value shift i rest h fits = ground (arith, or-128 (v % 128))

encode_loop_last : (k v : ℕ) → v < 128 → encode_loop (suc k) v ≡ (v % 128) ∷ []
unfolding encode_loop
encode_loop_last k v h = ground arith

encode_loop_inner :
    (k v : ℕ)
    → 128 ≤ v
    → encode_loop (suc k) v ≡ bit_or (v % 128) 0x80 ∷ encode_loop k (v % 2 ^ 32 / 2 ^ 7)
unfolding encode_loop
encode_loop_inner k v h = ground arith

-- `suc k` groups are left for the bits from `shift` on.
decode_loop-encode_loop :
    (k v value shift i : ℕ) (rest : List ℕ)
    → shift + 7 * suc k ≡ 35
    → value + v * 2 ^ shift < 2 ^ 32
    → v < 2 ^ 32
    → decode_loop (encode_loop (suc k) v ++ rest) value shift i
      ≡ decoded (value + v * 2 ^ shift) (i + length (encode_loop (suc k) v))
decode_loop-encode_loop zero v value shift i rest e fits h =
    let at_28 : shift ≡ 28 = omega arith in
    let small : v < 128 = omega (arith, rw at_28 at fits) in
    rw (encode_loop_last zero v small) (last_group v value shift i rest small fits)
decode_loop-encode_loop (suc k) v value shift i rest e fits h = elim (dec_lt v 128) [
  | yes small ↦ rw (encode_loop_last (suc k) v small) (last_group v value shift i rest small fits)
  | no large ↦ ground (
    arith,
    encode_loop_inner (suc k) v,
    split_group v shift,
    inner_group v value shift i (encode_loop (suc k) (v % 2 ^ 32 / 2 ^ 7) ++ rest),
    decode_loop-encode_loop k (v % 2 ^ 32 / 2 ^ 7) (value + v % 128 * 2 ^ shift) (shift + 7) (i + 1)
        rest,
  )
]

-- Whatever follows, `decodeVarint` reads the low 32 bits of the number that `encodeVarint` wrote, and
-- ends where its bytes end: for a number below 2^32 that is the number itself, and a larger one is cut.
pub decode_varint-encode_varint :
    (v : ℕ) (rest : List ℕ)
    → decode_varint (encode_varint v ++ rest) ≡ decoded (v % 2 ^ 32) (length (encode_varint v))
unfolding decode_varint encode_varint
decode_varint-encode_varint v rest = elim (dec_lt v 128) [
  | yes small ↦ rw (encode_loop_last 4 v small) (ground (arith, last_group v 0 0 0 rest))
  | no large ↦ ground (
    arith,
    encode_loop_inner 4 v,
    inner_group v 0 0 0 (encode_loop 4 (v % 2 ^ 32 / 2 ^ 7) ++ rest),
    decode_loop-encode_loop 3 (v % 2 ^ 32 / 2 ^ 7) (v % 128) 7 1 rest,
  )
]

encode_loop_shape :
    (k v : ℕ)
    → v < 128 ^ suc k
    → v < 2 ^ 32
    → All IsByte (encode_loop (suc k) v)
      × (1 ≤ length (encode_loop (suc k) v))
      × (length (encode_loop (suc k) v) ≤ suc k)
unfolding encode_loop
encode_loop_shape zero v h k32 = ground (arith, or-128 (v % 128))
encode_loop_shape (suc k) v h k32 =
    ground (arith, or-128 (v % 128), encode_loop_shape k (v % 2 ^ 32 / 2 ^ 7))

decode_loop_bounds :
    (bytes : List ℕ) (value shift i v o : ℕ)
    → decode_loop bytes value shift i ≡ decoded v o
    → (v < 2 ^ 32) × (i < o) × (o ≤ i + length bytes)
unfolding decode_loop
decode_loop_bounds [] value shift i v o h = cc
decode_loop_bounds (b ∷ bytes) value shift i v o h = ground (
  arith,
  decode_loop_bounds bytes ((value + b % 128 * 2 ^ shift) % 2 ^ 32) (shift + 7) (i + 1) v o,
)

-- What `decodeVarint` accepts of any bytes is a uint32, and its offset lies behind the first byte and
-- not past the end.
pub decode_varint_bounds :
    (bytes : List ℕ) (v o : ℕ)
    → decode_varint bytes ≡ decoded v o
    → (v < 2 ^ 32) × (0 < o) × (o ≤ length bytes)
unfolding decode_varint
decode_varint_bounds bytes v o h = omega (arith, decode_loop_bounds bytes 0 0 0 v o h)
