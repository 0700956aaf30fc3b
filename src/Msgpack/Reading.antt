-- ===== src/Msgpack/Reading.antt =====
-- The readers of `deserialize` on bytes that are there.
use webrun_wire.Common.{ℕ, ◌≡◌, arith, List, ◌++◌, length}
use webrun_wire.Common.{take-append, drop-append, length-append, ltb_of_le}
use webrun_wire.Msgpack.Value.{ok}
use webrun_wire.Msgpack.Decode.{
  read_bytes, read_uint, read_int, uint_loop, signed, prefixed, read_size,
}

pub read_bytes-append : (xs rest : List ℕ) → read_bytes (length xs) (xs ++ rest) ≡ ok (xs, rest)
unfolding read_bytes
read_bytes-append xs rest = rw (
  ltb_of_le (length (xs ++ rest)) (length xs) (omega (arith, length-append xs rest)),
  take-append xs rest,
  drop-append xs rest,
)

pub read_uint-append :
    (xs rest : List ℕ) → read_uint (length xs) (xs ++ rest) ≡ ok (uint_loop 0 xs, rest)
unfolding read_uint
read_uint-append xs rest = rw (read_bytes-append xs rest)

pub read_int-append : (xs rest : List ℕ) → read_int (length xs) (xs ++ rest) ≡ ok (signed xs, rest)
unfolding read_int
read_int-append xs rest = rw (read_bytes-append xs rest)

pub read_size-append :
    (xs rest : List ℕ) → read_size (prefixed (length xs)) (xs ++ rest) ≡ ok (uint_loop 0 xs, rest)
unfolding read_size
read_size-append xs rest = read_uint-append xs rest
