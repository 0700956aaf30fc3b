-- ===== src/Msgpack/Dates.antt =====
-- Dates on the wire: timestamps of 32, 64 and 96 bits.
use webrun_wire.Common.{
  ℕ, suc, ◌/◌, ◌%◌, ◌^◌, ◌<◌, ◌≤◌, ◌≡◌, ap, ap₂, ◌∙◌, arith, List, [], ◌∷◌, ◌++◌,
}
use webrun_wire.Common.{ltb, ◌==◌, ◌&&◌, Bool-cases, inl, inr, length}
use webrun_wire.Common.Bytes.{byte, be32, from_be32-be32}
use webrun_wire.Msgpack.Value.{ℤ, pos, negsuc, date, ok, ◌>>=◌}
use webrun_wire.Msgpack.Encode.{
  append_date, append_int64, date_bytes, date64_bytes, seconds, nanoseconds,
}
use webrun_wire.Msgpack.Decode.{
  Host, read, read_byte, read_tagged, read_ext, read_ext_date, new_date, time_of, known, prefixed,
}
use webrun_wire.Msgpack.Decode.{read_size, uint_loop, signed, int_loop, first_byte}
use webrun_wire.Msgpack.Reading.{read_bytes-append, read_uint-append}
use webrun_wire.Msgpack.Numbers.{signed64}

-- The times that a Date can hold.
abbrev pub IsTime : ℤ → Type 0
IsTime (pos t) = t ≤ 8_640_000_000_000_000
IsTime (negsuc t) = t < 8_640_000_000_000_000

uint_loop-one : (n : ℕ) → uint_loop 0 (n ∷ []) ≡ n
unfolding uint_loop
uint_loop-one n = omega arith

read_ext-known :
    (xs rest : List ℕ)
    → read_ext (known (length xs)) (255 ∷ (xs ++ rest)) ≡ (read_ext_date xs >>= λ v. ok (v, rest))
unfolding read_ext read_size
read_ext-known xs rest =
    rw (read_uint-append (255 ∷ []) (xs ++ rest), uint_loop-one 255, read_bytes-append xs rest)

read_ext-prefixed :
    (xs rest : List ℕ)
    → read_ext (prefixed 1) (length xs ∷ 255 ∷ (xs ++ rest))
      ≡ (read_ext_date xs >>= λ v. ok (v, rest))
unfolding read_ext read_size
read_ext-prefixed xs rest = rw (
  read_uint-append (length xs ∷ []) (255 ∷ (xs ++ rest)),
  uint_loop-one (length xs),
  read_uint-append (255 ∷ []) (xs ++ rest),
  uint_loop-one 255,
  read_bytes-append xs rest,
)

new_date_lem : (t : ℤ) → IsTime t → new_date t ≡ date t
unfolding new_date
new_date_lem (pos t) h = ground arith
new_date_lem (negsuc t) h = ground arith

-- The time of a whole number of seconds and the milliseconds of its nanoseconds.
time_of_lem : (t : ℤ) → time_of (seconds t) (nanoseconds t / 1_000_000) ≡ t
unfolding time_of seconds nanoseconds
time_of_lem (pos t) = ap pos (omega arith)
time_of_lem (negsuc t) = ground arith

-- What `readExtDate` makes of the three forms.
date32 : (sec : ℕ) → sec < 2 ^ 32 → read_ext_date (be32 sec) ≡ ok (new_date (time_of (pos sec) 0))
unfolding read_ext_date
date32 sec h = ap (λ s. ok (new_date (time_of (pos s) 0))) (from_be32-be32 sec h)

date64 :
    (ns sec : ℕ)
    → ns < 2 ^ 30
    → sec < 2 ^ 34
    → read_ext_date (date64_bytes ns sec) ≡ ok (new_date (time_of (pos sec) (ns / 1_000_000)))
unfolding read_ext_date
date64 ns sec h k =
    ap₂ (λ s n. ok (new_date (time_of (pos s) (n / 1_000_000)))) (omega arith) (omega arith)

signed64_pos : (n : ℕ) → n < 2 ^ 53 → signed (be32 (n / 2 ^ 32) ++ be32 (n % 2 ^ 32)) ≡ pos n
unfolding signed int_loop
signed64_pos n h = rw first (ap pos (omega arith))
  where
    first : first_byte (byte (n / 2 ^ 32 / 2 ^ 24)) ≡ pos (n / 2 ^ 56)
    first = ground arith

date96 :
    (ns : ℕ) (sec : ℤ)
    → ns < 2 ^ 32
    → signed (append_int64 sec) ≡ sec
    → read_ext_date (be32 ns ++ append_int64 sec) ≡ ok (new_date (time_of sec (ns / 1_000_000)))
unfolding read_ext_date append_int64
date96 ns (pos n) h e =
    ap₂ (λ s n. ok (new_date (time_of s (n / 1_000_000)))) e (from_be32-be32 ns h)
date96 ns (negsuc m) h e =
    ap₂ (λ s n. ok (new_date (time_of s (n / 1_000_000)))) e (from_be32-be32 ns h)

-- The tags of the three forms.
module _ (host : Host) (fuel : ℕ) (rest : List ℕ) where
  read_d6 :
      (sec : ℕ)
      → sec < 2 ^ 32
      → read host (suc fuel) (0xd6 ∷ 0xff ∷ (be32 sec ++ rest))
        ≡ ok (new_date (time_of (pos sec) 0), rest)
  unfolding read read_byte read_tagged
  read_d6 sec h = read_ext-known (be32 sec) rest ∙ rw (date32 sec h)

  read_d7 :
      (ns sec : ℕ)
      → ns < 2 ^ 30
      → sec < 2 ^ 34
      → read host (suc fuel) (0xd7 ∷ 0xff ∷ (date64_bytes ns sec ++ rest))
        ≡ ok (new_date (time_of (pos sec) (ns / 1_000_000)), rest)
  unfolding read read_byte read_tagged
  read_d7 ns sec h k = read_ext-known (date64_bytes ns sec) rest ∙ rw (date64 ns sec h k)

  read_c7 :
      (ns : ℕ) (sec : ℤ)
      → ns < 2 ^ 32
      → signed (append_int64 sec) ≡ sec
      → read host (suc fuel) (0xc7 ∷ 12 ∷ 0xff ∷ ((be32 ns ++ append_int64 sec) ++ rest))
        ≡ ok (new_date (time_of sec (ns / 1_000_000)), rest)
  unfolding read read_byte read_tagged append_int64
  read_c7 ns (pos n) h e =
      read_ext-prefixed (be32 ns ++ append_int64 (pos n)) rest ∙ rw (date96 ns (pos n) h e)
  read_c7 ns (negsuc m) h e =
      read_ext-prefixed (be32 ns ++ append_int64 (negsuc m)) rest ∙ rw (date96 ns (negsuc m) h e)

read-date_bytes :
    (host : Host) (fuel ns : ℕ) (sec : ℤ) (rest : List ℕ)
    → ns < 2 ^ 30
    → signed (append_int64 sec) ≡ sec
    → read host (suc fuel) (date_bytes ns sec ++ rest)
      ≡ ok (new_date (time_of sec (ns / 1_000_000)), rest)
unfolding date_bytes
read-date_bytes host fuel ns (negsuc m) rest h e =
    read_c7 host fuel rest ns (negsuc m) (omega arith) e
read-date_bytes host fuel ns (pos sec) rest h e =
    elim (Bool-cases ((ns == 0) && ltb sec 0x1_0000_0000)) [
      | inl a ↦ rw a (
          read_d6 host fuel rest sec (ground arith)
          ∙ ap (λ (n : ℕ). ok (new_date (time_of (pos sec) n), rest)) (ground arith))
      | inr a ↦ elim (Bool-cases (ltb sec 0x4_0000_0000)) [
        | inl b ↦ rw (a, b) (read_d7 host fuel rest ns sec h (ground arith))
        | inr b ↦ rw (a, b) (read_c7 host fuel rest ns (pos sec) (omega arith) e)
      ]
    ]

signed-seconds : (t : ℤ) → IsTime t → signed (append_int64 (seconds t)) ≡ seconds t
unfolding seconds append_int64
signed-seconds (pos t) h = signed64_pos (t / 1000) (omega arith)
signed-seconds (negsuc t) h = signed64 (t / 1000) (omega arith)

nanoseconds-lt : (t : ℤ) → nanoseconds t < 2 ^ 30
unfolding nanoseconds
nanoseconds-lt (pos t) = omega arith
nanoseconds-lt (negsuc t) = omega arith

-- Every time that a Date can hold, before the epoch as well as after it, is read back to the millisecond
-- from what `appendDate` wrote for it, whatever follows.
pub read-append_date :
    (host : Host) (fuel : ℕ) (t : ℤ) (rest : List ℕ)
    → IsTime t
    → read host (suc fuel) (append_date t ++ rest) ≡ ok (date t, rest)
unfolding append_date
read-append_date host fuel t rest h =
    read-date_bytes host fuel (nanoseconds t) (seconds t) rest (nanoseconds-lt t)
      (signed-seconds t h)
    ∙ ap (λ v. ok (v, rest)) (ap new_date (time_of_lem t) ∙ new_date_lem t h)
