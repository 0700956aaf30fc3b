-- ===== src/Msgpack/Encode.antt =====
-- packages/webrun-msgpack/src/msgpack-core.ts, `serialize` without `invalidTypeReplacement`. The bytes
-- are those that go into the buffer, whose growth is not modelled. The sizes of strings, arrays and maps
-- are the lengths of lists; a byte array keeps the low 8 bits of what is stored in it.
use webrun_wire.Common.{ℕ, suc, ◌+◌, ◌-◌, ◌*◌, ◌/◌, ◌%◌, ◌^◌, List, [], ◌∷◌, ◌++◌}
use webrun_wire.Common.{Bool, true, false, ◌&&◌, ◌==◌, ltb, leb, if◌then◌else◌, length}
use webrun_wire.Common.Bytes.{byte, be16, be32}
use webrun_wire.Msgpack.Value.{ℤ, pos, negsuc, Value, Items, Fields, Result, ok, err, ◌>>=◌}
use webrun_wire.Msgpack.Value.{
  undefined, null, bool_false, bool_true, int, float, str, bin, arr, obj,
}
use webrun_wire.Msgpack.Value.{
  date, invalid_date, other, nil, cons, end, field, invalid_type, invalid_time,
}
use webrun_wire.Msgpack.Utf8.{encode_utf8}

-- `appendInt64`. Of a negative number -(m + 1) the code complements the halves of m.
unfoldable pub append_int64 : ℤ → List ℕ
append_int64 (pos n) = be32 (n / 2 ^ 32) ++ be32 (n % 2 ^ 32)
append_int64 (negsuc m) =
    be32 (0xffff_ffff - m / 2 ^ 32 % 2 ^ 32) ++ be32 (0xffff_ffff - m % 2 ^ 32)

-- The bits of -(m + 1) in a 32-bit integer.
abbrev pub bits32 : ℕ → ℕ
bits32 m = 0xffff_ffff - m % 2 ^ 32

-- `appendNumber` of a safe integer: the tests that its sign lets pass, in their order.
unfoldable pub append_int : ℤ → List ℕ
append_int (pos n) =
    if leb n 0x7f
    then byte n ∷ []
    else if leb n 0xff
    then 0xcc ∷ byte n ∷ []
    else if leb n 0xffff
    then 0xcd ∷ be16 n
    else if leb n 0xffff_ffff
    then 0xce ∷ be32 n
    else if leb n (2 ^ 64)
    then 0xcf ∷ append_int64 (pos n)
    else 0xcf ∷ 0xff ∷ 0xff ∷ 0xff ∷ 0xff ∷ 0xff ∷ 0xff ∷ 0xff ∷ 0xff ∷ []
append_int (negsuc m) =
    if ltb m 0x20
    then byte (bits32 m) ∷ []
    else if ltb m 0x80
    then 0xd0 ∷ byte (bits32 m) ∷ []
    else if ltb m 0x8000
    then 0xd1 ∷ be16 (bits32 m)
    else if ltb m 0x8000_0000
    then 0xd2 ∷ be32 (bits32 m)
    else if ltb m (2 ^ 63)
    then 0xd3 ∷ append_int64 (negsuc m)
    else 0xd3 ∷ 0x80 ∷ 0 ∷ 0 ∷ 0 ∷ 0 ∷ 0 ∷ 0 ∷ 0 ∷ []

unfoldable pub string_head : ℕ → List ℕ
string_head n =
    if leb n 0x1f
    then byte (0xa0 + n) ∷ []
    else if leb n 0xff
    then 0xd9 ∷ byte n ∷ []
    else if leb n 0xffff
    then 0xda ∷ be16 n
    else 0xdb ∷ be32 n

unfoldable pub append_string : List ℕ → List ℕ
append_string data_units = let bytes = encode_utf8 data_units in string_head (length bytes) ++ bytes

unfoldable pub array_head : ℕ → List ℕ
array_head n =
    if leb n 0xf
    then byte (0x90 + n) ∷ []
    else if leb n 0xffff
    then 0xdc ∷ be16 n
    else 0xdd ∷ be32 n

unfoldable pub bin_head : ℕ → List ℕ
bin_head n =
    if leb n 0xff then 0xc4 ∷ byte n ∷ [] else if leb n 0xffff then 0xc5 ∷ be16 n else 0xc6 ∷ be32 n

unfoldable pub append_bin_array : List ℕ → List ℕ
append_bin_array bytes = bin_head (length bytes) ++ bytes

unfoldable pub map_head : ℕ → List ℕ
map_head n =
    if leb n 0xf
    then byte (0x80 + n) ∷ []
    else if leb n 0xffff
    then 0xde ∷ be16 n
    else 0xdf ∷ be32 n

-- `Math.floor(time / 1000)`, and the nanoseconds that remain.
unfoldable pub seconds : ℤ → ℤ
seconds (pos t) = pos (t / 1000)
seconds (negsuc t) = negsuc (t / 1000)

unfoldable pub nanoseconds : ℤ → ℕ
nanoseconds (pos t) = t % 1000 * 1_000_000
nanoseconds (negsuc t) = (999 - t % 1000) * 1_000_000

-- 30 bits of nanoseconds and 34 bits of seconds: the fourth byte holds the ends of both.
abbrev pub date64_bytes : (ns sec : ℕ) → List ℕ
date64_bytes ns sec =
    byte (ns / 2 ^ 22)
    ∷ byte (ns / 2 ^ 14)
    ∷ byte (ns / 2 ^ 6)
    ∷ byte (ns * 4 + sec / 2 ^ 32)
    ∷ be32 sec

unfoldable pub date_bytes : (ns : ℕ) (sec : ℤ) → List ℕ
date_bytes ns (pos sec) =
    if (ns == 0) && ltb sec 0x1_0000_0000
    then 0xd6 ∷ 0xff ∷ be32 sec
    else if ltb sec 0x4_0000_0000
    then 0xd7 ∷ 0xff ∷ date64_bytes ns sec
    else 0xc7 ∷ 12 ∷ 0xff ∷ be32 ns ++ append_int64 (pos sec)
date_bytes ns (negsuc m) = 0xc7 ∷ 12 ∷ 0xff ∷ be32 ns ++ append_int64 (negsuc m)

unfoldable pub append_date : ℤ → List ℕ
append_date time = date_bytes (nanoseconds time) (seconds time)

abbrev pub is_undefined : Value → Bool
is_undefined undefined = true
is_undefined null = false
is_undefined _ = false

unfoldable pub count_items : Items → ℕ
count_items nil = 0
count_items (cons v vs) = suc (count_items vs)

-- The properties that are not `undefined`.
unfoldable pub count_fields : Fields → ℕ
count_fields end = 0
count_fields (field k v fs) =
    let rest = count_fields fs in if is_undefined v then rest else suc rest

unfoldable mutual
  pub append : Value → Result (List ℕ)
  append undefined = ok (0xc0 ∷ [])
  append null = ok (0xc0 ∷ [])
  append bool_true = ok (0xc3 ∷ [])
  append bool_false = ok (0xc2 ∷ [])
  append (int n) = ok (append_int n)
  append (float bits) = ok (0xcb ∷ bits)
  append (str units) = ok (append_string units)
  append (date time) = ok (append_date time)
  append invalid_date = err invalid_time
  append (bin bytes) = ok (append_bin_array bytes)
  append (arr vs) = append_items vs >>= λ body. ok (array_head (count_items vs) ++ body)
  append (obj fs) = append_fields fs >>= λ body. ok (map_head (count_fields fs) ++ body)
  append (other k) = err invalid_type

  pub append_items : Items → Result (List ℕ)
  append_items nil = ok []
  append_items (cons v vs) = append v >>= λ first. append_items vs >>= λ rest. ok (first ++ rest)

  pub append_fields : Fields → Result (List ℕ)
  append_fields end = ok []
  append_fields (field k v fs) = append v >>= λ first. append_fields fs >>= λ rest.
      ok (if is_undefined v then rest else append_string k ++ first ++ rest)

-- `serialize(data)`, and `serialize(values, { multiple: true })`.
unfoldable pub serialize : Value → Result (List ℕ)
serialize data_value = append data_value

unfoldable pub serialize_multiple : Items → Result (List ℕ)
serialize_multiple values = append_items values
