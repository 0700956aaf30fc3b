-- ===== src/Msgpack/Decode.antt =====
-- packages/webrun-msgpack/src/msgpack-core.ts, `deserialize`. The position in the input is the list of
-- the bytes that are left. Sums of bytes are exact here; the program's are rounded above 2^53.
use webrun_wire.Common.{ℕ, zero, suc, ◌+◌, ◌-◌, ◌*◌, ◌/◌, ◌%◌, ◌^◌, List, [], ◌∷◌}
use webrun_wire.Common.{Bool, true, false, ◌&&◌, ◌==◌, ltb, leb, if◌then◌else◌, length, take, drop}
use webrun_wire.Common.Bytes.{from_be32}
use webrun_wire.Msgpack.Value.{ℤ, pos, negsuc, Value, Items, Fields, Result, ok, err, ◌>>=◌}
use webrun_wire.Msgpack.Value.{null, bool_false, bool_true, int, float, str, bin, arr, obj}
use webrun_wire.Msgpack.Value.{date, invalid_date, nil, cons, end, field}
use webrun_wire.Msgpack.Value.{
  insufficient, invalid_code, invalid_byte, invalid_date_length, out_of_fuel, empty_input,
}
use webrun_wire.Msgpack.Utf8.{decode_utf8}

-- What the code takes from JavaScript: `TextDecoder.decode`, and `String` of a value that is no string.
pub record Host : Type 0 where
  pub utf8_decoder : List ℕ → List ℕ
  pub to_text : Value → List ℕ

abbrev pub Reader : Type 0 → Type 0
Reader A = List ℕ → Result (A × List ℕ)

-- The first `size` bytes, which `need` has checked for.
unfoldable pub read_bytes : ℕ → Reader (List ℕ)
read_bytes size bytes =
    if ltb (length bytes) size then err insufficient else ok (take size bytes, drop size bytes)

-- The loops of `readUInt` and `readInt` over their bytes.
unfoldable pub uint_loop : ℕ → List ℕ → ℕ
uint_loop value [] = value
uint_loop value (b ∷ bytes) = uint_loop (value * 256 + b) bytes

abbrev pub shift_in : ℤ → ℕ → ℤ
shift_in (pos n) b = pos (n * 256 + b)
shift_in (negsuc m) b = negsuc ((m + 1) * 256 - b - 1)

unfoldable pub int_loop : ℤ → List ℕ → ℤ
int_loop value [] = value
int_loop value (b ∷ bytes) = int_loop (shift_in value b) bytes

-- The first byte counts its top bit as -128.
abbrev pub first_byte : ℕ → ℤ
first_byte b = if ltb b 0x80 then pos (b % 128) else negsuc (127 - b % 128)

unfoldable pub signed : List ℕ → ℤ
signed [] = pos 0
signed (b ∷ bytes) = int_loop (first_byte b) bytes

unfoldable pub read_uint : ℕ → Reader ℕ
read_uint size bytes = read_bytes size bytes >>= λ p. ok (uint_loop 0 p.0, p.1)

unfoldable pub read_int : ℕ → Reader ℤ
read_int size bytes = read_bytes size bytes >>= λ p. ok (signed p.0, p.1)

-- `size < 0 ? readUInt(lengthSize) : size`.
pub data Size : Type 0 where
  known prefixed : ℕ → Size

unfoldable pub read_size : Size → Reader ℕ
read_size (known n) bytes = ok (n, bytes)
read_size (prefixed k) bytes = read_uint k bytes

unfoldable pub read_bin : Size → Reader (List ℕ)
read_bin size bytes = read_size size bytes >>= λ p. read_bytes p.0 p.1

unfoldable pub read_float : ℕ → Reader Value
read_float size bytes = read_bytes size bytes >>= λ p. ok (float p.0, p.1)

unfoldable pub read_str : Host → Size → Reader (List ℕ)
read_str host size bytes = read_size size bytes >>= λ p.
    read_bytes p.0 p.1 >>= λ q. ok (decode_utf8 host.utf8_decoder q.0, q.1)

-- `new Date(sec * 1000 + ms)`: a time out of range is an invalid date.
abbrev max_time : ℕ
max_time = 8_640_000_000_000_000

unfoldable pub new_date : ℤ → Value
new_date (pos t) = if leb t max_time then date (pos t) else invalid_date
new_date (negsuc t) = if ltb t max_time then date (negsuc t) else invalid_date

unfoldable pub time_of : (sec : ℤ) (ms : ℕ) → ℤ
time_of (pos s) ms = pos (s * 1000 + ms)
time_of (negsuc m) ms =
    if ltb ms ((m + 1) * 1000) then negsuc ((m + 1) * 1000 - ms - 1) else pos (ms - (m + 1) * 1000)

unfoldable pub read_ext_date : List ℕ → Result Value
read_ext_date (a ∷ b ∷ c ∷ d ∷ []) = ok (new_date (time_of (pos (from_be32 a b c d)) 0))
read_ext_date (a ∷ b ∷ c ∷ d ∷ e ∷ f ∷ g ∷ h ∷ []) =
    let ns = a * 2 ^ 22 + b * 2 ^ 14 + c * 2 ^ 6 + d / 4 in
    let sec = d % 4 * 2 ^ 32 + e * 2 ^ 24 + f * 2 ^ 16 + g * 2 ^ 8 + h in
    ok (new_date (time_of (pos sec) (ns / 1_000_000)))
read_ext_date (a ∷ b ∷ c ∷ d ∷ e ∷ f ∷ g ∷ h ∷ i ∷ j ∷ k ∷ l ∷ []) =
    let sec = signed (e ∷ f ∷ g ∷ h ∷ i ∷ j ∷ k ∷ l ∷ []) in
    ok (new_date (time_of sec (from_be32 a b c d / 1_000_000)))
read_ext_date _ = err invalid_date_length

abbrev type_key : List ℕ
type_key = b't' ∷ b'y' ∷ b'p' ∷ b'e' ∷ []

abbrev data_key : List ℕ
data_key = b'd' ∷ b'a' ∷ b't' ∷ b'a' ∷ []

-- A MsgpackExtension is a plain object.
abbrev extension : ℕ → List ℕ → Value
extension type bytes = obj (field type_key (int (pos type)) (field data_key (bin bytes) end))

unfoldable pub read_ext : Size → Reader Value
read_ext size bytes = read_size size bytes >>= λ p. read_uint 1 p.1 >>= λ q.
    read_bytes p.0 q.1 >>= λ r.
    (if q.0 == 255 then read_ext_date r.0 else ok (extension q.0 r.0)) >>= λ v. ok (v, r.1)

abbrev pub same_text : List ℕ → List ℕ → Bool
same_text [] [] = true
same_text [] (y ∷ ys) = false
same_text (x ∷ xs) [] = false
same_text (x ∷ xs) (y ∷ ys) = (x == y) && same_text xs ys

-- `data[key] = value`, and the own property that `__proto__` becomes.
unfoldable pub put : List ℕ → Value → Fields → Fields
put key value end = field key value end
put key value (field k v fs) =
    if same_text k key then field k value fs else field k v (put key value fs)

abbrev pub key_text : Host → Value → List ℕ
key_text host (str s) = s
key_text host null = host.to_text null
key_text host v = host.to_text v

module _ (host : Host) (read_value : Reader Value) where
  -- The loops of `readArray` and `readMap`.
  unfoldable pub read_items : ℕ → Reader Items
  read_items zero bytes = ok (nil, bytes)
  read_items (suc n) bytes =
      read_value bytes >>= λ p. read_items n p.1 >>= λ q. ok (cons p.0 q.0, q.1)

  unfoldable pub read_fields : ℕ → Fields → Reader Fields
  read_fields zero fs bytes = ok (fs, bytes)
  read_fields (suc n) fs bytes = read_value bytes >>= λ p.
      read_value p.1 >>= λ q. read_fields n (put (key_text host p.0) q.0 fs) q.1

  unfoldable pub read_array : Size → Reader Value
  read_array size bytes =
      read_size size bytes >>= λ p. read_items p.0 p.1 >>= λ q. ok (arr q.0, q.1)

  unfoldable pub read_map : Size → Reader Value
  read_map size bytes =
      read_size size bytes >>= λ p. read_fields p.0 end p.1 >>= λ q. ok (obj q.0, q.1)

  unfoldable pub read_string : Size → Reader Value
  read_string size bytes = read_str host size bytes >>= λ p. ok (str p.0, p.1)

  unfoldable pub read_binary : Size → Reader Value
  read_binary size bytes = read_bin size bytes >>= λ p. ok (bin p.0, p.1)

  unfoldable pub read_unsigned : ℕ → Reader Value
  read_unsigned size bytes = read_uint size bytes >>= λ p. ok (int (pos p.0), p.1)

  unfoldable pub read_signed : ℕ → Reader Value
  read_signed size bytes = read_int size bytes >>= λ p. ok (int p.0, p.1)

  -- `read` from 0xc0 to 0xdf.
  unfoldable pub read_tagged : ℕ → Reader Value
  read_tagged byte bytes =
      if byte == 0xc0
      then ok (null, bytes)
      else if byte == 0xc1
      then err invalid_code
      else if byte == 0xc2
      then ok (bool_false, bytes)
      else if byte == 0xc3
      then ok (bool_true, bytes)
      else if byte == 0xc4
      then read_binary (prefixed 1) bytes
      else if byte == 0xc5
      then read_binary (prefixed 2) bytes
      else if byte == 0xc6
      then read_binary (prefixed 4) bytes
      else if byte == 0xc7
      then read_ext (prefixed 1) bytes
      else if byte == 0xc8
      then read_ext (prefixed 2) bytes
      else if byte == 0xc9
      then read_ext (prefixed 4) bytes
      else if byte == 0xca
      then read_float 4 bytes
      else if byte == 0xcb
      then read_float 8 bytes
      else if byte == 0xcc
      then read_unsigned 1 bytes
      else if byte == 0xcd
      then read_unsigned 2 bytes
      else if byte == 0xce
      then read_unsigned 4 bytes
      else if byte == 0xcf
      then read_unsigned 8 bytes
      else if byte == 0xd0
      then read_signed 1 bytes
      else if byte == 0xd1
      then read_signed 2 bytes
      else if byte == 0xd2
      then read_signed 4 bytes
      else if byte == 0xd3
      then read_signed 8 bytes
      else if byte == 0xd4
      then read_ext (known 1) bytes
      else if byte == 0xd5
      then read_ext (known 2) bytes
      else if byte == 0xd6
      then read_ext (known 4) bytes
      else if byte == 0xd7
      then read_ext (known 8) bytes
      else if byte == 0xd8
      then read_ext (known 16) bytes
      else if byte == 0xd9
      then read_string (prefixed 1) bytes
      else if byte == 0xda
      then read_string (prefixed 2) bytes
      else if byte == 0xdb
      then read_string (prefixed 4) bytes
      else if byte == 0xdc
      then read_array (prefixed 2) bytes
      else if byte == 0xdd
      then read_array (prefixed 4) bytes
      else if byte == 0xde
      then read_map (prefixed 2) bytes
      else read_map (prefixed 4) bytes

  -- `read` behind its first byte.
  unfoldable pub read_byte : ℕ → Reader Value
  read_byte byte bytes =
      if leb byte 0x7f
      then ok (int (pos byte), bytes)
      else if leb byte 0x8f
      then read_map (known (byte - 0x80)) bytes
      else if leb byte 0x9f
      then read_array (known (byte - 0x90)) bytes
      else if leb byte 0xbf
      then read_string (known (byte - 0xa0)) bytes
      else if leb byte 0xdf
      then read_tagged byte bytes
      else if leb byte 0xff
      then ok (int (negsuc (255 - byte)), bytes)
      else err invalid_byte

-- `read`, on fuel: each nested call is behind one more byte.
unfoldable pub read : Host → ℕ → Reader Value
read host zero bytes = err out_of_fuel
read host (suc fuel) [] = err insufficient
read host (suc fuel) (byte ∷ bytes) = read_byte host (read host fuel) byte bytes

unfoldable pub deserialize : Host → List ℕ → Result Value
deserialize host [] = err empty_input
deserialize host (b ∷ bytes) = read host (suc (length bytes)) (b ∷ bytes) >>= λ p. ok p.0

-- The loop of `multiple`, on fuel.
unfoldable pub read_all : Host → ℕ → List ℕ → Result Items
read_all host fuel [] = ok nil
read_all host zero (b ∷ bytes) = err out_of_fuel
read_all host (suc fuel) (b ∷ bytes) = read host (suc (length bytes)) (b ∷ bytes) >>= λ p.
    read_all host fuel p.1 >>= λ vs. ok (cons p.0 vs)

unfoldable pub deserialize_multiple : Host → List ℕ → Result Items
deserialize_multiple host [] = err empty_input
deserialize_multiple host (b ∷ bytes) = read_all host (suc (length bytes)) (b ∷ bytes)
