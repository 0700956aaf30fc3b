-- ===== src/Msgpack/Wire.antt =====
-- The values that survive the wire, what it makes of them, and how the properties of an object add up.
use webrun_wire.Common.{ℕ, ◌^◌, ◌<◌, ◌≡◌, refl, ap, List, length}
use webrun_wire.Common.{false, if◌then◌else◌}
use webrun_wire.Msgpack.Value.{Value, Items, Fields}
use webrun_wire.Msgpack.Value.{
  undefined, null, bool_false, bool_true, int, float, str, bin, arr, obj,
}
use webrun_wire.Msgpack.Value.{date, invalid_date, other, nil, cons, end, field}
use webrun_wire.Msgpack.Encode.{is_undefined, count_items, count_fields}
use webrun_wire.Msgpack.Decode.{put, same_text}
use webrun_wire.Msgpack.Numbers.{IsSafe}
use webrun_wire.Msgpack.Dates.{IsTime}
use webrun_wire.Msgpack.Texts.{IsText}

-- No later property has this key.
abbrev pub Fresh : List ℕ → Fields → Type 0
Fresh k end = Unit {0}
Fresh k (field j v fs) = (same_text k j ≡ false) × Fresh k fs

-- The values that survive the wire: of a serializable type, with safe integers, floats of eight bytes,
-- dates that hold a time, texts without lone surrogates, sizes below 2^32, and objects whose keys differ.
unfoldable mutual
  pub IsWire : Value → Type 0
  IsWire undefined = Unit {0}
  IsWire null = Unit {0}
  IsWire invalid_date = ⊥
  IsWire bool_false = Unit {0}
  IsWire bool_true = Unit {0}
  IsWire (int z) = IsSafe z
  IsWire (float bits) = length bits ≡ 8
  IsWire (str s) = IsText s
  IsWire (bin bytes) = length bytes < 2 ^ 32
  IsWire (arr vs) = (count_items vs < 2 ^ 32) × AreWire vs
  IsWire (obj fs) = (count_fields fs < 2 ^ 32) × AreWireFields fs
  IsWire (date t) = IsTime t
  IsWire (other k) = ⊥

  pub AreWire : Items → Type 0
  AreWire nil = Unit {0}
  AreWire (cons v vs) = IsWire v × AreWire vs

  pub AreWireFields : Fields → Type 0
  AreWireFields end = Unit {0}
  AreWireFields (field k v fs) = IsText k × IsWire v × Fresh k fs × AreWireFields fs

-- What the wire makes of a value: `undefined` becomes null, and a property that holds it is dropped.
unfoldable mutual
  pub normal : Value → Value
  normal undefined = null
  normal null = null
  normal invalid_date = invalid_date
  normal bool_false = bool_false
  normal bool_true = bool_true
  normal (int z) = int z
  normal (float bits) = float bits
  normal (str s) = str s
  normal (bin bytes) = bin bytes
  normal (arr vs) = arr (normal_items vs)
  normal (obj fs) = obj (normal_fields fs)
  normal (date t) = date t
  normal (other k) = other k

  pub normal_items : Items → Items
  normal_items nil = nil
  normal_items (cons v vs) = cons (normal v) (normal_items vs)

  pub normal_fields : Fields → Fields
  normal_fields end = end
  normal_fields (field k v fs) =
      if is_undefined v then normal_fields fs else field k (normal v) (normal_fields fs)

-- Properties added behind others.
abbrev pub join : Fields → Fields → Fields
join end gs = gs
join (field k v fs) gs = field k v (join fs gs)

-- A property with key `k` is not among `fs`.
abbrev pub Absent : List ℕ → Fields → Type 0
Absent k end = Unit {0}
Absent k (field j v fs) = (same_text j k ≡ false) × Absent k fs

-- No key of `fs` is among those of `acc`.
abbrev pub Apart : Fields → Fields → Type 0
Apart end acc = Unit {0}
Apart (field k v fs) acc = Absent k acc × Apart fs acc

pub put-Absent :
    (k : List ℕ) (v : Value) (acc : Fields) → Absent k acc → put k v acc ≡ join acc (field k v end)
unfolding put
put-Absent k v end h = refl
put-Absent k v (field j w acc) h = rw h.0 (ap (field j w) (put-Absent k v acc h.1))

pub Absent-join :
    (k j : List ℕ) (v : Value) (acc : Fields)
    → Absent k acc
    → same_text j k ≡ false
    → Absent k (join acc (field j v end))
Absent-join k j v end h e = (e, tt)
Absent-join k j v (field i w acc) h e = (h.0, Absent-join k j v acc h.1 e)

pub Apart-join :
    (j : List ℕ) (v : Value) (fs acc : Fields)
    → Apart fs acc
    → Fresh j fs
    → Apart fs (join acc (field j v end))
Apart-join j v end acc h f = tt
Apart-join j v (field k w fs) acc h f =
    (Absent-join k j v acc h.0 f.0, Apart-join j v fs acc h.1 f.1)

pub Apart-end : (fs : Fields) → Apart fs end
Apart-end end = tt
Apart-end (field k v fs) = (tt, Apart-end fs)

pub join_assoc :
    (acc : Fields) (k : List ℕ) (v : Value) (gs : Fields)
    → join (join acc (field k v end)) gs ≡ join acc (field k v gs)
join_assoc end k v gs = refl
join_assoc (field j w acc) k v gs = ap (field j w) (join_assoc acc k v gs)
