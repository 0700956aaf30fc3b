-- ===== src/Msgpack/RoundTrip.antt =====
-- `serialize` and `deserialize` together.
use webrun_wire.Common.{
  ℕ, suc, ◌^◌, ◌<◌, ◌≤◌, ◌≡◌, refl, sym, ap, ◌∙◌, arith, List, [], ◌∷◌, ◌++◌, append-nil, length,
}
use webrun_wire.Common.{Bool-cases, inl, inr}
use webrun_wire.Msgpack.Value.{ℤ, Value, Items, Fields, ok}
use webrun_wire.Msgpack.Value.{
  undefined, null, bool_false, bool_true, int, float, str, bin, arr, obj,
}
use webrun_wire.Msgpack.Value.{date, invalid_date, other, nil, cons, end, field}
use webrun_wire.Msgpack.Encode.{
  append, append_items, append_fields, append_int, append_string, append_bin_array, append_date,
}
use webrun_wire.Msgpack.Encode.{
  is_undefined, count_items, count_fields, array_head, map_head, serialize,
}
use webrun_wire.Msgpack.Decode.{
  Host, read, read_byte, read_tagged, read_items, read_fields, deserialize,
}
use webrun_wire.Msgpack.Numbers.{IsSafe, read-append_int}
use webrun_wire.Msgpack.Dates.{IsTime, read-append_date}
use webrun_wire.Msgpack.Texts.{DecodesUtf8, IsText}
use webrun_wire.Msgpack.Wire.{
  Fresh, IsWire, AreWire, AreWireFields, normal, normal_items, normal_fields,
}
use webrun_wire.Msgpack.Wire.{join, Apart, Apart-join, Apart-end, join_assoc}
use webrun_wire.Msgpack.Reads.{
  ReadsAs, ReadsFields, ReadsItems, array_reads, bin_reads, cons_reads, field_reads, float_reads,
  map_reads, string_reads, with_fuel, append_date-pos, append_int-pos, join-end,
}

module _ (host : Host) (good : DecodesUtf8 host) where
  -- What is shown of a value: that it is serialized, and read back.
  abbrev pub Round : Value → Type 0
  Round v = (bytes : List ℕ) × (append v ≡ ok bytes) × ReadsAs host good bytes (normal v)

  abbrev RoundItems : Items → Type 0
  RoundItems vs =
      (bytes : List ℕ) × (append_items vs ≡ ok bytes)
      × ReadsItems host good bytes (count_items vs) (normal_items vs)

  abbrev RoundFields : Fields → Type 0
  RoundFields fs =
      (bytes : List ℕ) × (append_fields fs ≡ ok bytes)
      × ((acc : Fields)
          → Apart fs acc
          → ReadsFields host good bytes (count_fields fs) acc (join acc (normal_fields fs)))

  null_reads : ReadsAs host good (0xc0 ∷ []) null
  unfolding read read_byte read_tagged
  null_reads = with_fuel host good (0xc0 ∷ []) null (omega arith) λ fuel rest le. refl

  false_reads : ReadsAs host good (0xc2 ∷ []) bool_false
  unfolding read read_byte read_tagged
  false_reads = with_fuel host good (0xc2 ∷ []) bool_false (omega arith) λ fuel rest le. refl

  true_reads : ReadsAs host good (0xc3 ∷ []) bool_true
  unfolding read read_byte read_tagged
  true_reads = with_fuel host good (0xc3 ∷ []) bool_true (omega arith) λ fuel rest le. refl

  arr-Round : (vs : Items) → count_items vs < 2 ^ 32 → RoundItems vs → Round (arr vs)
  unfolding append normal
  arr-Round vs h (body, e, k) = (
    array_head (count_items vs) ++ body,
    rw e refl,
    array_reads host good body (count_items vs) (normal_items vs) h k,
  )

  obj-Round : (fs : Fields) → count_fields fs < 2 ^ 32 → RoundFields fs → Round (obj fs)
  unfolding append normal
  obj-Round fs h (body, e, k) = (
    map_head (count_fields fs) ++ body,
    rw e refl,
    map_reads host good body (count_fields fs) (normal_fields fs) h (k end (Apart-end fs)),
  )

  cons-Round : (v : Value) (vs : Items) → Round v → RoundItems vs → RoundItems (cons v vs)
  unfolding append_items normal_items count_items
  cons-Round v vs (first, e, r) (body, f, k) = (
    first ++ body,
    rw (e, f) refl,
    cons_reads host good first body (count_items vs) (normal v) (normal_items vs) r k,
  )

  field-Round :
      (k : List ℕ) (v : Value) (fs : Fields)
      → IsText k
      → Fresh k fs
      → Round v
      → RoundFields fs
      → RoundFields (field k v fs)
  unfolding append_fields normal_fields count_fields
  field-Round k v fs t fresh (first, e, r) (body, f, b) = elim (Bool-cases (is_undefined v)) [
    | inl u ↦ (body, rw (e, f, u) refl, λ acc apart. rw u (b acc apart.1))
    | inr u ↦ (
      append_string k ++ first ++ body,
      rw (e, f, u) refl,
      λ acc apart. rw u (
          field_reads host good (append_string k) first body (count_fields fs) k (normal v) acc
            (join acc (field k (normal v) (normal_fields fs))) (string_reads host good k t) r
            apart.0
            (rw (← join_assoc acc k (normal v) (normal_fields fs)) (
              b (join acc (field k (normal v) end))
                (Apart-join k (normal v) fs acc apart.1 fresh)))),
    )
  ]

  int_reads : (z : ℤ) → IsSafe z → ReadsAs host good (append_int z) (int z)
  int_reads z safe =
      with_fuel host good (append_int z) (int z) (append_int-pos z)
        λ fuel rest le. read-append_int host fuel z rest safe

  date_reads : (t : ℤ) → IsTime t → ReadsAs host good (append_date t) (date t)
  date_reads t time =
      with_fuel host good (append_date t) (date t) (append_date-pos t)
        λ fuel rest le. read-append_date host fuel t rest time

  mutual
    unfolding IsWire AreWire AreWireFields append append_items append_fields normal normal_items
        normal_fields count_items count_fields read_items read_fields

    round : (v : Value) → IsWire v → Round v
    round undefined h = (0xc0 ∷ [], refl, null_reads)
    round null h = (0xc0 ∷ [], refl, null_reads)
    round invalid_date h = absurd h
    round bool_false h = (0xc2 ∷ [], refl, false_reads)
    round bool_true h = (0xc3 ∷ [], refl, true_reads)
    round (int z) h = (append_int z, refl, int_reads z h)
    round (float bits) h = (0xcb ∷ bits, refl, float_reads host good bits h)
    round (str s) h = (append_string s, refl, string_reads host good s h)
    round (bin bytes) h = (append_bin_array bytes, refl, bin_reads host good bytes h)
    round (arr vs) h = arr-Round vs h.0 (round_items vs h.1)
    round (obj fs) h = obj-Round fs h.0 (round_fields fs h.1)
    round (date t) h = (append_date t, refl, date_reads t h)
    round (other k) h = absurd h

    round_items : (vs : Items) → AreWire vs → RoundItems vs
    round_items nil h = ([], refl, λ fuel rest le. refl)
    round_items (cons v vs) h = cons-Round v vs (round v h.0) (round_items vs h.1)

    round_fields : (fs : Fields) → AreWireFields fs → RoundFields fs
    round_fields end h =
        ([], refl, λ acc apart fuel rest le. ap (λ (all : Fields). ok (all, rest)) (join-end acc))
    round_fields (field k v fs) h = field-Round k v fs h.0 h.2 (round v h.1) (round_fields fs h.3)

  whole :
      (bytes : List ℕ) (v : Value)
      → 1 ≤ length bytes
      → ((fuel : ℕ) (rest : List ℕ)
          → length bytes ≤ fuel
          → read host fuel (bytes ++ rest) ≡ ok (v, rest))
      → deserialize host bytes ≡ ok v
  unfolding deserialize
  whole [] v h r = absurd (omega (arith, h))
  whole (b ∷ bytes) v h r =
      rw
        (sym (ap (read host (suc (length bytes))) (append-nil (b ∷ bytes)))
          ∙ r (suc (length bytes)) [] (omega arith))
        refl

-- A value whose numbers are safe integers or floats of eight bytes, whose dates hold a time, whose texts
-- have no lone surrogate, whose sizes are below 2^32 and whose objects have no key twice is serialized
-- to some bytes, and `deserialize` makes the value of these again, with null for `undefined` and without
-- the properties that are undefined, where the `TextDecoder` decodes well-formed UTF-8.
pub deserialize-serialize :
    (host : Host) (v : Value)
    → DecodesUtf8 host
    → IsWire v
    → (bytes : List ℕ) × (serialize v ≡ ok bytes) × (deserialize host bytes ≡ ok (normal v))
unfolding serialize
deserialize-serialize host v good h =
    let r = round host good v h in (r.0, r.1, whole host good r.0 (normal v) r.2.0 r.2.1)
