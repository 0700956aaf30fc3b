-- ===== src/Msgpack/Value.antt =====
-- The JavaScript values that packages/webrun-msgpack/src/msgpack-core.ts tells apart.
use webrun_wire.Common.{ℕ, List}

-- `negsuc n` is -(n + 1).
pub data ℤ : Type 0 where
  pos : ℕ → ℤ
  negsuc : ℕ → ℤ

-- `int` is a number for which `Number.isSafeInteger` holds, and `float` any other, by the eight bytes of
-- its IEEE 754 form (four, for one read from a float 32). A `str` is its UTF-16 code units, a `date` its
-- time in milliseconds, and a `bin` a Uint8Array. `other` is a value of a
-- type that cannot be serialized: a function, a symbol or a bigint. An object lists its own enumerable
-- properties; the order in which an engine lists keys that look like array indices is not modelled.
mutual
  pub data Value : Type 0 where
    undefined null invalid_date : Value
    bool_false bool_true : Value
    int : ℤ → Value
    float : List ℕ → Value
    str : List ℕ → Value
    bin : List ℕ → Value
    arr : Items → Value
    obj : Fields → Value
    date : ℤ → Value
    other : ℕ → Value

  pub data Items : Type 0 where
    nil : Items
    cons : Value → Items → Items

  pub data Fields : Type 0 where
    end : Fields
    field : List ℕ → Value → Fields → Fields

-- The errors that `serialize` and `deserialize` throw.
pub data Error : Type 0 where
  invalid_type invalid_time empty_input : Error
  insufficient invalid_code invalid_byte invalid_date_length : Error
  out_of_fuel : Error

pub data Result {ℓ} (A : Type ℓ) : Type ℓ where
  ok : A → Result A
  err : Error → Result A

infixl 5 ◌>>=◌
abbrev pub ◌>>=◌ {ℓ κ} : {A : Type ℓ} {B : Type κ} → Result A → (A → Result B) → Result B
ok a >>= f = f a
err e >>= f = err e
