-- ===== src/Common/Bits.antt =====
-- Shifts and masks as arithmetic, and masks on small ranges by tables.
use Prim.Native.Nat.{ℕ, zero, suc, ◌+◌, ◌/◌, ◌%◌, ◌^◌, ◌<◌, bit_or}
use mathlib.Core.Path.{◌≡◌, refl}
use mathlib.Core.Bool.{Bool, true, false}
use mathlib.Core.Logic.{ite}
use native.Mathlib.Decide.{ℕ_discrete}
use native.Mathlib.Omega.{arith}

-- `x & (2^k - 1)` and `x >>> k` of a non-negative `x`.
abbrev pub low_bits : ℕ → ℕ → ℕ
low_bits x k = x % 2 ^ k

abbrev pub shr : ℕ → ℕ → ℕ
shr x k = x / 2 ^ k

module _ (f g : ℕ → ℕ) where
  agree_below : ℕ → Bool
  unfolding ℕ_discrete
  agree_below zero = true
  agree_below (suc n) = ite (ℕ_discrete (f n) (g n)) (agree_below n) false

  agree_below→eq : (n : ℕ) → agree_below n ≡ true → (i : ℕ) → i < n → f i ≡ g i
  unfolding agree_below
  agree_below→eq zero e i h = absurd (omega arith)
  agree_below→eq (suc n) e i h = ground (arith, agree_below→eq n (ground arith) i)

-- The masks that the encoders set above a small group of bits.
pub or-128 : (b : ℕ) → b < 128 → bit_or b 128 ≡ b + 128
unfolding agree_below
or-128 = agree_below→eq _ _ 128 refl

pub or-192 : (b : ℕ) → b < 32 → bit_or b 192 ≡ b + 192
unfolding agree_below
or-192 = agree_below→eq _ _ 32 refl

pub or-224 : (b : ℕ) → b < 16 → bit_or b 224 ≡ b + 224
unfolding agree_below
or-224 = agree_below→eq _ _ 16 refl

pub or-240 : (b : ℕ) → b < 8 → bit_or b 240 ≡ b + 240
unfolding agree_below
or-240 = agree_below→eq _ _ 8 refl
