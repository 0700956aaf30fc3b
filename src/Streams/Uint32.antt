-- ===== src/Streams/Uint32.antt =====
-- packages/webrun-streams/src/uint32.ts: credit amounts on the wire.
use webrun_wire.Common.{
  ℕ, suc, ◌<◌, ◌≤◌, ◌⊎◌, ◌^◌, ◌≡◌, ◌↔◌, ap, min, refl, arith, List, [], ◌∷◌, ◌++◌, Option, none,
  some,
}
use webrun_wire.Common.{length}
use webrun_wire.Common.Bytes.{be32, from_be32, from_be32-be32}

abbrev pub max_uint32 : ℕ
max_uint32 = 0xffff_ffff

-- A JavaScript number, whose fraction is cut off: `negative` is any finite number below 0, and
-- `not_finite` is NaN or an infinity.
pub data Amount : Type 0 where
  finite : ℕ → Amount
  negative : Amount
  not_finite : Amount

unfoldable pub clamp : Amount → ℕ
clamp (finite n) = min max_uint32 n
clamp negative = 0
clamp not_finite = 0

unfoldable pub encode_uint32 : Amount → List ℕ
unfolding clamp
encode_uint32 n = be32 (clamp n)

unfoldable pub decode_uint32 : List ℕ → Option ℕ
decode_uint32 (a ∷ b ∷ c ∷ d ∷ rest) = some (from_be32 a b c d)
decode_uint32 _ = none

-- The amount that a peer is told: of a natural number itself or, from 2^32 on, the largest that is below.
abbrev pub Told : Amount → ℕ → Type 0
Told (finite n) k = ((n < 2 ^ 32) × (k ≡ n)) ⊎ ((2 ^ 32 ≤ n) × (suc k ≡ 2 ^ 32))
Told negative k = k ≡ 0
Told not_finite k = k ≡ 0

clamp-Told : (n : Amount) → Told n (clamp n)
unfolding clamp
clamp-Told (finite n) = ground arith
clamp-Told negative = refl
clamp-Told not_finite = refl

-- Whatever follows the four bytes, a natural number below 2^32 comes back as itself, and a larger one as
-- 2^32 - 1; any other number comes back as 0.
pub decode_uint32-encode_uint32 :
    (n : Amount) (rest : List ℕ)
    → (k : ℕ) × (decode_uint32 (encode_uint32 n ++ rest) ≡ some k) × Told n k
unfolding decode_uint32 encode_uint32
decode_uint32-encode_uint32 n rest =
    (clamp n, ap some (from_be32-be32 (clamp n) (clamp_lt n)), clamp-Told n)
  where
    clamp_lt : (n : Amount) → clamp n < 2 ^ 32
    clamp_lt (finite n) = unfold clamp in omega arith
    clamp_lt negative = unfold clamp in omega arith
    clamp_lt not_finite = unfold clamp in omega arith

-- Exactly the payloads of fewer than four bytes are refused.
pub decode_uint32-none : (bs : List ℕ) → (decode_uint32 bs ≡ none) ↔ (length bs < 4)
unfolding decode_uint32
decode_uint32-none [] = (λ _. omega arith, λ _. refl)
decode_uint32-none (a ∷ []) = (λ _. omega arith, λ _. refl)
decode_uint32-none (a ∷ b ∷ []) = (λ _. omega arith, λ _. refl)
decode_uint32-none (a ∷ b ∷ c ∷ []) = (λ _. omega arith, λ _. refl)
decode_uint32-none (a ∷ b ∷ c ∷ d ∷ rest) = (λ e. cc, λ h. absurd (omega arith))
