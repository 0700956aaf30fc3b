-- ===== src/Common/Bytes.antt =====
-- Big-endian words, as `DataView.setUint32(0, x, false)` writes them and `getUint32(0, false)` reads
-- them. A byte is a number below 256.
use Prim.Native.Nat.{ℕ, ◌+◌, ◌*◌, ◌/◌, ◌%◌, ◌^◌, ◌<◌}
use mathlib.Core.Path.{◌≡◌}
use mathlib.Core.List.{List, [], ◌∷◌}
use native.Mathlib.Omega.{arith}

abbrev pub IsByte : ℕ → Type 0
IsByte b = b < 256

-- What a byte array keeps of a number that is stored in it.
abbrev pub byte : ℕ → ℕ
byte x = x % 256

abbrev pub be16 : ℕ → List ℕ
be16 x = byte (x / 2 ^ 8) ∷ byte x ∷ []

abbrev pub be32 : ℕ → List ℕ
be32 x = byte (x / 2 ^ 24) ∷ byte (x / 2 ^ 16) ∷ byte (x / 2 ^ 8) ∷ byte x ∷ []

abbrev pub from_be32 : (a b c d : ℕ) → ℕ
from_be32 a b c d = a * 2 ^ 24 + b * 2 ^ 16 + c * 2 ^ 8 + d

pub from_be32-be32 :
    (x : ℕ)
    → x < 2 ^ 32
    → from_be32 (byte (x / 2 ^ 24)) (byte (x / 2 ^ 16)) (byte (x / 2 ^ 8)) (byte x) ≡ x
from_be32-be32 x h = omega arith
