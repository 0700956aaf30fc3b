-- ===== src/Common/Maps.antt =====
-- JavaScript's `Map` as a list of entries in insertion order. A key is only compared, so a number stands
-- for it.
use Prim.Native.Nat.{ℕ, ◌≤◌}
use mathlib.Core.Path.{◌≡◌, refl}
use mathlib.Core.Logic.{◌≢◌}
use mathlib.Core.List.{List, [], ◌∷◌}
use webrun_wire.Common.Lists.{length}
use mathlib.Core.Option.{Option, none, some}
use native.Mathlib.Omega.{arith}
use webrun_wire.Common.Tests.{◌==◌, if◌then◌else◌}

module _ {ℓ} {V : Type ℓ} where
  unfoldable pub map_get : ℕ → List (ℕ × V) → Option V
  map_get k [] = none
  map_get k ((i, v) ∷ m) = if i == k then some v else map_get k m

  unfoldable pub map_set : ℕ → V → List (ℕ × V) → List (ℕ × V)
  map_set k w [] = (k, w) ∷ []
  map_set k w ((i, v) ∷ m) = if i == k then (k, w) ∷ m else (i, v) ∷ map_set k w m

  unfoldable pub map_delete : ℕ → List (ℕ × V) → List (ℕ × V)
  map_delete k [] = []
  map_delete k ((i, v) ∷ m) = if i == k then map_delete k m else (i, v) ∷ map_delete k m

  pub map_get-map_set : (k : ℕ) (w : V) (m : List (ℕ × V)) → map_get k (map_set k w m) ≡ some w
  unfolding map_get map_set
  map_get-map_set k w [] = ground arith
  map_get-map_set k w ((i, v) ∷ m) = ground (arith, map_get-map_set k w m)

  pub map_get-map_set_other :
      (k j : ℕ) (w : V) (m : List (ℕ × V)) → k ≢ j → map_get j (map_set k w m) ≡ map_get j m
  unfolding map_get map_set
  map_get-map_set_other k j w [] h = ground arith
  map_get-map_set_other k j w ((i, v) ∷ m) h = ground (arith, map_get-map_set_other k j w m h)

  pub map_get-map_delete : (k : ℕ) (m : List (ℕ × V)) → map_get k (map_delete k m) ≡ none
  unfolding map_get map_delete
  map_get-map_delete k [] = refl
  map_get-map_delete k ((i, v) ∷ m) = ground (arith, map_get-map_delete k m)

  pub map_get-map_delete_other :
      (k j : ℕ) (m : List (ℕ × V)) → k ≢ j → map_get j (map_delete k m) ≡ map_get j m
  unfolding map_get map_delete
  map_get-map_delete_other k j [] h = refl
  map_get-map_delete_other k j ((i, v) ∷ m) h = ground (arith, map_get-map_delete_other k j m h)

  -- A map has no more entries after one is deleted.
  pub length-map_delete : (k : ℕ) (m : List (ℕ × V)) → length (map_delete k m) ≤ length m
  unfolding map_delete
  length-map_delete k [] = omega arith
  length-map_delete k ((i, v) ∷ m) = ground (arith, length-map_delete k m)
