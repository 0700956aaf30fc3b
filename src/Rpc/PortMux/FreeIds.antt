-- ===== src/Rpc/PortMux/FreeIds.antt =====
-- The ids that `openPort` gives to ports.
use webrun_wire.Common.{ℕ, zero, suc, ◌+◌, ◌≤◌, ◌<◌, ◌≡◌, refl, List, [], ◌∷◌}
use webrun_wire.Common.{Option, none, some, length, arith}
use webrun_wire.Common.{if◌then◌else◌, leb}
use webrun_wire.Common.Maps.{map_get}
use webrun_wire.Rpc.PortMux.State.{Entry}
use webrun_wire.Rpc.PortMux.Ends.{id_or}
use webrun_wire.Rpc.PortMux.Ends.{free_id}

-- The entries whose id is `id` or more.
abbrev above : ℕ → List (ℕ × Entry) → ℕ
above id [] = 0
above id ((i, e) ∷ t) = (if leb id i then 1 else 0) + above id t

above_le : (id : ℕ) (t : List (ℕ × Entry)) → above id t ≤ length t
above_le id [] = omega arith
above_le id ((i, e) ∷ t) = ground (arith, above_le id t)

above-later : (id : ℕ) (t : List (ℕ × Entry)) → above (id + 2) t ≤ above id t
above-later id [] = omega arith
above-later id ((i, e) ∷ t) = ground (arith, above-later id t)

above-none : (id : ℕ) (t : List (ℕ × Entry)) → above id t ≡ 0 → map_get id t ≡ none
unfolding map_get
above-none id [] h = refl
above-none id ((i, e) ∷ t) h = ground (arith, h, above-none id t)

above-some :
    (id : ℕ) (t : List (ℕ × Entry)) (x : Entry)
    → map_get id t ≡ some x
    → above (id + 2) t < above id t
unfolding map_get
above-some id [] x h = ground (arith, h)
above-some id ((i, e) ∷ t) x h = ground (arith, h, above-some id t x, above-later id t)

free_id-none :
    (fuel id : ℕ) (t : List (ℕ × Entry)) → above id t ≤ fuel → map_get (free_id fuel id t) t ≡ none
unfolding free_id
free_id-none zero id t h = above-none id t (omega (arith, h))
free_id-none (suc fuel) id t h = go (map_get id t) refl (free_id-none fuel (id + 2) t)
  where
    go :
        (o : Option Entry)
        → map_get id t ≡ o
        → (above (id + 2) t ≤ fuel → map_get (free_id fuel (id + 2) t) t ≡ none)
        → map_get (id_or id (free_id fuel (id + 2) t) o) t ≡ none
    go none e later = e
    go (some x) e later = later (omega (arith, h, above-some id t x e))

-- The loop of `openPort` over the ids ends, after at most as many steps as there are ports, at an id that no
-- open port has.
pub map_get-free_id : (id : ℕ) (t : List (ℕ × Entry)) → map_get (free_id (length t) id t) t ≡ none
map_get-free_id id t = free_id-none (length t) id t (above_le id t)
