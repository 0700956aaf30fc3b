-- ===== src/Rpc/Ring/Drain.antt =====
-- The ring runs empty.
use webrun_wire.Common.{ℕ, suc, ◌+◌, ◌≤◌, ◌<◌, ◌≡◌, refl, List, [], ◌∷◌, Option, none, some}
use webrun_wire.Common.{◌==◌, Bool, true, false, if◌then◌else◌, length, arith, length-append, ap}
use webrun_wire.Common.Maps.{map_get, map_set, map_delete}
use webrun_wire.Rpc.Ring.{Ring, take_item, take_turn, take_from, items, weight}

module _ {A : Type 0} (id : ℕ) where
  items-map_set :
      (q q' : List A) (t : List (ℕ × List A))
      → map_get id t ≡ some q
      → (items (map_set id q' t) + length q) ≡ (items t + length q')
  unfolding map_get map_set
  items-map_set q q' [] h = ground (arith, h)
  items-map_set q q' ((i, y) ∷ t) h = go (i == id) h (items-map_set q q' t)
    where
      go :
          (b : Bool)
          → (if b then some y else map_get id t) ≡ some q
          → (map_get id t ≡ some q → (items (map_set id q' t) + length q) ≡ (items t + length q'))
          → (items (if b then (id, q') ∷ t else (i, y) ∷ map_set id q' t) + length q)
            ≡ (length y + items t + length q')
      go true g rest = omega (arith, ap queued g)
        where
          queued : Option (List A) → ℕ
          queued none = 0
          queued (some x) = length x
      go false g rest = omega (arith, rest g)

  items-map_delete : (t : List (ℕ × List A)) → items (map_delete id t) ≤ items t
  unfolding map_delete
  items-map_delete [] = omega arith
  items-map_delete ((i, y) ∷ t) = ground (arith, items-map_delete t)

  take_from-weight :
      (ids : List ℕ) (r : Ring A) (o : Option (List A))
      → map_get id r.outgoing ≡ o
      → weight (take_from id ids r o).1 < (suc (length ids) + items r.outgoing)
  unfolding weight
  take_from-weight ids r (some (x ∷ y ∷ more)) e =
      omega
        (arith, items-map_set (x ∷ y ∷ more) (y ∷ more) r.outgoing e, length-append ids (id ∷ []))
  take_from-weight ids r (some (x ∷ [])) e = omega (arith, items-map_delete r.outgoing)
  take_from-weight ids r (some []) e = omega (arith, items-map_delete r.outgoing)
  take_from-weight ids r none e = omega (arith, items-map_delete r.outgoing)

pub take_item-weight :
    {A : Type 0} (r : Ring A) → 1 ≤ length r.turns → weight (take_item r).1 < weight r
unfolding take_item weight
take_item-weight {A} r h = go r.turns refl
  where
    go :
        (ts : List ℕ)
        → r.turns ≡ ts
        → (length (take_turn ts r).1.turns + items (take_turn ts r).1.outgoing)
          < (length ts + items r.outgoing)
    go [] e = omega (arith, h, ap length e)
    go (id ∷ ids) e = take_from-weight id ids r (map_get id r.outgoing) refl
