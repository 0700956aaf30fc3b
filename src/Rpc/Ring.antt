-- ===== src/Rpc/Ring.antt =====
-- Fair framing of `multiplex-port.ts`: what each port has to put on the pipe (`outgoing`), and the turns
-- (`ring`).
use webrun_wire.Common.{ℕ, zero, suc, ◌+◌, List, [], ◌∷◌, ◌++◌, Option, none, some, ◌==◌}
use webrun_wire.Common.{if◌then◌else◌, length}
use webrun_wire.Common.Maps.{map_get, map_set, map_delete}
pub mod Fair
pub mod Drain

pub record Ring (A : Type 0) : Type 0 where
  pub outgoing : List (ℕ × List A)
  pub turns : List ℕ

-- `ring.splice(ring.indexOf(id), 1)`.
unfoldable pub splice : ℕ → List ℕ → List ℕ
splice id [] = []
splice id (i ∷ is) = if i == id then is else i ∷ splice id is

module _ {A : Type 0} where
  unfoldable pub new_ring : Ring A
  new_ring = record { outgoing = []; turns = [] }

  -- `sendOnPort`, up to its start of the pump.
  abbrev pub put_in : ℕ → A → Ring A → Option (List A) → Ring A
  put_in id item r none = record {
    outgoing = map_set id (item ∷ []) r.outgoing;
    turns = r.turns ++ (id ∷ []);
  }
  put_in id item r (some queue) = record r {
    outgoing = map_set id (queue ++ (item ∷ [])) r.outgoing;
  }

  unfoldable pub put : ℕ → A → Ring A → Ring A
  put id item r = put_in id item r (map_get id r.outgoing)

  -- One turn of the loop of `pump`: the item to run, if there is one, and the port's next turn if it has more.
  abbrev pub take_from : ℕ → List ℕ → Ring A → Option (List A) → Option A × Ring A
  take_from id ids r (some (item ∷ next ∷ more)) = (
    some item,
    record { outgoing = map_set id (next ∷ more) r.outgoing; turns = ids ++ (id ∷ []) },
  )
  take_from id ids r (some (item ∷ [])) =
      (some item, record { outgoing = map_delete id r.outgoing; turns = ids })
  take_from id ids r _ = (none, record { outgoing = map_delete id r.outgoing; turns = ids })

  abbrev pub take_turn : List ℕ → Ring A → Option A × Ring A
  take_turn [] r = (none, r)
  take_turn (id ∷ ids) r = take_from id ids r (map_get id r.outgoing)

  unfoldable pub take_item : Ring A → Option A × Ring A
  take_item r = take_turn r.turns r

  abbrev pub drop_from : ℕ → Ring A → Option (List A) → Ring A
  drop_from id r none = r
  drop_from id r (some queue) = record {
    outgoing = map_delete id r.outgoing;
    turns = splice id r.turns;
  }

  unfoldable pub drop_outgoing : ℕ → Ring A → Ring A
  drop_outgoing id r = drop_from id r (map_get id r.outgoing)

  -- The items and the turns that are left.
  abbrev pub items : List (ℕ × List A) → ℕ
  items [] = 0
  items ((id, queue) ∷ rest) = length queue + items rest

  unfoldable pub weight : Ring A → ℕ
  weight r = length r.turns + items r.outgoing
