-- ===== src/Streams/Credit/Grantor.antt =====
-- `newCreditGrantor`. The threshold is a fraction `num / den` (the default 0.5 is 1 / 2), and the
-- window and the units are natural numbers, as every caller passes them.
use webrun_wire.Common.{ℕ, ◌+◌, ◌*◌, ◌/◌, ◌≤◌, ◌<◌, max, ◌≡◌, ◌⊎◌, arith}
use webrun_wire.Common.{List, [], ◌∷◌, Bool, true, false, not, ◌&&◌, ltb, ◌==◌, if◌then◌else◌}

pub record Grantor : Type 0 where
  pub trigger : ℕ
  pub pending : ℕ

unfoldable pub new_credit_grantor : (window num den : ℕ) → Grantor
new_credit_grantor window num den = record { trigger = max 1 (window * num / den); pending = 0 }

-- The grantor after `consumed(units, queueEmpty)`, and the grant to send, 0 for none.
unfoldable pub consumed : ℕ → Bool → Grantor → Grantor × ℕ
consumed units queue_empty g =
    let total = g.pending + units in
    if total == 0
    then (record g { pending = total }, 0)
    else if ltb total g.trigger && not queue_empty
    then (record g { pending = total }, 0)
    else (record g { pending = 0 }, total)

-- A consumer's drains in order: what each takes, and whether it leaves the queue empty.
unfoldable pub drains : List (ℕ × Bool) → Grantor → Grantor × ℕ
drains [] g = (g, 0)
drains ((units, queue_empty) ∷ ds) g =
    let first = consumed units queue_empty g in
    let rest = drains ds first.0 in (rest.0, first.1 + rest.1)

abbrev pub drained : List (ℕ × Bool) → ℕ
drained [] = 0
drained ((units, queue_empty) ∷ ds) = units + drained ds

-- Whatever was drained is granted, at once or later: each call either keeps the whole batch, when it
-- is below the trigger and the queue is not empty, or grants all of it.
pub consumed_cases :
    (units : ℕ) (e : Bool) (g : Grantor)
    → let r = consumed units e g in
      ((r.1 ≡ 0)
        × (r.0.pending ≡ g.pending + units)
        × ((g.pending + units ≡ 0) ⊎ ((e ≡ false) × (g.pending + units < g.trigger))))
      ⊎ ((r.1 ≡ g.pending + units) × (1 ≤ r.1) × (r.0.pending ≡ 0))
unfolding consumed
consumed_cases units e g = ground arith

pub consumed-account :
    (units : ℕ) (e : Bool) (g : Grantor)
    → let r = consumed units e g in
      (r.1 + r.0.pending ≡ g.pending + units) × (r.0.trigger ≡ g.trigger)
unfolding consumed
consumed-account units e g = ground arith

pub consumed_flush : (units : ℕ) (g : Grantor) → (consumed units true g).0.pending ≡ 0
unfolding consumed
consumed_flush units g = ground arith

-- Below the trigger, or nothing.
abbrev pub IsBelow : Grantor → Type 0
IsBelow g = g.pending < g.trigger

consumed-IsBelow :
    (units : ℕ) (e : Bool) (g : Grantor) → 1 ≤ g.trigger → IsBelow (consumed units e g).0
unfolding consumed
consumed-IsBelow units e g h = ground arith

-- Over any drains by a grantor that holds back less than its trigger, what it granted and what it holds
-- back at the end is what it held back at first and what was drained, and it never holds back as much as
-- its trigger.
pub drains-account :
    (ds : List (ℕ × Bool)) (g : Grantor)
    → IsBelow g
    → let r = drains ds g in (r.1 + r.0.pending ≡ g.pending + drained ds) × IsBelow r.0
unfolding drains
drains-account [] g h = ground arith
drains-account ((units, e) ∷ ds) g h = ground (
  arith,
  consumed-account units e g,
  consumed-IsBelow units e g,
  drains-account ds (consumed units e g).0,
)
