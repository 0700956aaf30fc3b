-- ===== src/Rpc/Credit/Window.antt =====
-- What `flush` lets go.
use webrun_wire.Common.{
  ℕ, ◌+◌, ◌≤◌, ◌<◌, ◌⊎◌, Bool, ◌≡◌, refl, ap, arith, List, [], ◌∷◌, ◌++◌, sum, max,
}
use webrun_wire.Common.{true, false, inl, inr, Bool-cases, All}
use webrun_wire.Rpc.Credit.{Queued, Credit, waits, shifted, flush_queue}

abbrev pub sizes : List Queued → List ℕ
sizes [] = []
sizes (q ∷ qs) = q.size ∷ sizes qs

-- The queue is empty, or its first item is held back: it costs something, the window is enforced, something is
-- outstanding, and the item does not fit with it.
abbrev pub IsFlushed : List Queued → Credit → Type 0
IsFlushed [] c = Unit
IsFlushed (q ∷ qs) c =
    (c.enforced ≡ true) × (1 ≤ q.size) × (1 ≤ c.outstanding) × (c.window < (c.outstanding + q.size))

-- Items that leave one after the other, where so much is outstanding before: each costs nothing, or the window
-- is not enforced, or nothing is outstanding, or the item fits the window with what is.
abbrev pub MayLeave : (window : ℕ) (enforced : Bool) (outstanding : ℕ) → List Queued → Type 0
MayLeave window enforced outstanding [] = Unit
MayLeave window enforced outstanding (q ∷ qs) =
    ((q.size ≡ 0) ⊎ ((enforced ≡ false) ⊎ ((outstanding ≡ 0) ⊎ ((outstanding + q.size) ≤ window))))
    × MayLeave window enforced (outstanding + q.size) qs

held_back :
    (c : Credit) (n : ℕ)
    → waits c n ≡ true
    → (c.enforced ≡ true) × (1 ≤ n) × (1 ≤ c.outstanding) × (c.window < (c.outstanding + n))
unfolding waits
held_back c n w = (ground (arith, w), ground (arith, w), ground (arith, w), ground (arith, w))

leaves_lem :
    (c : Credit) (n : ℕ)
    → waits c n ≡ false
    → (n ≡ 0) ⊎ ((c.enforced ≡ false) ⊎ ((c.outstanding ≡ 0) ⊎ ((c.outstanding + n) ≤ c.window)))
unfolding waits
leaves_lem c n w = ground (arith, w)

-- An item that may leave costs nothing, or is not held back, or is alone, or fits.
waits_le :
    (c : Credit) (n most : ℕ)
    → waits c n ≡ false
    → c.enforced ≡ true
    → n ≤ most
    → c.outstanding ≤ max c.window most
    → (c.outstanding + n) ≤ max c.window most
unfolding waits
waits_le c n most w on s h = ground arith

-- What relates a credit that `flush` starts with, its queue `qs`, and the credit and the items it ends with:
-- the items are the first ones of the queue, in order, and the others stay; the sizes move with them.
pub record Flushed (qs : List Queued) (c : Credit) (r : Credit × List Queued) : Type 0 where
  pub order : (r.1 ++ r.0.queue) ≡ qs
  pub spent : r.0.outstanding ≡ (c.outstanding + sum (sizes r.1))
  pub held : c.queued ≡ sum (sizes qs) → r.0.queued ≡ sum (sizes r.0.queue)
  pub allowed : MayLeave c.window c.enforced c.outstanding r.1
  pub blocked : IsFlushed r.0.queue r.0
  pub kept : (r.0.window ≡ c.window) × (r.0.enforced ≡ c.enforced)

-- `flush` sends the first items of the queue in order. Each of them may leave: it costs nothing, or the window is
-- not enforced, or nothing is outstanding, or it fits the window with what is. And the first that stays may not:
-- none of these holds of it. What is sent is added to `outstanding`, and `queued` stays the sum of the sizes that
-- are left.
pub flush_queue-Flushed : (qs : List Queued) (c : Credit) → Flushed qs c (flush_queue qs c)
unfolding flush_queue
flush_queue-Flushed [] c = record {
  order = refl;
  spent = omega arith;
  held = λ h. h;
  allowed = tt;
  blocked = tt;
  kept = (refl, refl);
}
flush_queue-Flushed (q ∷ qs) c = elim (Bool-cases (waits c q.size)) [
  | inl w ↦ rw w (record {
    order = refl;
    spent = omega arith;
    held = λ h. h;
    allowed = tt;
    blocked = held_back c q.size w;
    kept = (refl, refl);
  })
  | inr go ↦ rw go (
      let rest = flush_queue-Flushed qs (shifted q qs c) in
      record {
        order = ap (λ r. q ∷ r) rest.order;
        spent = omega (arith, rest.spent);
        held = λ h. rest.held (omega arith);
        allowed = (leaves_lem c q.size go, rest.allowed);
        blocked = rest.blocked;
        kept = rest.kept;
      })
]

-- Where the window is enforced and no item is larger than `most`, what is outstanding stays within the
-- window, or within `most` where that is larger.
pub flush_queue-le :
    (most : ℕ) (qs : List Queued) (c : Credit)
    → c.enforced ≡ true
    → All (λ q. q.size ≤ most) qs
    → c.outstanding ≤ max c.window most
    → (flush_queue qs c).0.outstanding ≤ max c.window most
unfolding flush_queue
flush_queue-le most [] c on small h = h
flush_queue-le most (q ∷ qs) c on (s, small) h = elim (Bool-cases (waits c q.size)) [
  | inl w ↦ rw w h
  | inr go ↦
      rw go (flush_queue-le most qs (shifted q qs c) on small (waits_le c q.size most go on s h))
]
