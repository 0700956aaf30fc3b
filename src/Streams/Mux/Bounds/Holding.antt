-- ===== src/Streams/Mux/Bounds/Holding.antt =====
-- The bytes that a queue holds for its consumer, under the operations of the queue.
use webrun_wire.Common.{
  ℕ, ◌+◌, ◌≤◌, ◌≡◌, refl, ap, arith, List, [], ◌∷◌, ◌++◌, length, Option, none, some,
}
use webrun_wire.Common.{Bool, false, ◌||◌, Bool-cases, inl, inr}
use webrun_wire.Streams.Mux.State.{Error}
use webrun_wire.Streams.Queue.{Queue, Slot, value, done_slot, Handled, push, done, pull, cancel}
use webrun_wire.Streams.Queue.{
  refuse, finish, advance, resumed, Pulled, returned, Phase, fresh, active, ended,
}
use webrun_wire.Streams.Mux.Bounds.{held, held_slots, held_taken}

-- The bytes of the chunks that are settled.
abbrev pub handled_bytes : Handled → ℕ
handled_bytes [] = 0
handled_bytes ((chunk, b) ∷ hs) = length chunk + handled_bytes hs

handled_bytes-append :
    (hs ks : Handled) → handled_bytes (hs ++ ks) ≡ handled_bytes hs + handled_bytes ks
handled_bytes-append [] ks = omega arith
handled_bytes-append ((chunk, b) ∷ hs) ks = omega (arith, handled_bytes-append hs ks)

held_slots-append :
    (slots more : List (Slot Error))
    → held_slots (slots ++ more) ≡ held_slots slots + held_slots more
held_slots-append [] more = omega arith
held_slots-append (value chunk ∷ slots) more = omega (arith, held_slots-append slots more)
held_slots-append (done_slot e ∷ slots) more = held_slots-append slots more

handled_bytes-refuse : (slots : List (Slot Error)) → handled_bytes (refuse slots) ≡ held_slots slots
unfolding refuse
handled_bytes-refuse [] = refl
handled_bytes-refuse (value chunk ∷ slots) = omega (arith, handled_bytes-refuse slots)
handled_bytes-refuse (done_slot e ∷ slots) = handled_bytes-refuse slots

handled_bytes-resumed : (o : Option (List ℕ)) → handled_bytes (resumed o) ≡ held_taken o
handled_bytes-resumed none = refl
handled_bytes-resumed (some chunk) = omega arith

pub held-push :
    (chunk : List ℕ) (q : Queue Error)
    → held (push chunk q).0 + handled_bytes (push chunk q).1 ≡ held q + length chunk
unfolding push
held-push chunk q = elim (Bool-cases q.queue_closed) [
  | inl h ↦ rw h (omega arith)
  | inr h ↦ rw h (omega (arith, held_slots-append q.slots (value chunk ∷ [])))
]

pub held-done : (e : Option Error) (q : Queue Error) → held (done e q) ≡ held q
unfolding done
held-done e q = elim (Bool-cases (q.queue_closed || q.done_called)) [
  | inl h ↦ rw h refl
  | inr h ↦ rw h (omega (arith, held_slots-append q.slots (done_slot e ∷ [])))
]

held-advance :
    (slots : List (Slot Error)) (q : Queue Error)
    → q.slots ≡ slots
    → held (advance slots q).0 + handled_bytes (advance slots q).2
      ≡ held_slots slots + held_taken q.taken
unfolding finish
held-advance [] q e = omega (arith, handled_bytes-resumed q.taken, ap held_slots e)
held-advance (value chunk ∷ slots) q e = omega (arith, handled_bytes-resumed q.taken)
held-advance (done_slot x ∷ slots) q e = omega (
  arith,
  handled_bytes-append (resumed q.taken) (refuse slots),
  handled_bytes-resumed q.taken,
  handled_bytes-refuse slots,
)

pub held-pull : (q : Queue Error) → held (pull q).0 + handled_bytes (pull q).2 ≤ held q
unfolding pull
held-pull q = go q.phase
  where
    Holds : Queue Error × Pulled Error × Handled × Bool → Type 0
    Holds r = held r.0 + handled_bytes r.2 ≤ held q

    go :
        (p : Phase)
        → Holds (elim p as (λ x. Queue Error × Pulled Error × Handled × Bool) [
          | ended ↦ (q, returned, [], false)
          | _ ↦ advance q.slots q
        ])
    go fresh = omega (arith, held-advance q.slots q refl)
    go active = omega (arith, held-advance q.slots q refl)
    go ended = omega arith

pub held-cancel : (q : Queue Error) → held (cancel q).0 + handled_bytes (cancel q).1 ≤ held q
unfolding cancel finish
held-cancel q = go q.phase
  where
    Holds : Queue Error × Handled × Bool → Type 0
    Holds r = held r.0 + handled_bytes r.1 ≤ held q

    go :
        (p : Phase)
        → Holds (elim p as (λ x. Queue Error × Handled × Bool) [
          | fresh ↦ (record q { phase = ended }, [], false)
          | active ↦ finish q
          | ended ↦ (q, [], false)
        ])
    go fresh = omega arith
    go active = omega (arith, handled_bytes-refuse q.slots)
    go ended = omega arith
