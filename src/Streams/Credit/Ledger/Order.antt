-- ===== src/Streams/Credit/Ledger/Order.antt =====
-- The order in which a ledger serves, and how much each is granted.
use webrun_wire.Common.{
  ℕ, ◌+◌, ◌-◌, ◌≤◌, ◌≡◌, refl, sym, ap, ◌∙◌, arith, min, append_assoc, append-nil,
}
use webrun_wire.Common.{◌&&◌, List, [], ◌∷◌, ◌++◌, All, ltb, Bool-cases, inl, inr, Option-cases}
use webrun_wire.Streams.Credit.Ledger.{Failure, Waiter, Settled, Ledger, resolved, rejected}
use webrun_wire.Streams.Credit.Ledger.{pump_loop, reserve, grant, fail, reject_all, step, run}
use webrun_wire.Streams.Credit.Ledger.{is_empty, Call, reserve_call, grant_call, fail_call}
use webrun_wire.Streams.Credit.Ledger.Invariant.{AsksSome, IsValid, step-IsValid}

-- The reservations that the calls make, in order.
abbrev pub asked : List Call → List Waiter
asked [] = []
asked (reserve_call t n ∷ cs) = record { ticket = t; up_to = n } ∷ asked cs
asked (grant_call n ∷ cs) = asked cs
asked (fail_call e ∷ cs) = asked cs

-- A settled promise answers a reservation: it is that one's, and a grant is of 1 to `up_to` units.
abbrev pub Answers : Settled → Waiter → Type 0
Answers (resolved t n) w = (t ≡ w.ticket) × (1 ≤ n) × (n ≤ w.up_to)
Answers (rejected t e) w = t ≡ w.ticket

-- The settled promises answer these reservations, one by one and in this order.
abbrev pub AnswersAll : List Settled → List Waiter → Type 0
AnswersAll [] [] = Unit {0}
AnswersAll [] (w ∷ ws) = ⊥
AnswersAll (s ∷ ss) [] = ⊥
AnswersAll (s ∷ ss) (w ∷ ws) = Answers s w × AnswersAll ss ws

AnswersAll-append :
    (s : List Settled) (w : List Waiter) (s' : List Settled) (w' : List Waiter)
    → AnswersAll s w
    → AnswersAll s' w'
    → AnswersAll (s ++ s') (w ++ w')
AnswersAll-append [] [] s' w' h k = k
AnswersAll-append [] (x ∷ w) s' w' h k = absurd h
AnswersAll-append (x ∷ s) [] s' w' h k = absurd h
AnswersAll-append (x ∷ s) (y ∷ w) s' w' h k = (h.0, AnswersAll-append s w s' w' h.1 k)

-- `out` answers a first part of `queue`, and what is left of it is `rest`.
abbrev Serves : List Settled → List Waiter → List Waiter → Type 0
Serves out rest queue = (done : List Waiter) × (done ++ rest ≡ queue) × AnswersAll out done

pump_loop-Serves :
    (a : ℕ) (ws : List Waiter) → All AsksSome ws → let p = pump_loop a ws in Serves p.2 p.1 ws
unfolding pump_loop
pump_loop-Serves a [] h = ([], refl, tt)
pump_loop-Serves a (w ∷ ws) h = elim (Bool-cases (ltb 0 a)) [
  | inl e ↦
      let (done, joined, answered) = pump_loop-Serves (a - min w.up_to a) ws h.1 in
      rw e (w ∷ done, ap (λ r. w ∷ r) joined, ((refl, ground arith, ground arith), answered))
  | inr e ↦ rw e ([], refl, tt)
]

reject_all-AnswersAll : (e : Failure) (ws : List Waiter) → AnswersAll (reject_all e ws) ws
unfolding reject_all
reject_all-AnswersAll e [] = tt
reject_all-AnswersAll e (w ∷ ws) = (refl, reject_all-AnswersAll e ws)

reserve-Serves :
    (t n : ℕ) (l : Ledger)
    → IsValid l
    → 1 ≤ n
    → let r = reserve t n l in
      Serves r.1 r.0.waiters (l.waiters ++ (record { ticket = t; up_to = n } ∷ []))
unfolding reserve
reserve-Serves t n l v h = elim (Option-cases l.failure) [
  | inr (f, e) ↦ elim v.served [
    | inl nobody ↦ (record { ticket = t; up_to = n } ∷ [], ground arith, ground arith)
    | inr fine ↦ cc
  ]
  | inl e ↦ elim (Bool-cases (is_empty l.waiters && ltb 0 l.available)) [
    | inl now ↦ (record { ticket = t; up_to = n } ∷ [], ground arith, ground arith)
    | inr later ↦ ([], ground arith, ground arith)
  ]
]

grant-Serves :
    (n : ℕ) (l : Ledger)
    → All AsksSome l.waiters
    → let r = grant n l in Serves r.1 r.0.waiters l.waiters
unfolding grant
grant-Serves n l h = elim (Option-cases l.failure) [
  | inl e ↦ rw e (pump_loop-Serves (l.available + n) l.waiters h)
  | inr (f, e) ↦ rw e ([], refl, tt)
]

fail-Serves : (e : Failure) (l : Ledger) → let r = fail e l in Serves r.1 r.0.waiters l.waiters
unfolding fail
fail-Serves e l = (l.waiters, append-nil l.waiters, reject_all-AnswersAll e l.waiters)

step-Serves :
    (c : Call) (l : Ledger)
    → IsValid l
    → All AsksSome (asked (c ∷ []))
    → let r = step c l in Serves r.1 r.0.waiters (l.waiters ++ asked (c ∷ []))
unfolding step
step-Serves (reserve_call t n) l v h = reserve-Serves t n l v h.0
step-Serves (grant_call n) l v h = rw append-nil (grant-Serves n l v.asks)
step-Serves (fail_call e) l v h = rw append-nil (fail-Serves e l)

asked-cons : (c : Call) (cs : List Call) → asked (c ∷ cs) ≡ asked (c ∷ []) ++ asked cs
asked-cons (reserve_call t n) cs = refl
asked-cons (grant_call n) cs = refl
asked-cons (fail_call e) cs = refl

All-append_left : (xs ys : List Waiter) → All AsksSome (xs ++ ys) → All AsksSome xs
All-append_left [] ys h = tt
All-append_left (x ∷ xs) ys h = (h.0, All-append_left xs ys h.1)

All-append_right : (xs ys : List Waiter) → All AsksSome (xs ++ ys) → All AsksSome ys
All-append_right [] ys h = h
All-append_right (x ∷ xs) ys h = All-append_right xs ys h.1

-- Two runs of calls after one another.
Serves-append :
    (o o' : List Settled) (rest rest' queue more : List Waiter)
    → Serves o rest queue
    → Serves o' rest' (rest ++ more)
    → Serves (o ++ o') rest' (queue ++ more)
Serves-append o o' rest rest' queue more (d, e, a) (d', e', a') = (
  d ++ d',
  append_assoc d d' rest'
      ∙ ap (λ r. d ++ r) e'
      ∙ sym (append_assoc d rest more)
      ∙ ap (λ r. r ++ more) e,
  AnswersAll-append o d o' d' a a',
)

-- If every call asks for at least one unit, the promises that the calls settle answer the first of the
-- reservations made, those that waited before them included, one by one and in the order they were
-- made in; a promise that is resolved grants from 1 unit to what was asked for; and who still waits at
-- the end is the rest of the reservations, in order.
pub run_grants_in_order :
    (cs : List Call) (l : Ledger)
    → IsValid l
    → All AsksSome (asked cs)
    → let r = run cs l in
      (done : List Waiter) × (done ++ r.0.waiters ≡ l.waiters ++ asked cs) × AnswersAll r.1 done
unfolding run
run_grants_in_order [] l v h = ([], sym (append-nil l.waiters), tt)
run_grants_in_order (c ∷ cs) l v h =
    let both : All AsksSome (asked (c ∷ []) ++ asked cs) = rw (asked-cons c cs) at h in
    let first = step c l in
    let (done, joined, answered) =
      Serves-append first.1 (run cs first.0).1 first.0.waiters (run cs first.0).0.waiters
        (l.waiters ++ asked (c ∷ [])) (asked cs)
        (step-Serves c l v (All-append_left (asked (c ∷ [])) (asked cs) both))
        (run_grants_in_order cs first.0 (step-IsValid c v)
          (All-append_right (asked (c ∷ [])) (asked cs) both)) in
    (
      done,
      joined
          ∙ append_assoc l.waiters (asked (c ∷ [])) (asked cs)
          ∙ ap (λ r. l.waiters ++ r) (sym (asked-cons c cs)),
      answered,
    )
