-- ===== src/Streams/Credit/Ledger/Account.antt =====
-- The account of a ledger: what is promised to callers, against what the peer has authorised.
use webrun_wire.Common.{ℕ, ◌+◌, ◌-◌, ◌≡◌, refl, arith, List, [], ◌∷◌, ◌++◌, min}
use webrun_wire.Common.{Option, none, some, Option-cases, inl, inr}
use webrun_wire.Streams.Credit.Ledger.{Failure, Waiter, Settled, Ledger, resolved, rejected}
use webrun_wire.Streams.Credit.Ledger.{pump_loop, reserve, grant, fail, reject_all, step, run}
use webrun_wire.Streams.Credit.Ledger.{Call, reserve_call, grant_call, fail_call}

-- The units that a list of settled promises handed out.
abbrev pub paid : List Settled → ℕ
paid [] = 0
paid (resolved t n ∷ ss) = n + paid ss
paid (rejected t e ∷ ss) = paid ss

pub paid-append : (xs ys : List Settled) → paid (xs ++ ys) ≡ paid xs + paid ys
paid-append [] ys = omega arith
paid-append (resolved t n ∷ xs) ys = omega (arith, paid-append xs ys)
paid-append (rejected t e ∷ xs) ys = paid-append xs ys

-- What the peer authorised by the calls, until the ledger has failed.
abbrev pub authorised : Option Failure → List Call → ℕ
authorised (some e) cs = 0
authorised none [] = 0
authorised none (reserve_call t n ∷ cs) = authorised none cs
authorised none (grant_call n ∷ cs) = n + authorised none cs
authorised none (fail_call e ∷ cs) = 0

pub pump_loop-account : (a : ℕ) (ws : List Waiter) → let p = pump_loop a ws in p.0 + paid p.2 ≡ a
unfolding pump_loop
pump_loop-account a [] = omega arith
pump_loop-account a (w ∷ ws) = ground (arith, pump_loop-account (a - min w.up_to a) ws)

paid-reject_all : (e : Failure) (ws : List Waiter) → paid (reject_all e ws) ≡ 0
unfolding reject_all
paid-reject_all e [] = refl
paid-reject_all e (w ∷ ws) = paid-reject_all e ws

reserve-account :
    (t n : ℕ) (l : Ledger) → let r = reserve t n l in r.0.available + paid r.1 ≡ l.available
unfolding reserve
reserve-account t n l = ground arith

failure-reserve : (t n : ℕ) (l : Ledger) → (reserve t n l).0.failure ≡ l.failure
unfolding reserve
failure-reserve t n l = ground arith

pub failure-grant : (n : ℕ) (l : Ledger) → (grant n l).0.failure ≡ l.failure
unfolding grant
failure-grant n l = ground arith

pub grant-account :
    (n : ℕ) (l : Ledger)
    → l.failure ≡ none
    → let r = grant n l in r.0.available + paid r.1 ≡ l.available + n
unfolding grant
grant-account n l h = ground (arith, pump_loop-account (l.available + n) l.waiters)

fail-account :
    (e : Failure) (l : Ledger) → let r = fail e l in r.0.available + paid r.1 ≡ l.available
unfolding fail
fail-account e l = ground (arith, paid-reject_all e l.waiters)

fail-failure : (e : Failure) (l : Ledger) → (f : Failure) × ((fail e l).0.failure ≡ some f)
unfolding fail
fail-failure e l = (_, refl)

paid_failed_grant :
    (n : ℕ) (l : Ledger) {e : Failure}
    → l.failure ≡ some e
    → ((grant n l).0.available ≡ l.available) × (paid (grant n l).1 ≡ 0)
unfolding grant
paid_failed_grant n l h = ground arith

step-account :
    (c : Call) (l : Ledger) (cs : List Call)
    → let r = step c l in
      r.0.available + paid r.1 + authorised r.0.failure cs
      ≡ l.available + authorised l.failure (c ∷ cs)
unfolding step
step-account (reserve_call t n) l cs = ground (arith, reserve-account t n l, failure-reserve t n l)
step-account (grant_call n) l cs = elim (Option-cases l.failure) [
  | inl e ↦ ground (arith, grant-account n l e, failure-grant n l)
  | inr (f, e) ↦ ground (arith, paid_failed_grant n l e, failure-grant n l)
]
step-account (fail_call e) l cs = ground (arith, fail-account e l, fail-failure e l)

-- Over any calls, what the ledger hands out and what it still holds is what it held at first and
-- what the peer authorised before the ledger failed.
pub run-account :
    (cs : List Call) (l : Ledger)
    → let r = run cs l in r.0.available + paid r.1 ≡ l.available + authorised l.failure cs
unfolding run
run-account [] l = ground arith
run-account (c ∷ cs) l =
    let first = step c l in
    omega
      (arith, step-account c l cs, run-account cs first.0, paid-append first.1 (run cs first.0).1)
