-- ===== src/Streams/Credit/Ledger/Invariant.antt =====
-- The well-formedness of a ledger.
use webrun_wire.Common.{ℕ, ◌+◌, ◌≤◌, ◌≡◌, ◌⊎◌, inl, refl, arith, List, [], ◌∷◌, ◌++◌, All}
use webrun_wire.Common.{none, min, ◌-◌}
use webrun_wire.Streams.Credit.Ledger.{Failure, Waiter, Ledger}
use webrun_wire.Streams.Credit.Ledger.{pump_loop, reserve, grant, fail, step}
use webrun_wire.Streams.Credit.Ledger.{Call, reserve_call, grant_call, fail_call}
use webrun_wire.Streams.Credit.Ledger.{run, new_credit_ledger}

-- What a waiter asked for.
abbrev pub AsksSome : Waiter → Type 0
AsksSome w = 1 ≤ w.up_to

-- Nobody waits while there is credit, nobody waits on a failed ledger, and a waiter asks for at
-- least one unit.
pub record IsValid (l : Ledger) : Type 0 where
  pub stalled : (l.waiters ≡ []) ⊎ (l.available ≡ 0)
  pub served : (l.waiters ≡ []) ⊎ (l.failure ≡ none)
  pub asks : All AsksSome l.waiters

All-snoc :
    (ws : List Waiter) (w : Waiter) → All AsksSome ws → AsksSome w → All AsksSome (ws ++ (w ∷ []))
All-snoc [] w h k = (k, tt)
All-snoc (x ∷ ws) w (hx, h) k = (hx, All-snoc ws w h k)

pump_loop_stalled : (a : ℕ) (ws : List Waiter) → let p = pump_loop a ws in (p.1 ≡ []) ⊎ (p.0 ≡ 0)
unfolding pump_loop
pump_loop_stalled a [] = inl refl
pump_loop_stalled a (w ∷ ws) = ground (arith, pump_loop_stalled (a - min w.up_to a) ws)

pump_loop-asks : (a : ℕ) (ws : List Waiter) → All AsksSome ws → All AsksSome (pump_loop a ws).1
unfolding pump_loop
pump_loop-asks a [] h = tt
pump_loop-asks a (w ∷ ws) h = ground (arith, pump_loop-asks (a - min w.up_to a) ws h.1)

pub new_credit_ledger-IsValid : (n : ℕ) → IsValid (new_credit_ledger n)
unfolding new_credit_ledger
new_credit_ledger-IsValid n = ground arith

pub reserve-IsValid : (t n : ℕ) {l : Ledger} → IsValid l → IsValid (reserve t n l).0
unfolding reserve
reserve-IsValid t n {l} v =
    ground (arith, All-snoc l.waiters (record { ticket = t; up_to = n }) v.asks)

pub grant-IsValid : (n : ℕ) {l : Ledger} → IsValid l → IsValid (grant n l).0
unfolding grant
grant-IsValid n {l} v = ground (
  arith,
  pump_loop_stalled (l.available + n) l.waiters,
  pump_loop-asks (l.available + n) l.waiters,
)

pub fail-IsValid : (e : Failure) {l : Ledger} → IsValid l → IsValid (fail e l).0
unfolding fail
fail-IsValid e v = ground arith

pub step-IsValid : (c : Call) {l : Ledger} → IsValid l → IsValid (step c l).0
unfolding step
step-IsValid (reserve_call t n) v = reserve-IsValid t n v
step-IsValid (grant_call n) v = grant-IsValid n v
step-IsValid (fail_call e) v = fail-IsValid e v

-- Every sequence of calls keeps a well-formed ledger well formed: nobody waits while there is credit,
-- nobody waits once it has failed, and each that waits asked for at least one unit.
pub run-IsValid : (cs : List Call) {l : Ledger} → IsValid l → IsValid (run cs l).0
unfolding run
run-IsValid [] v = v
run-IsValid (c ∷ cs) v = run-IsValid cs (step-IsValid c v)
