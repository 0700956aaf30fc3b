-- ===== src/Streams/Credit/Ledger.antt =====
-- `newCreditLedger`: its state and its operations.
pub mod Invariant
pub mod Account
pub mod Order
use webrun_wire.Common.{ℕ, ◌+◌, ◌-◌, ◌<◌, min, List, [], ◌∷◌, ◌++◌, Option, none, some}
use webrun_wire.Common.{Bool, true, false, ◌&&◌, ltb, leb, if◌then◌else◌}

-- The `Error` values that reach a waiter: the RangeError of `reserve`, or one given to `fail`.
pub data Failure : Type 0 where
  range_error : Failure
  failed : ℕ → Failure

pub record Waiter : Type 0 where
  pub ticket : ℕ
  pub up_to : ℕ

pub data Settled : Type 0 where
  resolved : (ticket granted : ℕ) → Settled
  rejected : (ticket : ℕ) → Failure → Settled

pub record Ledger : Type 0 where
  pub available : ℕ
  pub failure : Option Failure
  pub waiters : List Waiter

unfoldable pub new_credit_ledger : ℕ → Ledger
new_credit_ledger initial = record { available = initial; failure = none; waiters = [] }

-- The loop of `pump` over what is available and who waits: what is left of both, and who was served.
unfoldable pub pump_loop : ℕ → List Waiter → ℕ × List Waiter × List Settled
pump_loop available [] = (available, [], [])
pump_loop available (next ∷ waiters) =
    let granted = min next.up_to available in
    let served = pump_loop (available - granted) waiters in
    if ltb 0 available
    then (served.0, served.1, resolved next.ticket granted ∷ served.2)
    else (available, next ∷ waiters, [])

unfoldable pub pump : Ledger → Ledger × List Settled
unfolding pump_loop
pump l =
    let p = pump_loop l.available l.waiters in (record l { available = p.0; waiters = p.1 }, p.2)

abbrev is_empty : List Waiter → Bool
is_empty [] = true
is_empty (_ ∷ _) = false

-- `reserve` once the checks for a failed ledger and for `upTo >= 1` are passed.
unfoldable pub reserve_checked : ℕ → ℕ → Ledger → Ledger × List Settled
reserve_checked ticket up_to l =
    let granted = min up_to l.available in
    if is_empty l.waiters && ltb 0 l.available
    then (record l { available = l.available - granted }, resolved ticket granted ∷ [])
    else (record l { waiters = l.waiters ++ (record { ticket = ticket; up_to = up_to } ∷ []) }, [])

unfoldable pub reserve : ℕ → ℕ → Ledger → Ledger × List Settled
unfolding reserve_checked
reserve ticket up_to l = elim l.failure [
  | some e ↦ (l, rejected ticket e ∷ [])
  | none ↦
      if leb 1 up_to then reserve_checked ticket up_to l else (l, rejected ticket range_error ∷ [])
]

unfoldable pub grant : ℕ → Ledger → Ledger × List Settled
unfolding pump
grant units l = elim l.failure [
  | some e ↦ (l, [])
  | none ↦ pump (record l { available = l.available + units })
]

unfoldable pub reject_all : Failure → List Waiter → List Settled
reject_all e [] = []
reject_all e (w ∷ ws) = rejected w.ticket e ∷ reject_all e ws

abbrev or_else : Option Failure → Failure → Failure
or_else none e = e
or_else (some f) e = f

unfoldable pub fail : Failure → Ledger → Ledger × List Settled
unfolding reject_all
fail e l = (record l { failure = some (or_else l.failure e); waiters = [] }, reject_all e l.waiters)

-- A client's calls in order.
pub data Call : Type 0 where
  reserve_call : (ticket up_to : ℕ) → Call
  grant_call : ℕ → Call
  fail_call : Failure → Call

unfoldable pub step : Call → Ledger → Ledger × List Settled
step (reserve_call t n) l = reserve t n l
step (grant_call n) l = grant n l
step (fail_call e) l = fail e l

-- The ledger after the calls, and everything that they settled, in order.
unfoldable pub run : List Call → Ledger → Ledger × List Settled
run [] l = (l, [])
run (c ∷ cs) l = let first = step c l in let rest = run cs first.0 in (rest.0, first.1 ++ rest.1)
