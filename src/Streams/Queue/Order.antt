-- ===== src/Streams/Queue/Order.antt =====
-- The order in which the inbound queue settles its chunks, and which of them count as handled.
use webrun_wire.Common.{
  ℕ, ◌≡◌, ◌⊎◌, refl, sym, ap, ◌∙◌, arith, List, [], ◌∷◌, ◌++◌, append_assoc, append-nil,
}
use webrun_wire.Common.{Option, none, some, true, false}
use webrun_wire.Streams.Queue.{
  Slot, value, done_slot, Queue, Handled, Event, push_event, done_event, pull_event,
}
use webrun_wire.Streams.Queue.{
  refuse, push, done, pull, advance, outcome, resumed, yields, finish, step, run,
}

abbrev pub values : {Err : Type 0} → List (Slot Err) → List (List ℕ)
values [] = []
values (value v ∷ slots) = v ∷ values slots
values (done_slot e ∷ slots) = values slots

abbrev pub held : Option (List ℕ) → List (List ℕ)
held none = []
held (some v) = v ∷ []

-- The chunks whose promise is not settled yet, in the order in which they came.
abbrev pub unsettled : {Err : Type 0} → Queue Err → List (List ℕ)
unsettled q = held q.taken ++ values q.slots

abbrev pub chunks : Handled → List (List ℕ)
chunks [] = []
chunks ((v, b) ∷ hs) = v ∷ chunks hs

-- The chunks that are reported as handled.
abbrev pub handled : Handled → List (List ℕ)
handled [] = []
handled ((v, true) ∷ hs) = v ∷ handled hs
handled ((v, false) ∷ hs) = handled hs

abbrev pub pushed : {Err : Type 0} → List (Event Err) → List (List ℕ)
pushed [] = []
pushed (push_event v ∷ es) = v ∷ pushed es
pushed (done_event e ∷ es) = pushed es
pushed (pull_event ∷ es) = pushed es

-- A closed queue holds nothing.
abbrev pub IsValid : {Err : Type 0} → Queue Err → Type 0
IsValid q = (q.queue_closed ≡ false) ⊎ (unsettled q ≡ [])

module _ {Err : Type 0} where
  values-append : (xs ys : List (Slot Err)) → values (xs ++ ys) ≡ values xs ++ values ys
  values-append [] ys = refl
  values-append (value v ∷ xs) ys = ap (λ r. v ∷ r) (values-append xs ys)
  values-append (done_slot e ∷ xs) ys = values-append xs ys

  chunks-refuse : (slots : List (Slot Err)) → chunks (refuse slots) ≡ values slots
  unfolding refuse
  chunks-refuse [] = refl
  chunks-refuse (value v ∷ xs) = ap (λ r. v ∷ r) (chunks-refuse xs)
  chunks-refuse (done_slot e ∷ xs) = chunks-refuse xs

  handled-refuse : (slots : List (Slot Err)) → handled (refuse slots) ≡ []
  unfolding refuse
  handled-refuse [] = refl
  handled-refuse (value v ∷ xs) = handled-refuse xs
  handled-refuse (done_slot e ∷ xs) = handled-refuse xs

chunks-append : (xs ys : Handled) → chunks (xs ++ ys) ≡ chunks xs ++ chunks ys
chunks-append [] ys = refl
chunks-append ((v, b) ∷ xs) ys = ap (λ r. v ∷ r) (chunks-append xs ys)

handled-append : (xs ys : Handled) → handled (xs ++ ys) ≡ handled xs ++ handled ys
handled-append [] ys = refl
handled-append ((v, true) ∷ xs) ys = ap (λ r. v ∷ r) (handled-append xs ys)
handled-append ((v, false) ∷ xs) ys = handled-append xs ys

chunks-resumed : (t : Option (List ℕ)) → chunks (resumed t) ≡ held t
chunks-resumed none = refl
chunks-resumed (some v) = refl

handled-resumed : (t : Option (List ℕ)) → handled (resumed t) ≡ held t
handled-resumed none = refl
handled-resumed (some v) = refl

-- One event keeps the account of the chunks and of the handled ones.
abbrev Keeps : {Err : Type 0} → Event Err → Queue Err → Type 0
Keeps e q =
    let r = step e q in
    (chunks r.2 ++ unsettled r.0 ≡ unsettled q ++ pushed (e ∷ []))
    × (handled r.2 ++ held r.0.taken ≡ held q.taken ++ r.1)
    × IsValid r.0

module _ {Err : Type 0} where
  push-Keeps : (v : List ℕ) (q : Queue Err) → IsValid q → Keeps (push_event v) q
  unfolding step push
  push-Keeps v q h = ground (
    arith,
    values-append q.slots (value v ∷ []),
    append_assoc (held q.taken) (values q.slots) (v ∷ []),
    append-nil (held q.taken),
  )

  done-Keeps : (e : Option Err) (q : Queue Err) → IsValid q → Keeps (done_event e) q
  unfolding step done
  done-Keeps e q h = ground (
    arith,
    values-append q.slots (done_slot e ∷ []),
    append-nil (values q.slots),
    append-nil (held q.taken),
    append-nil (unsettled q),
  )

  finish-Keeps :
      (e : Option Err) (slots : List (Slot Err)) (t : Option (List ℕ))
      → let out = resumed t ++ refuse slots in
        (chunks out ++ [] ≡ (held t ++ values slots) ++ []) × (handled out ++ [] ≡ held t ++ [])
  finish-Keeps e slots none =
      (ap (λ r. r ++ []) (chunks-refuse slots), ap (λ r. r ++ []) (handled-refuse slots))
  finish-Keeps e slots (some v) = (
    ap (λ r. v ∷ (r ++ [])) (chunks-refuse slots),
    ap (λ r. v ∷ (r ++ [])) (handled-refuse slots),
  )

  yields-outcome : (e : Option Err) → yields (outcome e) ≡ []
  yields-outcome none = refl
  yields-outcome (some e) = refl

  advance-Keeps :
      (slots : List (Slot Err)) (q : Queue Err)
      → q.slots ≡ slots
      → IsValid q
      → let r = advance slots q in
        (chunks r.2 ++ unsettled r.0 ≡ unsettled q ++ [])
        × (handled r.2 ++ held r.0.taken ≡ held q.taken ++ yields r.1)
        × IsValid r.0
  unfolding finish
  advance-Keeps [] q e h =
      ground (arith, chunks-resumed q.taken, handled-resumed q.taken, append-nil (held q.taken))
  advance-Keeps (value v ∷ slots) q e h = ground (
    arith,
    chunks-resumed q.taken,
    handled-resumed q.taken,
    append-nil (held q.taken),
    append-nil (unsettled q),
  )
  advance-Keeps (done_slot x ∷ slots) q e h =
      ground (arith, finish-Keeps x slots q.taken, yields-outcome x)

  pull-Keeps : (q : Queue Err) → IsValid q → Keeps pull_event q
  unfolding step pull
  pull-Keeps q h =
      ground
        (arith, advance-Keeps q.slots q refl h, append-nil (unsettled q), append-nil (held q.taken))

  step-Keeps : (e : Event Err) (q : Queue Err) → IsValid q → Keeps e q
  step-Keeps (push_event v) q h = push-Keeps v q h
  step-Keeps (done_event e) q h = done-Keeps e q h
  step-Keeps pull_event q h = pull-Keeps q h

  pushed-cons :
      (e : Event Err) (es : List (Event Err)) → pushed (e ∷ es) ≡ pushed (e ∷ []) ++ pushed es
  pushed-cons (push_event v) es = refl
  pushed-cons (done_event e) es = refl
  pushed-cons pull_event es = refl

  -- Over any pushes, `done` calls and `next` calls, each chunk's promise is settled at most once and in
  -- the order of the pushes: those settled, then those still in the queue, are those that were in the
  -- queue at first and those pushed, in order. The chunks reported as handled are those that the
  -- consumer was given, in order, but the one that it still holds.
  pub run_in_order :
      (es : List (Event Err)) (q : Queue Err)
      → IsValid q
      → let r = run es q in
        (chunks r.2 ++ unsettled r.0 ≡ unsettled q ++ pushed es)
        × (handled r.2 ++ held r.0.taken ≡ held q.taken ++ r.1)
  unfolding run
  run_in_order [] q h = (sym (append-nil _), sym (append-nil _))
  run_in_order (e ∷ es) q h =
      let first = step e q in
      let rest = run es first.0 in
      let (kept, given, valid) = step-Keeps e q h in
      let (kept', given') = run_in_order es first.0 valid in
      (
        ap (λ r. r ++ unsettled rest.0) (chunks-append first.2 rest.2)
            ∙ append_assoc (chunks first.2) (chunks rest.2) (unsettled rest.0)
            ∙ ap (λ r. chunks first.2 ++ r) kept'
            ∙ sym (append_assoc (chunks first.2) (unsettled first.0) (pushed es))
            ∙ ap (λ r. r ++ pushed es) kept
            ∙ append_assoc (unsettled q) (pushed (e ∷ [])) (pushed es)
            ∙ ap (λ r. unsettled q ++ r) (sym (pushed-cons e es)),
        ap (λ r. r ++ held rest.0.taken) (handled-append first.2 rest.2)
            ∙ append_assoc (handled first.2) (handled rest.2) (held rest.0.taken)
            ∙ ap (λ r. handled first.2 ++ r) given'
            ∙ sym (append_assoc (handled first.2) (held first.0.taken) rest.1)
            ∙ ap (λ r. r ++ rest.1) given
            ∙ append_assoc (held q.taken) first.1 rest.1,
      )
