-- ===== src/Streams/Queue.antt =====
-- packages/webrun-streams/src/emulate-mux.ts, `makeInboundQueue`: the push/pull queue between the
-- inbound loop and the consumer of a stream. An operation returns, beside the new queue, the promises
-- of `push` that it settles: the chunk, and whether it was handled.
pub mod Order
use webrun_wire.Common.{ℕ, List, [], ◌∷◌, ◌++◌, Option, none, some, Bool, true, false, not, ◌||◌}
use webrun_wire.Common.{if◌then◌else◌}

module _ (Err : Type 0) where
  pub data Slot : Type 0 where
    value : List ℕ → Slot
    done_slot : Option Err → Slot

-- The generator has not been asked for anything yet, is running, or has ended. A `return()` before the
-- first `next()` ends a generator without running its body, so without its `finally`.
pub data Phase : Type 0 where
  fresh active ended : Phase

pub record Queue (Err : Type 0) : Type 0 where
  pub slots : List (Slot Err)
  pub taken : Option (List ℕ)
  pub phase : Phase
  pub queue_closed : Bool
  pub done_called : Bool

pub data Pulled (Err : Type 0) : Type 0 where
  waiting : Pulled Err
  yielded : List ℕ → Pulled Err
  returned : Pulled Err
  thrown : Err → Pulled Err

abbrev pub Handled : Type 0
Handled = List (List ℕ × Bool)

-- What the generator has yielded and is now resumed from is handled.
abbrev pub resumed : Option (List ℕ) → Handled
resumed none = []
resumed (some v) = (v, true) ∷ []

unfoldable pub make_inbound_queue : {Err : Type 0} → Queue Err
make_inbound_queue = record {
  slots = [];
  taken = none;
  phase = fresh;
  queue_closed = false;
  done_called = false;
}

module _ {Err : Type 0} where
  unfoldable pub push : List ℕ → Queue Err → Queue Err × Handled
  push chunk q =
      if q.queue_closed
      then (q, (chunk, false) ∷ [])
      else (record q { slots = q.slots ++ (value chunk ∷ []) }, [])

  unfoldable pub done : Option Err → Queue Err → Queue Err
  done err q =
      if q.queue_closed || q.done_called
      then q
      else record q { slots = q.slots ++ (done_slot err ∷ []); done_called = true }

  -- `slot.resolve(false)` for what is left in the queue.
  unfoldable pub refuse : List (Slot Err) → Handled
  refuse [] = []
  refuse (value v ∷ slots) = (v, false) ∷ refuse slots
  refuse (done_slot e ∷ slots) = refuse slots

  -- The `finally` block: the queue, what it refuses, and whether `onCancel` is called.
  unfoldable pub finish : Queue Err → Queue Err × Handled × Bool
  unfolding refuse
  finish q = (
    record q { slots = []; taken = none; phase = ended; queue_closed = true },
    refuse q.slots,
    not q.done_called,
  )

  abbrev outcome : Option Err → Pulled Err
  outcome none = returned
  outcome (some e) = thrown e

  -- One round of the loop over the slots of a running generator.
  abbrev pub advance : List (Slot Err) → Queue Err → Queue Err × Pulled Err × Handled × Bool
  advance [] q = (record q { taken = none; phase = active }, waiting, resumed q.taken, false)
  advance (value v ∷ slots) q = (
    record q { slots = slots; taken = some v; phase = active },
    yielded v,
    resumed q.taken,
    false,
  )
  advance (done_slot e ∷ slots) q =
      let f = finish (record q { slots = slots }) in (f.0, outcome e, resumed q.taken ++ f.1, f.2)

  -- `next()`. While the result is `waiting` the generator is parked, and the call is made again when a
  -- `push` or a `done` wakes it. The last part says whether `onCancel` is called.
  unfoldable pub pull : Queue Err → Queue Err × Pulled Err × Handled × Bool
  unfolding finish
  pull q = elim q.phase [ ended ↦ (q, returned, [], false) | _ ↦ advance q.slots q ]

  -- `return()`, when it takes effect: a generator parked in `await` takes it at its next `yield`. What
  -- was yielded last is neither handled nor refused.
  unfoldable pub cancel : Queue Err → Queue Err × Handled × Bool
  unfolding finish
  cancel q = elim q.phase [
    | fresh ↦ (record q { phase = ended }, [], false)
    | active ↦ finish q
    | ended ↦ (q, [], false)
  ]

-- What happens to a queue while its consumer does not cancel.
pub data Event (Err : Type 0) : Type 0 where
  push_event : List ℕ → Event Err
  done_event : Option Err → Event Err
  pull_event : Event Err

abbrev pub yields : {Err : Type 0} → Pulled Err → List (List ℕ)
yields (yielded v) = v ∷ []
yields waiting = []
yields returned = []
yields (thrown e) = []

-- The queue after an event, what the event yields and the promises that it settles.
unfoldable pub step : {Err : Type 0} → Event Err → Queue Err → Queue Err × List (List ℕ) × Handled
step (push_event chunk) q = let p = push chunk q in (p.0, [], p.1)
step (done_event e) q = (done e q, [], [])
step pull_event q = let p = pull q in (p.0, yields p.1, p.2)

unfoldable pub run :
    {Err : Type 0} → List (Event Err) → Queue Err → Queue Err × List (List ℕ) × Handled
run [] q = (q, [], [])
run (e ∷ es) q =
    let first = step e q in
    let rest = run es first.0 in (rest.0, first.1 ++ rest.1, first.2 ++ rest.2)
