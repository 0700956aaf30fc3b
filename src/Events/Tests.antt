-- ===== src/Events/Tests.antt =====
-- The broker at concrete runs.
use webrun_wire.Common.{◌≡◌, arith, List, [], ◌∷◌, none, some, true}
use webrun_wire.Events.Broker.{
  Op, publish_op, subscribe_op, unsubscribe_op, new_broker, newer, replay, run,
}
use webrun_wire.Events.Broker.Log.{published, number}
use webrun_wire.Events.Broker.Replay.{replay-run, replay-run_complete}

-- Three events on topic 7 of a broker that retains two, and one on topic 8.
abbrev ops : List Op
ops =
    publish_op 7 100 none
    ∷ subscribe_op 7 1
    ∷ publish_op 8 101 none
    ∷ publish_op 7 102 (some 5)
    ∷ unsubscribe_op 7 0 1
    ∷ publish_op 7 103 none
    ∷ []

replay-run_example : (replay 7 1 (run ops (new_broker 2))).0 ≡ newer 1 (number 1 (published 7 ops))
replay-run_example =
    replay-run 2 ops 7 1 (omega arith)
      (replay-run_complete 2 ops 7 1 (omega arith) (omega arith) (omega arith))

replay-run_complete_example : (replay 7 1 (run ops (new_broker 2))).1 ≡ true
replay-run_complete_example =
    replay-run_complete 2 ops 7 1 (omega arith) (omega arith) (omega arith)
