-- ===== src/Streams/Tests.antt =====
-- The stream layer at concrete runs.
use webrun_wire.Common.{
  ℕ, ◌+◌, ◌^◌, ◌%◌, ◌<◌, ◌≤◌, ◌≡◌, ◌↔◌, refl, arith, List, [], ◌∷◌, ◌++◌, length,
}
use webrun_wire.Common.{none, some, true, false, inl}
use webrun_wire.Streams.Credit.Ledger.{
  Waiter, new_credit_ledger, Call, reserve_call, grant_call, fail_call, failed, run,
}
use webrun_wire.Streams.Credit.Ledger.Invariant.{IsValid, run-IsValid}
use webrun_wire.Streams.Credit.Ledger.Order.{asked, AnswersAll, run_grants_in_order}
use webrun_wire.Streams.Credit.Ledger.Account.{paid, authorised, run-account}
use webrun_wire.Streams.Credit.Grantor.{Grantor, drains, drained, IsBelow, drains-account}
use webrun_wire.Streams.Uint32.{
  finite, Told, encode_uint32, decode_uint32, decode_uint32-encode_uint32, decode_uint32-none,
}
use webrun_wire.Streams.Varint.{decoded, encode_varint, decode_varint, decode_loop}
use webrun_wire.Streams.Varint.RoundTrip.{decode_varint-encode_varint, decode_varint_bounds}
use webrun_wire.Streams.Queue.{Queue, make_inbound_queue, push_event, done_event, pull_event}
use webrun_wire.Streams.Queue.Order.{chunks, handled, unsettled, held, pushed, run_in_order}
use webrun_wire.Streams.Mux.Frame.{frame_bytes, parse_frame, parse_frame-frame_bytes}
use webrun_wire.Streams.Mux.State.{Config, Mux, responder, new_mux}
use webrun_wire.Streams.Mux.Step.{Event, called, closed, served, frame_received, consumer_asked}
use webrun_wire.Streams.Mux.Closed.{Silent, run-Silent}
use webrun_wire.Streams.Mux.Bounds.Reach.{run-new_mux-IsValid}
use webrun_wire.Streams.Mux
use webrun_wire.Streams.Queue

abbrev calls : List Call
calls =
    reserve_call 0 5 ∷ grant_call 3 ∷ reserve_call 1 2 ∷ grant_call 4 ∷ fail_call (failed 0) ∷ []

new_ledger-IsValid : IsValid (new_credit_ledger 0)
unfolding new_credit_ledger
new_ledger-IsValid = record { stalled = inl refl; served = inl refl; asks = tt }

run-IsValid_example : IsValid (run calls (new_credit_ledger 0)).0
run-IsValid_example = run-IsValid calls new_ledger-IsValid

run_grants_in_order_example :
    (done : List Waiter) × (done ++ (run calls (new_credit_ledger 0)).0.waiters
      ≡ (new_credit_ledger 0).waiters ++ asked calls)
    × AnswersAll (run calls (new_credit_ledger 0)).1 done
run_grants_in_order_example =
    run_grants_in_order calls (new_credit_ledger 0) new_ledger-IsValid
      (omega arith, (omega arith, tt))

run-account_example :
    (run calls (new_credit_ledger 0)).0.available + paid (run calls (new_credit_ledger 0)).1
    ≡ (new_credit_ledger 0).available + authorised (new_credit_ledger 0).failure calls
run-account_example = run-account calls (new_credit_ledger 0)

abbrev half_grantor : Grantor
half_grantor = record { trigger = 4; pending = 1 }

drains-account_example :
    ((drains ((2, false) ∷ (3, false) ∷ []) half_grantor).1
        + (drains ((2, false) ∷ (3, false) ∷ []) half_grantor).0.pending
      ≡ 1 + drained ((2, false) ∷ (3, false) ∷ []))
    × IsBelow (drains ((2, false) ∷ (3, false) ∷ []) half_grantor).0
drains-account_example = drains-account ((2, false) ∷ (3, false) ∷ []) half_grantor (omega arith)

decode_uint32-encode_uint32_example :
    (k : ℕ) × (decode_uint32 (encode_uint32 (finite (2 ^ 33)) ++ (7 ∷ [])) ≡ some k)
    × Told (finite (2 ^ 33)) k
decode_uint32-encode_uint32_example = decode_uint32-encode_uint32 (finite (2 ^ 33)) (7 ∷ [])

abbrev short_payload : List ℕ
short_payload = 1 ∷ 2 ∷ []

decode_uint32-none_example : (decode_uint32 short_payload ≡ none) ↔ (length short_payload < 4)
decode_uint32-none_example = decode_uint32-none short_payload

decode_varint-encode_varint_example :
    decode_varint (encode_varint 300 ++ (9 ∷ []))
    ≡ decoded (300 % 2 ^ 32) (length (encode_varint 300))
decode_varint-encode_varint_example = decode_varint-encode_varint 300 (9 ∷ [])

abbrev varint_bytes : List ℕ
varint_bytes = 0xac ∷ 2 ∷ 9 ∷ []

two_byte_varint : decode_varint varint_bytes ≡ decoded 300 2
unfolding decode_varint decode_loop
two_byte_varint = refl

decode_varint_bounds_example : (300 < 2 ^ 32) × (0 < 2) × (2 ≤ length varint_bytes)
decode_varint_bounds_example = decode_varint_bounds varint_bytes 300 2 two_byte_varint

parse_frame-frame_bytes_example :
    parse_frame (frame_bytes 300 1 (5 ∷ []))
    ≡ some (record { id = 300; kind = 1; payload = 5 ∷ [] })
parse_frame-frame_bytes_example = parse_frame-frame_bytes 300 1 (5 ∷ []) (omega arith)

abbrev queue_events : List (Queue.Event ℕ)
queue_events =
    push_event (1 ∷ [])
    ∷ pull_event
    ∷ push_event (2 ∷ [])
    ∷ pull_event
    ∷ done_event none
    ∷ pull_event
    ∷ []

run_in_order_example :
    (chunks (Queue.run queue_events make_inbound_queue).2
        ++ unsettled (Queue.run queue_events make_inbound_queue).0
      ≡ unsettled (make_inbound_queue {Err = ℕ}) ++ pushed queue_events)
    × (handled (Queue.run queue_events make_inbound_queue).2
          ++ held (Queue.run queue_events make_inbound_queue).0.taken
        ≡ held (make_inbound_queue {Err = ℕ}).taken
          ++ (Queue.run queue_events make_inbound_queue).1)
run_in_order_example =
    run_in_order queue_events make_inbound_queue (inl (unfold make_inbound_queue in refl))

abbrev config : Config
config = record {
  max_streams = 4;
  mtu = 16;
  max_stream_buffer = 8;
  side = responder;
  encode_error = λ e. [];
  invoke = λ handler ref. none;
}

-- A peer's stream with credit for one byte, two bytes of data, and a pull.
abbrev events : List Event
events =
    served 0
    ∷ frame_received (2 ∷ 0 ∷ 0 ∷ 0 ∷ 0 ∷ 1 ∷ [])
    ∷ frame_received (2 ∷ 1 ∷ 5 ∷ 6 ∷ [])
    ∷ consumer_asked 0
    ∷ closed
    ∷ []

run-new_mux-IsValid_example :
    Mux.Bounds.IsValid config (Mux.Step.run config events (new_mux config))
run-new_mux-IsValid_example = run-new_mux-IsValid config events

abbrev closed_mux : Mux
closed_mux = record {
  objects = [];
  table = [];
  next_local_id = 1;
  handler = none;
  mux_closed = true;
  sent = [];
}

run-Silent_example : Silent closed_mux (Mux.Step.run config events closed_mux)
run-Silent_example = run-Silent config events closed_mux refl
