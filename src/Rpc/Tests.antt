-- ===== src/Rpc/Tests.antt =====
-- The multiplexer of ports on concrete inputs.
use webrun_wire.Common.{ℕ, ◌≤◌, ◌≡◌, refl, arith, List, [], ◌∷◌, none, some, true, false}
use webrun_wire.Common.{max}
use webrun_wire.Common.Maps.{map_get}
use webrun_wire.Rpc.Estimate.{
  atom, string, array, one_more, no_values, estimate_message_size, cost, nodes,
  estimate_message_size-cost,
}
use webrun_wire.Rpc.Credit.{
  Credit, new_credit, Queued, queued_message, flush_queue, waits, enqueue, credited,
}
use webrun_wire.Rpc.Credit.{grant, send_grant, delivered, settled, settle_nth}
use webrun_wire.Rpc.Credit.Window.{Flushed, flush_queue-Flushed, flush_queue-le}
use webrun_wire.Rpc.Credit.Link.{
  Link, LinkEvent, posted, arrived, credit_arrived, listeners_settled,
}
use webrun_wire.Rpc.Credit.Link.{
  Balanced, link_run, link_run-Balanced, link_run-queue, link_step, flush_link,
}
use webrun_wire.Rpc.Ring.{Ring, take_item, weight}
use webrun_wire.Rpc.Ring.Fair.{placed, taken, run_ring, run_ring-item}
use webrun_wire.Rpc.Framing.{split_frames, begin_partial}
use webrun_wire.Rpc.Framing.RoundTrip.{take_frames, take_frames-split_frames}
use webrun_wire.Rpc.PortMux.State.{
  Config, PortMux, initiator, multiplex_port, open_envelope, message_envelope,
}
use webrun_wire.Rpc.PortMux.State.{envelope_item, ping, credit_envelope, frame_envelope}
use webrun_wire.Rpc.PortMux.Send.{pump_loop, is_idle}
use webrun_wire.Rpc.PortMux.Ends.{free_id}
use webrun_wire.Rpc.PortMux.Step.{
  Event, run, port_opened, message_posted, envelope_read, keepalive_timer,
}
use webrun_wire.Rpc.PortMux.State.{ExactCodec, Entry, Port}
use webrun_wire.Rpc.PortMux.Ends.{new_entry}
use webrun_wire.Rpc.PortMux.Closed.{run-sent}
use webrun_wire.Rpc.PortMux.Pump.{pump_loop-is_idle}
use webrun_wire.Rpc.PortMux.Silence.{Pinged, ticks, ticks-closed}
use webrun_wire.Rpc.PortMux.FreeIds.{map_get-free_id}

abbrev half : ℕ → Queued
half n = record { content = queued_message (atom n) none; size = n }

abbrev held : Credit
held = record (new_credit 10 true false) { enforced = true }

flush_queue-Flushed_example :
    Flushed (half 6 ∷ half 7 ∷ []) held (flush_queue (half 6 ∷ half 7 ∷ []) held)
flush_queue-Flushed_example = flush_queue-Flushed (half 6 ∷ half 7 ∷ []) held

flush_queue-le_example : (flush_queue (half 6 ∷ half 7 ∷ []) held).0.outstanding ≤ max held.window 7
unfolding new_credit
flush_queue-le_example =
    flush_queue-le 7 (half 6 ∷ half 7 ∷ []) held refl (omega arith, (omega arith, tt)) (omega arith)

abbrev link : Link
link = record { sender = held; in_flight = []; receiver = held; credits = [] }

link-Balanced : Balanced link
unfolding new_credit
link-Balanced = record { counted = omega arith; at_listeners = refl; flowing = tt }

abbrev exchange : List LinkEvent
exchange =
    posted (half 6)
    ∷ posted (half 7)
    ∷ arrived true
    ∷ listeners_settled 0
    ∷ credit_arrived
    ∷ arrived false
    ∷ credit_arrived
    ∷ []

link_run-Balanced_example : Balanced (link_run exchange link)
link_run-Balanced_example = link_run-Balanced exchange link link-Balanced

link_run-queue_example : (link_run exchange link).sender.queue ≡ []
unfolding new_credit link_run link_step flush_link flush_queue waits enqueue credited grant
    send_grant delivered settled settle_nth
link_run-queue_example = link_run-queue exchange link link-Balanced refl refl refl refl

abbrev ring : Ring ℕ
ring = record { outgoing = (0, 1 ∷ 2 ∷ []) ∷ (2, 7 ∷ []) ∷ []; turns = 0 ∷ 2 ∷ [] }

run_ring-item_example :
    (take_item (run_ring (placed 4 9 ∷ taken ∷ placed 0 3 ∷ []) ring)).0 ≡ some 7
unfolding map_get
run_ring-item_example =
    run_ring-item (placed 4 9 ∷ taken ∷ placed 0 3 ∷ []) (0 ∷ []) 2 7 ring
      (record { others = []; later = []; turn = refl; next = refl; once = refl }) refl

take_frames-split_frames_example :
    take_frames 100 held.window 5 (split_frames 2 (1 ∷ 2 ∷ 3 ∷ [])) (begin_partial held)
    ≡ some (1 ∷ 2 ∷ 3 ∷ [], 5)
unfolding new_credit
take_frames-split_frames_example =
    take_frames-split_frames 100 5 2 (1 ∷ 2 ∷ 3 ∷ []) held (omega arith) (omega arith)
      (λ h. omega arith) (λ h. omega arith) (omega arith)

abbrev codec : ExactCodec
codec = record {
  encode = λ e. 1 ∷ 2 ∷ 3 ∷ 4 ∷ 5 ∷ 6 ∷ [];
  decode = λ b. some (message_envelope 1 (atom 0));
}

abbrev config : Config
config = record {
  side = initiator;
  max_ports = 2;
  window = some 16;
  frame_size = some 4;
  max_reassembled_bytes = 100;
  misses = some 3;
  half_closes = true;
  exact_codec = some codec;
  on_port = some (λ meta. true);
  settles_later = λ handle payload. true;
  waits_for_room = false;
}

abbrev session : List Event
session =
    port_opened none false
    ∷ envelope_read (credit_envelope 0 (some 0) true none) none
    ∷ message_posted 0 (atom 3)
    ∷ envelope_read (open_envelope 1 none (some 4) true none) none
    ∷ envelope_read (frame_envelope 1 (some (1 ∷ 2 ∷ 3 ∷ 4 ∷ 5 ∷ [])) false) none
    ∷ keepalive_timer false
    ∷ []

-- The peer opens port 1 with a window of 4 bytes, and sends a frame of 5.
abbrev framed_session : List Event
framed_session =
    envelope_read (open_envelope 1 none (some 4) true none) none
    ∷ envelope_read (frame_envelope 1 (some (1 ∷ 2 ∷ 3 ∷ 4 ∷ 5 ∷ [])) false) none
    ∷ []

abbrev after_frame : PortMux
after_frame = run config framed_session (multiplex_port config)

abbrev entry_1 : Entry
entry_1 = elim (map_get 1 after_frame.table) [ none ↦ new_entry 0 none 0 | some e ↦ e ]

abbrev first_port : List Port → Port
first_port [] = record {
  id = 1;
  closed = true;
  listening = false;
  aborted = none;
  received = [];
  credit = none;
}
first_port (p ∷ ps) = p

abbrev credit_1 : Credit
credit_1 = elim (first_port after_frame.ports).credit [ none ↦ held | some k ↦ k ]

abbrev shut : PortMux
shut = record (multiplex_port config) { closed = true }

run-sent_example :
    ((run config session shut).closed ≡ true) × ((run config session shut).sent ≡ shut.sent)
run-sent_example = run-sent config session shut refl

abbrev loaded : PortMux
loaded = record (multiplex_port config) {
  ring = record {
    outgoing = (0, envelope_item ping ∷ envelope_item ping ∷ []) ∷ [];
    turns = 0 ∷ [];
  };
}

pump_loop-is_idle_example : is_idle (pump_loop 3 loaded) ≡ true
unfolding weight
pump_loop-is_idle_example = pump_loop-is_idle 3 loaded (omega arith)

abbrev lively : PortMux
lively = record (multiplex_port config) { peer_keeps_alive = true }

ticks-closed_example :
    Pinged 3 lively (ticks config 3 lively) × ((ticks config 4 lively).closed ≡ true)
unfolding multiplex_port
ticks-closed_example = ticks-closed config 2 3 lively refl refl refl refl (omega arith)

map_get-free_id_example :
    map_get
      (free_id 2 0 ((0, new_entry 0 none 0) ∷ (2, new_entry 1 none 0) ∷ []))
      ((0, new_entry 0 none 0) ∷ (2, new_entry 1 none 0) ∷ [])
    ≡ none
map_get-free_id_example = map_get-free_id 0 ((0, new_entry 0 none 0) ∷ (2, new_entry 1 none 0) ∷ [])

estimate_message_size-cost_example :
    estimate_message_size (array (one_more (string (104 ∷ 105 ∷ [])) no_values))
    ≡ max 64 (cost (array (one_more (string (104 ∷ 105 ∷ [])) no_values)) 0)
unfolding nodes
estimate_message_size-cost_example =
    estimate_message_size-cost (array (one_more (string (104 ∷ 105 ∷ [])) no_values)) (omega arith)
