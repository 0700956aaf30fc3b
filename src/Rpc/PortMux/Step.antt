-- ===== src/Rpc/PortMux/Step.antt =====
-- All that can happen to a multiplexer of ports, one event after another.
use webrun_wire.Common.{ℕ, ◌+◌, List, [], ◌∷◌, Option, Bool, false}
use webrun_wire.Rpc.Estimate.{Value}
use webrun_wire.Rpc.PortMux.State.{Config, PortMux, Envelope, Reason, pipe_failed}
use webrun_wire.Rpc.PortMux.Send.{post_message, grant_due, pump_drained}
use webrun_wire.Rpc.PortMux.Send
use webrun_wire.Rpc.PortMux.Ends.{close_port, listen_on, port_collected, end_port, watch_peer_end}
use webrun_wire.Rpc.PortMux.Ends.{when_ready, close_mux, open_port}
use webrun_wire.Rpc.PortMux.Receive.{handle_envelope}
use webrun_wire.Rpc.PortMux.Keepalive.{tick}

-- What the application and the consumers of the ports do, and what the timers, the pipe and the garbage
-- collector bring. A number names a port by its place.
pub data Event : Type 0 where
  port_opened : (meta : Option ℕ) (aborted : Bool) → Event
  message_posted : (handle : ℕ) → Value → Event
  port_closed : (handle : ℕ) → Option Reason → Event
  listening_changed : Bool → (handle : ℕ) → Event
  end_asked collected grant_timer : (handle : ℕ) → Event
  peer_end_awaited : (handle promise : ℕ) → Event
  room_awaited : (handle below promise : ℕ) → Event
  deliveries_settled : (handle nth : ℕ) → Event
  envelope_read : Envelope → (raw : Option ℕ) → Event
  drained drain_failed : Event
  time_passed : ℕ → Event
  keepalive_timer : (backlogged : Bool) → Event
  mux_closed : Reason → Event

unfoldable pub step : Config → Event → PortMux → PortMux
step c (port_opened meta aborted) m = (open_port c meta aborted m).0
step c (message_posted handle payload) m = post_message c handle payload m
step c (port_closed handle reason) m = close_port c handle reason m
step c (listening_changed listening handle) m = listen_on listening handle m
step c (end_asked handle) m = end_port c handle m
step c (collected handle) m = port_collected c handle m
step c (grant_timer handle) m = grant_due handle m
step c (peer_end_awaited handle promise) m = watch_peer_end handle promise m
step c (room_awaited handle below promise) m = when_ready handle below promise m
step c (deliveries_settled handle nth) m = Send.listeners_settled handle nth m
step c (envelope_read e raw) m = handle_envelope c e raw m
step c drained m = pump_drained m
step c drain_failed m = record (close_mux pipe_failed m) { pumping = false }
step c (time_passed n) m = record m { now = m.now + n }
step c (keepalive_timer backlogged) m = tick c backlogged m
step c (mux_closed reason) m = close_mux reason m

unfoldable pub run : Config → List Event → PortMux → PortMux
run c [] m = m
run c (e ∷ es) m = run c es (step c e m)
