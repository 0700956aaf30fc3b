-- ===== src/Rpc/PortMux/Stable/Run.antt =====
-- What a multiplexer of ports keeps under sequences of events.
use webrun_wire.Common.{ℕ, List, [], ◌∷◌, Bool}
use webrun_wire.Rpc.PortMux.State.{Config, Entry, Posted, PortMux, pipe_failed}
use webrun_wire.Rpc.PortMux.Step.{
  Event, port_opened, message_posted, port_closed, listening_changed, end_asked, collected,
  grant_timer, peer_end_awaited, room_awaited, deliveries_settled, envelope_read,
}
use webrun_wire.Rpc.PortMux.Step.{
  drained, drain_failed, time_passed, keepalive_timer, mux_closed, step, run,
}
use webrun_wire.Rpc.PortMux.Stable.{Stable, On, with_port-On}
use webrun_wire.Rpc.PortMux.Stable.Sending.{
  post_message-On, grant_due-On, pump_drained-On, listeners_settled-On,
}
use webrun_wire.Rpc.PortMux.Stable.Ending.{
  close_port-On, port_collected-On, end_port-On, watch_peer_end-On,
}
use webrun_wire.Rpc.PortMux.Stable.Ending.{when_ready-On, close_mux-On, open_port-On}
use webrun_wire.Rpc.PortMux.Stable.Receiving.{handle_envelope-On, tick-On}

module _ {c : Config} {P : List (ℕ × Entry) → ℕ → List Posted → Bool → Type 0}
    (stable : Stable c P) where
  step-On : (e : Event) (m : PortMux) → On stable m → On stable (step c e m)
  unfolding step
  step-On (port_opened meta aborted) m v = open_port-On stable meta aborted m v
  step-On (message_posted handle payload) m v = post_message-On stable handle payload m v
  step-On (port_closed handle reason) m v = close_port-On stable handle reason m v
  step-On (listening_changed listening handle) m v = with_port-On stable handle _ m (λ p. v) v
  step-On (end_asked handle) m v = end_port-On stable handle m v
  step-On (collected handle) m v = port_collected-On stable handle m v
  step-On (grant_timer handle) m v = grant_due-On stable handle m v
  step-On (peer_end_awaited handle promise) m v = watch_peer_end-On stable handle promise m v
  step-On (room_awaited handle below promise) m v = when_ready-On stable handle below promise m v
  step-On (deliveries_settled handle nth) m v = listeners_settled-On stable handle nth m v
  step-On (envelope_read e raw) m v = handle_envelope-On stable e raw m v
  step-On drained m v = pump_drained-On stable m v
  step-On drain_failed m v = close_mux-On stable pipe_failed m v
  step-On (time_passed n) m v = v
  step-On (keepalive_timer backlogged) m v = tick-On stable backlogged m v
  step-On (mux_closed reason) m v = close_mux-On stable reason m v

  pub run-On : (es : List Event) (m : PortMux) → On stable m → On stable (run c es m)
  unfolding run
  run-On [] m v = v
  run-On (e ∷ es) m v = run-On es (step c e m) (step-On e m v)
