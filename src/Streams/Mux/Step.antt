-- ===== src/Streams/Mux/Step.antt =====
-- All that can happen to a mux, one event after another.
use webrun_wire.Common.{ℕ, List, [], ◌∷◌}
use webrun_wire.Streams.Mux.State.{Config, Mux, Stream, Error, fail_all, granted, pulling}
use webrun_wire.Streams.Mux.Outbound.{pump_failed, pump_chunk, pump_resume, pump_end}
use webrun_wire.Streams.Mux.Outbound.{call, serve, unserve, close}
use webrun_wire.Streams.Mux.Inbound.{with_stream, handle_frame, consumer_next, consumer_return}

-- The events of the application, of the inputs (which the pump of a stream waits for), of the
-- microtask that takes a pump up after a grant, of the channel and of the consumers.
pub data Event : Type 0 where
  called closed : Event
  served unserved : ℕ → Event
  chunk_read : ℕ → List ℕ → Event
  input_ended credit_resumed : ℕ → Event
  input_failed : ℕ → Error → Event
  frame_received : List ℕ → Event
  channel_ended : Error → Event
  consumer_asked consumer_left : ℕ → Event

abbrev pub when_pulling : Mux → (Stream → Mux → Mux) → Stream → Mux → Mux
when_pulling m f s n = elim s.pump [ pulling ↦ f s n | _ ↦ m ]

abbrev pub when_granted : Config → ℕ → Stream → Mux → Mux
when_granted c ref s m = elim s.pump [ granted n rest ↦ pump_resume c ref n rest s m | _ ↦ m ]

unfoldable pub step : Config → Event → Mux → Mux
step c called m = (call c m).0
step c closed m = close m
step c (served h) m = serve h m
step c (unserved h) m = unserve h m
step c (chunk_read ref chunk) m = with_stream ref (when_pulling m (pump_chunk c ref chunk)) m
step c (input_ended ref) m = with_stream ref (when_pulling m (pump_end ref)) m
step c (credit_resumed ref) m = with_stream ref (when_granted c ref) m
step c (input_failed ref e) m = with_stream ref (when_pulling m (pump_failed c ref e)) m
step c (frame_received frame) m = handle_frame c frame m
step c (channel_ended e) m = fail_all e m
step c (consumer_asked ref) m = with_stream ref (consumer_next ref) m
step c (consumer_left ref) m = with_stream ref (consumer_return ref) m

unfoldable pub run : Config → List Event → Mux → Mux
run c [] m = m
run c (e ∷ es) m = run c es (step c e m)
