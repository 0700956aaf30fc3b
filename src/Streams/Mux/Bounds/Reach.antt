-- ===== src/Streams/Mux/Bounds/Reach.antt =====
-- The bounds of a mux under sequences of events.
use webrun_wire.Common.{ℕ, inl, refl, arith, List, [], ◌∷◌}
use webrun_wire.Streams.Mux.State.{Config, Stream, Mux, new_mux, Pump, granted, pulling, stopped}
use webrun_wire.Streams.Mux.State.{unstarted, reserving, transport_closed}
use webrun_wire.Streams.Mux.Outbound.{
  pump_failed, pump_chunk, pump_resume, pump_end, close, serve, unserve,
}
use webrun_wire.Streams.Mux.Inbound.{consumer_next, consumer_return}
use webrun_wire.Streams.Mux.Step.{Event, called, closed, served, unserved, chunk_read, input_ended}
use webrun_wire.Streams.Mux.Step.{credit_resumed, input_failed, frame_received, channel_ended}
use webrun_wire.Streams.Mux.Step.{
  consumer_asked, consumer_left, when_pulling, when_granted, step, run,
}
use webrun_wire.Streams.Mux.Bounds.{Fits, IsValid}
use webrun_wire.Streams.Mux.Bounds.Sending.{
  pump_failed-IsValid, pump_chunk-IsValid, pump_resume-IsValid,
}
use webrun_wire.Streams.Mux.Bounds.Sending.{pump_end-IsValid, call-IsValid, fail_all-IsValid}
use webrun_wire.Streams.Mux.Bounds.Receiving.{with_stream-IsValid, handle_frame-IsValid}
use webrun_wire.Streams.Mux.Bounds.Receiving.{consumer_next-IsValid, consumer_return-IsValid}

module _ (c : Config) where
  close-IsValid : {m : Mux} → IsValid c m → IsValid c (close m)
  unfolding close
  close-IsValid v = ground (arith, v, fail_all-IsValid c transport_closed v)

  when_pulling-IsValid :
      (f : Stream → Mux → Mux) (s : Stream) {m : Mux}
      → IsValid c (f s m)
      → IsValid c m
      → IsValid c (when_pulling m f s m)
  when_pulling-IsValid f s h v = ground (arith, h, v)

  when_granted-IsValid :
      (ref : ℕ) (s : Stream) {m : Mux} → Fits c s → IsValid c m → IsValid c (when_granted c ref s m)
  when_granted-IsValid ref s {m} h v = go s.pump
    where
      go :
          (p : Pump)
          → IsValid c
              (elim p as (λ x. Mux) [ granted n rest ↦ pump_resume c ref n rest s m | _ ↦ m ])
      go (granted n rest) = pump_resume-IsValid c ref n rest s h v
      go (reserving rest) = v
      go unstarted = v
      go pulling = v
      go stopped = v

  step-IsValid : (e : Event) {m : Mux} → IsValid c m → IsValid c (step c e m)
  unfolding step serve unserve
  step-IsValid called v = call-IsValid c v
  step-IsValid closed v = close-IsValid v
  step-IsValid (served h) v = ground arith
  step-IsValid (unserved h) v = ground arith
  step-IsValid (chunk_read ref chunk) {m} v =
      with_stream-IsValid c ref (when_pulling m (pump_chunk c ref chunk))
        (λ s h.
          when_pulling-IsValid (pump_chunk c ref chunk) s (pump_chunk-IsValid c ref chunk s h v) v)
        v
  step-IsValid (input_ended ref) {m} v =
      with_stream-IsValid c ref (when_pulling m (pump_end ref))
        (λ s h. when_pulling-IsValid (pump_end ref) s (pump_end-IsValid c ref s h v) v) v
  step-IsValid (credit_resumed ref) v =
      with_stream-IsValid c ref (when_granted c ref) (λ s h. when_granted-IsValid ref s h v) v
  step-IsValid (input_failed ref e) {m} v =
      with_stream-IsValid c ref (when_pulling m (pump_failed c ref e))
        (λ s h. when_pulling-IsValid (pump_failed c ref e) s (pump_failed-IsValid c ref e s h v) v)
        v
  step-IsValid (frame_received frame) v = handle_frame-IsValid c frame v
  step-IsValid (channel_ended e) v = fail_all-IsValid c e v
  step-IsValid (consumer_asked ref) v =
      with_stream-IsValid c ref (consumer_next ref) (λ s h. consumer_next-IsValid c ref s h v) v
  step-IsValid (consumer_left ref) v =
      with_stream-IsValid c ref (consumer_return ref) (λ s h. consumer_return-IsValid c ref s h v) v

  run-IsValid : (es : List Event) {m : Mux} → IsValid c m → IsValid c (run c es m)
  unfolding run
  run-IsValid [] v = v
  run-IsValid (e ∷ es) v = run-IsValid es (step-IsValid e v)

  new_mux-IsValid : IsValid c (new_mux c)
  unfolding new_mux
  new_mux-IsValid = record { size = omega arith; shut = inl refl; fits = tt }

-- Whatever the peer sends and the application, its inputs and its consumers do, in any order, a mux
-- never holds more than `maxStreams` streams, and holds no stream once it is closed. For a stream that it has not torn
-- down, the chunks that wait in the queue and the one that the consumer took last are together never more bytes than
-- `queuedBytes` counts, and that is at most `maxStreamBuffer`.
pub run-new_mux-IsValid : (c : Config) (es : List Event) → IsValid c (run c es (new_mux c))
run-new_mux-IsValid c es = run-IsValid c es (new_mux-IsValid c)
