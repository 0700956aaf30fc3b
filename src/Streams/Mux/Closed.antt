-- ===== src/Streams/Mux/Closed.antt =====
-- What a closed mux sends.
use webrun_wire.Common.{ℕ, ◌≡◌, refl, ◌∙◌, arith, List, [], ◌∷◌, Bool, true}
use webrun_wire.Common.{inl, inr, Option-cases, get_elem?}
use webrun_wire.Streams.Queue
use webrun_wire.Streams.Queue.{Handled}
use webrun_wire.Streams.Mux.State.{Config, Stream, Mux, Error, teardown_stream, fail_all}
use webrun_wire.Streams.Mux.Outbound.{
  pump_failed, pump_chunk, pump_resume, pump_end, call, close, serve, unserve,
}
use webrun_wire.Streams.Mux.Inbound.{
  uncount, with_stream, settle, settle_all, on_cancel, handle_frame,
}
use webrun_wire.Streams.Mux.Inbound.{consumer_next, consumer_return}
use webrun_wire.Streams.Mux.Step.{Event, called, closed, served, unserved, chunk_read, input_ended}
use webrun_wire.Streams.Mux.Step.{credit_resumed, input_failed, frame_received, channel_ended}
use webrun_wire.Streams.Mux.Step.{
  consumer_asked, consumer_left, when_pulling, when_granted, step, run,
}

-- `m'` is closed too, and has sent nothing more.
abbrev pub Silent : Mux → Mux → Type 0
Silent m m' = (m'.mux_closed ≡ true) × (m'.sent ≡ m.sent)

-- On a closed mux nothing is granted.
settle_closed :
    (handled : Bool) (chunk : List ℕ) (s : Stream) (b : Bool)
    → b ≡ true
    → (settle handled chunk s b).1 ≡ 0
unfolding settle
settle_closed handled chunk s b h = ground arith

on_cancel-Silent :
    (ref : ℕ) (s : Stream) (m : Mux) → m.mux_closed ≡ true → Silent m (on_cancel ref s m)
unfolding on_cancel teardown_stream
on_cancel-Silent ref s m h = ground arith

module _ (c : Config) where
  settle_all-Silent :
      (ref : ℕ) (hs : Handled) (s : Stream) (m : Mux)
      → m.mux_closed ≡ true
      → Silent m (settle_all ref hs s m)
  unfolding settle_all
  settle_all-Silent ref [] s m h = (h, refl)
  settle_all-Silent ref ((chunk, handled) ∷ hs) s m h =
      rw (settle_closed handled chunk s m.mux_closed h, settle_all)
        (settle_all-Silent ref hs (settle handled chunk s m.mux_closed).0 m h)

  with_stream-Silent :
      (ref : ℕ) (f : Stream → Mux → Mux) (m : Mux)
      → m.mux_closed ≡ true
      → ((s : Stream) → Silent m (f s m))
      → Silent m (with_stream ref f m)
  with_stream-Silent ref f m h silent = elim (Option-cases (get_elem? m.objects ref)) [
    | inl e ↦ rw (e, with_stream) (h, refl)
    | inr (s, e) ↦ rw (e, with_stream) (silent s)
  ]

  when_pulling-Silent :
      (f : Stream → Mux → Mux) (s : Stream) (m : Mux)
      → m.mux_closed ≡ true
      → Silent m (f s m)
      → Silent m (when_pulling m f s m)
  when_pulling-Silent f s m h silent = ground arith

  pump_chunk-Silent :
      (ref : ℕ) (chunk : List ℕ) (s : Stream) (m : Mux)
      → m.mux_closed ≡ true
      → Silent m (pump_chunk c ref chunk s m)
  unfolding pump_chunk
  pump_chunk-Silent ref chunk s m h = ground arith

  pump_end-Silent :
      (ref : ℕ) (s : Stream) (m : Mux) → m.mux_closed ≡ true → Silent m (pump_end ref s m)
  unfolding pump_end
  pump_end-Silent ref s m h = ground arith

  pump_failed-Silent :
      (ref : ℕ) (e : Error) (s : Stream) (m : Mux)
      → m.mux_closed ≡ true
      → Silent m (pump_failed c ref e s m)
  unfolding pump_failed
  pump_failed-Silent ref e s m h = ground arith

  when_granted-Silent :
      (ref : ℕ) (s : Stream) (m : Mux) → m.mux_closed ≡ true → Silent m (when_granted c ref s m)
  unfolding pump_resume
  when_granted-Silent ref s m h = ground arith

  consumer_return-Silent :
      (ref : ℕ) (s : Stream) (m : Mux) → m.mux_closed ≡ true → Silent m (consumer_return ref s m)
  unfolding consumer_return
  consumer_return-Silent ref s m h =
      let r = Queue.cancel s.inbound in
      ground (arith, on_cancel-Silent ref (uncount r.1 (record s { inbound = r.0 })) m h)

  step-Silent : (e : Event) (m : Mux) → m.mux_closed ≡ true → Silent m (step c e m)
  unfolding step call close serve unserve handle_frame fail_all consumer_next
  step-Silent called m h = ground arith
  step-Silent closed m h = ground arith
  step-Silent (served k) m h = ground arith
  step-Silent (unserved k) m h = ground arith
  step-Silent (chunk_read ref chunk) m h =
      with_stream-Silent ref (when_pulling m (pump_chunk c ref chunk)) m h (λ s.
        when_pulling-Silent (pump_chunk c ref chunk) s m h (pump_chunk-Silent ref chunk s m h))
  step-Silent (input_ended ref) m h =
      with_stream-Silent ref (when_pulling m (pump_end ref)) m h
        (λ s. when_pulling-Silent (pump_end ref) s m h (pump_end-Silent ref s m h))
  step-Silent (credit_resumed ref) m h =
      with_stream-Silent ref (when_granted c ref) m h (λ s. when_granted-Silent ref s m h)
  step-Silent (input_failed ref e) m h =
      with_stream-Silent ref (when_pulling m (pump_failed c ref e)) m h
        (λ s. when_pulling-Silent (pump_failed c ref e) s m h (pump_failed-Silent ref e s m h))
  step-Silent (frame_received frame) m h = ground arith
  step-Silent (channel_ended e) m h = ground arith
  step-Silent (consumer_asked ref) m h = with_stream-Silent ref (consumer_next ref) m h (λ s.
      settle_all-Silent ref (Queue.pull s.inbound).2
        (record s { inbound = (Queue.pull s.inbound).0 }) m h)
  step-Silent (consumer_left ref) m h =
      with_stream-Silent ref (consumer_return ref) m h (λ s. consumer_return-Silent ref s m h)

-- A closed mux stays closed and sends nothing more, whatever happens afterwards.
pub run-Silent :
    (c : Config) (es : List Event) (m : Mux) → m.mux_closed ≡ true → Silent m (run c es m)
unfolding run
run-Silent c [] m h = (h, refl)
run-Silent c (e ∷ es) m h =
    let (still, same) = step-Silent c e m h in
    let (still', same') = run-Silent c es (step c e m) still in (still', same' ∙ same)
