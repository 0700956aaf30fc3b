-- ===== src/Streams/Mux/Bounds/Receiving.antt =====
-- The bounds of a mux under frames and under what its consumers take.
use webrun_wire.Common.{ℕ, ◌+◌, ◌-◌, ◌<◌, ◌≡◌, inl, inr, refl, arith, List, [], ◌∷◌, ◌++◌}
use webrun_wire.Common.{none, some, Bool, true, false, length, leb, get_elem?, leb, Option-cases}
use webrun_wire.Streams.Mux.State.{Config, Stream, Mux, Error, send_frame}
use webrun_wire.Streams.Mux.State.{create_stream, insert}
use webrun_wire.Streams.Mux.Outbound.{run_handler}
use webrun_wire.Common.{Bool-cases}
use webrun_wire.Streams.Uint32.{encode_uint32, finite}
use webrun_wire.Streams.Mux.Frame.{type_error, type_close, type_ack}
use webrun_wire.Streams.Queue
use webrun_wire.Streams.Queue.{Queue, Handled}
use webrun_wire.Common.{ltb, ◌≤◌, ◌⊎◌}
use webrun_wire.Streams.Mux.Bounds.{held}
use webrun_wire.Streams.Queue.{make_inbound_queue}
use webrun_wire.Streams.Mux.Bounds.Holding.{
  handled_bytes, held-push, held-done, held-pull, held-cancel,
}
use webrun_wire.Streams.Mux.Frame.{Frame, parse_frame}
use webrun_wire.Streams.Mux.State.{
  from_peer, lookup, no_handler, max_streams_exceeded, buffer_exceeded,
}
use webrun_wire.Streams.Mux.Bounds.Sending.{run_handler-IsValid}
use webrun_wire.Streams.Mux.Inbound.{
  uncount, grant_payload, on_open, settle, settle_all, on_data, on_end, on_stream_frame,
  handle_frame,
}
use webrun_wire.Streams.Mux.Inbound.{with_stream, on_cancel, consumer_next, consumer_return}
use webrun_wire.Streams.Mux.Bounds.{
  Fits, IsValid, All-get_elem?, send_frame-IsValid, save-IsValid, teardown_stream-IsValid,
  release_if_complete-IsValid, added-IsValid,
}

module _ (c : Config) where
  -- What is still to settle is counted beside what is held, or the stream is torn down.
  abbrev Settles : Handled → Stream → Type 0
  Settles hs s =
      (s.closed ≡ true)
      ⊎ (((held s.inbound + handled_bytes hs) ≤ s.queued_bytes)
          × (s.queued_bytes ≤ c.max_stream_buffer))

  -- Settling takes the bytes of the chunk off the count.
  settle-Settles :
      (handled : Bool) (chunk : List ℕ) (hs : Handled) (s : Stream) (b : Bool)
      → Settles ((chunk, handled) ∷ hs) s
      → Settles hs (settle handled chunk s b).0
  unfolding settle
  settle-Settles handled chunk hs s b h = ground (arith, h)

  settle_all-IsValid :
      (ref : ℕ) (hs : Handled) (s : Stream) {m : Mux}
      → Settles hs s
      → IsValid c m
      → IsValid c (settle_all ref hs s m)
  unfolding settle_all
  settle_all-IsValid ref [] s h v = save-IsValid c ref s (ground (arith, h)) v
  settle_all-IsValid ref ((chunk, handled) ∷ hs) s {m} h v =
      let r = settle handled chunk s m.mux_closed in
      let fits = settle-Settles handled chunk hs s m.mux_closed h in
      elim (Bool-cases (ltb 0 r.1)) [
        | inl some_credit ↦ rw (some_credit) (
            settle_all-IsValid ref hs r.0 fits
              (send_frame-IsValid c s.id type_ack (encode_uint32 (finite r.1)) v))
        | inr no_credit ↦ rw no_credit (settle_all-IsValid ref hs r.0 fits v)
      ]

  grant_payload-Fits : (payload : List ℕ) (s : Stream) → Fits c s → Fits c (grant_payload payload s)
  grant_payload-Fits payload s h = ground arith

  fresh-Fits : (id : ℕ) → Fits c (create_stream c id true)
  unfolding create_stream make_inbound_queue
  fresh-Fits id = inr (omega arith)

  -- The mux of an OPEN that is accepted.
  accepted_IsValid :
      (h id : ℕ) (payload : List ℕ) {m : Mux}
      → m.mux_closed ≡ false
      → length m.table < c.max_streams
      → IsValid c m
      → let s = grant_payload payload (create_stream c id true) in
        IsValid c (
          run_handler c h (length m.objects) s (
            send_frame id type_ack (encode_uint32 (finite c.max_stream_buffer)) (record m {
              objects = m.objects ++ (s ∷ []);
              table = insert id (length m.objects) m.table;
            })))
  accepted_IsValid h id payload {m} running room v =
      let s = grant_payload payload (create_stream c id true) in
      let fits = grant_payload-Fits payload (create_stream c id true) (fresh-Fits id) in
      run_handler-IsValid c h (length m.objects) s fits (
        send_frame-IsValid c id type_ack (encode_uint32 (finite c.max_stream_buffer)) (
          added-IsValid c id s m
            (record m {
              objects = m.objects ++ (s ∷ []);
              table = insert id (length m.objects) m.table;
            })
            room running fits refl refl refl v))

  on_open-IsValid :
      (id : ℕ) (payload : List ℕ) {m : Mux}
      → m.mux_closed ≡ false
      → IsValid c m
      → IsValid c (on_open c id payload m)
  unfolding on_open
  on_open-IsValid id payload {m} running v = elim (Option-cases m.handler) [
    | inl nobody ↦ ground (arith, v, refused max_streams_exceeded, refused no_handler)
    | inr (h, e) ↦ elim (Bool-cases (leb c.max_streams (length m.table))) [
      | inl full ↦ ground (arith, v, refused max_streams_exceeded)
      | inr room ↦ ground (arith, v, accepted_IsValid h id payload running (ground arith) v)
    ]
  ]
    where
      refused : (e : Error) → IsValid c (send_frame id type_error (c.encode_error e) m)
      refused e = send_frame-IsValid c id type_error (c.encode_error e) v

  on_data-IsValid :
      (ref : ℕ) (payload : List ℕ) (s : Stream) {m : Mux}
      → Fits c s
      → IsValid c m
      → IsValid c (on_data c ref payload s m)
  unfolding on_data
  on_data-IsValid ref payload s {m} h v =
      let s' = record s { queued_bytes = s.queued_bytes + length payload } in
      let q = Queue.push payload s.inbound in
      elim (Bool-cases (ltb c.max_stream_buffer s'.queued_bytes)) [
        | inl over ↦ rw over (
            teardown_stream-IsValid c ref (some buffer_exceeded) s'
              (send_frame-IsValid c s.id type_error (c.encode_error buffer_exceeded) v))
        | inr room ↦ rw room (
            settle_all-IsValid ref q.1 (record s' { inbound = q.0 })
              (ground (arith, h, room, held-push payload s.inbound)) v)
      ]

  on_end-IsValid :
      (ref : ℕ) (s : Stream) {m : Mux} → Fits c s → IsValid c m → IsValid c (on_end ref s m)
  unfolding on_end
  on_end-IsValid ref s {m} h v =
      release_if_complete-IsValid c ref
        (record s { in_done = true; inbound = Queue.done none s.inbound })
        (ground (arith, h, held-done none s.inbound)) v

  on_stream_frame-IsValid :
      (ref : ℕ) (f : Frame) (s : Stream) {m : Mux}
      → Fits c s
      → IsValid c m
      → IsValid c (on_stream_frame c ref f s m)
  unfolding on_stream_frame
  on_stream_frame-IsValid ref f s {m} h v = ground (
    arith,
    v,
    on_data-IsValid ref f.payload s h v,
    save-IsValid c ref (grant_payload f.payload s) (grant_payload-Fits f.payload s h) v,
    on_end-IsValid ref s h v,
    teardown_stream-IsValid c ref (some (from_peer f.payload)) s v,
    teardown_stream-IsValid c ref none s v,
  )

  pub with_stream-IsValid :
      (ref : ℕ) (f : Stream → Mux → Mux) {m : Mux}
      → ((s : Stream) → Fits c s → IsValid c (f s m))
      → IsValid c m
      → IsValid c (with_stream ref f m)
  with_stream-IsValid ref f {m} keep v = elim (Option-cases (get_elem? m.objects ref)) [
    | inl e ↦ rw (e, with_stream) v
    | inr (s, e) ↦ rw (e, with_stream) (keep s (All-get_elem? c m.objects ref v.fits e))
  ]

  pub handle_frame-IsValid :
      (frame : List ℕ) {m : Mux} → IsValid c m → IsValid c (handle_frame c frame m)
  unfolding handle_frame
  handle_frame-IsValid frame {m} v = elim (Bool-cases m.mux_closed) [
    | inl shut ↦ ground (arith, v)
    | inr running ↦ elim (Option-cases (parse_frame frame)) [
      | inl e ↦ ground (arith, v)
      | inr (f, e) ↦ elim (Option-cases (lookup f.id m.table)) [
        | inl absent ↦ ground (arith, v, on_open-IsValid f.id f.payload running v)
        | inr (ref, present) ↦ ground (
          arith,
          v,
          on_open-IsValid f.id f.payload running v,
          with_stream-IsValid ref (on_stream_frame c ref f)
              (λ s h. on_stream_frame-IsValid ref f s h v) v,
        )
      ]
    ]
  ]

  on_cancel-IsValid : (ref : ℕ) (s : Stream) {m : Mux} → IsValid c m → IsValid c (on_cancel ref s m)
  unfolding on_cancel
  on_cancel-IsValid ref s {m} v = ground (
    arith,
    teardown_stream-IsValid c ref none s v,
    teardown_stream-IsValid c ref none s (send_frame-IsValid c s.id type_close [] v),
  )

  pub consumer_next-IsValid :
      (ref : ℕ) (s : Stream) {m : Mux} → Fits c s → IsValid c m → IsValid c (consumer_next ref s m)
  unfolding consumer_next
  consumer_next-IsValid ref s h v =
      let r = Queue.pull s.inbound in
      settle_all-IsValid ref r.2 (record s { inbound = r.0 })
        (ground (arith, h, held-pull s.inbound)) v

  uncount-Fits : (hs : Handled) (s : Stream) → Settles hs s → Fits c (uncount hs s)
  uncount-Fits [] s h = ground (arith, h)
  uncount-Fits ((chunk, b) ∷ hs) s h =
      uncount-Fits hs (record s { queued_bytes = s.queued_bytes - length chunk })
        (ground (arith, h))

  pub consumer_return-IsValid :
      (ref : ℕ) (s : Stream) {m : Mux}
      → Fits c s
      → IsValid c m
      → IsValid c (consumer_return ref s m)
  unfolding consumer_return
  consumer_return-IsValid ref s {m} h v =
      let r = Queue.cancel s.inbound in
      let s' = uncount r.1 (record s { inbound = r.0 }) in
      ground (
        arith,
        on_cancel-IsValid ref s' v,
        save-IsValid c ref s'
            (uncount-Fits r.1 (record s { inbound = r.0 })
              (ground (arith, h, held-cancel s.inbound)))
            v,
      )
