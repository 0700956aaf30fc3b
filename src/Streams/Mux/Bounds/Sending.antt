-- ===== src/Streams/Mux/Bounds/Sending.antt =====
-- The bounds of a mux under the operations of its own side.
use webrun_wire.Common.{ℕ, ◌+◌, ◌<◌, ◌≡◌, inl, inr, refl, arith, List, [], ◌∷◌, ◌++◌, All}
use webrun_wire.Common.{
  none, some, true, false, ◌||◌, length, get_elem?, take, drop, leb, Option-cases,
}
use webrun_wire.Streams.Mux.State.{Config, Stream, Mux, Error, send_frame, teardown_stream}
use webrun_wire.Streams.Mux.State.{teardown_all, fail_all, create_stream, insert}
use webrun_wire.Streams.Mux.Outbound.{
  pump_failed, pump_reserve, pump_chunk, pump_resume, handler_done, pump_end,
}
use webrun_wire.Streams.Mux.Outbound.{run_handler, call}
use webrun_wire.Common.{Bool-cases, min}
use webrun_wire.Streams.Queue.{make_inbound_queue}
use webrun_wire.Streams.Credit.Ledger
use webrun_wire.Streams.Credit.Ledger.{Ledger, Settled, resolved, rejected}
use webrun_wire.Streams.Uint32.{encode_uint32, finite}
use webrun_wire.Streams.Mux.Frame.{type_error, type_close, type_end, type_data, type_open}
use webrun_wire.Streams.Mux.State.{reservation_refused, pulling, stopped, reserving, granted}
use webrun_wire.Streams.Mux.Outbound.{after_reserve}
use webrun_wire.Streams.Mux.Bounds.{
  Fits, IsValid, send_frame-IsValid, save-IsValid, teardown_stream-IsValid,
  release_if_complete-IsValid, added-IsValid, teardown_stream-Fits,
}

module _ (c : Config) where
  pub pump_failed-IsValid :
      (ref : ℕ) (e : Error) (s : Stream) {m : Mux}
      → Fits c s
      → IsValid c m
      → IsValid c (pump_failed c ref e s m)
  unfolding pump_failed
  pump_failed-IsValid ref e s {m} h v = elim (Bool-cases (s.closed || m.mux_closed)) [
    | inl shut ↦ rw shut (save-IsValid c ref (record s { pump = stopped }) h v)
    | inr live ↦ rw live (
        teardown_stream-IsValid c ref (some e) (record s { pump = stopped })
          (send_frame-IsValid c s.id type_error (c.encode_error e) v))
  ]

  pump_reserve-IsValid :
      (ref : ℕ) (rest : List ℕ) (s : Stream) {m : Mux}
      → Fits c s
      → IsValid c m
      → IsValid c (pump_reserve c ref rest s m)
  unfolding pump_reserve
  pump_reserve-IsValid ref rest s {m} h v =
      go (Ledger.reserve ref (min c.mtu (length rest)) s.credit)
    where
      go : (r : Ledger × List Settled) → IsValid c (after_reserve c ref rest s r m)
      go (l, []) = save-IsValid c ref (record s { credit = l; pump = reserving rest }) h v
      go (l, resolved t n ∷ _) =
          save-IsValid c ref (record s { credit = l; pump = granted n rest }) h v
      go (l, rejected t e ∷ _) = pump_failed-IsValid ref reservation_refused s h v

  pub pump_chunk-IsValid :
      (ref : ℕ) (chunk : List ℕ) (s : Stream) {m : Mux}
      → Fits c s
      → IsValid c m
      → IsValid c (pump_chunk c ref chunk s m)
  unfolding pump_chunk
  pump_chunk-IsValid ref chunk s {m} h v = ground (
    arith,
    save-IsValid c ref (record s { pump = stopped }) h v,
    pump_reserve-IsValid ref chunk s h v,
    v,
  )

  pub pump_resume-IsValid :
      (ref n : ℕ) (rest : List ℕ) (s : Stream) {m : Mux}
      → Fits c s
      → IsValid c m
      → IsValid c (pump_resume c ref n rest s m)
  unfolding pump_resume
  pump_resume-IsValid ref n rest s {m} h v =
      let sent = send_frame-IsValid c s.id type_data (take n rest) v in
      ground (
        arith,
        save-IsValid c ref (record s { pump = stopped }) h v,
        save-IsValid c ref (record s { pump = pulling }) h sent,
        pump_reserve-IsValid ref (drop n rest) s h sent,
      )

  handler_done-IsValid :
      (ref : ℕ) (s : Stream) {m : Mux} → IsValid c m → IsValid c (handler_done ref s m)
  unfolding handler_done
  handler_done-IsValid ref s {m} v =
      ground
        (arith, teardown_stream-IsValid c ref none s (send_frame-IsValid c s.id type_close [] v), v)

  pub pump_end-IsValid :
      (ref : ℕ) (s : Stream) {m : Mux} → Fits c s → IsValid c m → IsValid c (pump_end ref s m)
  unfolding pump_end
  pump_end-IsValid ref s {m} h v =
      let s' = record s { pump = stopped; out_done = true } in
      let released =
        release_if_complete-IsValid c ref s' h (send_frame-IsValid c s.id type_end [] v) in
      ground (
        arith,
        save-IsValid c ref (record s { pump = stopped }) h v,
        released,
        handler_done-IsValid ref s' released,
      )

  pub run_handler-IsValid :
      (k ref : ℕ) (s : Stream) {m : Mux}
      → Fits c s
      → IsValid c m
      → IsValid c (run_handler c k ref s m)
  unfolding run_handler
  run_handler-IsValid k ref s {m} h v = elim (Option-cases (c.invoke k ref)) [
    | inl e ↦ rw (e, run_handler) (save-IsValid c ref (record s { pump = pulling }) h v)
    | inr (x, e) ↦
        rw (e, run_handler)
          (teardown_stream-IsValid c ref (some x) s
            (send_frame-IsValid c s.id type_error (c.encode_error x) v))
  ]

  -- The mux of `call`, or of an OPEN, with the new stream in it.
  opened_IsValid :
      {m : Mux}
      → m.mux_closed ≡ false
      → length m.table < c.max_streams
      → IsValid c m
      → let id = m.next_local_id in
        IsValid c (
          send_frame id type_open (encode_uint32 (finite c.max_stream_buffer)) (record m {
            objects = m.objects ++ (record (create_stream c id false) { pump = pulling } ∷ []);
            table = insert id (length m.objects) m.table;
            next_local_id = id + 2;
          }))
  unfolding create_stream make_inbound_queue
  opened_IsValid {m} running room v =
      let id = m.next_local_id in
      send_frame-IsValid c id type_open (encode_uint32 (finite c.max_stream_buffer)) (
        added-IsValid c id (record (create_stream c id false) { pump = pulling }) m
          (record m {
            objects = m.objects ++ (record (create_stream c id false) { pump = pulling } ∷ []);
            table = insert id (length m.objects) m.table;
            next_local_id = id + 2;
          })
          room running (inr (omega arith)) refl refl refl v)

  pub call-IsValid : {m : Mux} → IsValid c m → IsValid c (call c m).0
  unfolding call
  call-IsValid {m} v = elim (Bool-cases m.mux_closed) [
    | inl shut ↦ ground (arith, v)
    | inr running ↦ elim (Bool-cases (leb c.max_streams (length m.table))) [
      | inl full ↦ ground (arith, v)
      | inr room ↦ ground (arith, opened_IsValid running (ground arith) v)
    ]
  ]

  teardown_all-Fits :
      (e : Error) (t : List (ℕ × ℕ)) (m : Mux)
      → All (Fits c) m.objects
      → All (Fits c) (teardown_all e t m).objects
  unfolding teardown_all
  teardown_all-Fits e [] m k = k
  teardown_all-Fits e ((id, ref) ∷ t) m k = elim (Option-cases (get_elem? m.objects ref)) [
    | inl q ↦ rw (q, All) (teardown_all-Fits e t m k)
    | inr (s, q) ↦
        rw (q, All)
          (teardown_all-Fits e t (teardown_stream ref (some e) s m)
            (teardown_stream-Fits c ref (some e) s m k))
  ]

  pub fail_all-IsValid : (e : Error) {m : Mux} → IsValid c m → IsValid c (fail_all e m)
  unfolding fail_all
  fail_all-IsValid e {m} v =
      ground (arith, v, teardown_all-Fits e m.table (record m { mux_closed = true }) v.fits)
