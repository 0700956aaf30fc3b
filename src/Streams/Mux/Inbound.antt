-- ===== src/Streams/Mux/Inbound.antt =====
-- What a mux does with a frame of the peer, and with what its consumer takes.
use webrun_wire.Common.{ℕ, ◌+◌, ◌-◌, List, [], ◌∷◌, ◌++◌, none, some, Bool, true, not, ◌&&◌, ◌||◌}
use webrun_wire.Common.{length, get_elem?, ltb, leb, ◌==◌, if◌then◌else◌}
use webrun_wire.Streams.Uint32.{encode_uint32, decode_uint32, finite}
use webrun_wire.Streams.Credit.Ledger
use webrun_wire.Streams.Credit.Ledger.{Ledger, Settled, resolved, rejected}
use webrun_wire.Streams.Credit.Grantor.{consumed}
use webrun_wire.Streams.Queue
use webrun_wire.Streams.Queue.{Queue, Handled}
use webrun_wire.Streams.Mux.Frame.{
  Frame, parse_frame, type_open, type_data, type_ack, type_end, type_error, type_close,
}
use webrun_wire.Streams.Mux.State.{Config, Stream, Mux, Error, max_streams_exceeded}
use webrun_wire.Streams.Mux.State.{no_handler, buffer_exceeded, from_peer, Pump, reserving, granted}
use webrun_wire.Streams.Mux.State.{send_frame, teardown_stream, release_if_complete}
use webrun_wire.Streams.Mux.State.{create_stream, insert, lookup}
use webrun_wire.Streams.Mux.Outbound.{save, run_handler}

-- A pump that waits in `reserve` is granted what the ledger settles for it.
abbrev wake_pump : List Settled → Pump → Pump
wake_pump (resolved t n ∷ _) (reserving rest) = granted n rest
wake_pump _ p = p

-- `s.outboundCredit.grant(units)`.
abbrev granted_credit : ℕ → Stream → Stream
granted_credit units s =
    let r = Ledger.grant units s.credit in record s { credit = r.0; pump = wake_pump r.1 s.pump }

abbrev pub grant_payload : List ℕ → Stream → Stream
grant_payload payload s = elim (decode_uint32 payload) [
  | none ↦ s
  | some units ↦ granted_credit units s
]

unfoldable pub on_open : Config → ℕ → List ℕ → Mux → Mux
on_open c id payload m =
    let refuse = λ (e : Error). send_frame id type_error (c.encode_error e) m in
    elim (lookup id m.table) [
      | some ref ↦ m
      | none ↦
          if leb c.max_streams (length m.table)
          then refuse max_streams_exceeded
          else elim m.handler [
            | none ↦ refuse no_handler
            | some h ↦
                let ref = length m.objects in
                let s = grant_payload payload (create_stream c id true) in
                let m' = record m {
                  objects = m.objects ++ (s ∷ []);
                  table = insert id ref m.table;
                } in
                run_handler c h ref s
                  (send_frame id type_ack (encode_uint32 (finite c.max_stream_buffer)) m')
          ]
    ]

-- What follows a `push` once its promise is settled: the bytes leave the count, and the peer is granted
-- what the grantor gives back.
unfoldable pub settle : Bool → List ℕ → Stream → Bool → Stream × ℕ
settle handled chunk s mux_closed =
    let queued = s.queued_bytes - length chunk in
    if not handled || (s.closed || mux_closed)
    then (record s { queued_bytes = queued }, 0)
    else let g = consumed (length chunk) (queued == 0) s.grantor in
      (record s { queued_bytes = queued; grantor = g.0 }, g.1)

unfoldable pub settle_all : ℕ → Handled → Stream → Mux → Mux
settle_all ref [] s m = save ref s m
settle_all ref ((chunk, handled) ∷ hs) s m =
    let r = settle handled chunk s m.mux_closed in
    settle_all ref hs r.0
      (if ltb 0 r.1 then send_frame s.id type_ack (encode_uint32 (finite r.1)) m else m)

unfoldable pub on_data : Config → ℕ → List ℕ → Stream → Mux → Mux
on_data c ref payload s m =
    let s' = record s { queued_bytes = s.queued_bytes + length payload } in
    let q = Queue.push payload s.inbound in
    if ltb c.max_stream_buffer s'.queued_bytes
    then teardown_stream ref (some buffer_exceeded) s'
        (send_frame s.id type_error (c.encode_error buffer_exceeded) m)
    else settle_all ref q.1 (record s' { inbound = q.0 }) m

unfoldable pub on_end : ℕ → Stream → Mux → Mux
on_end ref s m =
    release_if_complete ref (record s { in_done = true; inbound = Queue.done none s.inbound }) m

-- `handleFrame` for a frame of a live stream.
unfoldable pub on_stream_frame : Config → ℕ → Frame → Stream → Mux → Mux
on_stream_frame c ref f s m =
    if f.kind == type_data
    then on_data c ref f.payload s m
    else if f.kind == type_ack
    then save ref (grant_payload f.payload s) m
    else if f.kind == type_end
    then on_end ref s m
    else if f.kind == type_error
    then teardown_stream ref (some (from_peer f.payload)) s m
    else if f.kind == type_close
    then teardown_stream ref none s m
    else m

abbrev pub with_stream : ℕ → (Stream → Mux → Mux) → Mux → Mux
with_stream ref f m = elim (get_elem? m.objects ref) [ none ↦ m | some s ↦ f s m ]

unfoldable pub handle_frame : Config → List ℕ → Mux → Mux
handle_frame c frame m = if m.mux_closed then m else elim (parse_frame frame) [
  | none ↦ m
  | some f ↦
      if f.kind == type_open then on_open c f.id f.payload m else elim (lookup f.id m.table) [
        | none ↦ m
        | some ref ↦ with_stream ref (on_stream_frame c ref f) m
      ]
]

-- `onCancel`, when the consumer leaves a stream whose end it has not seen.
unfoldable pub on_cancel : ℕ → Stream → Mux → Mux
on_cancel ref s m =
    teardown_stream ref none s
      (if not s.closed && not m.mux_closed then send_frame s.id type_close [] m else m)

-- The consumer's `next()`.
unfoldable pub consumer_next : ℕ → Stream → Mux → Mux
consumer_next ref s m =
    let r = Queue.pull s.inbound in settle_all ref r.2 (record s { inbound = r.0 }) m

-- The bytes of refused chunks leave the count; nothing is granted for them.
abbrev pub uncount : Handled → Stream → Stream
uncount [] s = s
uncount ((chunk, handled) ∷ hs) s =
    uncount hs (record s { queued_bytes = s.queued_bytes - length chunk })

-- The consumer's `return()`. All that its `finally` settles is refused.
unfoldable pub consumer_return : ℕ → Stream → Mux → Mux
consumer_return ref s m =
    let r = Queue.cancel s.inbound in
    let s' = uncount r.1 (record s { inbound = r.0 }) in
    if r.2 then on_cancel ref s' m else save ref s' m
