-- ===== src/Streams/Mux/Outbound.antt =====
-- What a mux does on its own side: `call`, `serve`, `close`, and the pump that sends an input. Each
-- `await` of the pump is a place where it is left (`Pump`), and an event takes it up there.
use webrun_wire.Common.{
  ℕ, ◌+◌, min, List, [], ◌∷◌, ◌++◌, Option, none, some, Bool, true, false, not, ◌&&◌, ◌||◌,
}
use webrun_wire.Common.{length, take, drop, leb, ◌==◌, if◌then◌else◌}
use webrun_wire.Streams.Uint32.{encode_uint32, finite}
use webrun_wire.Streams.Credit.Ledger
use webrun_wire.Streams.Credit.Ledger.{Ledger, Settled, resolved, rejected}
use webrun_wire.Streams.Mux.Frame.{type_open, type_data, type_end, type_error, type_close}
use webrun_wire.Streams.Mux.State.{
  Config, Stream, Mux, Error, transport_closed, max_streams_exceeded,
}
use webrun_wire.Streams.Mux.State.{reservation_refused, pulling, stopped, reserving, granted}
use webrun_wire.Streams.Mux.State.{send_frame, set_object, teardown_stream, release_if_complete}
use webrun_wire.Streams.Mux.State.{fail_all, create_stream, insert}

abbrev pub save : ℕ → Stream → Mux → Mux
save ref s m = record m { objects = set_object ref s m.objects }

-- The `catch` of the pump: the peer is told, unless the stream or the mux is closed.
unfoldable pub pump_failed : Config → ℕ → Error → Stream → Mux → Mux
pump_failed c ref e s m =
    if s.closed || m.mux_closed
    then save ref (record s { pump = stopped }) m
    else teardown_stream ref (some e) (record s { pump = stopped })
        (send_frame s.id type_error (c.encode_error e) m)

-- What follows `reserve`, by what it settles.
abbrev pub after_reserve : Config → ℕ → List ℕ → Stream → Ledger × List Settled → Mux → Mux
after_reserve c ref rest s (l, []) m = save ref (record s { credit = l; pump = reserving rest }) m
after_reserve c ref rest s (l, resolved t n ∷ _) m =
    save ref (record s { credit = l; pump = granted n rest }) m
after_reserve c ref rest s (l, rejected t e ∷ _) m = pump_failed c ref reservation_refused s m

-- `await s.outboundCredit.reserve(…)` for the rest of a chunk.
unfoldable pub pump_reserve : Config → ℕ → List ℕ → Stream → Mux → Mux
pump_reserve c ref rest s m =
    after_reserve c ref rest s (Ledger.reserve ref (min c.mtu (length rest)) s.credit) m

abbrev pub is_empty : List ℕ → Bool
is_empty [] = true
is_empty (_ ∷ _) = false

-- `iterator.next()` gave a chunk.
unfoldable pub pump_chunk : Config → ℕ → List ℕ → Stream → Mux → Mux
pump_chunk c ref chunk s m =
    if s.closed || m.mux_closed
    then save ref (record s { pump = stopped }) m
    else if is_empty chunk
    then m
    else pump_reserve c ref chunk s m

-- `reserve` resolved with `n`, for the rest of a chunk.
unfoldable pub pump_resume : Config → ℕ → ℕ → List ℕ → Stream → Mux → Mux
pump_resume c ref n rest s m =
    if s.closed || m.mux_closed
    then save ref (record s { pump = stopped }) m
    else let m' = send_frame s.id type_data (take n rest) m in
      if is_empty (drop n rest)
      then save ref (record s { pump = pulling }) m'
      else pump_reserve c ref (drop n rest) s m'

-- The end of `runHandler`: a response that is complete while the request is not read to its end.
unfoldable pub handler_done : ℕ → Stream → Mux → Mux
handler_done ref s m =
    if not s.in_done && (not s.closed && not m.mux_closed)
    then teardown_stream ref none s (send_frame s.id type_close [] m)
    else m

-- The input is exhausted. Once both directions are done `releaseIfComplete` closes the stream, and
-- `handler_done` then has nothing to do, so that it may look at the stream before that.
unfoldable pub pump_end : ℕ → Stream → Mux → Mux
pump_end ref s m =
    if s.closed || m.mux_closed
    then save ref (record s { pump = stopped }) m
    else let s' = record s { pump = stopped; out_done = true } in
      let m' = release_if_complete ref s' (send_frame s.id type_end [] m) in
      if s.serving then handler_done ref s' m' else m'

-- `runHandler` up to its first `await`.
unfoldable pub run_handler : Config → ℕ → ℕ → Stream → Mux → Mux
run_handler c h ref s m = elim (c.invoke h ref) [
  | some e ↦ teardown_stream ref (some e) s (send_frame s.id type_error (c.encode_error e) m)
  | none ↦ save ref (record s { pump = pulling }) m
]

-- The stream that `call` opens, or the error that its generator throws.
pub data Called : Type 0 where
  opened : ℕ → Called
  failing : Error → Called

unfoldable pub call : Config → Mux → Mux × Called
call c m =
    if m.mux_closed
    then (m, failing transport_closed)
    else if leb c.max_streams (length m.table)
    then (m, failing max_streams_exceeded)
    else let id = m.next_local_id in
      let ref = length m.objects in
      let s = record (create_stream c id false) { pump = pulling } in
      let m' = record m {
        objects = m.objects ++ (s ∷ []);
        table = insert id ref m.table;
        next_local_id = id + 2;
      } in
      (send_frame id type_open (encode_uint32 (finite c.max_stream_buffer)) m', opened ref)

unfoldable pub serve : ℕ → Mux → Mux
serve h m = record m { handler = some h }

abbrev is_handler : ℕ → Option ℕ → Bool
is_handler h none = false
is_handler h (some k) = h == k

-- The function that `serve` returns; a second call of it finds another handler or none.
unfoldable pub unserve : ℕ → Mux → Mux
unserve h m = if is_handler h m.handler then record m { handler = none } else m

unfoldable pub close : Mux → Mux
close m = if m.mux_closed then m else fail_all transport_closed m
