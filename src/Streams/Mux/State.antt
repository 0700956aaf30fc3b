-- ===== src/Streams/Mux/State.antt =====
-- The state of a mux, and what its operations share.
use webrun_wire.Common.{
  ℕ, zero, suc, List, [], ◌∷◌, ◌++◌, Option, none, some, Bool, true, false, not, ◌||◌,
}
use webrun_wire.Common.{get_elem?, ◌==◌, if◌then◌else◌}
use webrun_wire.Streams.Credit.Ledger
use webrun_wire.Streams.Credit.Ledger.{Ledger, Failure, failed, new_credit_ledger}
use webrun_wire.Streams.Credit.Grantor.{Grantor, new_credit_grantor}
use webrun_wire.Streams.Queue
use webrun_wire.Streams.Queue.{Queue, make_inbound_queue}
use webrun_wire.Streams.Mux.Frame.{frame_bytes}

-- The errors that the mux makes, that a peer sends and that an input or a handler throws.
pub data Error : Type 0 where
  transport_closed max_streams_exceeded no_handler buffer_exceeded : Error
  reservation_refused : Error
  from_peer : List ℕ → Error
  thrown : ℕ → Error

pub data Side : Type 0 where
  initiator responder : Side

-- `EmulateMuxOptions`, and what the mux takes from outside: the JSON text of an error, and what the
-- handler of a name does when it is called for a stream: it throws, or returns its generator.
pub record Config : Type 0 where
  pub max_streams : ℕ
  pub mtu : ℕ
  pub max_stream_buffer : ℕ
  pub side : Side
  pub encode_error : Error → List ℕ
  pub invoke : ℕ → ℕ → Option Error

-- Where `pumpOutbound` stands: not started, in `iterator.next()`, in `reserve` with the rest of its
-- chunk, about to go on with what it was granted, or at its end.
pub data Pump : Type 0 where
  unstarted pulling stopped : Pump
  reserving : List ℕ → Pump
  granted : ℕ → List ℕ → Pump

pub record Stream : Type 0 where
  pub id : ℕ
  pub inbound : Queue Error
  pub credit : Ledger
  pub grantor : Grantor
  pub closed : Bool
  pub in_done : Bool
  pub out_done : Bool
  pub queued_bytes : ℕ
  pub pump : Pump
  pub input_returned : Bool
  pub serving : Bool

pub record Mux : Type 0 where
  pub objects : List Stream
  pub table : List (ℕ × ℕ)
  pub next_local_id : ℕ
  pub handler : Option ℕ
  pub mux_closed : Bool
  pub sent : List (List ℕ)

-- The table of streams: `Map.get`, `Map.set` and `Map.delete`.
unfoldable pub lookup : ℕ → List (ℕ × ℕ) → Option ℕ
lookup id [] = none
lookup id ((i, r) ∷ t) = if i == id then some r else lookup id t

unfoldable pub insert : ℕ → ℕ → List (ℕ × ℕ) → List (ℕ × ℕ)
insert id ref [] = (id, ref) ∷ []
insert id ref ((i, r) ∷ t) = if i == id then (id, ref) ∷ t else (i, r) ∷ insert id ref t

unfoldable pub delete : ℕ → List (ℕ × ℕ) → List (ℕ × ℕ)
delete id [] = []
delete id ((i, r) ∷ t) = if i == id then delete id t else (i, r) ∷ delete id t

unfoldable pub set_object : ℕ → Stream → List Stream → List Stream
set_object ref s [] = []
set_object zero s (x ∷ xs) = s ∷ xs
set_object (suc ref) s (x ∷ xs) = x ∷ set_object ref s xs

unfoldable pub new_mux : Config → Mux
new_mux c = record {
  objects = [];
  table = [];
  next_local_id = elim c.side [ initiator ↦ 2 | responder ↦ 1 ];
  handler = none;
  mux_closed = false;
  sent = [];
}

unfoldable pub send_frame : (id kind : ℕ) → List ℕ → Mux → Mux
send_frame id kind payload m =
    if m.mux_closed then m else record m { sent = m.sent ++ (frame_bytes id kind payload ∷ []) }

-- The fields of a stream that `teardownStream` sets. A pump parked in `reserve` is rejected and stops;
-- one parked in `next()` stops when it is resumed, at its test of `closed`.
abbrev pub close_stream : Option Error → Stream → Stream
close_stream err s = record s {
  closed = true;
  credit = (Ledger.fail (failed 0) s.credit).0;
  inbound = Queue.done err s.inbound;
  pump = elim s.pump [ reserving rest ↦ stopped | p ↦ p ];
  input_returned = elim s.pump [ unstarted ↦ false | _ ↦ true ];
}

unfoldable pub teardown_stream : ℕ → Option Error → Stream → Mux → Mux
teardown_stream ref err s m = if s.closed then m else record m {
  objects = set_object ref (close_stream err s) m.objects;
  table = delete s.id m.table;
}

unfoldable pub release_if_complete : ℕ → Stream → Mux → Mux
release_if_complete ref s m =
    if s.closed || not s.in_done || not s.out_done
    then record m { objects = set_object ref s m.objects }
    else record m {
      objects = set_object ref (record s { closed = true }) m.objects;
      table = delete s.id m.table;
    }

-- `teardownStream` of each stream of the table that the loop of `failAll` was started with.
unfoldable pub teardown_all : Error → List (ℕ × ℕ) → Mux → Mux
teardown_all err [] m = m
teardown_all err ((id, ref) ∷ t) m =
    teardown_all err t
      (elim (get_elem? m.objects ref) [ none ↦ m | some s ↦ teardown_stream ref (some err) s m ])

unfoldable pub fail_all : Error → Mux → Mux
fail_all err m =
    if m.mux_closed
    then m
    else record (teardown_all err m.table (record m { mux_closed = true })) { table = [] }

unfoldable pub create_stream : Config → ℕ → Bool → Stream
create_stream c id serving = record {
  id = id;
  inbound = make_inbound_queue;
  credit = new_credit_ledger 0;
  grantor = new_credit_grantor c.max_stream_buffer 1 2;
  closed = false;
  in_done = false;
  out_done = false;
  queued_bytes = 0;
  pump = unstarted;
  input_returned = false;
  serving = serving;
}
