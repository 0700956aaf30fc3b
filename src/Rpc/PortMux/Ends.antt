-- ===== src/Rpc/PortMux/Ends.antt =====
-- The beginning and the end of ports, of their directions and of the mux.
use webrun_wire.Common.{ℕ, zero, suc, ◌+◌, ◌^◌, List, [], ◌∷◌, ◌++◌, Option, none, some, length}
use webrun_wire.Common.{
  Bool, true, false, not, ◌||◌, ◌&&◌, ◌==◌, ltb, leb, if◌then◌else◌, ◌⊎◌, inl, inr,
}
use webrun_wire.Common.Maps.{map_get, map_set}
use webrun_wire.Rpc.Credit.{half_close, Credit, new_credit, Queued, queued_end, enqueue}
use webrun_wire.Rpc.Ring.{new_ring}
use webrun_wire.Rpc.PortMux.State.{Reason}
use webrun_wire.Rpc.PortMux.State.{dropped, leaked, port_closed, Envelope, open_envelope}
use webrun_wire.Rpc.PortMux.State.{close_envelope, Config, Port, Entry, Item, envelope_item}
use webrun_wire.Rpc.PortMux.State.{PortMux, own_caps, includes}
use webrun_wire.Rpc.PortMux.State.{
  save_port, save_credit, with_port, with_credit, with_entry, codec_post, post,
}
use webrun_wire.Rpc.PortMux.State.{free_partial, delete_entry, mark_closed, resolve_all, is_exact}
use webrun_wire.Rpc.PortMux.Send.{send_on_port, send_all, flush, release_waiters}

-- A window must be a positive safe integer; any other means none.
abbrev pub credit_of : Option ℕ → (opener exact : Bool) → Option Credit
credit_of none opener exact = none
credit_of (some w) opener exact =
    if ltb 0 w && ltb w (2 ^ 53) then some (new_credit w opener exact) else none

abbrev pub new_entry : (handle : ℕ) (meta : Option ℕ) (now : ℕ) → Entry
new_entry handle meta now = record {
  handle = handle;
  meta = meta;
  opened_at = now;
  last_activity = now;
  partial = none;
}

-- `attach`: the port's place is the next one of `ports`.
unfoldable pub attach : (id : ℕ) (meta window : Option ℕ) (opener exact : Bool) → PortMux → PortMux
attach id meta window opener exact m = record m {
  ports =
      m.ports
      ++ (record {
        id = id;
        closed = false;
        listening = false;
        aborted = none;
        received = [];
        credit = credit_of window opener exact;
      }
          ∷ []);
  table = map_set id (new_entry (length m.ports) meta m.now) m.table;
}

-- `release`: what is queued goes out whole, past the window, and the close behind it.
unfoldable pub release_queue : Config → (id handle : ℕ) → PortMux → PortMux
release_queue c id handle m =
    with_credit handle
      (λ p k n.
        send_all c true id handle k.queue
          (save_credit handle p (record k { queue = []; queued = 0 }) n))
      m

unfoldable pub release : Config → (id handle : ℕ) → Option Reason → PortMux → PortMux
release c id handle reason m = release_waiters handle (
    send_on_port c id (envelope_item (close_envelope id reason))
      (release_queue c id handle (delete_entry id (free_partial id m))))

abbrev pub reason_or : Reason → Option Reason → Reason
reason_or default none = default
reason_or default (some r) = r

-- The consumer closes its port, or the signal given to `openPort` does.
unfoldable pub close_port : Config → (handle : ℕ) → Option Reason → PortMux → PortMux
close_port c handle reason m =
    with_port handle
      (λ p n.
        if p.closed
        then n
        else mark_closed handle (reason_or port_closed reason) (
            release c p.id handle reason
              (save_port handle (record p { closed = true; listening = false }) n)))
      m

abbrev pub listen_on : Bool → ℕ → PortMux → PortMux
listen_on listening handle m =
    with_port handle (λ p. save_port handle (record p { listening = listening })) m

-- The port object of an open port was collected, which the mux hears of with `onLeak`.
unfoldable pub port_collected : Config → (handle : ℕ) → PortMux → PortMux
port_collected c handle m =
    with_port handle
      (λ p. with_entry p.id (λ e n.
        let freed = mark_closed handle dropped (release c p.id handle (some leaked) n) in
        if not (e.handle == handle)
        then n
        else let kept = if p.listening then n else freed in
          record kept { reported = kept.reported ++ (p.id ∷ []) }))
      m

-- `end` of a port, and whether it was agreed.
unfoldable pub end_windowed : Config → (handle : ℕ) → Port → Credit → PortMux → PortMux
end_windowed c handle p k m =
    let q : Queued = record { content = queued_end; size = 0 } in
    if p.closed || not (includes half_close k.caps) || k.ending
    then m
    else flush c p.id handle (save_credit handle p (enqueue q (record k { ending = true })) m)

unfoldable pub end_port : Config → (handle : ℕ) → PortMux → PortMux
end_port c handle m = with_credit handle (end_windowed c handle) m

-- `watchPeerEnd` of a port, with the promise to resolve.
unfoldable pub watch_peer_end : (handle promise : ℕ) → PortMux → PortMux
watch_peer_end handle promise m =
    with_credit handle
      (λ p k n.
        if not (includes half_close k.caps)
        then n
        else if k.peer_ended
        then resolve_all (promise ∷ []) n
        else save_credit handle p (record k { on_peer_end = some promise }) n)
      m

-- `ready` of a port.
unfoldable pub when_ready : (handle below promise : ℕ) → PortMux → PortMux
when_ready handle below promise m =
    with_credit handle
      (λ p k n.
        if leb k.queued below || p.closed
        then resolve_all (promise ∷ []) n
        else save_credit handle p
            (record k { waiters = k.waiters ++ (record { below = below; resolve = promise } ∷ []) })
            n)
      m

-- The loop of `close` over the ports that are open.
unfoldable pub close_all : Reason → List (ℕ × Entry) → PortMux → PortMux
close_all reason [] m = m
close_all reason ((id, e) ∷ rest) m = close_all reason rest (
    mark_closed e.handle reason
      (release_waiters e.handle (delete_entry id (codec_post (close_envelope id none) m))))

-- The ports closed before, whose close still waits in the ring.
unfoldable pub close_waiting : List (ℕ × Entry) → List (ℕ × List Item) → PortMux → PortMux
close_waiting table [] m = m
close_waiting table ((id, queue) ∷ rest) m =
    close_waiting table rest
      (elim (map_get id table) [ none ↦ codec_post (close_envelope id none) m | some e ↦ m ])

unfoldable pub close_mux : Reason → PortMux → PortMux
close_mux reason m =
    if m.closed
    then m
    else record (close_waiting m.table m.ring.outgoing
        (close_all reason m.table (record m { closed = true }))) { ring = new_ring }

abbrev pub id_or : (id next : ℕ) → Option Entry → ℕ
id_or id next none = id
id_or id next (some e) = next

-- The first id from `id` on, in steps of two, that no port has. A table of `n` ports can hold at most `n` of
-- the first `n + 1` candidates.
unfoldable pub free_id : (fuel id : ℕ) → List (ℕ × Entry) → ℕ
free_id zero id table = id
free_id (suc fuel) id table =
    let next = free_id fuel (id + 2) table in id_or id next (map_get id table)

-- The errors of `openPort`.
pub data OpenError : Type 0 where
  already_closed ports_exceeded aborted : OpenError

abbrev pub open_of : Config → (id : ℕ) (meta : Option ℕ) → Envelope
open_of c id meta =
    if elim c.window [ none ↦ false | some w ↦ ltb 0 w ]
    then open_envelope id meta c.window (is_exact c) (some (own_caps c))
    else open_envelope id meta none false none

-- `openPort`: an error, or the place of the new port.
unfoldable pub open_port :
    Config → (meta : Option ℕ) (is_aborted : Bool) → PortMux → PortMux × (OpenError ⊎ ℕ)
open_port c meta is_aborted m =
    let id = free_id (length m.table) m.next_id m.table in
    if m.closed
    then (m, inl already_closed)
    else if is_aborted
    then (m, inl aborted)
    else if leb c.max_ports (length m.table)
    then (m, inl ports_exceeded)
    else (
      post (open_of c id meta)
          (attach id meta c.window true (is_exact c) (record m { next_id = id + 2 })),
      inr (length m.ports),
    )
