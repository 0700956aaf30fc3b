-- ===== src/Rpc/PortMux/Send.antt =====
-- What a multiplexer of ports puts on the pipe: the fair-framing ring, the window queue of a port and the
-- grants.
use webrun_wire.Common.{ℕ, zero, suc, List, [], ◌∷◌, Option, none, some, length}
use webrun_wire.Common.{Bool, true, false, not, ◌||◌, ◌&&◌, ◌==◌, ltb, if◌then◌else◌}
use webrun_wire.Common.Maps.{map_get}
use webrun_wire.Rpc.Estimate.{Value, estimate_message_size}
use webrun_wire.Rpc.Credit
use webrun_wire.Rpc.Credit.{
  Credit, Content, Queued, queued_message, queued_end, Waiter, flush_queue,
}
use webrun_wire.Rpc.Credit.{ready_waiters, enqueue, waits}
use webrun_wire.Rpc.Framing.{Frame, split_frames}
use webrun_wire.Rpc.Ring
use webrun_wire.Rpc.Ring.{Ring, put, take_item, weight}
use webrun_wire.Rpc.PortMux.State.{Reason, ended_both_ways}
use webrun_wire.Rpc.PortMux.State.{Envelope, message_envelope}
use webrun_wire.Rpc.PortMux.State.{
  close_envelope, credit_envelope, end_envelope, frame_envelope, ExactCodec, Config, Port, Item,
  envelope_item,
}
use webrun_wire.Rpc.PortMux.State.{bytes_item, end_item, PortMux}
use webrun_wire.Rpc.PortMux.State.{
  save_credit, with_port, with_credit, with_entry, touch, post, post_bytes,
}
use webrun_wire.Rpc.PortMux.State.{free_partial, delete_entry, mark_closed, resolve_all}

-- `freeIfEnded`: both directions of a port have ended.
unfoldable pub free_if_ended : (id handle : ℕ) → PortMux → PortMux
free_if_ended id handle m =
    with_credit handle
      (λ p c. with_entry id (λ e n.
        if not c.end_sent || not c.peer_ended || not (e.handle == handle)
        then n
        else mark_closed handle ended_both_ways (delete_entry id (free_partial id n))))
      m

-- The `end` behind the frames of a port, which a port closed meanwhile does not send.
unfoldable pub run_end : (id handle : ℕ) → PortMux → PortMux
run_end id handle m =
    with_entry id
      (λ e n.
        if e.handle == handle
        then free_if_ended id handle (
            with_credit handle (λ p c. save_credit handle p (record c { end_sent = true }))
              (post (end_envelope id) n))
        else n)
      m

unfoldable pub run_item : Item → PortMux → PortMux
run_item (envelope_item e) m = post e m
run_item (bytes_item b) m = post_bytes b m
run_item (end_item handle id) m = run_end id handle m

abbrev pub run_taken : Option Item × Ring Item → PortMux → PortMux
run_taken (none, r) m = record m { ring = r }
run_taken (some item, r) m = run_item item (record m { ring = r })

-- One turn of the loop of `pump`.
unfoldable pub pump_turn : PortMux → PortMux
pump_turn m = run_taken (take_item m.ring) m

abbrev pub is_idle : PortMux → Bool
is_idle m = (length m.ring.turns == 0) || m.closed

-- The loop on a pipe that cannot say that it is full: each turn takes a turn or an item from the ring.
unfoldable pub pump_loop : (fuel : ℕ) → PortMux → PortMux
pump_loop zero m = record m { pumping = false }
pump_loop (suc fuel) m =
    let rest = pump_loop fuel (pump_turn m) in
    if is_idle m then record m { pumping = false } else rest

-- `pump`: on a pipe with `whenDrained` it waits for room before each turn.
unfoldable pub pump : Config → PortMux → PortMux
pump c m =
    if c.waits_for_room then record m { pumping = not (is_idle m) } else pump_loop (weight m.ring) m

-- `whenDrained` has resolved.
unfoldable pub pump_drained : PortMux → PortMux
pump_drained m =
    let n = pump_turn m in
    if not m.pumping
    then m
    else if m.closed
    then record m { pumping = false }
    else record n { pumping = not (is_idle n) }

abbrev pub pump_unless : Config → PortMux → PortMux
pump_unless c m = if m.pumping then m else pump c m

abbrev pub place : Config → ℕ → Item → Option ℕ → PortMux → PortMux
place c id item none m = run_item item m
place c id item (some frame_size) m = pump_unless c (record m { ring = put id item m.ring })

unfoldable pub send_on_port : Config → ℕ → Item → PortMux → PortMux
send_on_port c id item m = place c id item c.frame_size m

unfoldable pub drop_outgoing : ℕ → PortMux → PortMux
drop_outgoing id m = record m { ring = Ring.drop_outgoing id m.ring }

unfoldable pub send_frames : Config → ℕ → List Frame → PortMux → PortMux
send_frames c id [] m = m
send_frames c id (f ∷ fs) m =
    send_frames c id fs
      (send_on_port c id (envelope_item (frame_envelope id (some f.data_bytes) f.last)) m)

-- The bytes of a message: in frames where the peer has said that it puts them together.
abbrev pub send_bytes : Config → (whole : Bool) → ℕ → Credit → List ℕ → Option ℕ → PortMux → PortMux
send_bytes c whole id k bytes none m = send_on_port c id (bytes_item bytes) m
send_bytes c whole id k bytes (some n) m =
    if not whole && k.enforced && k.exact && ltb n (length bytes)
    then send_frames c id (split_frames n bytes) m
    else send_on_port c id (bytes_item bytes) m

-- The closure `send` of a queued item; `handle` is that of the port `id`.
unfoldable pub send_content :
    Config → (whole : Bool) → (id handle : ℕ) → Content → PortMux → PortMux
send_content c whole id handle (queued_message payload none) m =
    send_on_port c id (envelope_item (message_envelope id payload)) m
send_content c whole id handle (queued_message payload (some bytes)) m =
    with_credit handle (λ p k. send_bytes c whole id k bytes c.frame_size) m
send_content c whole id handle queued_end m = send_on_port c id (end_item handle id) m

unfoldable pub send_all :
    Config → (whole : Bool) → (id handle : ℕ) → List Queued → PortMux → PortMux
send_all c whole id handle [] m = m
send_all c whole id handle (q ∷ qs) m =
    send_all c whole id handle qs (send_content c whole id handle q.content m)

-- The end of `flush`: the waiters that the queue is now short enough for.
unfoldable pub wake_waiters : ℕ → PortMux → PortMux
wake_waiters handle m =
    with_credit handle
      (λ p k n.
        let r = ready_waiters k.queued k.waiters in
        resolve_all r.1 (save_credit handle p (record k { waiters = r.0 }) n))
      m

unfoldable pub flush : Config → (id handle : ℕ) → PortMux → PortMux
flush c id handle m =
    with_credit handle
      (λ p k n.
        let r = flush_queue k.queue k in
        wake_waiters handle (send_all c false id handle r.1 (save_credit handle p r.0 n)))
      m

abbrev pub promises : List Waiter → List ℕ
promises [] = []
promises (w ∷ ws) = w.resolve ∷ promises ws

unfoldable pub release_waiters : ℕ → PortMux → PortMux
release_waiters handle m =
    with_credit handle
      (λ p k n.
        resolve_all (promises k.waiters) (save_credit handle p (record k { waiters = [] }) n))
      m

-- `failPort`: a peer that broke the protocol of a port.
unfoldable pub fail_port : (id handle : ℕ) → Reason → Reason → PortMux → PortMux
fail_port id handle error reason m = post (close_envelope id (some reason)) (
    mark_closed handle error
      (release_waiters handle (delete_entry id (drop_outgoing id (free_partial id m)))))

abbrev pub is_open : ℕ → PortMux → Bool
is_open id m = elim (map_get id m.table) [ none ↦ false | some e ↦ true ]

abbrev pub post_grant : ℕ → ℕ → Port → Credit × Option ℕ → PortMux → PortMux
post_grant id handle p (k, none) m = save_credit handle p k m
post_grant id handle p (k, some bytes) m =
    save_credit handle p k (post (credit_envelope id (some bytes) false none) m)

-- `send` of `grant`, when its timer fires, and the listeners of a delivery have settled.
unfoldable pub grant_due : ℕ → PortMux → PortMux
grant_due handle m =
    with_credit handle (λ p k n. post_grant p.id handle p (Credit.send_grant (is_open p.id n) k) n)
      m

unfoldable pub listeners_settled : (handle nth : ℕ) → PortMux → PortMux
listeners_settled handle nth m =
    with_credit handle (λ p k n. post_grant p.id handle p (Credit.settled (is_open p.id n) nth k) n)
      m

abbrev pub encoded : Option ExactCodec → Bool → Envelope → Option (List ℕ)
encoded none exact e = none
encoded (some codec) exact e = if exact then some (codec.encode e) else none

abbrev pub size_or : ℕ → Option (List ℕ) → ℕ
size_or estimate none = estimate
size_or estimate (some bytes) = length bytes

-- `postMessage` of a port that its consumer has not closed.
unfoldable pub post_windowed : Config → (handle : ℕ) → Value → Port → Credit → PortMux → PortMux
post_windowed c handle payload p k m =
    if k.ending
    then m
    else let bytes = encoded c.exact_codec k.exact (message_envelope p.id payload) in
      let q : Queued = record {
        content = queued_message payload bytes;
        size = size_or (estimate_message_size payload) bytes;
      } in
      flush c p.id handle (save_credit handle p (enqueue q k) (touch p.id m))

abbrev pub post_on : Config → (handle : ℕ) → Value → Port → Option Credit → PortMux → PortMux
post_on c handle payload p none m = post (message_envelope p.id payload) (touch p.id m)
post_on c handle payload p (some k) m = post_windowed c handle payload p k m

unfoldable pub post_message : Config → (handle : ℕ) → Value → PortMux → PortMux
post_message c handle payload m =
    with_port handle (λ p n. if p.closed then n else post_on c handle payload p p.credit n) m
