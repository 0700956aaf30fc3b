-- ===== src/Rpc/PortMux/Receive.antt =====
-- `handleEnvelope`: what a multiplexer of ports does with what it reads.
use webrun_wire.Common.{ℕ, List, [], ◌∷◌, Option, none, some, length}
use webrun_wire.Common.{Bool, true, false, not, ◌&&◌, leb, if◌then◌else◌}
use webrun_wire.Rpc.Credit.{Cap, half_close, Credit, credited}
use webrun_wire.Rpc.PortMux.State.{end_not_agreed, rejected, peer_closed}
use webrun_wire.Rpc.PortMux.State.{
  max_ports_reached, protocol, Envelope, open_envelope, message_envelope,
}
use webrun_wire.Rpc.PortMux.State.{
  close_envelope, credit_envelope, end_envelope, frame_envelope, ping, pong, Config, Port,
}
use webrun_wire.Rpc.PortMux.State.{PortMux, own_caps, includes, shared_caps}
use webrun_wire.Rpc.PortMux.State.{save_credit, with_port, with_credit, with_entry, touch, post}
use webrun_wire.Rpc.PortMux.State.{free_partial, delete_entry, mark_closed, resolve_all, is_exact}
use webrun_wire.Rpc.PortMux.Send.{free_if_ended}
use webrun_wire.Rpc.PortMux.Send.{drop_outgoing, flush, release_waiters, fail_port, is_open}
use webrun_wire.Rpc.PortMux.Ends.{attach}
use webrun_wire.Rpc.PortMux.Frames.{on_message, on_frame}

abbrev pub caps_or : List Cap → Option (List Cap) → List Cap
caps_or default none = default
caps_or default (some caps) = caps

-- The acknowledgement of a peer's window, with the capabilities that both ends speak if it listed its own.
unfoldable pub acknowledge : Config → (id handle : ℕ) → Option (List Cap) → PortMux → PortMux
acknowledge c id handle listed m =
    let shared = shared_caps (own_caps c) listed in
    with_credit handle
      (λ p k n.
        post (credit_envelope id (some 0) k.exact shared)
          (save_credit handle p (record k { caps = caps_or k.caps shared }) n))
      m

abbrev pub verdict : Option (Option ℕ → Bool) → Option ℕ → Bool
verdict none meta = false
verdict (some accepts) meta = accepts meta

-- A peer opens a port.
unfoldable pub on_open :
    Config
    → (id : ℕ) (meta window : Option ℕ) (exact : Bool) (caps : Option (List Cap)) → PortMux
    → PortMux
on_open c id meta window exact caps m =
    let handle = length m.ports in
    let n = acknowledge c id handle caps (attach id meta window false (exact && is_exact c) m) in
    if is_open id m
    then m
    else if leb c.max_ports (length m.table)
    then post (close_envelope id (some max_ports_reached)) m
    else if verdict c.on_port meta
    then n
    else post (close_envelope id (some rejected)) (mark_closed handle rejected (delete_entry id n))

-- The first credit that the opener reads acknowledges its window, and settles the sizes and the capabilities.
abbrev pub settle_handshake : Config → (exact : Bool) → Option (List Cap) → Credit → Credit
settle_handshake c exact caps k = record k {
  exact = k.exact && exact;
  outstanding = if k.exact && not exact then 0 else k.outstanding;
  caps = caps_or [] (shared_caps (own_caps c) caps);
}

unfoldable pub on_credit :
    Config → (id bytes : ℕ) (exact : Bool) (caps : Option (List Cap)) → PortMux → PortMux
on_credit c id bytes exact caps m =
    with_entry id
      (λ e. with_credit e.handle (λ p k n.
        if not k.enforced && k.opener
        then flush c id e.handle (
            save_credit e.handle p (credited bytes (settle_handshake c exact caps k))
              (post (credit_envelope id (some 0) false none) n))
        else flush c id e.handle (save_credit e.handle p (credited bytes k) n)))
      m

abbrev pub resolve_one : Option ℕ → PortMux → PortMux
resolve_one none m = m
resolve_one (some promise) m = resolve_all (promise ∷ []) m

-- The peer's `end` of a port, where both ends speak it.
abbrev pub end_read : (id handle : ℕ) → Port → Option Credit → PortMux → PortMux
end_read id handle p none m = fail_port id handle end_not_agreed protocol m
end_read id handle p (some k) m =
    if includes half_close k.caps
    then free_if_ended id handle (
        resolve_one k.on_peer_end
          (save_credit handle p (record k { peer_ended = true }) (touch id m)))
    else fail_port id handle end_not_agreed protocol m

unfoldable pub on_end : (id : ℕ) → PortMux → PortMux
on_end id m = with_entry id (λ e. with_port e.handle (λ p. end_read id e.handle p p.credit)) m

unfoldable pub on_close : (id : ℕ) → PortMux → PortMux
on_close id m =
    with_entry id
      (λ e n.
        mark_closed e.handle peer_closed
          (release_waiters e.handle (delete_entry id (free_partial id n))))
      (drop_outgoing id m)

abbrev pub dispatch : Config → Envelope → (raw : Option ℕ) → PortMux → PortMux
dispatch c ping raw m = post pong (record m { peer_keeps_alive = true })
dispatch c pong raw m = record m { peer_keeps_alive = true }
dispatch c (open_envelope id meta window exact caps) raw m = on_open c id meta window exact caps m
dispatch c (credit_envelope id none exact caps) raw m = m
dispatch c (credit_envelope id (some bytes) exact caps) raw m = on_credit c id bytes exact caps m
dispatch c (message_envelope id payload) raw m = on_message c id payload raw m
dispatch c (frame_envelope id chunk last) raw m = on_frame c id chunk last m
dispatch c (end_envelope id) raw m = on_end id m
dispatch c (close_envelope id reason) raw m = on_close id m

-- `raw` is the byte length of the message event's data, where it is bytes.
unfoldable pub handle_envelope : Config → Envelope → (raw : Option ℕ) → PortMux → PortMux
handle_envelope c e raw m =
    if m.closed then m else dispatch c e raw (record m { heard_since_ping = true })
