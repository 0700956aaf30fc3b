-- ===== src/Rpc/PortMux/Stable/Receiving.antt =====
-- What the receiving side of a multiplexer of ports keeps.
use webrun_wire.Common.{lt_of_leb, ℕ, ◌≡◌, refl, ap, sym, ◌∙◌, List}
use webrun_wire.Common.{
  Option, none, some, length, get_elem?, Bool, true, false, not, inl, inr, arith,
}
use webrun_wire.Common.{Bool-cases, if◌then◌else◌, ◌&&◌, leb}
use webrun_wire.Common.Maps.{map_get, map_set, map_get-map_set}
use webrun_wire.Rpc.Credit.{Credit, Cap, half_close}
use webrun_wire.Rpc.PortMux.State.{end_not_agreed, rejected, peer_closed}
use webrun_wire.Rpc.PortMux.State.{
  max_ports_reached, protocol, pings_unanswered, Envelope, open_envelope, message_envelope,
}
use webrun_wire.Rpc.PortMux.State.{
  close_envelope, credit_envelope, end_envelope, frame_envelope, ping, pong, Config, Port, Entry,
}
use webrun_wire.Rpc.PortMux.State.{Posted, PortMux, includes}
use webrun_wire.Rpc.PortMux.State.{on_some, with_port, with_credit, codec_post, post}
use webrun_wire.Rpc.PortMux.State.{charged_of, delete_entry, mark_closed, resolve_all, is_exact}
use webrun_wire.Rpc.PortMux.Send.{drop_outgoing, is_open}
use webrun_wire.Rpc.PortMux.Receive.{
  acknowledge, verdict, on_open, on_credit, resolve_one, end_read, on_end, on_close, dispatch,
  handle_envelope,
}
use webrun_wire.Rpc.PortMux.Ends.{new_entry, attach}
use webrun_wire.Rpc.PortMux.Keepalive.{count_unanswered, tick_of, tick}
use webrun_wire.Rpc.PortMux.Stable.{
  deleted-On, entry_charge, Stable, On, with_port-On, with_credit-On, with_entry-On, post-On,
  touch-On, dropped-On, mark_closed-On,
}
use webrun_wire.Rpc.PortMux.Stable.Sending.{
  either-On, free_if_ended-On, flush-On, release_waiters-On, fail_port-On,
}
use webrun_wire.Rpc.PortMux.Stable.Ending.{attach-On, close_mux-On}
use webrun_wire.Rpc.PortMux.Stable.Delivering.{on_message-On, on_frame-On}

not_open : (o : Option Entry) → (elim o [ none ↦ false | some e ↦ true ]) ≡ false → o ≡ none
not_open none h = refl
not_open (some e) h = ground (arith, h)

pub post-table : (e : Envelope) (m : PortMux) → (post e m).table ≡ m.table
unfolding post codec_post
post-table e m = elim (Bool-cases m.closed) [ inl h ↦ rw h refl | inr h ↦ rw h refl ]

with_credit-table :
    (handle : ℕ) (f : Port → Credit → PortMux → PortMux) (m : PortMux)
    → ((p : Port) (k : Credit) → (f p k m).table ≡ m.table)
    → (with_credit handle f m).table ≡ m.table
unfolding with_credit with_port
with_credit-table handle f m h = go (get_elem? m.ports handle)
  where
    inner : (p : Port) (o : Option Credit) → (on_some o (f p) m).table ≡ m.table
    inner p none = refl
    inner p (some k) = h p k

    go : (o : Option Port) → (on_some o (λ p. on_some p.credit (f p)) m).table ≡ m.table
    go none = refl
    go (some p) = inner p p.credit

acknowledge-table :
    (c : Config) (id handle : ℕ) (listed : Option (List Cap)) (m : PortMux)
    → (acknowledge c id handle listed m).table ≡ m.table
unfolding acknowledge
acknowledge-table c id handle listed m = with_credit-table handle _ m (λ p k. post-table _ _)

-- What `attach` puts under an id.
attached_charge :
    (id : ℕ) (e x : Entry) (t t' : List (ℕ × Entry))
    → e.partial ≡ none
    → t' ≡ map_set id e t
    → map_get id t' ≡ some x
    → charged_of x.partial ≡ 0
attached_charge id e x t t' n h g =
    ap entry_charge (sym g ∙ ap (map_get id) h ∙ map_get-map_set id e t) ∙ ap charged_of n

module _ {c : Config} {P : List (ℕ × Entry) → ℕ → List Posted → Bool → Type 0}
    (stable : Stable c P) where
  acknowledge-On :
      (id handle : ℕ) (listed : Option (List Cap)) (m : PortMux)
      → On stable m
      → On stable (acknowledge c id handle listed m)
  unfolding acknowledge
  acknowledge-On id handle listed m v =
      with_credit-On stable handle _ m (λ p k. post-On stable _ _ v) v

  on_open-On :
      (id : ℕ) (meta window : Option ℕ) (exact : Bool) (caps : Option (List Cap)) (m : PortMux)
      → m.closed ≡ false
      → On stable m
      → On stable (on_open c id meta window exact caps m)
  unfolding on_open
  on_open-On id meta window exact caps m e v =
      go (is_open id m) (leb c.max_ports (length m.table)) refl refl
    where
      handle : ℕ
      handle = length m.ports

      attached : PortMux
      attached = attach id meta window false (exact && is_exact c) m

      n : PortMux
      n = acknowledge c id handle caps attached

      n_table : n.table ≡ map_set id (new_entry handle meta m.now) m.table
      n_table = unfold attach in acknowledge-table c id handle caps attached

      go :
          (o f : Bool)
          → is_open id m ≡ o
          → leb c.max_ports (length m.table) ≡ f
          → On stable (
              if o
              then m
              else if f
              then post (close_envelope id (some max_ports_reached)) m
              else if verdict c.on_port meta
              then n
              else post
                  (close_envelope id (some rejected))
                  (mark_closed handle rejected (delete_entry id n)))
      go true f h g = v
      go false true h g = post-On stable _ m v
      go false false h g =
          let w = acknowledge-On id handle caps attached (
            attach-On stable id meta window false (exact && is_exact c) m
              (not_open (map_get id m.table) h) (lt_of_leb c.max_ports (length m.table) g) e v) in
          either-On stable (verdict c.on_port meta) n _ w (
            post-On stable _ _ (
              mark_closed-On stable handle rejected (delete_entry id n) (
                deleted-On stable id n
                  (λ x q.
                    attached_charge id (new_entry handle meta m.now) x m.table n.table refl n_table
                      q)
                  w)))

  on_credit-On :
      (id bytes : ℕ) (exact : Bool) (caps : Option (List Cap)) (m : PortMux)
      → On stable m
      → On stable (on_credit c id bytes exact caps m)
  unfolding on_credit
  on_credit-On id bytes exact caps m v =
      with_entry-On stable id _ m
        (λ e h.
          with_credit-On stable e.handle _ m
            (λ p k.
              either-On stable (not k.enforced && k.opener) _ _
                (flush-On stable id e.handle _ (post-On stable _ m v))
                (flush-On stable id e.handle _ v))
            v)
        v

  on_end-On : (id : ℕ) (m : PortMux) → On stable m → On stable (on_end id m)
  unfolding on_end resolve_all
  on_end-On id m v =
      with_entry-On stable id _ m (λ e h. with_port-On stable e.handle _ m (λ p. go e p p.credit) v)
        v
    where
      resolved : (o : Option ℕ) (n : PortMux) → On stable n → On stable (resolve_one o n)
      resolved none n w = w
      resolved (some x) n w = w

      go : (e : Entry) (p : Port) (o : Option Credit) → On stable (end_read id e.handle p o m)
      go e p none = fail_port-On stable id e.handle end_not_agreed protocol m v
      go e p (some k) =
          either-On stable (includes half_close k.caps) _ _
            (free_if_ended-On stable id e.handle _
              (resolved k.on_peer_end _ (touch-On stable id m v)))
            (fail_port-On stable id e.handle end_not_agreed protocol m v)

  on_close-On : (id : ℕ) (m : PortMux) → On stable m → On stable (on_close id m)
  unfolding on_close drop_outgoing
  on_close-On id m v =
      with_entry-On stable id _ (drop_outgoing id m)
        (λ e h.
          mark_closed-On stable e.handle peer_closed _
            (release_waiters-On stable e.handle _ (dropped-On stable id (drop_outgoing id m) v)))
        v

  dispatch-On :
      (e : Envelope) (raw : Option ℕ) (m : PortMux)
      → m.closed ≡ false
      → On stable m
      → On stable (dispatch c e raw m)
  dispatch-On ping raw m h v = post-On stable pong _ v
  dispatch-On pong raw m h v = v
  dispatch-On (open_envelope id meta window exact caps) raw m h v =
      on_open-On id meta window exact caps m h v
  dispatch-On (credit_envelope id none exact caps) raw m h v = v
  dispatch-On (credit_envelope id (some bytes) exact caps) raw m h v =
      on_credit-On id bytes exact caps m v
  dispatch-On (message_envelope id payload) raw m h v = on_message-On stable id payload raw m v
  dispatch-On (frame_envelope id chunk last) raw m h v = on_frame-On stable id chunk last m v
  dispatch-On (end_envelope id) raw m h v = on_end-On id m v
  dispatch-On (close_envelope id reason) raw m h v = on_close-On id m v

  pub handle_envelope-On :
      (e : Envelope) (raw : Option ℕ) (m : PortMux)
      → On stable m
      → On stable (handle_envelope c e raw m)
  unfolding handle_envelope
  handle_envelope-On e raw m v = go m.closed refl
    where
      n : PortMux
      n = record m { heard_since_ping = true }

      go : (b : Bool) → m.closed ≡ b → On stable (if b then m else dispatch c e raw n)
      go true h = v
      go false h = dispatch-On e raw n h v

  pub tick-On : (backlogged : Bool) (m : PortMux) → On stable m → On stable (tick c backlogged m)
  unfolding tick
  tick-On backlogged m v = either-On stable m.closed m _ v (go c.misses)
    where
      n : PortMux
      n = record m { unanswered = count_unanswered backlogged m }

      go : (o : Option ℕ) → On stable (tick_of o backlogged m)
      go none = v
      go (some misses) =
          either-On stable (leb misses n.unanswered) _ _ (close_mux-On stable pings_unanswered n v)
            (post-On stable ping (record n { heard_since_ping = false }) v)
