-- ===== src/Rpc/PortMux/Stable.antt =====
-- What holds of the table, of `reassembling`, of what was sent and of `muxClosed`, and is kept by the few
-- operations that change them.
use webrun_wire.Common.{
  ℕ, zero, suc, ◌+◌, ◌-◌, ◌≤◌, ◌<◌, ◌≡◌, refl, ap, sym, ◌∙◌, List, [], ◌∷◌, ◌++◌,
}
use webrun_wire.Common.{
  Option, none, some, length, get_elem?, Bool, true, false, ◌⊎◌, inl, inr, arith,
}
use webrun_wire.Common.{Option-cases, Bool-cases, if◌then◌else◌, subst}
use webrun_wire.Common.Maps.{map_get, map_set, map_delete, map_get-map_set}
use webrun_wire.Rpc.Framing.{Partial, join}
use webrun_wire.Rpc.Credit.{Credit}
use webrun_wire.Rpc.PortMux.State.{
  Side, initiator, responder, Reason, ended_both_ways, sent_after_end, end_not_agreed,
  passed_window, passed_cap, rejected, peer_closed, mux_closed,
}
use webrun_wire.Rpc.PortMux.State.{
  dropped, max_ports_reached, protocol, pings_unanswered, pipe_failed, transport_aborted, leaked,
  port_closed, given, Envelope, open_envelope, message_envelope,
}
use webrun_wire.Rpc.PortMux.State.{
  close_envelope, credit_envelope, end_envelope, frame_envelope, ping, pong, ExactCodec, Config,
  Port, Entry, Item, envelope_item,
}
use webrun_wire.Rpc.PortMux.State.{
  bytes_item, end_item, Posted, posted_envelope, posted_bytes, PortMux, multiplex_port, own_caps,
  same_cap, includes, filter_caps, shared_caps,
}
use webrun_wire.Rpc.PortMux.State.{
  set_port, save_port, save_credit, on_some, with_port, with_credit, with_entry, save_entry, touch,
  codec_post, post, post_bytes,
}
use webrun_wire.Rpc.PortMux.State.{
  charged_of, free_partial, delete_entry, mark_closed, resolve_all, is_exact,
}
use webrun_wire.Rpc.PortMux.Send.{
  free_if_ended, run_end, run_item, run_taken, pump_turn, is_idle, pump_loop, pump, pump_drained,
  pump_unless, place,
}
use webrun_wire.Rpc.PortMux.Send.{
  send_on_port, drop_outgoing, send_frames, send_bytes, send_content, send_all, wake_waiters, flush,
  promises, release_waiters, fail_port, is_open,
}
use webrun_wire.Rpc.PortMux.Send.{
  post_grant, grant_due, listeners_settled, encoded, size_or, post_windowed, post_on, post_message,
}
pub mod Sending
pub mod Ending
pub mod Delivering
pub mod Receiving
pub mod Run

-- The count of bytes of a partial message is that of what it holds.
abbrev pub Counted : Option Partial → Type 0
Counted none = Unit
Counted (some p) = p.bytes ≡ length (join p.chunks)

pub record Stable (c : Config) (P : List (ℕ × Entry) → ℕ → List Posted → Bool → Type 0)
    : Type 0 where
  pub posting :
      (t : List (ℕ × Entry)) (r : ℕ) (s : List Posted) (x : Posted)
      → P t r s false
      → P t r (s ++ (x ∷ [])) false
  pub touching :
      (t : List (ℕ × Entry)) (r : ℕ) (s : List Posted) (b : Bool) (id : ℕ) (e : Entry) (now : ℕ)
      → map_get id t ≡ some e
      → P t r s b
      → P (map_set id (record e { last_activity = now }) t) r s b
  pub freeing :
      (t : List (ℕ × Entry)) (r : ℕ) (s : List Posted) (b : Bool) (id : ℕ) (e : Entry)
      → map_get id t ≡ some e
      → P t r s b
      → P (map_set id (record e { partial = none }) t) (r - charged_of e.partial) s b
  pub deleting :
      (t : List (ℕ × Entry)) (r : ℕ) (s : List Posted) (b : Bool) (id : ℕ)
      → ((e : Entry) → map_get id t ≡ some e → charged_of e.partial ≡ 0)
      → P t r s b
      → P (map_delete id t) r s b
  pub framing :
      (t : List (ℕ × Entry)) (r : ℕ) (s : List Posted) (b : Bool) (id : ℕ) (e : Entry) (now : ℕ)
      (p : Partial)
      → map_get id t ≡ some e
      → ((r - charged_of e.partial) + p.charged) ≤ c.max_reassembled_bytes
      → (Counted e.partial → Counted (some p))
      → P t r s b
      → P
          (map_set id (record e { last_activity = now; partial = some p }) t)
          ((r + p.charged) - charged_of e.partial)
          s
          b
  pub adding :
      (t : List (ℕ × Entry)) (r : ℕ) (s : List Posted) (id : ℕ) (e : Entry)
      → map_get id t ≡ none
      → e.partial ≡ none
      → length t < c.max_ports
      → P t r s false
      → P (map_set id e t) r s false
  pub closing :
      (t t' : List (ℕ × Entry)) (r : ℕ) (s s' : List Posted)
      → length t' ≤ length t
      → P t r s false
      → P t' r s' true

abbrev pub entry_charge : Option Entry → ℕ
entry_charge none = 0
entry_charge (some e) = charged_of e.partial

module _ {c : Config} {P : List (ℕ × Entry) → ℕ → List Posted → Bool → Type 0}
    (stable : Stable c P) where
  abbrev pub On : PortMux → Type 0
  On m = P m.table m.reassembling m.sent m.closed

  pub with_port-On :
      (handle : ℕ) (f : Port → PortMux → PortMux) (m : PortMux)
      → ((p : Port) → On (f p m))
      → On m
      → On (with_port handle f m)
  unfolding with_port
  with_port-On handle f m h v = elim (Option-cases (get_elem? m.ports handle)) [
    | inl e ↦ rw e v
    | inr (p, e) ↦ rw e (h p)
  ]

  pub on_some-On {ℓ} :
      {A : Type ℓ} (o : Option A) (f : A → PortMux → PortMux) (m : PortMux)
      → ((x : A) → On (f x m))
      → On m
      → On (on_some o f m)
  on_some-On none f m h v = v
  on_some-On (some x) f m h v = h x

  pub with_credit-On :
      (handle : ℕ) (f : Port → Credit → PortMux → PortMux) (m : PortMux)
      → ((p : Port) (k : Credit) → On (f p k m))
      → On m
      → On (with_credit handle f m)
  unfolding with_credit
  with_credit-On handle f m h v =
      with_port-On handle (λ p. on_some p.credit (f p)) m (λ p. on_some-On p.credit (f p) m (h p) v)
        v

  pub with_entry-On :
      (id : ℕ) (f : Entry → PortMux → PortMux) (m : PortMux)
      → ((e : Entry) → map_get id m.table ≡ some e → On (f e m))
      → On m
      → On (with_entry id f m)
  unfolding with_entry
  with_entry-On id f m h v = elim (Option-cases (map_get id m.table)) [
    | inl e ↦ rw e v
    | inr (x, e) ↦ rw e (h x e)
  ]

  sent_unless :
      (m : PortMux) (x : Posted) (b : Bool)
      → m.closed ≡ b
      → On m
      → On (if b then m else record m { sent = m.sent ++ (x ∷ []) })
  sent_unless m x true e v = v
  sent_unless m x false e v =
      subst (λ b. P m.table m.reassembling (m.sent ++ (x ∷ [])) b) (sym e)
        (stable.posting m.table m.reassembling m.sent x
          (subst (λ b. P m.table m.reassembling m.sent b) e v))

  pub post-On : (e : Envelope) (m : PortMux) → On m → On (post e m)
  unfolding post codec_post
  post-On e m v = sent_unless m (posted_envelope e) m.closed refl v

  pub post_bytes-On : (b : List ℕ) (m : PortMux) → On m → On (post_bytes b m)
  unfolding post_bytes
  post_bytes-On b m v = sent_unless m (posted_bytes b) m.closed refl v

  pub touch-On : (id : ℕ) (m : PortMux) → On m → On (touch id m)
  unfolding touch save_entry
  touch-On id m v =
      with_entry-On id (λ e. save_entry id (record e { last_activity = m.now })) m
        (λ e h. stable.touching m.table m.reassembling m.sent m.closed id e m.now h v) v

  pub free_partial-On : (id : ℕ) (m : PortMux) → On m → On (free_partial id m)
  unfolding free_partial save_entry
  free_partial-On id m v =
      with_entry-On id _ m (λ e h. stable.freeing m.table m.reassembling m.sent m.closed id e h v) v

  freed_charge :
      (id : ℕ) (m : PortMux) (e : Entry) (o : Option Entry)
      → map_get id m.table ≡ o
      → map_get id
          (on_some o
            (λ x n. record (save_entry id (record x { partial = none }) n) {
              reassembling = n.reassembling - charged_of x.partial;
            })
            m).table
        ≡ some e
      → charged_of e.partial ≡ 0
  unfolding save_entry
  freed_charge id m e none g h = ap entry_charge (sym h ∙ g)
  freed_charge id m e (some x) g h =
      ap entry_charge (sym h ∙ map_get-map_set id (record x { partial = none }) m.table)

  free_partial_charge :
      (id : ℕ) (m : PortMux) (e : Entry)
      → map_get id (free_partial id m).table ≡ some e
      → charged_of e.partial ≡ 0
  unfolding free_partial with_entry
  free_partial_charge id m e h = freed_charge id m e (map_get id m.table) refl h

  pub deleted-On :
      (id : ℕ) (m : PortMux)
      → ((e : Entry) → map_get id m.table ≡ some e → charged_of e.partial ≡ 0)
      → On m
      → On (delete_entry id m)
  unfolding delete_entry
  deleted-On id m h v = stable.deleting m.table m.reassembling m.sent m.closed id h v

  -- `freePartial` of an entry, and its `delete`.
  pub dropped-On : (id : ℕ) (m : PortMux) → On m → On (delete_entry id (free_partial id m))
  dropped-On id m v =
      deleted-On id (free_partial id m) (free_partial_charge id m) (free_partial-On id m v)

  pub mark_closed-On :
      (handle : ℕ) (reason : Reason) (m : PortMux) → On m → On (mark_closed handle reason m)
  unfolding mark_closed
  mark_closed-On handle reason m v = with_port-On handle _ m (λ p. v) v
