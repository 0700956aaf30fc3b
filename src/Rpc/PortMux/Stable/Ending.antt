-- ===== src/Rpc/PortMux/Stable/Ending.antt =====
-- What the beginning and the end of ports, and the end of the mux, keep.
use webrun_wire.Common.{lt_of_leb, ℕ, ◌+◌, ◌<◌, ◌≡◌, refl, sym, List, [], ◌∷◌}
use webrun_wire.Common.{Option, none, some, length, Bool, true, false, not, ◌⊎◌, inl, inr}
use webrun_wire.Common.{Bool-cases, if◌then◌else◌, subst, ◌==◌, ◌||◌, leb}
use webrun_wire.Common.Maps.{map_get, map_set}
use webrun_wire.Rpc.Credit.{half_close}
use webrun_wire.Rpc.PortMux.State.{Reason}
use webrun_wire.Rpc.PortMux.State.{dropped, leaked, port_closed}
use webrun_wire.Rpc.PortMux.State.{close_envelope, Config, Entry, envelope_item}
use webrun_wire.Rpc.PortMux.State.{Posted, PortMux, includes}
use webrun_wire.Rpc.PortMux.State.{post}
use webrun_wire.Rpc.PortMux.State.{free_partial, delete_entry, resolve_all, is_exact}
use webrun_wire.Rpc.PortMux.Ends.{
  new_entry, attach, release_queue, release, reason_or, close_port, port_collected, end_windowed,
  end_port, watch_peer_end, when_ready,
}
use webrun_wire.Rpc.PortMux.Ends.{
  close_mux, free_id, OpenError, already_closed, ports_exceeded, aborted, open_of, open_port,
}
use webrun_wire.Rpc.PortMux.Stable.{
  Stable, On, with_port-On, with_credit-On, with_entry-On, post-On, dropped-On, mark_closed-On,
}
use webrun_wire.Rpc.PortMux.Stable.Sending.{
  either-On, send_on_port-On, send_all-On, flush-On, release_waiters-On,
}
use webrun_wire.Rpc.PortMux.FreeIds.{map_get-free_id}
use webrun_wire.Rpc.PortMux.Shutting.{Shrunk, shut_down, shut_down-Shrunk}

module _ {c : Config} {P : List (ℕ × Entry) → ℕ → List Posted → Bool → Type 0}
    (stable : Stable c P) where
  pub release-On :
      (id handle : ℕ) (reason : Option Reason) (m : PortMux)
      → On stable m
      → On stable (release c id handle reason m)
  unfolding release release_queue
  release-On id handle reason m v =
      let n = delete_entry id (free_partial id m) in
      let w = dropped-On stable id m v in
      release_waiters-On stable handle _ (
        send_on_port-On stable id (envelope_item (close_envelope id reason)) _ (
          with_credit-On stable handle _ n (λ p k. send_all-On stable true id handle k.queue _ w)
            w))

  pub close_port-On :
      (handle : ℕ) (reason : Option Reason) (m : PortMux)
      → On stable m
      → On stable (close_port c handle reason m)
  unfolding close_port
  close_port-On handle reason m v =
      with_port-On stable handle _ m
        (λ p. either-On stable p.closed m _ v (
          mark_closed-On stable handle (reason_or port_closed reason) _
            (release-On p.id handle reason _ v)))
        v

  pub port_collected-On :
      (handle : ℕ) (m : PortMux) → On stable m → On stable (port_collected c handle m)
  unfolding port_collected
  port_collected-On handle m v =
      with_port-On stable handle _ m
        (λ p.
          with_entry-On stable p.id _ m
            (λ e h. either-On stable (not (e.handle == handle)) m _ v (
              either-On stable p.listening m _ v (
                mark_closed-On stable handle dropped _ (release-On p.id handle (some leaked) m v))))
            v)
        v

  pub end_port-On : (handle : ℕ) (m : PortMux) → On stable m → On stable (end_port c handle m)
  unfolding end_port end_windowed
  end_port-On handle m v =
      with_credit-On stable handle _ m
        (λ p k.
          either-On stable (p.closed || not (includes half_close k.caps) || k.ending) m _ v
            (flush-On stable p.id handle _ v))
        v

  pub watch_peer_end-On :
      (handle promise : ℕ) (m : PortMux) → On stable m → On stable (watch_peer_end handle promise m)
  unfolding watch_peer_end resolve_all
  watch_peer_end-On handle promise m v =
      with_credit-On stable handle _ m
        (λ p k.
          either-On stable (not (includes half_close k.caps)) m _ v
            (either-On stable k.peer_ended (resolve_all (promise ∷ []) m) _ v v))
        v

  pub when_ready-On :
      (handle below promise : ℕ) (m : PortMux)
      → On stable m
      → On stable (when_ready handle below promise m)
  unfolding when_ready resolve_all
  when_ready-On handle below promise m v =
      with_credit-On stable handle _ m
        (λ p k.
          either-On stable (leb k.queued below || p.closed) (resolve_all (promise ∷ []) m) _ v v)
        v

  pub attach-On :
      (id : ℕ) (meta window : Option ℕ) (opener exact : Bool) (m : PortMux)
      → map_get id m.table ≡ none
      → length m.table < c.max_ports
      → m.closed ≡ false
      → On stable m
      → On stable (attach id meta window opener exact m)
  unfolding attach
  attach-On id meta window opener exact m h l e v =
      subst
        (λ b.
          P (map_set id (new_entry (length m.ports) meta m.now) m.table) m.reassembling m.sent b)
        (sym e)
        (stable.adding m.table m.reassembling m.sent id (new_entry (length m.ports) meta m.now) h
          refl l (subst (λ b. P m.table m.reassembling m.sent b) e v))

  pub open_port-On :
      (meta : Option ℕ) (is_aborted : Bool) (m : PortMux)
      → On stable m
      → On stable (open_port c meta is_aborted m).0
  unfolding open_port
  open_port-On meta is_aborted m v =
      go m.closed is_aborted (leb c.max_ports (length m.table)) refl refl
    where
      id : ℕ
      id = free_id (length m.table) m.next_id m.table

      made : PortMux
      made =
          post (open_of c id meta)
            (attach id meta c.window true (is_exact c) (record m { next_id = id + 2 }))

      go :
          (b a f : Bool)
          → m.closed ≡ b
          → leb c.max_ports (length m.table) ≡ f
          → On stable
              (if◌then◌else◌ {A = PortMux × (OpenError ⊎ ℕ)} b
                (m, inl already_closed)
                (if a
                  then (m, inl aborted)
                  else if f
                  then (m, inl ports_exceeded)
                  else (made, inr (length m.ports)))).0
      go true a f e g = v
      go false true f e g = v
      go false false true e g = v
      go false false false e g = post-On stable _ _ (
          attach-On id meta c.window true (is_exact c) (record m { next_id = id + 2 })
            (map_get-free_id m.next_id m.table) (lt_of_leb c.max_ports (length m.table) g) e v)

  pub close_mux-On : (reason : Reason) (m : PortMux) → On stable m → On stable (close_mux reason m)
  unfolding close_mux
  close_mux-On reason m v = elim (Bool-cases m.closed) [
    | inl e ↦ subst (λ b. On stable (if b then m else shut)) (sym e) v
    | inr e ↦
        subst (λ b. On stable (if b then m else shut)) (sym e)
          (subst (λ r. P shut.table r shut.sent shut.closed) (sym s.kept)
            (subst (λ b. P shut.table m.reassembling shut.sent b) (sym s.still)
              (stable.closing m.table shut.table m.reassembling m.sent shut.sent s.fewer
                (subst (λ b. P m.table m.reassembling m.sent b) e v))))
  ]
    where
      shut : PortMux
      shut = shut_down reason m

      s : Shrunk (record m { closed = true }) shut
      s = shut_down-Shrunk reason m
