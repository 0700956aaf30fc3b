-- ===== src/Rpc/PortMux/Stable/Sending.antt =====
-- What the sending side of a multiplexer of ports keeps.
use webrun_wire.Common.{ℕ, zero, suc, List, [], ◌∷◌}
use webrun_wire.Common.{Option, none, some, length, Bool, true, false, not}
use webrun_wire.Common.{if◌then◌else◌, ◌==◌, ◌||◌, ◌&&◌, ltb}
use webrun_wire.Rpc.Estimate.{Value}
use webrun_wire.Rpc.Framing.{Frame, split_frames}
use webrun_wire.Rpc.Credit.{Credit, Content, Queued, queued_message, queued_end, flush_queue}
use webrun_wire.Rpc.Ring.{weight, Ring, put, take_item}
use webrun_wire.Rpc.PortMux.State.{Reason, ended_both_ways}
use webrun_wire.Rpc.PortMux.State.{end_envelope, Config, Port, Entry, Item, envelope_item}
use webrun_wire.Rpc.PortMux.State.{bytes_item, end_item, Posted, PortMux}
use webrun_wire.Rpc.PortMux.State.{post}
use webrun_wire.Rpc.PortMux.State.{delete_entry, resolve_all}
use webrun_wire.Rpc.PortMux.Send.{
  free_if_ended, run_end, run_item, run_taken, pump_turn, is_idle, pump_loop, pump, pump_drained,
  place,
}
use webrun_wire.Rpc.PortMux.Send.{
  send_on_port, drop_outgoing, send_frames, send_bytes, send_content, send_all, wake_waiters, flush,
  release_waiters, fail_port,
}
use webrun_wire.Rpc.PortMux.Send.{
  post_grant, grant_due, listeners_settled, post_windowed, post_on, post_message,
}
use webrun_wire.Rpc.PortMux.Stable.{
  Stable, On, with_port-On, with_credit-On, with_entry-On, post-On,
}
use webrun_wire.Rpc.PortMux.Stable.{post_bytes-On, touch-On, dropped-On, mark_closed-On}

module _ {c : Config} {P : List (ℕ × Entry) → ℕ → List Posted → Bool → Type 0}
    (stable : Stable c P) where
  pub either-On :
      (b : Bool) (m n : PortMux) → On stable m → On stable n → On stable (if b then m else n)
  either-On true m n v w = v
  either-On false m n v w = w

  pub free_if_ended-On :
      (id handle : ℕ) (m : PortMux) → On stable m → On stable (free_if_ended id handle m)
  unfolding free_if_ended
  free_if_ended-On id handle m v =
      with_credit-On stable handle _ m
        (λ p k.
          with_entry-On stable id _ m
            (λ e h.
              either-On (not k.end_sent || not k.peer_ended || not (e.handle == handle)) m _ v
                (mark_closed-On stable handle ended_both_ways _ (dropped-On stable id m v)))
            v)
        v

  run_end-On : (id handle : ℕ) (m : PortMux) → On stable m → On stable (run_end id handle m)
  unfolding run_end
  run_end-On id handle m v =
      let n = post (end_envelope id) m in
      let w = post-On stable (end_envelope id) m v in
      with_entry-On stable id _ m
        (λ e h.
          either-On (e.handle == handle) _ m
            (free_if_ended-On id handle _ (with_credit-On stable handle _ n (λ p k. w) w)) v)
        v

  run_item-On : (i : Item) (m : PortMux) → On stable m → On stable (run_item i m)
  unfolding run_item
  run_item-On (envelope_item e) m v = post-On stable e m v
  run_item-On (bytes_item b) m v = post_bytes-On stable b m v
  run_item-On (end_item handle id) m v = run_end-On id handle m v

  run_taken-On :
      (t : Option Item × Ring Item) (m : PortMux) → On stable m → On stable (run_taken t m)
  run_taken-On (none, r) m v = v
  run_taken-On (some i, r) m v = run_item-On i (record m { ring = r }) v

  pump_turn-On : (m : PortMux) → On stable m → On stable (pump_turn m)
  unfolding pump_turn
  pump_turn-On m v = run_taken-On (take_item m.ring) m v

  pump_loop-On : (fuel : ℕ) (m : PortMux) → On stable m → On stable (pump_loop fuel m)
  unfolding pump_loop
  pump_loop-On zero m v = v
  pump_loop-On (suc fuel) m v =
      either-On (is_idle m) _ _ v (pump_loop-On fuel (pump_turn m) (pump_turn-On m v))

  pump-On : (m : PortMux) → On stable m → On stable (pump c m)
  unfolding pump
  pump-On m v = either-On c.waits_for_room _ _ v (pump_loop-On (weight m.ring) m v)

  pub pump_drained-On : (m : PortMux) → On stable m → On stable (pump_drained m)
  unfolding pump_drained
  pump_drained-On m v =
      either-On (not m.pumping) m _ v
        (either-On m.closed (record m { pumping = false }) _ v (pump_turn-On m v))

  place-On :
      (id : ℕ) (i : Item) (o : Option ℕ) (m : PortMux) → On stable m → On stable (place c id i o m)
  place-On id i none m v = run_item-On i m v
  place-On id i (some n) m v =
      either-On m.pumping _ _ v (pump-On (record m { ring = put id i m.ring }) v)

  pub send_on_port-On :
      (id : ℕ) (i : Item) (m : PortMux) → On stable m → On stable (send_on_port c id i m)
  unfolding send_on_port
  send_on_port-On id i m v = place-On id i c.frame_size m v

  send_frames-On :
      (id : ℕ) (fs : List Frame) (m : PortMux) → On stable m → On stable (send_frames c id fs m)
  unfolding send_frames
  send_frames-On id [] m v = v
  send_frames-On id (f ∷ fs) m v = send_frames-On id fs _ (send_on_port-On id _ m v)

  send_bytes-On :
      (whole : Bool) (id : ℕ) (k : Credit) (bytes : List ℕ) (o : Option ℕ) (m : PortMux)
      → On stable m
      → On stable (send_bytes c whole id k bytes o m)
  send_bytes-On whole id k bytes none m v = send_on_port-On id (bytes_item bytes) m v
  send_bytes-On whole id k bytes (some n) m v =
      either-On (not whole && k.enforced && k.exact && ltb n (length bytes)) _ _
        (send_frames-On id (split_frames n bytes) m v) (send_on_port-On id (bytes_item bytes) m v)

  send_content-On :
      (whole : Bool) (id handle : ℕ) (q : Content) (m : PortMux)
      → On stable m
      → On stable (send_content c whole id handle q m)
  unfolding send_content
  send_content-On whole id handle (queued_message payload none) m v = send_on_port-On id _ m v
  send_content-On whole id handle (queued_message payload (some bytes)) m v =
      with_credit-On stable handle _ m (λ p k. send_bytes-On whole id k bytes c.frame_size m v) v
  send_content-On whole id handle queued_end m v = send_on_port-On id _ m v

  pub send_all-On :
      (whole : Bool) (id handle : ℕ) (qs : List Queued) (m : PortMux)
      → On stable m
      → On stable (send_all c whole id handle qs m)
  unfolding send_all
  send_all-On whole id handle [] m v = v
  send_all-On whole id handle (q ∷ qs) m v =
      send_all-On whole id handle qs _ (send_content-On whole id handle q.content m v)

  wake_waiters-On : (handle : ℕ) (m : PortMux) → On stable m → On stable (wake_waiters handle m)
  unfolding wake_waiters resolve_all
  wake_waiters-On handle m v = with_credit-On stable handle _ m (λ p k. v) v

  pub flush-On : (id handle : ℕ) (m : PortMux) → On stable m → On stable (flush c id handle m)
  unfolding flush
  flush-On id handle m v =
      with_credit-On stable handle _ m
        (λ p k.
          wake_waiters-On handle _ (send_all-On false id handle (flush_queue k.queue k).1 _ v))
        v

  pub release_waiters-On :
      (handle : ℕ) (m : PortMux) → On stable m → On stable (release_waiters handle m)
  unfolding release_waiters resolve_all
  release_waiters-On handle m v = with_credit-On stable handle _ m (λ p k. v) v

  pub fail_port-On :
      (id handle : ℕ) (error reason : Reason) (m : PortMux)
      → On stable m
      → On stable (fail_port id handle error reason m)
  unfolding fail_port delete_entry drop_outgoing
  fail_port-On id handle error reason m v = post-On stable _ _ (
      mark_closed-On stable handle error _ (release_waiters-On handle _ (dropped-On stable id m v)))

  pub post_grant-On :
      (id handle : ℕ) (p : Port) (r : Credit × Option ℕ) (m : PortMux)
      → On stable m
      → On stable (post_grant id handle p r m)
  post_grant-On id handle p (k, none) m v = v
  post_grant-On id handle p (k, some bytes) m v = post-On stable _ m v

  pub grant_due-On : (handle : ℕ) (m : PortMux) → On stable m → On stable (grant_due handle m)
  unfolding grant_due
  grant_due-On handle m v =
      with_credit-On stable handle _ m (λ p k. post_grant-On p.id handle p _ m v) v

  pub listeners_settled-On :
      (handle nth : ℕ) (m : PortMux) → On stable m → On stable (listeners_settled handle nth m)
  unfolding listeners_settled
  listeners_settled-On handle nth m v =
      with_credit-On stable handle _ m (λ p k. post_grant-On p.id handle p _ m v) v

  post_windowed-On :
      (handle : ℕ) (payload : Value) (p : Port) (k : Credit) (m : PortMux)
      → On stable m
      → On stable (post_windowed c handle payload p k m)
  unfolding post_windowed
  post_windowed-On handle payload p k m v =
      either-On k.ending m _ v (flush-On p.id handle _ (touch-On stable p.id m v))

  post_on-On :
      (handle : ℕ) (payload : Value) (p : Port) (o : Option Credit) (m : PortMux)
      → On stable m
      → On stable (post_on c handle payload p o m)
  post_on-On handle payload p none m v = post-On stable _ _ (touch-On stable p.id m v)
  post_on-On handle payload p (some k) m v = post_windowed-On handle payload p k m v

  pub post_message-On :
      (handle : ℕ) (payload : Value) (m : PortMux)
      → On stable m
      → On stable (post_message c handle payload m)
  unfolding post_message
  post_message-On handle payload m v =
      with_port-On stable handle _ m
        (λ p. either-On p.closed m _ v (post_on-On handle payload p p.credit m v)) v
