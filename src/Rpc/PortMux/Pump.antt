-- ===== src/Rpc/PortMux/Pump.antt =====
-- The loop that puts the items of the ring on the pipe.
use webrun_wire.Common.{ℕ, zero, suc, ◌≤◌, ◌≡◌, refl, ap, ◌∙◌, arith}
use webrun_wire.Common.{Option, none, some, Bool, true, false, inl, inr, Bool-cases, get_elem?}
use webrun_wire.Common.{length, ◌||◌, not, ◌==◌, if◌then◌else◌}
use webrun_wire.Common.Maps.{map_get}
use webrun_wire.Rpc.Credit.{Credit}
use webrun_wire.Rpc.Ring.{Ring, take_item, weight}
use webrun_wire.Rpc.Ring.Drain.{take_item-weight}
use webrun_wire.Rpc.PortMux.State.{Reason, ended_both_ways}
use webrun_wire.Rpc.PortMux.State.{Envelope}
use webrun_wire.Rpc.PortMux.State.{end_envelope, Port, Entry, Item, envelope_item}
use webrun_wire.Rpc.PortMux.State.{bytes_item, end_item, PortMux}
use webrun_wire.Rpc.PortMux.State.{
  save_port, on_some, with_port, with_credit, with_entry, save_entry, codec_post, post, post_bytes,
}
use webrun_wire.Rpc.PortMux.State.{free_partial, delete_entry, mark_closed}
use webrun_wire.Rpc.PortMux.Send.{
  free_if_ended, run_end, run_item, run_taken, pump_turn, is_idle, pump_loop,
}

if-ring :
    (b : Bool) (m n : PortMux) (r : Ring Item)
    → m.ring ≡ r
    → n.ring ≡ r
    → (if b then m else n).ring ≡ r
if-ring true m n r e f = e
if-ring false m n r e f = f

module _ (m : PortMux) where
  with_credit-ring :
      (handle : ℕ) (f : Port → Credit → PortMux → PortMux)
      → ((p : Port) (k : Credit) → (f p k m).ring ≡ m.ring)
      → (with_credit handle f m).ring ≡ m.ring
  unfolding with_credit with_port
  with_credit-ring handle f h = go (get_elem? m.ports handle)
    where
      inner : (p : Port) (o : Option Credit) → (on_some o (f p) m).ring ≡ m.ring
      inner p none = refl
      inner p (some k) = h p k

      go : (o : Option Port) → (on_some o (λ p. on_some p.credit (f p)) m).ring ≡ m.ring
      go none = refl
      go (some p) = inner p p.credit

  with_entry-ring :
      (id : ℕ) (f : Entry → PortMux → PortMux)
      → ((e : Entry) → (f e m).ring ≡ m.ring)
      → (with_entry id f m).ring ≡ m.ring
  unfolding with_entry
  with_entry-ring id f h = go (map_get id m.table)
    where
      go : (o : Option Entry) → (on_some o f m).ring ≡ m.ring
      go none = refl
      go (some e) = h e

  mark_closed-ring : (handle : ℕ) (reason : Reason) → (mark_closed handle reason m).ring ≡ m.ring
  unfolding mark_closed with_port
  mark_closed-ring handle reason = go (get_elem? m.ports handle)
    where
      go :
          (o : Option Port)
          → (on_some o
              (λ p. save_port handle (record p {
                closed = true;
                listening = false;
                aborted = elim p.aborted [ none ↦ some reason | some r ↦ some r ];
              }))
              m).ring
            ≡ m.ring
      go none = refl
      go (some p) = refl

  post-ring : (e : Envelope) → (post e m).ring ≡ m.ring
  unfolding post codec_post
  post-ring e = if-ring m.closed m _ m.ring refl refl

  free_partial-ring : (id : ℕ) → (free_partial id m).ring ≡ m.ring
  unfolding free_partial save_entry
  free_partial-ring id = with_entry-ring id _ (λ e. refl)

free_if_ended-ring : (id handle : ℕ) (m : PortMux) → (free_if_ended id handle m).ring ≡ m.ring
unfolding free_if_ended delete_entry
free_if_ended-ring id handle m = with_credit-ring m handle _ (λ p k. with_entry-ring m id _ (λ e.
    if-ring (not k.end_sent || not k.peer_ended || not (e.handle == handle)) m _ m.ring refl (
      mark_closed-ring (delete_entry id (free_partial id m)) handle ended_both_ways
      ∙ free_partial-ring m id)))

run_end-ring : (id handle : ℕ) (m : PortMux) → (run_end id handle m).ring ≡ m.ring
unfolding run_end
run_end-ring id handle m = with_entry-ring m id _ (λ e.
    if-ring (e.handle == handle) _ m m.ring
      (free_if_ended-ring id handle _
        ∙ with_credit-ring (post (end_envelope id) m) handle _ (λ p k. refl)
        ∙ post-ring m (end_envelope id))
      refl)

run_item-ring : (i : Item) (m : PortMux) → (run_item i m).ring ≡ m.ring
unfolding run_item post_bytes
run_item-ring (envelope_item e) m = post-ring m e
run_item-ring (bytes_item b) m = if-ring m.closed m _ m.ring refl refl
run_item-ring (end_item handle id) m = run_end-ring id handle m

pump_turn-ring : (m : PortMux) → (pump_turn m).ring ≡ (take_item m.ring).1
unfolding pump_turn
pump_turn-ring m = go (take_item m.ring)
  where
    go : (t : Option Item × Ring Item) → (run_taken t m).ring ≡ t.1
    go (none, r) = refl
    go (some i, r) = run_item-ring i (record m { ring = r })

busy_turns : (m : PortMux) → is_idle m ≡ false → 1 ≤ length m.ring.turns
busy_turns m h = ground (arith, h)

-- The loop of `pump` over a pipe that never is full ends: after at most as many turns as the ring holds turns
-- and items, either nothing is left in the ring or the mux is closed.
pub pump_loop-is_idle :
    (fuel : ℕ) (m : PortMux) → weight m.ring ≤ fuel → is_idle (pump_loop fuel m) ≡ true
unfolding pump_loop weight
pump_loop-is_idle zero m h = ground (arith, h)
pump_loop-is_idle (suc fuel) m h = elim (Bool-cases (is_idle m)) [
  | inl idle ↦ rw idle idle
  | inr busy ↦ rw busy (
      pump_loop-is_idle fuel (pump_turn m) (
        omega
          (arith, h, ap weight (pump_turn-ring m), take_item-weight m.ring (busy_turns m busy))))
]
