-- ===== src/Rpc/PortMux/Shutting.antt =====
-- What the loops of `close` do to the table of ports.
use webrun_wire.Common.{ℕ, ◌≤◌, ◌≡◌, refl, ◌∙◌, List, [], ◌∷◌}
use webrun_wire.Common.{Option, none, some, length, get_elem?, true, inl, inr, arith}
use webrun_wire.Common.{Option-cases, Bool-cases}
use webrun_wire.Common.Maps.{map_get}
use webrun_wire.Rpc.Credit.{Credit}
use webrun_wire.Rpc.Ring.{new_ring}
use webrun_wire.Rpc.PortMux.State.{Reason}
use webrun_wire.Rpc.PortMux.State.{close_envelope, Port, Entry, Item}
use webrun_wire.Rpc.PortMux.State.{PortMux}
use webrun_wire.Rpc.PortMux.State.{on_some, with_port, with_credit, codec_post}
use webrun_wire.Rpc.PortMux.State.{delete_entry, mark_closed, resolve_all}
use webrun_wire.Rpc.PortMux.Send.{release_waiters}
use webrun_wire.Rpc.PortMux.Ends.{close_all, close_waiting, close_mux}
use webrun_wire.Common.Maps.{length-map_delete}

-- `n` has no more entries than `m`, and its `reassembling` and `closed` are those of `m`.
pub record Shrunk (m n : PortMux) : Type 0 where
  pub fewer : length n.table ≤ length m.table
  pub kept : n.reassembling ≡ m.reassembling
  pub still : n.closed ≡ m.closed

with_port-Shrunk :
    (handle : ℕ) (f : Port → PortMux → PortMux) (m : PortMux)
    → ((p : Port) → Shrunk m (f p m))
    → Shrunk m (with_port handle f m)
unfolding with_port
with_port-Shrunk handle f m h = elim (Option-cases (get_elem? m.ports handle)) [
  | inl e ↦ rw e (record { fewer = omega arith; kept = refl; still = refl })
  | inr (p, e) ↦ rw e (h p)
]

with_credit-Shrunk :
    (handle : ℕ) (f : Port → Credit → PortMux → PortMux) (m : PortMux)
    → ((p : Port) (k : Credit) → Shrunk m (f p k m))
    → Shrunk m (with_credit handle f m)
unfolding with_credit
with_credit-Shrunk handle f m h = with_port-Shrunk handle _ m (λ p. go p p.credit)
  where
    go : (p : Port) (o : Option Credit) → Shrunk m (on_some o (f p) m)
    go p none = record { fewer = omega arith; kept = refl; still = refl }
    go p (some k) = h p k

Shrunk-trans : (l m n : PortMux) → Shrunk l m → Shrunk m n → Shrunk l n
Shrunk-trans l m n a b = record {
  fewer = omega (arith, a.fewer, b.fewer);
  kept = b.kept ∙ a.kept;
  still = b.still ∙ a.still;
}

-- One port of the loop of `close`.
closed_one-Shrunk :
    (reason : Reason) (id handle : ℕ) (m : PortMux)
    → Shrunk m (
        mark_closed handle reason
          (release_waiters handle (delete_entry id (codec_post (close_envelope id none) m))))
unfolding mark_closed release_waiters resolve_all delete_entry codec_post
closed_one-Shrunk reason id handle m =
    let n = delete_entry id (codec_post (close_envelope id none) m) in
    Shrunk-trans m n _ (record { fewer = length-map_delete id m.table; kept = refl; still = refl })
      (Shrunk-trans n (release_waiters handle n) _
        (with_credit-Shrunk handle _ n
          (λ p k. record { fewer = omega arith; kept = refl; still = refl }))
        (with_port-Shrunk handle _ (release_waiters handle n)
          (λ p. record { fewer = omega arith; kept = refl; still = refl })))

close_all-Shrunk :
    (reason : Reason) (l : List (ℕ × Entry)) (m : PortMux) → Shrunk m (close_all reason l m)
unfolding close_all
close_all-Shrunk reason [] m = record { fewer = omega arith; kept = refl; still = refl }
close_all-Shrunk reason ((id, e) ∷ l) m =
    Shrunk-trans m _ _ (closed_one-Shrunk reason id e.handle m) (close_all-Shrunk reason l _)

close_waiting-Shrunk :
    (t : List (ℕ × Entry)) (l : List (ℕ × List Item)) (m : PortMux) → Shrunk m (close_waiting t l m)
unfolding close_waiting codec_post
close_waiting-Shrunk t [] m = record { fewer = omega arith; kept = refl; still = refl }
close_waiting-Shrunk t ((id, q) ∷ l) m = elim (Option-cases (map_get id t)) [
  | inl e ↦ rw e (
      Shrunk-trans m _ _ (record { fewer = omega arith; kept = refl; still = refl })
        (close_waiting-Shrunk t l (codec_post (close_envelope id none) m)))
  | inr (x, e) ↦ rw e (close_waiting-Shrunk t l m)
]

-- What `close` leaves of an open mux.
abbrev pub shut_down : Reason → PortMux → PortMux
shut_down reason m =
    record (close_waiting m.table m.ring.outgoing
      (close_all reason m.table (record m { closed = true }))) { ring = new_ring }

pub shut_down-Shrunk :
    (reason : Reason) (m : PortMux) → Shrunk (record m { closed = true }) (shut_down reason m)
shut_down-Shrunk reason m = record { fewer = t.fewer; kept = t.kept; still = t.still }
  where
    n : PortMux
    n = close_all reason m.table (record m { closed = true })

    t : Shrunk (record m { closed = true }) (close_waiting m.table m.ring.outgoing n)
    t =
        Shrunk-trans (record m { closed = true }) n _
          (close_all-Shrunk reason m.table (record m { closed = true }))
          (close_waiting-Shrunk m.table m.ring.outgoing n)

pub close_mux-closed : (reason : Reason) (m : PortMux) → (close_mux reason m).closed ≡ true
unfolding close_mux
close_mux-closed reason m = elim (Bool-cases m.closed) [
  | inl e ↦ rw e refl
  | inr e ↦ rw e (shut_down-Shrunk reason m).still
]
