-- ===== src/Events/Broker/Replay.antt =====
-- What `replay` gives back, against the log of everything that was published.
use webrun_wire.Common.{ℕ, suc, ◌+◌, ◌-◌, ◌≤◌, ◌≡◌, refl, ap, ◌∙◌, arith, List, [], ◌∷◌, ◌++◌}
use webrun_wire.Common.{length, length-append, leb_of_le, Option, none, some, inl, inr}
use webrun_wire.Common.{true}
use webrun_wire.Common.Maps.{map_get}
use webrun_wire.Events.Broker.{TopicState, new_broker}
use webrun_wire.Events.Broker.{replay_of, newer, oldest_id, replay, Op, run}
use webrun_wire.Events.Broker.Log.{
  Holds, newer-append, newer-number, number, number-append, published,
}
use webrun_wire.Events.Broker.Keeping.{run-Kept}

module _ (t size : ℕ) (pos : 1 ≤ size) where
  oldest_lem :
      (old kept : List (ℕ × Option ℕ)) (s : TopicState)
      → s.buffer ≡ number (suc (length old)) kept
      → s.next_id ≡ suc (length (old ++ kept))
      → oldest_id s.next_id s.buffer - 1 ≡ length old
  oldest_lem old [] s b n = rw b (omega (arith, n, length-append old []))
  oldest_lem old (k ∷ kept) s b n = rw b (omega arith)

  replay_of-newer :
      (log : List (ℕ × Option ℕ)) (o : Option TopicState) (after_id : ℕ)
      → Holds size log o
      → (replay_of o after_id).1 ≡ true
      → (replay_of o after_id).0 ≡ newer after_id (number 1 log)
  replay_of-newer log none after_id h complete = rw h refl
  replay_of-newer log (some s) after_id (old, kept, e, b, n, le, full) complete =
      ap (newer after_id) b
      ∙ rw
          (
            e,
            number-append 1 old kept,
            newer-append after_id (number 1 old) (number (1 + length old) kept),
            newer-number after_id 1 old reached,
          )
          (ap (λ m. newer after_id (number m kept)) (omega arith))
    where
      reached : 1 + length old ≤ suc after_id
      reached = ground (arith, complete, oldest_lem old kept s b (rw (← e) n))

  replay_of_complete :
      (log : List (ℕ × Option ℕ)) (o : Option TopicState) (after_id : ℕ)
      → Holds size log o
      → after_id ≤ length log
      → length log ≤ after_id + size
      → (replay_of o after_id).1 ≡ true
  replay_of_complete log none after_id h known near = ground (arith, ap length h)
  replay_of_complete log (some s) after_id (old, kept, e, b, n, le, full) known near =
      rw (oldest_lem old kept s b (rw (← e) n), leb_of_le (length old) after_id near_lem, n)
        (leb_of_le after_id (suc (length log) - 1) (omega (arith, known)))
    where
      near_lem : length old ≤ after_id
      near_lem = elim full [
        | inl none_old ↦ omega (arith, ap length none_old)
        | inr is_full ↦ omega (arith, is_full, ap length e, length-append old kept, near)
      ]

-- On a broker that retains at least one event per topic, whatever was published, subscribed and
-- unsubscribed before, on this and on other topics: when `replay` says that it is complete, its events
-- are all those that were published on the topic with an id above `after_id`, in order, numbered from 1.
pub replay-run :
    (size : ℕ) (os : List Op) (t after_id : ℕ)
    → 1 ≤ size
    → (replay t after_id (run os (new_broker size))).1 ≡ true
    → (replay t after_id (run os (new_broker size))).0 ≡ newer after_id (number 1 (published t os))
unfolding replay
replay-run size os t after_id pos complete =
    replay_of-newer t size pos (published t os) (map_get t (run os (new_broker size)).topics)
      after_id (run-Kept t size pos os [] (new_broker size) (refl, fresh)).1 complete
  where
    fresh : Holds size [] (map_get t (new_broker size).topics)
    fresh = unfold map_get in refl

-- On such a broker `replay` says that it is complete whenever `after_id` was issued on the topic (or is
-- 0) and at most as many events followed it as the broker retains.
pub replay-run_complete :
    (size : ℕ) (os : List Op) (t after_id : ℕ)
    → 1 ≤ size
    → after_id ≤ length (published t os)
    → length (published t os) ≤ after_id + size
    → (replay t after_id (run os (new_broker size))).1 ≡ true
unfolding replay
replay-run_complete size os t after_id pos known near =
    replay_of_complete t size pos (published t os) (map_get t (run os (new_broker size)).topics)
      after_id (run-Kept t size pos os [] (new_broker size) (refl, fresh)).1 known near
  where
    fresh : Holds size [] (map_get t (new_broker size).topics)
    fresh = unfold map_get in refl
