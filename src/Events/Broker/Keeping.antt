-- ===== src/Events/Broker/Keeping.antt =====
-- What the buffer of a topic keeps, through the operations of the broker.
use webrun_wire.Common.{
  ℕ, suc, ◌≤◌, ◌≡◌, ◌≢◌, refl, sym, ap, ◌∙◌, subst, arith, List, [], ◌∷◌, ◌++◌, append_assoc,
  append-nil,
}
use webrun_wire.Common.{length, length-append, Option, none, some, inl, inr}
use webrun_wire.Common.{true, false, ◌&&◌, ◌==◌, Bool-cases, ==_iff}
use webrun_wire.Common.Maps.{map_get}
use webrun_wire.Common.Maps.{
  map_get-map_set, map_get-map_set_other, map_get-map_delete, map_get-map_delete_other,
}
use webrun_wire.Events.Broker.{TopicState, Broker, state, publish, subscribe, unsubscribe}
use webrun_wire.Events.Broker.{
  state_of, put_or_prune, leave, retain, shift_above, is_empty, set_delete, Op, publish_op,
  subscribe_op, unsubscribe_op, step, run,
}
use webrun_wire.Events.Broker.Log.{Holds, IsKept, number, number-append, published, shift_number}

module _ (t size : ℕ) (pos : 1 ≤ size) where
  state_of-IsKept :
      (log : List (ℕ × Option ℕ)) (o : Option TopicState) (topic : ℕ) (b : Broker)
      → Holds size log o
      → IsKept size log (state_of o topic b).0
  state_of-IsKept log none topic b h =
      ([], [], h, refl, ap suc (sym (ap length h)), omega arith, inl refl)
  state_of-IsKept log (some s) topic b h = h

  state_of-other :
      (o : Option TopicState) (topic : ℕ) (b : Broker)
      → topic ≢ t
      → map_get t ((state_of o topic b).1).topics ≡ map_get t b.topics
  state_of-other none topic b d = map_get-map_set_other topic t _ b.topics d
  state_of-other (some s) topic b d = refl

  state_of-size :
      (o : Option TopicState) (topic : ℕ) (b : Broker)
      → ((state_of o topic b).1).buffer_size ≡ b.buffer_size
  state_of-size none topic b = refl
  state_of-size (some s) topic b = refl

  pushed_lem :
      (log : List (ℕ × Option ℕ)) (payload : ℕ) (event : Option ℕ) (s u : TopicState)
      → IsKept size log s
      → u.buffer
        ≡ shift_above size
            (s.buffer ++ (record { id = s.next_id; payload = payload; event = event } ∷ []))
      → u.next_id ≡ suc s.next_id
      → IsKept size (log ++ ((payload, event) ∷ [])) u
  pushed_lem log payload event s u (old, kept, e, b, n, le, full) hb hn = rw e (
      shift_number size old kept (payload, event) u pos
        (hb
          ∙ ap (shift_above size) (
              rw
                (
                  b,
                  number-append (suc (length old)) kept ((payload, event) ∷ []),
                  n,
                  e,
                  length-append old kept,
                )
                (ap
                  (λ (m : ℕ).
                    number (suc (length old)) kept
                    ++ (record { id = m; payload = payload; event = event } ∷ []))
                  (omega arith))))
        (hn ∙ ap suc n ∙ rw e refl) le full)

  abbrev Kept : List (ℕ × Option ℕ) → Broker → Type 0
  Kept log b = (b.buffer_size ≡ size) × Holds size log (map_get t b.topics)

  publish-same :
      (log : List (ℕ × Option ℕ)) (payload : ℕ) (event : Option ℕ) (b : Broker)
      → Kept log b
      → Kept (log ++ ((payload, event) ∷ [])) (step (publish_op t payload event) b)
  unfolding step publish state
  publish-same log payload event b (e, h) = (
    state_of-size (map_get t b.topics) t b ∙ e,
    rw (map_get-map_set t _ ((state t b).1).topics) (
        pushed_lem log payload event (state t b).0
          (retain b.buffer_size
            (record { id = (state t b).0.next_id; payload = payload; event = event }) (state t b).0)
          (state_of-IsKept log (map_get t b.topics) t b h)
          (ap
            (λ (k : ℕ). shift_above k (
              (state t b).0.buffer
              ++ (record { id = (state t b).0.next_id; payload = payload; event = event } ∷ [])))
            e)
          refl),
  )

  publish-other :
      (log : List (ℕ × Option ℕ)) (topic payload : ℕ) (event : Option ℕ) (b : Broker)
      → topic ≢ t
      → Kept log b
      → Kept log (step (publish_op topic payload event) b)
  unfolding step publish state
  publish-other log topic payload event b d (e, h) = (
    state_of-size (map_get topic b.topics) topic b ∙ e,
    subst (Holds size log)
        (sym
          (map_get-map_set_other topic t _ _ d ∙ state_of-other (map_get topic b.topics) topic b d))
        h,
  )

  subscribe-Kept :
      (log : List (ℕ × Option ℕ)) (topic f : ℕ) (b : Broker)
      → Kept log b
      → Kept log (step (subscribe_op topic f) b)
  unfolding step subscribe state
  subscribe-Kept log topic f b (e, h) = elim (Bool-cases (topic == t)) [
    | inl same ↦ rw ((==_iff topic t).0 same) (
      state_of-size (map_get t b.topics) t b ∙ e,
      rw (map_get-map_set t _ ((state t b).1).topics)
          (state_of-IsKept log (map_get t b.topics) t b h),
    )
    | inr other ↦ (
      state_of-size (map_get topic b.topics) topic b ∙ e,
      subst (Holds size log)
          (sym (
            map_get-map_set_other topic t _ _ (differ other)
            ∙ state_of-other (map_get topic b.topics) topic b (differ other)))
          h,
    )
  ]
    where
      differ : (topic == t) ≡ false → topic ≢ t
      differ other same = ground arith

  put_or_prune-Kept :
      (log : List (ℕ × Option ℕ)) (s : TopicState) (b : Broker)
      → b.buffer_size ≡ size
      → IsKept size log s
      → Kept log (put_or_prune t s b)
  put_or_prune-Kept log s b e h = elim (Bool-cases (is_empty s.subscribers && is_empty s.buffer)) [
    | inl empty ↦
        (e, rw (empty, map_get-map_delete t b.topics) (nothing_kept log s (ground arith) h))
    | inr some_left ↦ (e, rw (some_left, map_get-map_set t s b.topics) h)
  ]
    where
      nothing_kept :
          (log : List (ℕ × Option ℕ)) (s : TopicState)
          → is_empty s.buffer ≡ true
          → IsKept size log s
          → log ≡ []
      nothing_kept log s empty ([], [], eq, b, n, le, full) = eq
      nothing_kept log s empty (x ∷ old, [], eq, b, n, le, inl full) = absurd (ground arith)
      nothing_kept log s empty (x ∷ old, [], eq, b, n, le, inr full) =
          absurd (omega (arith, full, pos))
      nothing_kept log s empty (old, k ∷ kept, eq, b, n, le, full) =
          absurd (ground (arith, sym (ap is_empty b) ∙ empty))

  put_or_prune_other :
      (log : List (ℕ × Option ℕ)) (topic : ℕ) (s : TopicState) (b : Broker)
      → topic ≢ t
      → Kept log b
      → Kept log (put_or_prune topic s b)
  put_or_prune_other log topic s b d (e, h) =
      elim (Bool-cases (is_empty s.subscribers && is_empty s.buffer)) [
        | inl empty ↦ (
          e,
          rw empty (subst (Holds size log) (sym (map_get-map_delete_other topic t b.topics d)) h),
        )
        | inr some_left ↦ (
          e,
          rw some_left
              (subst (Holds size log) (sym (map_get-map_set_other topic t s b.topics d)) h),
        )
      ]

  unsubscribe-Kept :
      (log : List (ℕ × Option ℕ)) (topic ref f : ℕ) (b : Broker)
      → Kept log b
      → Kept log (step (unsubscribe_op topic ref f) b)
  unfolding step unsubscribe
  unsubscribe-Kept log topic ref f b (e, h) = elim (Bool-cases (topic == t)) [
    | inl same ↦ rw ((==_iff topic t).0 same) (leave_same (map_get t b.topics) refl h)
    | inr other ↦ leave_other (map_get topic b.topics) (λ same. ground arith)
  ]
    where
      leave_same :
          (o : Option TopicState)
          → map_get t b.topics ≡ o
          → Holds size log o
          → Kept log (leave o t ref f b)
      leave_same none eq k = (e, h)
      leave_same (some s) eq k = elim (Bool-cases (s.ref == ref)) [
        | inl hit ↦ rw hit (put_or_prune-Kept log _ b e k)
        | inr miss ↦ rw miss (e, h)
      ]

      leave_other : (o : Option TopicState) → topic ≢ t → Kept log (leave o topic ref f b)
      leave_other none d = (e, h)
      leave_other (some s) d = elim (Bool-cases (s.ref == ref)) [
        | inl hit ↦ rw hit (
            put_or_prune_other log topic (record s { subscribers = set_delete f s.subscribers }) b d
              (e, h))
        | inr miss ↦ rw miss (e, h)
      ]

  step-Kept :
      (log : List (ℕ × Option ℕ)) (o : Op) (b : Broker)
      → Kept log b
      → Kept (log ++ published t (o ∷ [])) (step o b)
  step-Kept log (publish_op topic payload event) b k = elim (Bool-cases (topic == t)) [
    | inl same ↦ rw (same, (==_iff topic t).0 same) (publish-same log payload event b k)
    | inr other ↦
        rw (other, append-nil log)
          (publish-other log topic payload event b (λ same. ground arith) k)
  ]
  step-Kept log (subscribe_op topic f) b k = rw (append-nil log) (subscribe-Kept log topic f b k)
  step-Kept log (unsubscribe_op topic ref f) b k =
      rw (append-nil log) (unsubscribe-Kept log topic ref f b k)

  pub run-Kept :
      (os : List Op) (log : List (ℕ × Option ℕ)) (b : Broker)
      → Kept log b
      → Kept (log ++ published t os) (run os b)
  unfolding run
  run-Kept [] log b k = rw (append-nil log) k
  run-Kept (o ∷ os) log b k =
      subst (λ (l : List (ℕ × Option ℕ)). Kept l (run os (step o b)))
        (append_assoc log (published t (o ∷ [])) (published t os)
          ∙ ap (λ (l : List (ℕ × Option ℕ)). log ++ l) (published-cons o os))
        (run-Kept os (log ++ published t (o ∷ [])) (step o b) (step-Kept log o b k))
    where
      published-cons :
          (o : Op) (os : List Op) → published t (o ∷ []) ++ published t os ≡ published t (o ∷ os)
      published-cons (publish_op topic payload event) os = elim (Bool-cases (topic == t)) [
        | inl same ↦ rw same refl
        | inr other ↦ rw other refl
      ]
      published-cons (subscribe_op topic f) os = refl
      published-cons (unsubscribe_op topic ref f) os = refl
