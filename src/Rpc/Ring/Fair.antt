-- ===== src/Rpc/Ring/Fair.antt =====
-- The order of the ring.
use webrun_wire.Common.{ℕ, suc, ◌≡◌, ◌≢◌, refl, ap, sym, ◌∙◌, List, [], ◌∷◌, ◌++◌, Option}
use webrun_wire.Common.{none, some, ◌==◌, ◌||◌, Bool, false, length, arith}
use webrun_wire.Common.{append_assoc, subst, ℕ_discrete}
use webrun_wire.Common.Maps.{map_get, map_set, map_delete}
use webrun_wire.Common.Maps.{map_get-map_set, map_get-map_set_other, map_get-map_delete_other}
use webrun_wire.Rpc.Ring.{Ring, put, put_in, take_item, take_turn, take_from}

-- What the mux does with its ring: it puts an item of a port, or takes the next one.
pub data Turn (A : Type 0) : Type 0 where
  placed : ℕ → A → Turn A
  taken : Turn A

abbrev pub mem : ℕ → List ℕ → Bool
mem id [] = false
mem id (i ∷ is) = (i == id) || mem id is

not_ahead : (j id : ℕ) (ahead : List ℕ) → mem id (j ∷ ahead) ≡ false → j ≢ id
not_ahead j id ahead h p = ground (arith, h, p)

module _ {A : Type 0} where
  unfoldable pub run_ring : List (Turn A) → Ring A → Ring A
  run_ring [] r = r
  run_ring (placed id item ∷ ts) r = run_ring ts (put id item r)
  run_ring (taken ∷ ts) r = run_ring ts (take_item r).1

  abbrev pub takes : List (Turn A) → ℕ
  takes [] = 0
  takes (placed id item ∷ ts) = takes ts
  takes (taken ∷ ts) = suc (takes ts)

  -- The ports `ahead` have their turn before `id` has, whose next item is `item`.
  pub record IsDue (ahead : List ℕ) (id : ℕ) (item : A) (r : Ring A) : Type 0 where
    pub others : List ℕ
    pub later : List A
    pub turn : r.turns ≡ ahead ++ (id ∷ others)
    pub next : map_get id r.outgoing ≡ some (item ∷ later)
    pub once : mem id ahead ≡ false

  absent :
      (j id : ℕ) (r : Ring A) {q : List A}
      → map_get id r.outgoing ≡ some q
      → map_get j r.outgoing ≡ none
      → j ≢ id
  absent j id r h e p = grind (arith, h, e, p)

  same_queue :
      (j id : ℕ) (r : Ring A) {q q' : List A}
      → j ≡ id
      → map_get j r.outgoing ≡ some q
      → map_get id r.outgoing ≡ some q'
      → q ≡ q'
  same_queue j id r p e h = grind (arith, h, e, p)

  gone :
      (j : ℕ) (ahead : List ℕ) (id : ℕ) (item : A) (r : Ring A) (ids : List ℕ)
      (d : IsDue (j ∷ ahead) id item r)
      → ids ≡ ahead ++ (id ∷ d.others)
      → IsDue ahead id item (record { outgoing = map_delete j r.outgoing; turns = ids })
  gone j ahead id item r ids d e = record {
    others = d.others;
    later = d.later;
    turn = e;
    next = map_get-map_delete_other j id r.outgoing (not_ahead j id ahead d.once) ∙ d.next;
    once = ground (arith, d.once);
  }

  put_in-IsDue :
      (ahead : List ℕ) (id : ℕ) (item : A) (r : Ring A) (j : ℕ) (x : A) (o : Option (List A))
      → map_get j r.outgoing ≡ o
      → IsDue ahead id item r
      → IsDue ahead id item (put_in j x r o)
  put_in-IsDue ahead id item r j x none e d = record {
    others = d.others ++ (j ∷ []);
    later = d.later;
    turn = ap (λ t. t ++ (j ∷ [])) d.turn ∙ append_assoc ahead (id ∷ d.others) (j ∷ []);
    next = map_get-map_set_other j id (x ∷ []) r.outgoing (absent j id r d.next e) ∙ d.next;
    once = d.once;
  }
  put_in-IsDue ahead id item r j x (some queue) e d = elim (ℕ_discrete j id) [
    | yes p ↦ record {
      others = d.others;
      later = d.later ++ (x ∷ []);
      turn = d.turn;
      next =
          subst
            (λ i.
              map_get i (map_set j (queue ++ (x ∷ [])) r.outgoing)
              ≡ some ((item ∷ d.later) ++ (x ∷ [])))
            p
            (map_get-map_set j (queue ++ (x ∷ [])) r.outgoing
              ∙ ap (λ q. some (q ++ (x ∷ []))) (same_queue j id r p e d.next));
      once = d.once;
    }
    | no n ↦ record {
      others = d.others;
      later = d.later;
      turn = d.turn;
      next = map_get-map_set_other j id (queue ++ (x ∷ [])) r.outgoing n ∙ d.next;
      once = d.once;
    }
  ]

  put-IsDue :
      (ahead : List ℕ) (id : ℕ) (item : A) (r : Ring A) (j : ℕ) (x : A)
      → IsDue ahead id item r
      → IsDue ahead id item (put j x r)
  unfolding put
  put-IsDue ahead id item r j x d = put_in-IsDue ahead id item r j x (map_get j r.outgoing) refl d

  take_from-IsDue :
      (j : ℕ) (ahead : List ℕ) (id : ℕ) (item : A) (r : Ring A) (ids : List ℕ) (o : Option (List A))
      (d : IsDue (j ∷ ahead) id item r)
      → ids ≡ ahead ++ (id ∷ d.others)
      → IsDue ahead id item (take_from j ids r o).1
  take_from-IsDue j ahead id item r ids (some (y ∷ z ∷ more)) d e = record {
    others = d.others ++ (j ∷ []);
    later = d.later;
    turn = ap (λ t. t ++ (j ∷ [])) e ∙ append_assoc ahead (id ∷ d.others) (j ∷ []);
    next = map_get-map_set_other j id (z ∷ more) r.outgoing (not_ahead j id ahead d.once) ∙ d.next;
    once = ground (arith, d.once);
  }
  take_from-IsDue j ahead id item r ids (some (y ∷ [])) d e = gone j ahead id item r ids d e
  take_from-IsDue j ahead id item r ids (some []) d e = gone j ahead id item r ids d e
  take_from-IsDue j ahead id item r ids none d e = gone j ahead id item r ids d e

  take_item-IsDue :
      (j : ℕ) (ahead : List ℕ) (id : ℕ) (item : A) (r : Ring A)
      → IsDue (j ∷ ahead) id item r
      → IsDue ahead id item (take_item r).1
  unfolding take_item
  take_item-IsDue j ahead id item r d =
      subst (λ t. IsDue ahead id item (take_turn t r).1) (sym d.turn)
        (take_from-IsDue j ahead id item r (ahead ++ (id ∷ d.others)) (map_get j r.outgoing) d refl)

  take_from-item :
      (id : ℕ) (ids : List ℕ) (item : A) (r : Ring A) (q : List A)
      → (take_from id ids r (some (item ∷ q))).0 ≡ some item
  take_from-item id ids item r [] = refl
  take_from-item id ids item r (y ∷ q) = refl

  take_item-item :
      (id : ℕ) (item : A) (r : Ring A) → IsDue [] id item r → (take_item r).0 ≡ some item
  unfolding take_item
  take_item-item id item r d =
      rw (d.turn, take_turn, d.next)
        (take_from-item id d.others item (record r { turns = id ∷ d.others }) d.later)

  -- An item that is the next of its port leaves at the port's turn, after one item at most of each port that
  -- is ahead in the ring, whatever is put in the meantime and however long the messages of the others are.
  pub run_ring-item :
      (ts : List (Turn A)) (ahead : List ℕ) (id : ℕ) (item : A) (r : Ring A)
      → IsDue ahead id item r
      → takes ts ≡ length ahead
      → (take_item (run_ring ts r)).0 ≡ some item
  unfolding run_ring take_item
  run_ring-item [] [] id item r d h = take_item-item id item r d
  run_ring-item [] (j ∷ ahead) id item r d h = ground arith
  run_ring-item (placed j x ∷ ts) ahead id item r d h =
      run_ring-item ts ahead id item (put j x r) (put-IsDue ahead id item r j x d) h
  run_ring-item (taken ∷ ts) [] id item r d h = ground arith
  run_ring-item (taken ∷ ts) (j ∷ ahead) id item r d h =
      run_ring-item ts ahead id item (take_item r).1 (take_item-IsDue j ahead id item r d)
        (omega (arith, h))
