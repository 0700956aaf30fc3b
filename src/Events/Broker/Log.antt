-- ===== src/Events/Broker/Log.antt =====
-- Everything that was published on a topic, and the part of it that a buffer keeps.
use webrun_wire.Common.{
  ℕ, suc, ◌+◌, ◌≤◌, ◌≡◌, ◌⊎◌, refl, sym, ap, ◌∙◌, arith, List, [], ◌∷◌, ◌++◌, append_assoc,
  append-nil,
}
use webrun_wire.Common.{length, length-append, ltb_of_le, Option, none, some, inl, inr}
use webrun_wire.Common.{◌==◌, ltb, if◌then◌else◌, Bool-cases}
use webrun_wire.Events.Broker.{BrokerEvent, TopicState}
use webrun_wire.Events.Broker.{shift_above, newer, Op, publish_op, subscribe_op, unsubscribe_op}

-- The payloads and names that the operations publish on a topic.
abbrev pub published : ℕ → List Op → List (ℕ × Option ℕ)
published t [] = []
published t (publish_op topic payload event ∷ os) =
    if topic == t then (payload, event) ∷ published t os else published t os
published t (subscribe_op topic f ∷ os) = published t os
published t (unsubscribe_op topic ref f ∷ os) = published t os

-- Events numbered from `n`.
abbrev pub number : ℕ → List (ℕ × Option ℕ) → List BrokerEvent
number n [] = []
number n (x ∷ xs) = record { id = n; payload = x.0; event = x.1 } ∷ number (suc n) xs

pub number-append :
    (n : ℕ) (xs ys : List (ℕ × Option ℕ))
    → number n (xs ++ ys) ≡ number n xs ++ number (n + length xs) ys
number-append n [] ys = ap (λ k. number k ys) (omega arith)
number-append n (x ∷ xs) ys =
    rw (number-append (suc n) xs ys) (ap (λ k. number n (x ∷ xs) ++ number k ys) (omega arith))

length-number : (n : ℕ) (xs : List (ℕ × Option ℕ)) → length (number n xs) ≡ length xs
length-number n [] = refl
length-number n (x ∷ xs) = ap suc (length-number (suc n) xs)

pub newer-append :
    (a : ℕ) (xs ys : List BrokerEvent) → newer a (xs ++ ys) ≡ newer a xs ++ newer a ys
newer-append a [] ys = refl
newer-append a (x ∷ xs) ys = elim (Bool-cases (ltb a x.id)) [
  | inl e ↦ rw e (ap (λ r. x ∷ r) (newer-append a xs ys))
  | inr e ↦ rw e (newer-append a xs ys)
]

pub newer-number :
    (a n : ℕ) (xs : List (ℕ × Option ℕ)) → n + length xs ≤ suc a → newer a (number n xs) ≡ []
newer-number a n [] h = refl
newer-number a n (x ∷ xs) h = ground (arith, newer-number a (suc n) xs)

snoc-length : {A : Type 0} (xs : List A) (x : A) → length (xs ++ (x ∷ [])) ≡ suc (length xs)
snoc-length xs x = omega (arith, length-append xs (x ∷ []))

-- A topic's state after `log` was published: the ring holds the last of it.
abbrev pub IsKept : ℕ → List (ℕ × Option ℕ) → TopicState → Type 0
IsKept size log s =
    (old : List (ℕ × Option ℕ)) × (kept : List (ℕ × Option ℕ)) × (log ≡ old ++ kept)
    × (s.buffer ≡ number (suc (length old)) kept)
    × (s.next_id ≡ suc (length log))
    × (length kept ≤ size)
    × ((old ≡ []) ⊎ (length kept ≡ size))

abbrev pub Holds : ℕ → List (ℕ × Option ℕ) → Option TopicState → Type 0
Holds size log none = log ≡ []
Holds size log (some s) = IsKept size log s

pub shift_number :
    (size : ℕ) (old kept : List (ℕ × Option ℕ)) (x : ℕ × Option ℕ) (s : TopicState)
    → 1 ≤ size
    → s.buffer ≡ shift_above size (number (suc (length old)) (kept ++ (x ∷ [])))
    → s.next_id ≡ suc (suc (length (old ++ kept)))
    → length kept ≤ size
    → (old ≡ []) ⊎ (length kept ≡ size)
    → IsKept size ((old ++ kept) ++ (x ∷ [])) s
shift_number size old [] x s pos b n le full = (
  old,
  x ∷ [],
  rw (append-nil old) refl,
  b ∙ rw (ltb_of_le size 1 pos) refl,
  n ∙ ap suc (sym (snoc-length (old ++ []) x)),
  omega arith,
  elim full [ inl e ↦ inl e | inr e ↦ inr (omega (arith, e)) ],
)
shift_number size old (k ∷ ks) x s pos b n le full =
    elim (Bool-cases (ltb size (suc (length (number (suc (suc (length old))) (ks ++ (x ∷ []))))))) [
      | inl h ↦ (
        old ++ (k ∷ []),
        ks ++ (x ∷ []),
        append_assoc old (k ∷ ks) (x ∷ []) ∙ sym (append_assoc old (k ∷ []) (ks ++ (x ∷ []))),
        b ∙ rw h (ap (λ m. number (suc m) (ks ++ (x ∷ []))) (sym (snoc-length old k))),
        n ∙ ap suc (sym (snoc-length (old ++ (k ∷ ks)) x)),
        omega (arith, snoc-length ks x),
        inr (
            ground
              (arith, snoc-length ks x, length-number (suc (suc (length old))) (ks ++ (x ∷ [])))),
      )
      | inr h ↦ (
        old,
        k ∷ (ks ++ (x ∷ [])),
        append_assoc old (k ∷ ks) (x ∷ []),
        b ∙ rw h refl,
        n ∙ ap suc (sym (snoc-length (old ++ (k ∷ ks)) x)),
        ground (arith, snoc-length ks x, length-number (suc (suc (length old))) (ks ++ (x ∷ []))),
        elim full [
          | inl e ↦ inl e
          | inr e ↦ inl (
              absurd (
                ground (
                  arith,
                  snoc-length ks x,
                  length-number (suc (suc (length old))) (ks ++ (x ∷ [])),
                )))
        ],
      )
    ]
