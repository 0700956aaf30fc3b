-- ===== src/Browser/MountTable/Longest.antt =====
-- Which mount `find` chooses.
use webrun_wire.Common.{ℕ, ◌≤◌, ◌≡◌, ◌⊎◌, refl, sym, ap, ◌∙◌, subst, arith, List, [], ◌∷◌, length}
use webrun_wire.Common.{
  Option, none, some, true, false, ◌&&◌, ltb, if◌then◌else◌, Bool-cases, inl, inr,
}
use webrun_wire.Browser.MountTable.{Url, Entry, MountTable, holds, owning, better, find_best, find}

-- An entry of the table.
abbrev pub In : Entry → List (ℕ × Entry) → Type 0
In e [] = ⊥
In e (p ∷ es) = (p.1 ≡ e) ⊎ In e es

module _ (url : Url) where
  -- Where the loop's result comes from.
  abbrev Outcome : Option Entry → List (ℕ × Entry) → Entry → Type 0
  Outcome best es r = (best ≡ some r) ⊎ (In r es × (owning r url ≡ true))

  abbrev next_best : Option Entry → Entry → Option Entry
  next_best best e = if owning e url && better best e then some e else best

  some-injective : (e f : Entry) → some e ≡ some f → e ≡ f
  some-injective e f h = ap (λ (o : Option Entry). elim o [ some x ↦ x | none ↦ e ]) h

  lift-Outcome :
      (best : Option Entry) (p : ℕ × Entry) (es : List (ℕ × Entry)) (r : Entry)
      → Outcome (next_best best p.1) es r
      → Outcome best (p ∷ es) r
  lift-Outcome best p es r (inr (i, o)) = inr (inr i, o)
  lift-Outcome best p es r (inl h) = elim (Bool-cases (owning p.1 url && better best p.1)) [
    | inl taken ↦ inr (
      inl (chosen taken),
      subst (λ (x : Entry). owning x url ≡ true) (chosen taken) (ground arith),
    )
    | inr kept ↦ inl (sym (rw kept refl) ∙ h)
  ]
    where
      chosen : (owning p.1 url && better best p.1) ≡ true → p.1 ≡ r
      chosen taken = some-injective p.1 r (sym (rw taken refl) ∙ h)

  abbrev Chosen : Option Entry → List (ℕ × Entry) → Entry → Type 0
  Chosen best es e =
      (r : Entry) × (find_best url best es ≡ some r)
      × Outcome best es r
      × (length e.prefix ≤ length r.prefix)

  -- The next best has a prefix at least as long as `e`.
  abbrev Grows : Option Entry → Entry → Entry → Type 0
  Grows best f e = (x : Entry) × (next_best best f ≡ some x) × (length e.prefix ≤ length x.prefix)

  grows : (b e : Entry) → Grows (some b) e b
  grows b e = elim (Bool-cases (owning e url && ltb (length b.prefix) (length e.prefix))) [
    | inl taken ↦ (e, rw taken refl, ground arith)
    | inr kept ↦ (b, rw kept refl, omega arith)
  ]

  wins : (best : Option Entry) (e : Entry) → owning e url ≡ true → Grows best e e
  wins none e own = (e, rw own refl, omega arith)
  wins (some b) e own = elim (Bool-cases (ltb (length b.prefix) (length e.prefix))) [
    | inl longer ↦ (e, rw (own, longer) refl, omega arith)
    | inr kept ↦ (b, rw (own, kept) refl, ground arith)
  ]

  onward :
      (best : Option Entry) (k : ℕ) (f e : Entry) (es : List (ℕ × Entry))
      → Grows best f e
      → ((x : Entry) → Chosen (some x) es x)
      → Chosen best ((k, f) ∷ es) e
  unfolding find_best
  onward best k f e es (x, n, le) go =
      let c = go x in
      (
        c.0,
        ap (λ (o : Option Entry). find_best url o es) n ∙ c.1,
        lift-Outcome best (k, f) es c.0
            (subst (λ (o : Option Entry). Outcome o es c.0) (sym n) c.2),
        omega (arith, le, c.3),
      )

  keeps : (es : List (ℕ × Entry)) (b : Entry) → Chosen (some b) es b
  unfolding find_best
  keeps [] b = (b, refl, inl refl, omega arith)
  keeps ((k, e) ∷ es) b = onward (some b) k e b es (grows b e) (keeps es)

  chooses :
      (es : List (ℕ × Entry)) (best : Option Entry) (e : Entry)
      → In e es
      → owning e url ≡ true
      → Chosen best es e
  unfolding find_best
  chooses [] best e i own = absurd i
  chooses ((k, f) ∷ es) best e (inl h) own = subst (Chosen best ((k, f) ∷ es)) h (
      onward best k f f es (wins best f (subst (λ (x : Entry). owning x url ≡ true) (sym h) own))
        (keeps es))
  chooses ((k, f) ∷ es) best e (inr i) own =
      let c = chooses es (next_best best f) e i own in
      (c.0, c.1, lift-Outcome best (k, f) es c.0 c.2, c.3)

-- When `exclude` does not reserve the URL, and the prefix of some entry of the table owns it, then `find`
-- gives back the key of an entry of the table whose prefix owns the URL and is at least as long.
pub find-longest :
    (t : MountTable) (url : Url) (e : Entry)
    → holds t.exclude url ≡ false
    → In e t.entries
    → owning e url ≡ true
    → (r : Entry) × (find url t ≡ some r.key)
      × In r t.entries
      × (owning r url ≡ true)
      × (length e.prefix ≤ length r.prefix)
unfolding find
find-longest t url e free i own =
    let c = chooses url t.entries none e i own in
    elim c.2 [
      | inl absent ↦ absurd (ground arith)
      | inr (member, owner) ↦ (c.0, rw (free, c.1) refl, member, owner, c.3)
    ]
