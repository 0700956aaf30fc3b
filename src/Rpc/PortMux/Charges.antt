-- ===== src/Rpc/PortMux/Charges.antt =====
-- The partial messages of a table of ports: what they are charged, and their counts of bytes.
use webrun_wire.Common.{ℕ, suc, ◌+◌, ◌≤◌, ◌≡◌, ◌≢◌, refl, ap, ◌∙◌, arith, List, [], ◌∷◌}
use webrun_wire.Common.{
  if◌then◌else◌, inl, inr, Bool, true, false, none, some, length, Bool-cases, ◌==◌, subst,
}
use webrun_wire.Common.Maps.{
  map_get, map_set, map_delete, map_get-map_set_other, map_get-map_delete_other,
}
use webrun_wire.Rpc.PortMux.State.{Entry, charged_of}
use webrun_wire.Rpc.PortMux.Stable.{entry_charge}
use webrun_wire.Common.{Option, sym}
use webrun_wire.Rpc.PortMux.Stable.{Counted}

-- The bytes that the partial messages of the ports hold past their windows.
abbrev pub charges : List (ℕ × Entry) → ℕ
charges [] = 0
charges ((id, e) ∷ t) = charged_of e.partial + charges t

abbrev pub IsUnique : List (ℕ × Entry) → Type 0
IsUnique [] = Unit
IsUnique ((id, e) ∷ t) = (map_get id t ≡ none) × IsUnique t

abbrev pub AreCounted : List (ℕ × Entry) → Type 0
AreCounted [] = Unit
AreCounted ((id, e) ∷ t) = Counted e.partial × AreCounted t

abbrev CountedEntry : Option Entry → Type 0
CountedEntry none = Unit
CountedEntry (some e) = Counted e.partial

module _ (id : ℕ) where
  pub map_set-length :
      (x e : Entry) (t : List (ℕ × Entry))
      → map_get id t ≡ some x
      → length (map_set id e t) ≡ length t
  unfolding map_get map_set
  map_set-length x e [] h = ground (arith, h)
  map_set-length x e ((i, y) ∷ t) h = ground (arith, h, map_set-length x e t)

  pub length-map_set : (e : Entry) (t : List (ℕ × Entry)) → length (map_set id e t) ≤ suc (length t)
  unfolding map_set
  length-map_set e [] = omega arith
  length-map_set e ((i, y) ∷ t) = ground (arith, length-map_set e t)

  -- The charges after an entry is replaced, added or deleted.
  pub charges-map_set :
      (x e : Entry) (t : List (ℕ × Entry))
      → map_get id t ≡ some x
      → (charges (map_set id e t) + charged_of x.partial) ≡ (charges t + charged_of e.partial)
  unfolding map_get map_set
  charges-map_set x e [] h = ground (arith, h)
  charges-map_set x e ((i, y) ∷ t) h = go (i == id) h (charges-map_set x e t)
    where
      go :
          (b : Bool)
          → (if b then some y else map_get id t) ≡ some x
          → (map_get id t ≡ some x
              → (charges (map_set id e t) + charged_of x.partial)
                ≡ (charges t + charged_of e.partial))
          → (charges (if b then (id, e) ∷ t else (i, y) ∷ map_set id e t) + charged_of x.partial)
            ≡ (charged_of y.partial + charges t + charged_of e.partial)
      go true g rest = omega (arith, ap entry_charge g)
      go false g rest = omega (arith, rest g)

  pub charges-map_set_new :
      (e : Entry) (t : List (ℕ × Entry))
      → map_get id t ≡ none
      → charges (map_set id e t) ≡ (charges t + charged_of e.partial)
  unfolding map_get map_set
  charges-map_set_new e [] h = omega arith
  charges-map_set_new e ((i, y) ∷ t) h = ground (arith, h, charges-map_set_new e t)

  map_delete_absent : (t : List (ℕ × Entry)) → map_get id t ≡ none → map_delete id t ≡ t
  unfolding map_get map_delete
  map_delete_absent [] h = refl
  map_delete_absent ((i, y) ∷ t) h = go (i == id) h (map_delete_absent t)
    where
      go :
          (b : Bool)
          → (if b then some y else map_get id t) ≡ none
          → (map_get id t ≡ none → map_delete id t ≡ t)
          → (if b then map_delete id t else (i, y) ∷ map_delete id t) ≡ (i, y) ∷ t
      go true g rest = ground (arith, g)
      go false g rest = ap (λ r. (i, y) ∷ r) (rest g)

  gone :
      (i : ℕ) (t : List (ℕ × Entry)) → (i == id) ≡ true → map_get i t ≡ none → map_get id t ≡ none
  gone i t g n = subst (λ k. map_get k t ≡ none) (ground (arith, g)) n

  apart : (i : ℕ) → (i == id) ≡ false → id ≢ i
  apart i g p = ground (arith, g, p)

  pub charges-map_delete :
      (t : List (ℕ × Entry))
      → IsUnique t
      → ((e : Entry) → map_get id t ≡ some e → charged_of e.partial ≡ 0)
      → charges (map_delete id t) ≡ charges t
  unfolding map_get map_delete
  charges-map_delete [] u h = refl
  charges-map_delete ((i, y) ∷ t) (n, u) h = elim (Bool-cases (i == id)) [
    | inl g ↦
        rw g (ap charges (map_delete_absent t (gone i t g n)) ∙ omega (arith, h y (rw g refl)))
    | inr g ↦ rw g (omega (arith, charges-map_delete t u (λ e q. h e (rw g q))))
  ]

  pub IsUnique-map_set : (e : Entry) (t : List (ℕ × Entry)) → IsUnique t → IsUnique (map_set id e t)
  unfolding map_get map_set
  IsUnique-map_set e [] u = (refl, tt)
  IsUnique-map_set e ((i, y) ∷ t) (n, u) = elim (Bool-cases (i == id)) [
    | inl g ↦ rw g (gone i t g n, u)
    | inr g ↦ rw g (map_get-map_set_other id i e t (apart i g) ∙ n, IsUnique-map_set e t u)
  ]

  pub IsUnique-map_delete : (t : List (ℕ × Entry)) → IsUnique t → IsUnique (map_delete id t)
  unfolding map_get map_delete
  IsUnique-map_delete [] u = tt
  IsUnique-map_delete ((i, y) ∷ t) (n, u) = elim (Bool-cases (i == id)) [
    | inl g ↦ rw g (IsUnique-map_delete t u)
    | inr g ↦ rw g (map_get-map_delete_other id i t (apart i g) ∙ n, IsUnique-map_delete t u)
  ]

  -- The charges without those of one entry.
  pub charges-map_delete_other :
      (e : Entry) (t : List (ℕ × Entry))
      → IsUnique t
      → map_get id t ≡ some e
      → charges t ≡ (charged_of e.partial + charges (map_delete id t))
  unfolding map_get map_delete
  charges-map_delete_other e [] u h = ground (arith, h)
  charges-map_delete_other e ((i, y) ∷ t) (n, u) h = elim (Bool-cases (i == id)) [
    | inl g ↦
        let same : some y ≡ some e = sym (rw g refl) ∙ h in
        rw g (omega (arith, ap entry_charge same, ap charges (map_delete_absent t (gone i t g n))))
    | inr g ↦
        let later : map_get id t ≡ some e = sym (rw g refl) ∙ h in
        rw g (omega (arith, charges-map_delete_other e t u later))
  ]

  -- The counts of bytes.
  pub AreCounted-map_get :
      (e : Entry) (t : List (ℕ × Entry)) → AreCounted t → map_get id t ≡ some e → Counted e.partial
  unfolding map_get
  AreCounted-map_get e [] u h = ground (arith, h)
  AreCounted-map_get e ((i, y) ∷ t) (n, u) h = elim (Bool-cases (i == id)) [
    | inl g ↦ let same : some y ≡ some e = sym (rw g refl) ∙ h in subst CountedEntry same n
    | inr g ↦
        let later : map_get id t ≡ some e = sym (rw g refl) ∙ h in AreCounted-map_get e t u later
  ]

  pub AreCounted-map_set :
      (e : Entry) (t : List (ℕ × Entry))
      → Counted e.partial
      → AreCounted t
      → AreCounted (map_set id e t)
  unfolding map_set
  AreCounted-map_set e [] n u = (n, tt)
  AreCounted-map_set e ((i, y) ∷ t) n u = elim (Bool-cases (i == id)) [
    | inl g ↦ rw g (n, u.1)
    | inr g ↦ rw g (u.0, AreCounted-map_set e t n u.1)
  ]

  pub AreCounted-map_delete : (t : List (ℕ × Entry)) → AreCounted t → AreCounted (map_delete id t)
  unfolding map_delete
  AreCounted-map_delete [] u = tt
  AreCounted-map_delete ((i, y) ∷ t) u = elim (Bool-cases (i == id)) [
    | inl g ↦ rw g (AreCounted-map_delete t u.1)
    | inr g ↦ rw g (u.0, AreCounted-map_delete t u.1)
  ]
