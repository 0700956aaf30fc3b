-- ===== src/Browser/HandlerTable/Route.antt =====
-- Which handler the default route chooses.
use webrun_wire.Common.{◌≡◌, ◌<◌, ◌≤◌, ◌⊎◌, refl, sym, ◌∙◌, arith, List, [], ◌∷◌, All}
use webrun_wire.Common.{some, Bool-cases, inl, inr}
use webrun_wire.Browser.HandlerTable.{
  HandlerInfo, is_better, better_of, route_loop, least_inflight_route,
}

-- `r` has fewer requests in flight than `h`, or as many and was attached no later.
abbrev pub NoBetter : HandlerInfo → HandlerInfo → Type 0
NoBetter r h =
    (r.inflight < h.inflight) ⊎ ((r.inflight ≡ h.inflight) × (r.attached_at ≤ h.attached_at))

abbrev pub In : HandlerInfo → List HandlerInfo → Type 0
In h [] = ⊥
In h (x ∷ xs) = (x ≡ h) ⊎ In h xs

NoBetter-refl : (h : HandlerInfo) → NoBetter h h
NoBetter-refl h = ground arith

NoBetter-trans : (a b c : HandlerInfo) → NoBetter a b → NoBetter b c → NoBetter a c
NoBetter-trans a b c h k = ground arith

-- The better of two is no worse than either.
better_of-old : (b h : HandlerInfo) → NoBetter (better_of (some b) h) b
better_of-old b h = ground arith

better_of-new : (b h : HandlerInfo) → NoBetter (better_of (some b) h) h
better_of-new b h = ground arith

Chosen : HandlerInfo → List HandlerInfo → Type 0
Chosen b hs =
    (r : HandlerInfo) × (route_loop (some b) hs ≡ some r)
    × ((b ≡ r) ⊎ In r hs)
    × NoBetter r b
    × All (NoBetter r) hs

loop_lem : (hs : List HandlerInfo) (b : HandlerInfo) → Chosen b hs
unfolding Chosen route_loop
loop_lem [] b = (b, refl, inl refl, NoBetter-refl b, tt)
loop_lem (h ∷ hs) b =
    let c = loop_lem hs (better_of (some b) h) in
    (
      c.0,
      c.1,
      from c.0 c.2,
      NoBetter-trans c.0 (better_of (some b) h) b c.3 (better_of-old b h),
      (NoBetter-trans c.0 (better_of (some b) h) h c.3 (better_of-new b h), c.4),
    )
  where
    from : (r : HandlerInfo) → ((better_of (some b) h ≡ r) ⊎ In r hs) → (b ≡ r) ⊎ In r (h ∷ hs)
    from r (inr i) = inr (inr i)
    from r (inl e) = elim (Bool-cases (is_better h b)) [
      | inl t ↦ inr (inl (sym (rw t refl) ∙ e))
      | inr f ↦ inl (sym (rw f refl) ∙ e)
    ]

-- Of any handlers, at least one, the default route chooses one of them such that none has fewer requests
-- in flight, nor as many and attached before it.
pub least_inflight_route-NoBetter :
    (h : HandlerInfo) (hs : List HandlerInfo)
    → (r : HandlerInfo) × (least_inflight_route (h ∷ hs) ≡ some r)
      × In r (h ∷ hs)
      × All (NoBetter r) (h ∷ hs)
unfolding least_inflight_route Chosen route_loop
least_inflight_route-NoBetter h hs = let c = loop_lem hs h in (c.0, c.1, c.2, (c.3, c.4))
