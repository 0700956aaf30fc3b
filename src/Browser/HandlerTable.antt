-- ===== src/Browser/HandlerTable.antt =====
-- packages/webrun-http-browser/src/sw/handler-table.ts. An entry is an object, which `ref` tells from
-- others; the request that a route may look at plays no part here. The promises of `waitFor` are
-- tickets, and the timer of a waiter is an event.
use webrun_wire.Common.{
  ℕ, suc, ◌+◌, ◌≤◌, ◌<◌, ◌≡◌, ◌⊎◌, refl, sym, ap, ◌∙◌, arith, List, [], ◌∷◌, ◌++◌, length, All,
}
use webrun_wire.Common.{
  Option, none, some, Bool, true, false, not, ◌&&◌, ◌||◌, ◌==◌, ltb, leb, if◌then◌else◌, Bool-cases,
  inl, inr,
}
use webrun_wire.Common.Maps.{map_get, map_set, map_delete}
pub mod Route

pub record HandlerInfo : Type 0 where
  pub ref : ℕ
  pub id : ℕ
  pub key : ℕ
  pub inflight : ℕ
  pub attached_at : ℕ
  pub draining : Bool

pub record Waiter : Type 0 where
  pub ticket : ℕ
  pub key : ℕ

pub record HandlerTable : Type 0 where
  pub slots_of : List (ℕ × List (ℕ × HandlerInfo))
  pub waiters : List Waiter

-- `leastInflightRoute`.
abbrev pub is_better : HandlerInfo → HandlerInfo → Bool
is_better h best =
    ltb h.inflight best.inflight
    || ((h.inflight == best.inflight) && ltb h.attached_at best.attached_at)

abbrev pub better_of : Option HandlerInfo → HandlerInfo → HandlerInfo
better_of none h = h
better_of (some best) h = if is_better h best then h else best

unfoldable pub route_loop : Option HandlerInfo → List HandlerInfo → Option HandlerInfo
route_loop best [] = best
route_loop best (h ∷ hs) = route_loop (some (better_of best h)) hs

unfoldable pub least_inflight_route : List HandlerInfo → Option HandlerInfo
least_inflight_route handlers = route_loop none handlers

abbrev pub or_empty {ℓ} : {A : Type ℓ} → Option (List A) → List A
or_empty none = []
or_empty (some xs) = xs

-- The waiters of `key`, which are resolved, and the others, which stay.
unfoldable pub resolve_waiters : ℕ → List Waiter → List Waiter × List ℕ
resolve_waiters key [] = ([], [])
resolve_waiters key (w ∷ ws) =
    let rest = resolve_waiters key ws in
    if w.key == key then (rest.0, w.ticket ∷ rest.1) else (w ∷ rest.0, rest.1)

-- `add`: the entry that is replaced, the table, and the waiters that are told `true`.
unfoldable pub add : HandlerInfo → HandlerTable → Option HandlerInfo × HandlerTable × List ℕ
add entry t =
    let slots = or_empty (map_get entry.key t.slots_of) in
    let w = resolve_waiters entry.key t.waiters in
    let table = map_set entry.key (map_set entry.id entry slots) t.slots_of in
    (
      map_get entry.id slots,
      record { slots_of = table; waiters = if entry.draining then t.waiters else w.0 },
      if entry.draining then [] else w.1,
    )

abbrev pub is_same : HandlerInfo → Option HandlerInfo → Bool
is_same entry none = false
is_same entry (some e) = e.ref == entry.ref

abbrev pub is_empty {ℓ} : {A : Type ℓ} → List A → Bool
is_empty [] = true
is_empty (x ∷ xs) = false

-- `remove`: whether the entry was the one in its slot.
unfoldable pub remove : HandlerInfo → HandlerTable → Bool × HandlerTable
remove entry t =
    let slots = or_empty (map_get entry.key t.slots_of) in
    let left = map_delete entry.id slots in
    if not (is_same entry (map_get entry.id slots)) then (false, t) else (
      true,
      record t {
        slots_of =
            if is_empty left
            then map_delete entry.key t.slots_of
            else map_set entry.key left t.slots_of;
      },
    )

abbrev pub values {ℓ} : {A : Type ℓ} → List (ℕ × A) → List A
values [] = []
values (p ∷ ps) = p.1 ∷ values ps

unfoldable pub get : (key id : ℕ) → HandlerTable → Option HandlerInfo
get key id t = map_get id (or_empty (map_get key t.slots_of))

unfoldable pub all : ℕ → HandlerTable → List HandlerInfo
all key t = values (or_empty (map_get key t.slots_of))

abbrev pub not_draining : List HandlerInfo → List HandlerInfo
not_draining [] = []
not_draining (h ∷ hs) = if h.draining then not_draining hs else h ∷ not_draining hs

unfoldable pub live : ℕ → HandlerTable → List HandlerInfo
live key t = not_draining (all key t)

abbrev pub flatten : List (List (ℕ × HandlerInfo)) → List HandlerInfo
flatten [] = []
flatten (m ∷ ms) = values m ++ flatten ms

unfoldable pub entries : HandlerTable → List HandlerInfo
entries t = flatten (values t.slots_of)

abbrev pub sizes : List (List (ℕ × HandlerInfo)) → ℕ
sizes [] = 0
sizes (m ∷ ms) = length m + sizes ms

unfoldable pub size : HandlerTable → ℕ
size t = sizes (values t.slots_of)

-- `waitFor`: true at once, or a waiter.
unfoldable pub wait_for : (key ticket : ℕ) → Bool → HandlerTable → Option Bool × HandlerTable
wait_for key ticket next t =
    if not next && not (is_empty (live key t))
    then (some true, t)
    else (none, record t { waiters = t.waiters ++ (record { ticket = ticket; key = key } ∷ []) })

-- The timer of a waiter that was not resolved: it is told `false`.
unfoldable pub drop_waiter : ℕ → List Waiter → List Waiter
drop_waiter ticket [] = []
drop_waiter ticket (w ∷ ws) =
    let rest = drop_waiter ticket ws in if w.ticket == ticket then rest else w ∷ rest

unfoldable pub time_out : ℕ → HandlerTable → HandlerTable
time_out ticket t = record t { waiters = drop_waiter ticket t.waiters }
