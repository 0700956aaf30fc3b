-- ===== src/Browser/MountTable.antt =====
-- packages/webrun-http-browser/src/relay/mount-table.ts. A path is the list of its code units. A mount's
-- key is a number. The predicates that a host brings are functions of the whole URL.
use webrun_wire.Common.{
  ℕ, suc, ◌+◌, ◌≤◌, ◌≡◌, ◌⊎◌, refl, sym, ap, ◌∙◌, arith, List, [], ◌∷◌, ◌++◌, length, All,
}
use webrun_wire.Common.{
  Option, none, some, Bool, true, false, not, ◌&&◌, ◌||◌, ◌==◌, ltb, leb, if◌then◌else◌,
}
use webrun_wire.Common.{Bool-cases, Option-cases, inl, inr}
use webrun_wire.Common.Maps.{map_set, map_delete}
pub mod Longest

abbrev slash : ℕ
slash = 0x2f

-- A URL: its path, and the rest of it, which only predicates look at.
pub record Url : Type 0 where
  pub pathname : List ℕ
  pub others : List ℕ

pub record MountSpec : Type 0 where
  pub path : Option (List ℕ)
  pub match : Option (Url → Bool)

pub record Entry : Type 0 where
  pub key : ℕ
  pub prefix : List ℕ
  pub match : Option (Url → Bool)
  pub seq : ℕ

pub record MountTable : Type 0 where
  pub exclude : Option (Url → Bool)
  pub entries : List (ℕ × Entry)
  pub next_seq : ℕ

abbrev pub starts_with : List ℕ → List ℕ → Bool
starts_with [] ys = true
starts_with (x ∷ xs) [] = false
starts_with (x ∷ xs) (y ∷ ys) = (x == y) && starts_with xs ys

abbrev pub ends_with_slash : List ℕ → Bool
ends_with_slash [] = false
ends_with_slash (x ∷ []) = x == slash
ends_with_slash (x ∷ y ∷ xs) = ends_with_slash (y ∷ xs)

abbrev pub same_path : List ℕ → List ℕ → Bool
same_path [] [] = true
same_path [] (y ∷ ys) = false
same_path (x ∷ xs) [] = false
same_path (x ∷ xs) (y ∷ ys) = (x == y) && same_path xs ys

abbrev with_slash : List ℕ → List ℕ
with_slash path = if starts_with (slash ∷ []) path then path else slash ∷ path

-- `normalise`.
unfoldable pub normalise : List ℕ → List ℕ
normalise path =
    if same_path path [] || same_path path (slash ∷ [])
    then slash ∷ []
    else if ends_with_slash (with_slash path)
    then with_slash path
    else with_slash path ++ (slash ∷ [])

-- `owns`.
unfoldable pub owns : List ℕ → List ℕ → Bool
owns prefix pathname =
    if same_path prefix (slash ∷ [])
    then true
    else if starts_with prefix pathname
    then true
    else same_path (pathname ++ (slash ∷ [])) prefix

abbrev pub new_mount_table : Option (Url → Bool) → MountTable
new_mount_table exclude = record { exclude = exclude; entries = []; next_seq = 0 }

abbrev pub prefix_of : Option (List ℕ) → List ℕ
prefix_of none = []
prefix_of (some path) = normalise path

unfoldable pub set : ℕ → MountSpec → MountTable → MountTable
set key spec t = record t {
  entries =
      map_set key
        (record { key = key; prefix = prefix_of spec.path; match = spec.match; seq = t.next_seq })
        t.entries;
  next_seq = suc t.next_seq;
}

unfoldable pub remove : ℕ → MountTable → MountTable
remove key t = record t { entries = map_delete key t.entries }

-- A predicate that may be missing, `?.(url) === true`.
abbrev pub holds : Option (Url → Bool) → Url → Bool
holds none url = false
holds (some p) url = p url

unfoldable pub excludes : Url → MountTable → Bool
excludes url t = holds t.exclude url

abbrev pub is_root : List ℕ → Bool
is_root [] = true
is_root (c ∷ cs) = false

-- The entries whose prefix owns the path: an empty prefix is that of a predicate-only mount.
abbrev pub owning : Entry → Url → Bool
owning e url = not (is_root e.prefix) && owns e.prefix url.pathname

abbrev pub better : Option Entry → Entry → Bool
better none e = true
better (some best) e = ltb (length best.prefix) (length e.prefix)

-- The loop of `find` over the prefixes.
unfoldable pub find_best : Url → Option Entry → List (ℕ × Entry) → Option Entry
find_best url best [] = best
find_best url best ((k, e) ∷ es) =
    find_best url (if owning e url && better best e then some e else best) es

-- `sort((a, b) => a.seq - b.seq)` of the entries with a predicate, which a stable sort orders by `seq`.
abbrev pub insert_by_seq : Entry → List Entry → List Entry
insert_by_seq e [] = e ∷ []
insert_by_seq e (f ∷ fs) = if ltb e.seq f.seq then e ∷ f ∷ fs else f ∷ insert_by_seq e fs

abbrev pub has_match : Entry → Bool
has_match e = elim e.match [ none ↦ false | some p ↦ true ]

unfoldable pub predicates : List (ℕ × Entry) → List Entry → List Entry
predicates [] sorted = sorted
predicates ((k, e) ∷ es) sorted =
    predicates es (if has_match e then insert_by_seq e sorted else sorted)

unfoldable pub first_match : Url → List Entry → Option ℕ
first_match url [] = none
first_match url (e ∷ es) = if holds e.match url then some e.key else first_match url es

-- `find`.
abbrev pub found : Option Entry → Url → List (ℕ × Entry) → Option ℕ
found (some best) url es = some best.key
found none url es = first_match url (predicates es [])

unfoldable pub find : Url → MountTable → Option ℕ
find url t =
    if holds t.exclude url then none else found (find_best url none t.entries) url t.entries
