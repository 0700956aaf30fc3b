-- ===== src/Browser/Tests.antt =====
-- The mount table at a concrete URL, the default route and the size of a text.
use webrun_wire.Common.{◌≤◌, ◌≡◌, refl, [], ◌∷◌, length, none, some, true, false, inl, inr}
use webrun_wire.Browser.MountTable.{Url, Entry, MountTable, owns, owning, find}
use webrun_wire.Common.{All}
use webrun_wire.Msgpack.Utf8.{encode_utf8}
use webrun_wire.Browser.WsFrames.{utf8_length, utf8_length-encode_utf8}
use webrun_wire.Browser.HandlerTable.{HandlerInfo, least_inflight_route}
use webrun_wire.Browser.HandlerTable.Route.{NoBetter, least_inflight_route-NoBetter}
use webrun_wire.Browser.HandlerTable
use webrun_wire.Browser.MountTable.Longest.{In, find-longest}

abbrev root_entry : Entry
root_entry = record { key = 1; prefix = 0x2f ∷ []; match = none; seq = 0 }

-- The mount at "/a/".
abbrev a_entry : Entry
a_entry = record { key = 2; prefix = 0x2f ∷ 0x61 ∷ 0x2f ∷ []; match = none; seq = 1 }

abbrev two_mounts : MountTable
two_mounts = record { exclude = none; entries = (1, root_entry) ∷ (2, a_entry) ∷ []; next_seq = 2 }

-- "/a".
abbrev url_a : Url
url_a = record { pathname = 0x2f ∷ 0x61 ∷ []; others = [] }

a_owns : owning a_entry url_a ≡ true
unfolding owns
a_owns = refl

find-longest_example :
    (r : Entry) × (find url_a two_mounts ≡ some r.key)
    × In r two_mounts.entries
    × (owning r url_a ≡ true)
    × (length a_entry.prefix ≤ length r.prefix)
find-longest_example = find-longest two_mounts url_a a_entry refl (inr (inl refl)) a_owns

abbrev busy : HandlerInfo
busy = record { ref = 0; id = 0; key = 1; inflight = 2; attached_at = 5; draining = false }

abbrev idle : HandlerInfo
idle = record { ref = 1; id = 1; key = 1; inflight = 1; attached_at = 9; draining = false }

least_inflight_route-NoBetter_example :
    (r : HandlerInfo) × (least_inflight_route (busy ∷ idle ∷ []) ≡ some r)
    × HandlerTable.Route.In r (busy ∷ idle ∷ [])
    × All (NoBetter r) (busy ∷ idle ∷ [])
least_inflight_route-NoBetter_example = least_inflight_route-NoBetter busy (idle ∷ [])

utf8_length-encode_utf8_example :
    utf8_length (0x61 ∷ 0xd83d ∷ 0xde00 ∷ 0xd83d ∷ [])
    ≡ length (encode_utf8 (0x61 ∷ 0xd83d ∷ 0xde00 ∷ 0xd83d ∷ []))
utf8_length-encode_utf8_example = utf8_length-encode_utf8 (0x61 ∷ 0xd83d ∷ 0xde00 ∷ 0xd83d ∷ [])
