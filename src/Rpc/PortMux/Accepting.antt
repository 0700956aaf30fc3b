-- ===== src/Rpc/PortMux/Accepting.antt =====
-- The frames that a multiplexer of ports accepts.
use webrun_wire.Common.{ℕ, ◌+◌, ◌-◌, ◌≤◌, ◌≡◌, List, length}
use webrun_wire.Common.{none, some, true, false}
use webrun_wire.Common.Maps.{map_get}
use webrun_wire.Rpc.Credit.{Credit}
use webrun_wire.Rpc.Framing.{Partial, join}
use webrun_wire.Rpc.PortMux.State.{Config, Entry}
use webrun_wire.Common.{◌<◌, ◌⊎◌, ◌++◌}
use webrun_wire.Rpc.PortMux.State.{PortMux}

-- What a partial message may be with a window: one that began while part of the window was owed has all its bytes
-- within what is left of it, and is charged nothing; any other is charged its bytes past the window, and these are
-- within the limit with what the other ports are charged.
pub record Accepted (limit window others : ℕ) (p : Partial) : Type 0 where
  pub in_window : p.has_room ≡ true → (p.charged ≡ 0) × ((length (join p.chunks) + p.owed) ≤ window)
  pub in_cap :
      p.has_room ≡ false
      → (p.charged ≡ length (join p.chunks) - window)
        × ((others + (length (join p.chunks) - window)) ≤ limit)

-- Why a frame is refused: its message passes the window, or the limit.
abbrev pub Refused : (limit window others n : ℕ) → Partial → Type 0
Refused limit window others n p =
    ((p.has_room ≡ true) × (window < (n + p.owed)))
    ⊎ ((p.has_room ≡ false) × (limit < (others + (n - window))))

-- What a frame that is not the last one does to the entry of its port: the port is failed because the message is
-- too large; or the bytes are behind those there were, and the message is one that may be.
abbrev pub FrameTaken :
    (c : Config) (id : ℕ) → Credit → List ℕ → Partial → (others : ℕ) → List (ℕ × Entry) → Type 0
FrameTaken c id k chunk part others table =
    ((map_get id table ≡ none)
      × Refused c.max_reassembled_bytes k.window others (length (join part.chunks ++ chunk)) part)
    ⊎ ((e : Entry) × (p : Partial) × (map_get id table ≡ some e)
        × (e.partial ≡ some p)
        × (join p.chunks ≡ join part.chunks ++ chunk)
        × Accepted c.max_reassembled_bytes k.window others p)
