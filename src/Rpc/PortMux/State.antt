-- ===== src/Rpc/PortMux/State.antt =====
-- The state of a multiplexer of ports, and what its operations share.
use webrun_wire.Common.{ℕ, zero, suc, ◌-◌, List, [], ◌∷◌, ◌++◌, Option, none, some, get_elem?}
use webrun_wire.Common.{Bool, true, false, ◌||◌, ◌==◌, if◌then◌else◌}
use webrun_wire.Common.Maps.{map_get, map_set, map_delete}
use webrun_wire.Rpc.Estimate.{Value}
use webrun_wire.Rpc.Credit.{Cap, pipeline, half_close, unknown, Credit}
use webrun_wire.Rpc.Framing.{Partial}
use webrun_wire.Rpc.Ring.{Ring, new_ring}

pub data Side : Type 0 where
  initiator responder : Side

-- The reasons that a port or the mux is closed with: a number stands for one that its consumer gives.
pub data Reason : Type 0 where
  ended_both_ways sent_after_end end_not_agreed passed_window passed_cap : Reason
  rejected peer_closed mux_closed dropped max_ports_reached protocol : Reason
  pings_unanswered pipe_failed transport_aborted leaked port_closed : Reason
  given : ℕ → Reason

-- `PortEnvelope`. The `bytes` of a `credit` are `none` where they are not a number of at least 0, the `data` of
-- a `frame` where it is not a `Uint8Array`, and `meta` is its `kind` where that is a string.
pub data Envelope : Type 0 where
  open_envelope :
      (id : ℕ) (meta window : Option ℕ) (exact : Bool) (caps : Option (List Cap)) → Envelope
  message_envelope : (id : ℕ) → Value → Envelope
  close_envelope : (id : ℕ) → Option Reason → Envelope
  credit_envelope : (id : ℕ) (bytes : Option ℕ) (exact : Bool) (caps : Option (List Cap)) → Envelope
  end_envelope : (id : ℕ) → Envelope
  frame_envelope : (id : ℕ) → Option (List ℕ) → (last : Bool) → Envelope
  ping pong : Envelope

-- `PortCodec.encode` and `decode`, which a codec has both of or none that counts.
pub record ExactCodec : Type 0 where
  pub encode : Envelope → List ℕ
  pub decode : List ℕ → Option Envelope

-- `PortMuxOptions`, and what comes from outside: the verdict of `onPort` on a port's kind, whether a listener
-- of a port returns a promise for a message, and whether the pipe has `whenDrained`.
pub record Config : Type 0 where
  pub side : Side
  pub max_ports : ℕ
  pub window : Option ℕ
  pub frame_size : Option ℕ
  pub max_reassembled_bytes : ℕ
  pub misses : Option ℕ
  pub half_closes : Bool
  pub exact_codec : Option ExactCodec
  pub on_port : Option (Option ℕ → Bool)
  pub settles_later : ℕ → Value → Bool
  pub waits_for_room : Bool

-- A virtual port (`newVirtualPort`) with its credit. `received` is what its listeners were called with, and
-- `aborted` the reason of its close signal.
pub record Port : Type 0 where
  pub id : ℕ
  pub closed : Bool
  pub listening : Bool
  pub aborted : Option Reason
  pub received : List Value
  pub credit : Option Credit

-- `Entry`: `handle` is the place of its port in `ports`, so that two entries have the same credit where they
-- have the same `handle`.
pub record Entry : Type 0 where
  pub handle : ℕ
  pub meta : Option ℕ
  pub opened_at : ℕ
  pub last_activity : ℕ
  pub partial : Option Partial

-- What the fair-framing ring holds: the closures given to `sendOnPort`.
pub data Item : Type 0 where
  envelope_item : Envelope → Item
  bytes_item : List ℕ → Item
  end_item : (handle id : ℕ) → Item

-- What is put on the pipe.
pub data Posted : Type 0 where
  posted_envelope : Envelope → Posted
  posted_bytes : List ℕ → Posted

-- `resolved` are the promises that were resolved and `reported` the ids given to `onLeak`.
pub record PortMux : Type 0 where
  pub ports : List Port
  pub table : List (ℕ × Entry)
  pub reassembling : ℕ
  pub next_id : ℕ
  pub closed : Bool
  pub ring : Ring Item
  pub pumping : Bool
  pub peer_keeps_alive : Bool
  pub heard_since_ping : Bool
  pub unanswered : ℕ
  pub now : ℕ
  pub sent : List Posted
  pub resolved : List ℕ
  pub reported : List ℕ

unfoldable pub multiplex_port : Config → PortMux
multiplex_port c = record {
  ports = [];
  table = [];
  reassembling = 0;
  next_id = elim c.side [ initiator ↦ 0 | responder ↦ 1 ];
  closed = false;
  ring = new_ring;
  pumping = false;
  peer_keeps_alive = false;
  heard_since_ping = true;
  unanswered = 0;
  now = 0;
  sent = [];
  resolved = [];
  reported = [];
}

unfoldable pub own_caps : Config → List Cap
own_caps c = if c.half_closes then pipeline ∷ half_close ∷ [] else pipeline ∷ []

abbrev pub same_cap : Cap → Cap → Bool
same_cap pipeline pipeline = true
same_cap half_close half_close = true
same_cap (unknown a) (unknown b) = a == b
same_cap _ _ = false

unfoldable pub includes : Cap → List Cap → Bool
includes cap [] = false
includes cap (x ∷ xs) = same_cap cap x || includes cap xs

unfoldable pub filter_caps : List Cap → List Cap → List Cap
filter_caps [] listed = []
filter_caps (cap ∷ own) listed =
    if includes cap listed then cap ∷ filter_caps own listed else filter_caps own listed

unfoldable pub shared_caps : List Cap → Option (List Cap) → Option (List Cap)
shared_caps own none = none
shared_caps own (some listed) = some (filter_caps own listed)

unfoldable pub set_port : ℕ → Port → List Port → List Port
set_port handle p [] = []
set_port zero p (x ∷ xs) = p ∷ xs
set_port (suc handle) p (x ∷ xs) = x ∷ set_port handle p xs

abbrev pub save_port : ℕ → Port → PortMux → PortMux
save_port handle p m = record m { ports = set_port handle p m.ports }

abbrev pub save_credit : ℕ → Port → Credit → PortMux → PortMux
save_credit handle p c m = save_port handle (record p { credit = some c }) m

-- What an operation does on the port it is given, on its credit and on the entry of an id, where they are there.
abbrev pub on_some {ℓ} : {A : Type ℓ} → Option A → (A → PortMux → PortMux) → PortMux → PortMux
on_some none f m = m
on_some (some x) f m = f x m

unfoldable pub with_port : ℕ → (Port → PortMux → PortMux) → PortMux → PortMux
with_port handle f m = on_some (get_elem? m.ports handle) f m

unfoldable pub with_credit : ℕ → (Port → Credit → PortMux → PortMux) → PortMux → PortMux
with_credit handle f m = with_port handle (λ p. on_some p.credit (f p)) m

unfoldable pub with_entry : ℕ → (Entry → PortMux → PortMux) → PortMux → PortMux
with_entry id f m = on_some (map_get id m.table) f m

unfoldable pub save_entry : ℕ → Entry → PortMux → PortMux
save_entry id e m = record m { table = map_set id e m.table }

unfoldable pub touch : ℕ → PortMux → PortMux
touch id m = with_entry id (λ e. save_entry id (record e { last_activity = m.now })) m

unfoldable pub codec_post : Envelope → PortMux → PortMux
codec_post e m = record m { sent = m.sent ++ (posted_envelope e ∷ []) }

unfoldable pub post : Envelope → PortMux → PortMux
post e m = if m.closed then m else codec_post e m

unfoldable pub post_bytes : List ℕ → PortMux → PortMux
post_bytes b m = if m.closed then m else record m { sent = m.sent ++ (posted_bytes b ∷ []) }

abbrev pub charged_of : Option Partial → ℕ
charged_of none = 0
charged_of (some p) = p.charged

-- `freePartial` of the entry of an id.
unfoldable pub free_partial : ℕ → PortMux → PortMux
free_partial id m =
    with_entry id
      (λ e n. record (save_entry id (record e { partial = none }) n) {
        reassembling = n.reassembling - charged_of e.partial;
      })
      m

unfoldable pub delete_entry : ℕ → PortMux → PortMux
delete_entry id m = record m { table = map_delete id m.table }

unfoldable pub mark_closed : ℕ → Reason → PortMux → PortMux
mark_closed handle reason m =
    with_port handle
      (λ p. save_port handle (record p {
        closed = true;
        listening = false;
        aborted = elim p.aborted [ none ↦ some reason | some r ↦ some r ];
      }))
      m

unfoldable pub resolve_all : List ℕ → PortMux → PortMux
resolve_all promises m = record m { resolved = m.resolved ++ promises }

-- `exactCodec`.
abbrev pub is_exact : Config → Bool
is_exact c = elim c.exact_codec [ none ↦ false | some codec ↦ true ]
