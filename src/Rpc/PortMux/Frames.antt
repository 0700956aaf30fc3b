-- ===== src/Rpc/PortMux/Frames.antt =====
-- Messages and frames that arrive at a multiplexer of ports.
use webrun_wire.Common.{ℕ, ◌+◌, ◌-◌, List, [], ◌∷◌, ◌++◌, Option, none, some, length}
use webrun_wire.Common.{Bool, false, not, ◌||◌, ◌&&◌, ◌==◌, if◌then◌else◌}
use webrun_wire.Rpc.Estimate.{Value, estimate_message_size}
use webrun_wire.Rpc.Credit
use webrun_wire.Rpc.Credit.{Credit}
use webrun_wire.Rpc.Framing.{
  Partial, begin_partial, Overrun, window_passed, cap_passed, overrun, add_chunk, join,
}
use webrun_wire.Rpc.PortMux.State.{Reason, sent_after_end, passed_window, passed_cap}
use webrun_wire.Rpc.PortMux.State.{protocol, Envelope, message_envelope}
use webrun_wire.Rpc.PortMux.State.{ExactCodec, Config, Port, Entry}
use webrun_wire.Rpc.PortMux.State.{PortMux}
use webrun_wire.Rpc.PortMux.State.{save_port, on_some, with_port, with_entry, save_entry, touch}
use webrun_wire.Rpc.PortMux.State.{free_partial}
use webrun_wire.Rpc.PortMux.Send.{fail_port, is_open}
use webrun_wire.Rpc.PortMux.Send.{post_grant}

-- `deliver` of the virtual port: its listeners are called, unless it is closed.
abbrev pub hear : Value → Port → Port
hear payload p =
    if p.closed || not p.listening then p else record p { received = p.received ++ (payload ∷ []) }

-- A listener that is there returns a promise.
abbrev pub is_later : Config → (handle : ℕ) → Value → Port → Bool
is_later c handle payload p = not p.closed && p.listening && c.settles_later handle payload

abbrev pub deliver_on :
    Config → (handle size : ℕ) → Value → Port → Option Credit → PortMux → PortMux
deliver_on c handle size payload p none m = save_port handle (hear payload p) m
deliver_on c handle size payload p (some k) m =
    post_grant p.id handle (hear payload p)
      (Credit.delivered (is_later c handle payload p) (is_open p.id m) size k) m

unfoldable pub deliver : Config → (handle size : ℕ) → Value → PortMux → PortMux
deliver c handle size payload m =
    with_port handle (λ p. deliver_on c handle size payload p p.credit) m

-- `sizeOf` of a message: `raw` is the byte length of what arrived, where it is bytes.
abbrev pub size_of : Option Credit → (raw : Option ℕ) → Value → ℕ
size_of none raw payload = estimate_message_size payload
size_of (some k) none payload = estimate_message_size payload
size_of (some k) (some n) payload = if k.exact then n else estimate_message_size payload

abbrev pub has_ended : Option Credit → Bool
has_ended none = false
has_ended (some k) = k.peer_ended

-- A message or a frame on a port whose peer has ended it fails the port.
abbrev pub unless_ended : (id handle : ℕ) → Port → (PortMux → PortMux) → PortMux → PortMux
unless_ended id handle p f m =
    if has_ended p.credit then fail_port id handle sent_after_end protocol m else f m

unfoldable pub on_message : Config → (id : ℕ) → Value → (raw : Option ℕ) → PortMux → PortMux
on_message c id payload raw m =
    with_entry id
      (λ e. with_port e.handle (λ p.
        unless_ended id e.handle p
          (λ n. deliver c e.handle (size_of p.credit raw payload) payload (touch id n))))
      m

abbrev pub partial_of : Option Partial → Credit → Partial
partial_of none k = begin_partial k
partial_of (some p) k = p

-- The whole message of which the last frame has arrived: its bytes, decoded.
abbrev pub deliver_whole : Config → (id handle size : ℕ) → Option Envelope → PortMux → PortMux
deliver_whole c id handle size (some (message_envelope i payload)) m =
    if i == id then deliver c handle size payload m else m
deliver_whole c id handle size _ m = m

-- The frame is added to what has arrived, and delivered if it is the last.
unfoldable pub add_frame :
    Config
    → ExactCodec
    → (id : ℕ) → (last : Bool) → Entry
    → Partial
    → (charged : ℕ) → PortMux
    → PortMux
add_frame c codec id last e part charged m =
    let n = record (save_entry id (record e { last_activity = m.now; partial = some part }) m) {
      reassembling = (m.reassembling + part.charged) - charged;
    } in
    let whole = join part.chunks in
    if last
    then deliver_whole c id e.handle (length whole) (codec.decode whole) (free_partial id n)
    else n

abbrev pub error_of : Overrun → Reason
error_of window_passed = passed_window
error_of cap_passed = passed_cap

abbrev pub take_frame :
    Config
    → ExactCodec
    → (id : ℕ) → List ℕ
    → (last : Bool) → Entry
    → Credit
    → Partial
    → Option Overrun
    → PortMux
    → PortMux
take_frame c codec id chunk last e k part (some why) m =
    fail_port id e.handle (error_of why) passed_cap m
take_frame c codec id chunk last e k part none m =
    add_frame c codec id last e (add_chunk k.window chunk part) part.charged m

abbrev pub framed :
    Config
    → (id : ℕ) → Option (List ℕ)
    → (last : Bool) → Entry
    → Credit
    → Option ExactCodec
    → PortMux
    → PortMux
framed c id (some chunk) last e k (some codec) m =
    let part = partial_of e.partial k in
    if k.exact
    then take_frame c codec id chunk last e k part
        (overrun c.max_reassembled_bytes k.window m.reassembling (length chunk) part) m
    else m
framed c id _ last e k _ m = m

unfoldable pub on_frame : Config → (id : ℕ) → Option (List ℕ) → (last : Bool) → PortMux → PortMux
on_frame c id chunk last m =
    with_entry id
      (λ e. with_port e.handle (λ p.
        unless_ended id e.handle p
          (on_some p.credit (λ k. framed c id chunk last e k c.exact_codec))))
      m
