-- ===== src/Rpc/Credit.antt =====
-- `Credit` of `multiplex-port.ts`: the flow control of one virtual port.
use webrun_wire.Common.{ℕ, zero, suc, ◌+◌, ◌-◌, ◌*◌, List, [], ◌∷◌, ◌++◌, Option, none, some}
use webrun_wire.Common.{Bool, true, false, not, ◌&&◌, ◌||◌, ltb, leb, ◌==◌, if◌then◌else◌}
use webrun_wire.Rpc.Estimate.{Value}
pub mod Window
pub mod Link

-- `PortCap`, and a capability that this end does not know.
pub data Cap : Type 0 where
  pipeline half_close : Cap
  unknown : ℕ → Cap

-- What a queued `send` puts on the port: a message, with its bytes where they were encoded, or the `end`.
pub data Content : Type 0 where
  queued_message : Value → Option (List ℕ) → Content
  queued_end : Content

pub record Queued : Type 0 where
  pub content : Content
  pub size : ℕ

pub record Waiter : Type 0 where
  pub below : ℕ
  pub resolve : ℕ

-- `settling`: the sizes of the deliveries whose listeners have not settled yet, each of which is granted
-- when they have.
pub record Credit : Type 0 where
  pub window : ℕ
  pub enforced : Bool
  pub opener : Bool
  pub exact : Bool
  pub caps : List Cap
  pub outstanding : ℕ
  pub queue : List Queued
  pub queued : ℕ
  pub unconsumed : ℕ
  pub settling : List ℕ
  pub waiters : List Waiter
  pub to_grant : ℕ
  pub grant_scheduled : Bool
  pub ending : Bool
  pub end_sent : Bool
  pub peer_ended : Bool
  pub on_peer_end : Option ℕ

unfoldable pub new_credit : (window : ℕ) (opener exact : Bool) → Credit
new_credit window opener exact = record {
  window = window;
  enforced = false;
  opener = opener;
  exact = exact;
  caps = [];
  outstanding = 0;
  queue = [];
  queued = 0;
  unconsumed = 0;
  settling = [];
  waiters = [];
  to_grant = 0;
  grant_scheduled = false;
  ending = false;
  end_sent = false;
  peer_ended = false;
  on_peer_end = none;
}

-- The test of `flush` at which it stops.
unfoldable pub waits : Credit → ℕ → Bool
waits c size =
    ltb 0 size && c.enforced && ltb 0 c.outstanding && ltb c.window (c.outstanding + size)

abbrev pub shifted : Queued → List Queued → Credit → Credit
shifted q qs c = record c {
  queue = qs;
  queued = c.queued - q.size;
  outstanding = c.outstanding + q.size;
}

-- The first loop of `flush`: the credit with what stays queued, and the items to send, in order.
unfoldable pub flush_queue : List Queued → Credit → Credit × List Queued
flush_queue [] c = (record c { queue = [] }, [])
flush_queue (q ∷ qs) c =
    let rest = flush_queue qs (shifted q qs c) in
    if waits c q.size then (record c { queue = q ∷ qs }, []) else (rest.0, q ∷ rest.1)

-- The second: the waiters that stay, and those to resolve.
unfoldable pub ready_waiters : ℕ → List Waiter → List Waiter × List ℕ
ready_waiters queued [] = ([], [])
ready_waiters queued (w ∷ ws) =
    let rest = ready_waiters queued ws in
    if leb queued w.below then (rest.0, w.resolve ∷ rest.1) else (w ∷ rest.0, rest.1)

unfoldable pub enqueue : Queued → Credit → Credit
enqueue q c = record c { queue = c.queue ++ (q ∷ []); queued = c.queued + q.size }

-- The bytes that a `credit` envelope gives back.
unfoldable pub credited : ℕ → Credit → Credit
credited bytes c = record c { enforced = true; outstanding = c.outstanding - bytes }

-- `send` in `grant`: the bytes to post, if there are any and the id is still open.
unfoldable pub send_grant : (is_open : Bool) → Credit → Credit × Option ℕ
send_grant is_open c =
    if c.to_grant == 0 || not is_open
    then (record c { grant_scheduled = false }, none)
    else (record c { grant_scheduled = false; to_grant = 0 }, some c.to_grant)

unfoldable pub grant : (is_open : Bool) → ℕ → Credit → Credit × Option ℕ
grant is_open bytes c =
    let c1 : Credit = record c {
      unconsumed = c.unconsumed - bytes;
      to_grant = c.to_grant + bytes;
    } in
    if leb c.window (c1.to_grant * 4)
    then send_grant is_open c1
    else (record c1 { grant_scheduled = true }, none)

-- The windowed `deliver`: `later` where a listener returned a promise.
unfoldable pub delivered : (later is_open : Bool) → ℕ → Credit → Credit × Option ℕ
delivered later is_open size c =
    let c1 : Credit = record c { unconsumed = c.unconsumed + size } in
    if later
    then (record c1 { settling = c.settling ++ (size ∷ []) }, none)
    else grant is_open size c1

abbrev pub put_back : ℕ → Option (ℕ × List ℕ) → Option (ℕ × List ℕ)
put_back s none = none
put_back s (some (size, rest)) = some (size, s ∷ rest)

unfoldable pub settle_nth : ℕ → List ℕ → Option (ℕ × List ℕ)
settle_nth n [] = none
settle_nth zero (size ∷ rest) = some (size, rest)
settle_nth (suc n) (size ∷ rest) = put_back size (settle_nth n rest)

abbrev pub granted_of : (is_open : Bool) → Credit → Option (ℕ × List ℕ) → Credit × Option ℕ
granted_of is_open c none = (c, none)
granted_of is_open c (some (size, rest)) = grant is_open size (record c { settling = rest })

-- The listeners of one delivery have settled.
unfoldable pub settled : (is_open : Bool) → ℕ → Credit → Credit × Option ℕ
settled is_open n c = granted_of is_open c (settle_nth n c.settling)
