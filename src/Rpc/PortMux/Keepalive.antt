-- ===== src/Rpc/PortMux/Keepalive.antt =====
-- The keepalive of a multiplexer of ports.
use webrun_wire.Common.{ℕ, ◌+◌, Option, none, some, Bool, false, not, ◌&&◌, leb, if◌then◌else◌}
use webrun_wire.Rpc.PortMux.State.{PortMux, Config, ping, post, pings_unanswered}
use webrun_wire.Rpc.PortMux.Ends.{close_mux}

-- The pings that went unanswered, after one more interval.
unfoldable pub count_unanswered : (backlogged : Bool) → PortMux → ℕ
count_unanswered backlogged m =
    if m.heard_since_ping
    then 0
    else if m.peer_keeps_alive && not backlogged
    then m.unanswered + 1
    else m.unanswered

abbrev pub tick_of : Option ℕ → (backlogged : Bool) → PortMux → PortMux
tick_of none backlogged m = m
tick_of (some misses) backlogged m =
    let n : PortMux = record m { unanswered = count_unanswered backlogged m } in
    if leb misses n.unanswered
    then close_mux pings_unanswered n
    else post ping (record n { heard_since_ping = false })

-- The timer, which `close` stops.
unfoldable pub tick : Config → (backlogged : Bool) → PortMux → PortMux
tick c backlogged m = if m.closed then m else tick_of c.misses backlogged m
