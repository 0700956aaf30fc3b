-- ===== src/Rpc/PortMux/Closed.antt =====
-- What a closed multiplexer of ports sends.
use webrun_wire.Common.{ℕ, ◌≡◌, refl, arith, List, Bool, true}
use webrun_wire.Rpc.PortMux.State.{Config, Entry, Posted, PortMux}
use webrun_wire.Rpc.PortMux.Step.{Event, run}
use webrun_wire.Rpc.PortMux.Stable.{Stable}
use webrun_wire.Rpc.PortMux.Stable.Run.{run-On}

IsSilent : List Posted → List (ℕ × Entry) → ℕ → List Posted → Bool → Type 0
IsSilent before table reassembling sent closed = (closed ≡ true) × (sent ≡ before)

IsSilent-Stable : (c : Config) (before : List Posted) → Stable c (IsSilent before)
unfolding IsSilent
IsSilent-Stable c before = record {
  posting = λ t r s x v. ground (arith, v);
  touching = λ t r s b id e now h v. v;
  freeing = λ t r s b id e h v. v;
  deleting = λ t r s b id h v. v;
  framing = λ t r s b id e now p h le count v. v;
  adding = λ t r s id e h n l v. v;
  closing = λ t t' r s s' l v. ground (arith, v);
}

-- A closed multiplexer stays closed and puts nothing more on the pipe, whatever its peer sends and its
-- consumers, its timers and the pipe do, in any order.
pub run-sent :
    (c : Config) (es : List Event) (m : PortMux)
    → m.closed ≡ true
    → ((run c es m).closed ≡ true) × ((run c es m).sent ≡ m.sent)
unfolding IsSilent
run-sent c es m h = run-On (IsSilent-Stable c m.sent) es m (h, refl)
