-- ===== src/Rpc/PortMux/Bounds.antt =====
-- The bounds of a multiplexer of ports.
use webrun_wire.Common.{ℕ, ◌≤◌, ◌≡◌, refl, ap, arith, List}
use webrun_wire.Common.{Bool, false, none, some, length, subst}
use webrun_wire.Common.Maps.{length-map_delete}
use webrun_wire.Rpc.PortMux.State.{Config, Entry, Posted, charged_of, multiplex_port}
use webrun_wire.Rpc.PortMux.Step.{Event, run}
use webrun_wire.Rpc.PortMux.Stable.{Stable}
use webrun_wire.Rpc.PortMux.Stable.Run.{run-On}
use webrun_wire.Common.{sym}
use webrun_wire.Rpc.PortMux.Stable.{Counted}
use webrun_wire.Rpc.PortMux.Charges.{
  map_set-length, length-map_set, charges-map_set, charges-map_set_new, charges-map_delete,
  IsUnique-map_set, IsUnique-map_delete, charges, IsUnique, AreCounted, AreCounted-map_get,
  AreCounted-map_set, AreCounted-map_delete,
}

-- What holds while the mux is open.
pub record Tallied (c : Config) (table : List (ℕ × Entry)) (reassembling : ℕ) : Type 0 where
  pub unique : IsUnique table
  pub counted : reassembling ≡ charges table
  pub capped : reassembling ≤ c.max_reassembled_bytes
  pub are_counted : AreCounted table

pub record Valid (c : Config) (table : List (ℕ × Entry)) (reassembling : ℕ) (closed : Bool)
    : Type 0 where
  pub bounded : length table ≤ c.max_ports
  pub tallied : closed ≡ false → Tallied c table reassembling

IsValid : Config → List (ℕ × Entry) → ℕ → List Posted → Bool → Type 0
IsValid c table reassembling sent closed = Valid c table reassembling closed

IsValid-Stable : (c : Config) → Stable c (IsValid c)
unfolding IsValid
IsValid-Stable c = record {
  posting = λ t r s x v. v;
  touching = λ t r s b id e now h v.
      let e1 : Entry = record e { last_activity = now } in
      record {
        bounded = omega (arith, v.bounded, map_set-length id e e1 t h);
        tallied = λ o.
            let w = v.tallied o in
            record {
              unique = IsUnique-map_set id e1 t w.unique;
              counted = omega (arith, w.counted, charges-map_set id e e1 t h);
              capped = w.capped;
              are_counted =
                  AreCounted-map_set id e1 t (AreCounted-map_get id e t w.are_counted h)
                    w.are_counted;
            };
      };
  freeing = λ t r s b id e h v.
      let e1 : Entry = record e { partial = none } in
      record {
        bounded = omega (arith, v.bounded, map_set-length id e e1 t h);
        tallied = λ o.
            let w = v.tallied o in
            record {
              unique = IsUnique-map_set id e1 t w.unique;
              counted = omega (arith, w.counted, charges-map_set id e e1 t h);
              capped = omega (arith, w.capped);
              are_counted = AreCounted-map_set id e1 t tt w.are_counted;
            };
      };
  deleting = λ t r s b id h v. record {
    bounded = omega (arith, v.bounded, length-map_delete id t);
    tallied = λ o.
        let w = v.tallied o in
        record {
          unique = IsUnique-map_delete id t w.unique;
          counted = omega (arith, w.counted, charges-map_delete id t w.unique h);
          capped = w.capped;
          are_counted = AreCounted-map_delete id t w.are_counted;
        };
  };
  framing = λ t r s b id e now p h le count v.
      let e1 : Entry = record e { last_activity = now; partial = some p } in
      record {
        bounded = omega (arith, v.bounded, map_set-length id e e1 t h);
        tallied = λ o.
            let w = v.tallied o in
            record {
              unique = IsUnique-map_set id e1 t w.unique;
              counted = omega (arith, w.counted, charges-map_set id e e1 t h);
              capped = omega (arith, le, w.counted, charges-map_set id e e1 t h);
              are_counted =
                  AreCounted-map_set id e1 t (count (AreCounted-map_get id e t w.are_counted h))
                    w.are_counted;
            };
      };
  adding = λ t r s id e h n l v. record {
    bounded = omega (arith, l, length-map_set id e t);
    tallied = λ o.
        let w = v.tallied o in
        record {
          unique = IsUnique-map_set id e t w.unique;
          counted = omega (arith, w.counted, charges-map_set_new id e t h, ap charged_of n);
          capped = w.capped;
          are_counted = AreCounted-map_set id e t (subst Counted (sym n) tt) w.are_counted;
        };
  };
  closing = λ t t' r s s' l v. record {
    bounded = omega (arith, l, v.bounded);
    tallied = λ o. ground (arith, o);
  };
}

multiplex_port-Valid :
    (c : Config)
    → Valid c (multiplex_port c).table (multiplex_port c).reassembling (multiplex_port c).closed
unfolding multiplex_port
multiplex_port-Valid c = record {
  bounded = omega arith;
  tallied = λ o. record { unique = tt; counted = refl; capped = omega arith; are_counted = tt };
}

-- Whatever the peer sends and the consumers, the timers and the pipe do, in any order, a multiplexer never
-- has more than `maxPorts` ports; and while it is open, no two of its ports have the same id, `reassembling`
-- is the sum of what their partial messages are charged and at most `maxReassembledBytes`, and the count of bytes of
-- each of these messages is that of the bytes it holds.
pub run-Valid :
    (c : Config) (es : List Event)
    → Valid c
        (run c es (multiplex_port c)).table
        (run c es (multiplex_port c)).reassembling
        (run c es (multiplex_port c)).closed
unfolding IsValid
run-Valid c es = run-On (IsValid-Stable c) es (multiplex_port c) (multiplex_port-Valid c)
