-- ===== src/Rpc/PortMux/Stable/Delivering.antt =====
-- What the messages and frames that a multiplexer of ports reads keep.
use webrun_wire.Common.{ℕ, ◌+◌, ◌-◌, ◌≤◌, ◌≡◌, refl, sym, List}
use webrun_wire.Common.{Option, none, some, length, Bool, arith}
use webrun_wire.Common.{subst, ◌==◌}
use webrun_wire.Common.Maps.{map_get}
use webrun_wire.Rpc.Estimate.{Value}
use webrun_wire.Rpc.Framing.{Partial, Overrun, overrun, charge, add_chunk, begin_partial}
use webrun_wire.Rpc.Credit
use webrun_wire.Rpc.Credit.{Credit, Cap, half_close}
use webrun_wire.Rpc.PortMux.State.{sent_after_end, passed_cap}
use webrun_wire.Rpc.PortMux.State.{protocol, Envelope, open_envelope, message_envelope}
use webrun_wire.Rpc.PortMux.State.{
  close_envelope, credit_envelope, end_envelope, frame_envelope, ping, pong, ExactCodec, Config,
  Port, Entry,
}
use webrun_wire.Rpc.PortMux.State.{Posted, PortMux}
use webrun_wire.Rpc.PortMux.State.{on_some, save_entry, touch}
use webrun_wire.Rpc.PortMux.State.{charged_of}
use webrun_wire.Rpc.PortMux.Send.{is_open}
use webrun_wire.Rpc.PortMux.Frames.{
  hear, is_later, deliver_on, deliver, size_of, has_ended, unless_ended, on_message, partial_of,
  deliver_whole, add_frame,
}
use webrun_wire.Rpc.PortMux.Frames.{take_frame, framed, on_frame}
use webrun_wire.Common.{[], ◌∷◌, ◌++◌, length-append}
use webrun_wire.Rpc.Framing.{join}
use webrun_wire.Rpc.PortMux.Stable.{
  Counted, Stable, On, with_port-On, on_some-On, with_entry-On, touch-On, free_partial-On,
}
use webrun_wire.Rpc.PortMux.Stable.Sending.{either-On, fail_port-On, post_grant-On}

-- What a frame that may be added leaves of the cap.
overrun_cap :
    (limit window held size : ℕ) (p : Partial)
    → overrun limit window held size p ≡ none
    → ((held - p.charged) + charge window size p) ≤ limit
unfolding overrun
overrun_cap limit window held size p h = ground (arith, h)

pub partial_of-charged : (o : Option Partial) (k : Credit) → (partial_of o k).charged ≡ charged_of o
unfolding begin_partial
partial_of-charged none k = refl
partial_of-charged (some p) k = refl

length-join-append :
    (chunks : List (List ℕ)) (chunk : List ℕ)
    → length (join (chunks ++ (chunk ∷ []))) ≡ length (join chunks) + length chunk
length-join-append [] chunk = omega (arith, length-append chunk [])
length-join-append (x ∷ xs) chunk = omega (
  arith,
  length-append x (join (xs ++ (chunk ∷ []))),
  length-append x (join xs),
  length-join-append xs chunk,
)

-- A chunk that is added is counted.
pub add_chunk-Counted :
    (window : ℕ) (chunk : List ℕ) (o : Option Partial) (k : Credit)
    → Counted o
    → Counted (some (add_chunk window chunk (partial_of o k)))
unfolding add_chunk begin_partial
add_chunk-Counted window chunk none k h = omega (arith, length-append chunk [])
add_chunk-Counted window chunk (some p) k h = omega (arith, h, length-join-append p.chunks chunk)

module _ {c : Config} {P : List (ℕ × Entry) → ℕ → List Posted → Bool → Type 0}
    (stable : Stable c P) where
  deliver-On :
      (handle size : ℕ) (payload : Value) (m : PortMux)
      → On stable m
      → On stable (deliver c handle size payload m)
  unfolding deliver
  deliver-On handle size payload m v = with_port-On stable handle _ m (λ p. go p p.credit) v
    where
      go : (p : Port) (o : Option Credit) → On stable (deliver_on c handle size payload p o m)
      go p none = v
      go p (some k) =
          post_grant-On stable p.id handle (hear payload p)
            (Credit.delivered (is_later c handle payload p) (is_open p.id m) size k) m v

  unless_ended-On :
      (id handle : ℕ) (p : Port) (f : PortMux → PortMux) (m : PortMux)
      → On stable m
      → On stable (f m)
      → On stable (unless_ended id handle p f m)
  unless_ended-On id handle p f m v w =
      either-On stable (has_ended p.credit) _ _
        (fail_port-On stable id handle sent_after_end protocol m v) w

  pub on_message-On :
      (id : ℕ) (payload : Value) (raw : Option ℕ) (m : PortMux)
      → On stable m
      → On stable (on_message c id payload raw m)
  unfolding on_message
  on_message-On id payload raw m v =
      with_entry-On stable id _ m
        (λ e h.
          with_port-On stable e.handle _ m
            (λ p.
              unless_ended-On id e.handle p
                (λ n. deliver c e.handle (size_of p.credit raw payload) payload (touch id n)) m v
                (deliver-On e.handle (size_of p.credit raw payload) payload (touch id m)
                  (touch-On stable id m v)))
            v)
        v

  deliver_whole-On :
      (id handle size : ℕ) (o : Option Envelope) (m : PortMux)
      → On stable m
      → On stable (deliver_whole c id handle size o m)
  deliver_whole-On id handle size (some (message_envelope i payload)) m v =
      either-On stable (i == id) _ m (deliver-On handle size payload m v) v
  deliver_whole-On id handle size none m v = v
  deliver_whole-On id handle size (some (open_envelope i me w ex ca)) m v = v
  deliver_whole-On id handle size (some (close_envelope i r)) m v = v
  deliver_whole-On id handle size (some (credit_envelope i b ex ca)) m v = v
  deliver_whole-On id handle size (some (end_envelope i)) m v = v
  deliver_whole-On id handle size (some (frame_envelope i d l)) m v = v
  deliver_whole-On id handle size (some ping) m v = v
  deliver_whole-On id handle size (some pong) m v = v

  add_frame-On :
      (codec : ExactCodec) (id : ℕ) (last : Bool) (e : Entry) (p : Partial) (m : PortMux)
      → map_get id m.table ≡ some e
      → ((m.reassembling - charged_of e.partial) + p.charged) ≤ c.max_reassembled_bytes
      → (Counted e.partial → Counted (some p))
      → On stable m
      → On stable (add_frame c codec id last e p (charged_of e.partial) m)
  unfolding add_frame save_entry
  add_frame-On codec id last e p m h le count v =
      let w = stable.framing m.table m.reassembling m.sent m.closed id e m.now p h le count v in
      either-On stable last _ _ (deliver_whole-On id e.handle _ _ _ (free_partial-On stable id _ w))
        w

  take_frame-On :
      (codec : ExactCodec) (id : ℕ) (chunk : List ℕ) (last : Bool) (e : Entry) (k : Credit)
      (o : Option Overrun) (m : PortMux)
      → overrun c.max_reassembled_bytes k.window m.reassembling
          (length chunk)
          (partial_of e.partial k)
        ≡ o
      → map_get id m.table ≡ some e
      → On stable m
      → On stable (take_frame c codec id chunk last e k (partial_of e.partial k) o m)
  unfolding add_chunk
  take_frame-On codec id chunk last e k (some why) m g h v =
      fail_port-On stable id e.handle _ passed_cap m v
  take_frame-On codec id chunk last e k none m g h v =
      let part = partial_of e.partial k in
      subst (λ n. On stable (add_frame c codec id last e (add_chunk k.window chunk part) n m))
        (sym (partial_of-charged e.partial k))
        (add_frame-On codec id last e (add_chunk k.window chunk part) m h
          (subst
            (λ n.
              ((m.reassembling - n) + charge k.window (length chunk) part)
              ≤ c.max_reassembled_bytes)
            (partial_of-charged e.partial k)
            (overrun_cap c.max_reassembled_bytes k.window m.reassembling (length chunk) part g))
          (add_chunk-Counted k.window chunk e.partial k) v)

  framed-On :
      (id : ℕ) (d : Option (List ℕ)) (last : Bool) (e : Entry) (k : Credit) (o : Option ExactCodec)
      (m : PortMux)
      → map_get id m.table ≡ some e
      → On stable m
      → On stable (framed c id d last e k o m)
  framed-On id none last e k none m h v = v
  framed-On id none last e k (some codec) m h v = v
  framed-On id (some chunk) last e k none m h v = v
  framed-On id (some chunk) last e k (some codec) m h v =
      either-On stable k.exact _ m (take_frame-On codec id chunk last e k _ m refl h v) v

  pub on_frame-On :
      (id : ℕ) (d : Option (List ℕ)) (last : Bool) (m : PortMux)
      → On stable m
      → On stable (on_frame c id d last m)
  unfolding on_frame
  on_frame-On id d last m v =
      with_entry-On stable id _ m
        (λ e h.
          with_port-On stable e.handle _ m
            (λ p.
              unless_ended-On id e.handle p
                (on_some p.credit (λ k. framed c id d last e k c.exact_codec)) m v
                (on_some-On stable p.credit (λ k. framed c id d last e k c.exact_codec) m
                  (λ k. framed-On id d last e k c.exact_codec m h v) v))
            v)
        v
