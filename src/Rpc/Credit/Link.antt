-- ===== src/Rpc/Credit/Link.antt =====
-- Two ends of a windowed port whose handshake is done, and the pipe between them: what one end sends, what
-- the other consumes and grants, and the credit on its way back.
use webrun_wire.Common.{
  ℕ, ◌+◌, zero, suc, ◌-◌, ◌*◌, ◌≡◌, refl, ap, arith, List, [], ◌∷◌, ◌++◌, sum, sum-append,
}
use webrun_wire.Common.{Bool, true, false, Option, none, some, inl, inr, Bool-cases}
use webrun_wire.Common.{leb, ◌==◌, ◌||◌, not}
use webrun_wire.Rpc.Credit.{Queued, Credit, flush_queue, enqueue, credited, grant, send_grant}
use webrun_wire.Rpc.Credit.{delivered, settled, settle_nth, granted_of, put_back, waits}
use webrun_wire.Rpc.Credit.Window.{IsFlushed, sizes, flush_queue-Flushed}

-- `in_flight` are the sizes of the messages on the pipe, oldest first, and `credits` the grants.
pub record Link : Type 0 where
  pub sender : Credit
  pub in_flight : List ℕ
  pub receiver : Credit
  pub credits : List ℕ

pub data LinkEvent : Type 0 where
  posted : Queued → LinkEvent
  arrived : (later : Bool) → LinkEvent
  listeners_settled : ℕ → LinkEvent
  grant_due credit_arrived : LinkEvent

-- `flush`, and its items on the pipe.
unfoldable pub flush_link : Link → Link
flush_link l =
    let r = flush_queue l.sender.queue l.sender in
    record l { sender = r.0; in_flight = l.in_flight ++ sizes r.1 }

abbrev pub grant_link : Link → Credit × Option ℕ → Link
grant_link l (c, none) = record l { receiver = c }
grant_link l (c, some bytes) = record l { receiver = c; credits = l.credits ++ (bytes ∷ []) }

abbrev pub arrive : Bool → Link → List ℕ → Link
arrive later l [] = l
arrive later l (size ∷ rest) =
    grant_link (record l { in_flight = rest }) (delivered later true size l.receiver)

abbrev pub credit_arrives : Link → List ℕ → Link
credit_arrives l [] = l
credit_arrives l (bytes ∷ rest) =
    flush_link (record l { sender = credited bytes l.sender; credits = rest })

unfoldable pub link_step : LinkEvent → Link → Link
link_step (posted q) l = flush_link (record l { sender = enqueue q l.sender })
link_step (arrived later) l = arrive later l l.in_flight
link_step (listeners_settled n) l = grant_link l (settled true n l.receiver)
link_step grant_due l = grant_link l (send_grant true l.receiver)
link_step credit_arrived l = credit_arrives l l.credits

unfoldable pub link_run : List LinkEvent → Link → Link
link_run [] l = l
link_run (e ∷ es) l = link_run es (link_step e l)

-- Every byte that the sender counts is on the pipe, at the listeners, waiting to be granted or on its way
-- back; what is at the listeners is what they have not settled; what is queued has to wait.
pub record Balanced (l : Link) : Type 0 where
  pub counted :
      l.sender.outstanding
      ≡ (sum l.in_flight + l.receiver.unconsumed + l.receiver.to_grant + sum l.credits)
  pub at_listeners : l.receiver.unconsumed ≡ sum l.receiver.settling
  pub flowing : IsFlushed l.sender.queue l.sender

abbrev pub posted_bytes : Option ℕ → ℕ
posted_bytes none = 0
posted_bytes (some b) = b

-- After `more` bytes were delivered.
record Accounted (c : Credit) (more : ℕ) (r : Credit × Option ℕ) : Type 0 where
  total : (r.0.unconsumed + r.0.to_grant + posted_bytes r.1) ≡ (c.unconsumed + c.to_grant + more)
  waiting : r.0.unconsumed ≡ sum r.0.settling

send_grant-Accounted :
    (b : Bool) (c : Credit) → c.unconsumed ≡ sum c.settling → Accounted c 0 (send_grant b c)
unfolding send_grant
send_grant-Accounted b c h = elim (Bool-cases (c.to_grant == 0 || not b)) [
  | inl idle ↦ rw idle (record { total = omega arith; waiting = h })
  | inr due ↦ rw due (record { total = omega arith; waiting = h })
]

grant-Accounted :
    (b : Bool) (n : ℕ) (c : Credit)
    → c.unconsumed ≡ n + sum c.settling
    → Accounted c 0 (grant b n c)
unfolding grant
grant-Accounted b n c h = elim (Bool-cases (leb c.window ((c.to_grant + n) * 4))) [
  | inl now ↦ rw now (
      let c1 : Credit = record c { unconsumed = c.unconsumed - n; to_grant = c.to_grant + n } in
      let a = send_grant-Accounted b c1 (omega (arith, h)) in
      record { total = omega (arith, a.total, h); waiting = a.waiting })
  | inr soon ↦ rw soon (record { total = omega (arith, h); waiting = omega (arith, h) })
]

delivered-Accounted :
    (later b : Bool) (n : ℕ) (c : Credit)
    → c.unconsumed ≡ sum c.settling
    → Accounted c n (delivered later b n c)
unfolding delivered
delivered-Accounted true b n c h = record {
  total = omega arith;
  waiting = omega (arith, h, sum-append c.settling (n ∷ []));
}
delivered-Accounted false b n c h =
    let c1 : Credit = record c { unconsumed = c.unconsumed + n } in
    let a = grant-Accounted b n c1 (omega (arith, h)) in
    record { total = omega (arith, a.total); waiting = a.waiting }

-- The size that is taken out, and the others.
abbrev IsTaken : List ℕ → Option (ℕ × List ℕ) → Type 0
IsTaken l none = Unit
IsTaken l (some (n, rest)) = sum l ≡ n + sum rest

put_back-IsTaken :
    (s : ℕ) (l : List ℕ) (o : Option (ℕ × List ℕ)) → IsTaken l o → IsTaken (s ∷ l) (put_back s o)
put_back-IsTaken s l none h = tt
put_back-IsTaken s l (some (n, rest)) h = omega (arith, h)

settle_nth-IsTaken : (n : ℕ) (l : List ℕ) → IsTaken l (settle_nth n l)
unfolding settle_nth
settle_nth-IsTaken n [] = tt
settle_nth-IsTaken zero (s ∷ l) = refl
settle_nth-IsTaken (suc n) (s ∷ l) = put_back-IsTaken s l (settle_nth n l) (settle_nth-IsTaken n l)

granted_of-Accounted :
    (b : Bool) (c : Credit) (o : Option (ℕ × List ℕ))
    → c.unconsumed ≡ sum c.settling
    → IsTaken c.settling o
    → Accounted c 0 (granted_of b c o)
granted_of-Accounted b c none h t = record { total = omega arith; waiting = h }
granted_of-Accounted b c (some (n, rest)) h t =
    let a = grant-Accounted b n (record c { settling = rest }) (omega (arith, h, t)) in
    record { total = a.total; waiting = a.waiting }

settled-Accounted :
    (b : Bool) (n : ℕ) (c : Credit) → c.unconsumed ≡ sum c.settling → Accounted c 0 (settled b n c)
unfolding settled
settled-Accounted b n c h =
    granted_of-Accounted b c (settle_nth n c.settling) h (settle_nth-IsTaken n c.settling)

-- The receiver's step keeps the balance, where what left the pipe is what was delivered.
grant_link-Balanced :
    (l : Link) (more : ℕ) (r : Credit × Option ℕ)
    → l.sender.outstanding
      ≡ (sum l.in_flight + more + l.receiver.unconsumed + l.receiver.to_grant + sum l.credits)
    → IsFlushed l.sender.queue l.sender
    → Accounted l.receiver more r
    → Balanced (grant_link l r)
grant_link-Balanced l more (c, none) h f a = record {
  counted = omega (arith, h, a.total);
  at_listeners = a.waiting;
  flowing = f;
}
grant_link-Balanced l more (c, some b) h f a = record {
  counted = omega (arith, h, a.total, sum-append l.credits (b ∷ []));
  at_listeners = a.waiting;
  flowing = f;
}

flush_link-Balanced :
    (l : Link)
    → l.sender.outstanding
      ≡ (sum l.in_flight + l.receiver.unconsumed + l.receiver.to_grant + sum l.credits)
    → l.receiver.unconsumed ≡ sum l.receiver.settling
    → Balanced (flush_link l)
unfolding flush_link
flush_link-Balanced l h w =
    let f = flush_queue-Flushed l.sender.queue l.sender in
    record {
      counted = omega (
        arith,
        h,
        f.spent,
        sum-append l.in_flight (sizes (flush_queue l.sender.queue l.sender).1),
      );
      at_listeners = w;
      flowing = f.blocked;
    }

arrive-Balanced :
    (later : Bool) (l : Link) (q : List ℕ)
    → l.in_flight ≡ q
    → Balanced l
    → Balanced (arrive later l q)
arrive-Balanced later l [] e v = v
arrive-Balanced later l (n ∷ rest) e v =
    grant_link-Balanced (record l { in_flight = rest }) n (delivered later true n l.receiver)
      (omega (arith, v.counted, ap sum e)) v.flowing
      (delivered-Accounted later true n l.receiver v.at_listeners)

credit_arrives-Balanced :
    (l : Link) (q : List ℕ) → l.credits ≡ q → Balanced l → Balanced (credit_arrives l q)
unfolding credited
credit_arrives-Balanced l [] e v = v
credit_arrives-Balanced l (n ∷ rest) e v =
    flush_link-Balanced (record l { sender = credited n l.sender; credits = rest })
      (omega (arith, v.counted, ap sum e)) v.at_listeners

step-Balanced : (e : LinkEvent) (l : Link) → Balanced l → Balanced (link_step e l)
unfolding link_step enqueue
step-Balanced (posted q) l v =
    flush_link-Balanced (record l { sender = enqueue q l.sender }) v.counted v.at_listeners
step-Balanced (arrived later) l v = arrive-Balanced later l l.in_flight refl v
step-Balanced (listeners_settled n) l v =
    grant_link-Balanced l 0 (settled true n l.receiver) (omega (arith, v.counted)) v.flowing
      (settled-Accounted true n l.receiver v.at_listeners)
step-Balanced grant_due l v =
    grant_link-Balanced l 0 (send_grant true l.receiver) (omega (arith, v.counted)) v.flowing
      (send_grant-Accounted true l.receiver v.at_listeners)
step-Balanced credit_arrived l v = credit_arrives-Balanced l l.credits refl v

-- From a balanced start, whatever the two ends of a windowed port and the pipe between them do, in any order,
-- the bytes that the sender counts as outstanding are exactly those on the pipe, at the receiver's listeners, waiting to be
-- granted and on their way back, and the first message still queued is one that may not leave yet.
pub link_run-Balanced : (es : List LinkEvent) (l : Link) → Balanced l → Balanced (link_run es l)
unfolding link_run
link_run-Balanced [] l v = v
link_run-Balanced (e ∷ es) l v = link_run-Balanced es (link_step e l) (step-Balanced e l v)

-- What may leave when nothing is outstanding.
flushed_none : (qs : List Queued) (c : Credit) → c.outstanding ≡ 0 → IsFlushed qs c → qs ≡ []
unfolding waits
flushed_none [] c h f = refl
flushed_none (q ∷ qs) c h f = ground arith

-- From a balanced start a port cannot get stuck: once what was sent has arrived, been consumed and been granted back, whatever
-- happened before, nothing is left in the sender's queue.
pub link_run-queue :
    (es : List LinkEvent) (l : Link)
    → Balanced l
    → (link_run es l).in_flight ≡ []
    → (link_run es l).receiver.settling ≡ []
    → (link_run es l).receiver.to_grant ≡ 0
    → (link_run es l).credits ≡ []
    → (link_run es l).sender.queue ≡ []
link_run-queue es l v landed consumed granted back =
    let b = link_run-Balanced es l v in
    flushed_none (link_run es l).sender.queue (link_run es l).sender
      (omega
        (arith, b.counted, b.at_listeners, ap sum landed, ap sum consumed, granted, ap sum back))
      b.flowing
