-- ===== src/Rpc/PortMux/Silence.antt =====
-- A peer that answers nothing.
use webrun_wire.Common.{ℕ, zero, suc, ◌+◌, ◌≤◌, ◌<◌, ◌≡◌, refl, arith, Bool, true, false, some}
use webrun_wire.Common.{leb, if◌then◌else◌, subst, sym, ap, ◌∙◌, leb_of_le}
use webrun_wire.Common.{List, [], ◌∷◌, ◌++◌, append-nil, append_assoc}
use webrun_wire.Rpc.PortMux.State.{Posted, posted_envelope}
use webrun_wire.Rpc.PortMux.Shutting.{close_mux-closed}
use webrun_wire.Rpc.PortMux.State.{Config, PortMux, post, ping, pings_unanswered, codec_post}
use webrun_wire.Rpc.PortMux.Ends.{close_mux}
use webrun_wire.Rpc.PortMux.Keepalive.{tick, tick_of, count_unanswered}

-- So many intervals in which nothing was read and nothing of this end waits in its transport.
unfoldable pub ticks : Config → ℕ → PortMux → PortMux
ticks c zero m = m
ticks c (suc n) m = ticks c n (tick c false m)

-- `n` pings.
abbrev pub pings : ℕ → List Posted
pings zero = []
pings (suc n) = posted_envelope ping ∷ pings n

-- From `m` to `r` the mux has sent `n` pings and nothing else, and is open.
abbrev pub Pinged : (n : ℕ) (m r : PortMux) → Type 0
Pinged n m r = (r.closed ≡ false) × (r.sent ≡ m.sent ++ pings n)

-- An open mux whose last `unanswered` pings a peer known to keep alive left unanswered.
record Waiting (m : PortMux) (unanswered : ℕ) : Type 0 where
  is_open : m.closed ≡ false
  keeps : m.peer_keeps_alive ≡ true
  silent : m.heard_since_ping ≡ false
  counts : m.unanswered ≡ unanswered

below : (n misses : ℕ) → n < misses → leb misses n ≡ false
below n misses l = ground (arith, l)

if_false : {A : Type 0} (b : Bool) (x y : A) → b ≡ false → (if b then x else y) ≡ y
if_false b x y h = rw h refl

if_true : {A : Type 0} (b : Bool) (x y : A) → b ≡ true → (if b then x else y) ≡ x
if_true b x y h = rw h refl

module _ (c : Config) (misses : ℕ) (known : c.misses ≡ some misses) where
  abbrev at_count : PortMux → ℕ → PortMux
  at_count m n =
      if leb misses n
      then close_mux pings_unanswered (record m { unanswered = n })
      else post ping (record m { unanswered = n; heard_since_ping = false })

  tick-tick_of :
      (m : PortMux) → m.closed ≡ false → tick c false m ≡ at_count m (count_unanswered false m)
  unfolding tick
  tick-tick_of m h = if_false m.closed _ _ h ∙ ap (λ o. tick_of o false m) known

  -- The two ends of an interval: one more ping, or the end of the mux.
  tick_pings :
      (m : PortMux) (n : ℕ)
      → m.closed ≡ false
      → count_unanswered false m ≡ n
      → n < misses
      → tick c false m ≡ codec_post ping (record m { unanswered = n; heard_since_ping = false })
  unfolding tick post
  tick_pings m n h k l =
      tick-tick_of m h
      ∙ ap (at_count m) k
      ∙ if_false (leb misses n) _ _ (below n misses l)
      ∙ if_false m.closed _ _ h

  tick_closes :
      (m : PortMux) (n : ℕ)
      → m.closed ≡ false
      → count_unanswered false m ≡ n
      → misses ≤ n
      → (tick c false m).closed ≡ true
  unfolding tick
  tick_closes m n h k l =
      ap (λ x. x.closed)
        (tick-tick_of m h ∙ ap (at_count m) k ∙ if_true (leb misses n) _ _ (leb_of_le misses n l))
      ∙ close_mux-closed pings_unanswered (record m { unanswered = n })

  count_more : (m : PortMux) (n : ℕ) → Waiting m n → count_unanswered false m ≡ suc n
  unfolding count_unanswered
  count_more m n w = rw (w.silent, w.keeps) (omega (arith, w.counts))

  tick-Waiting :
      (m : PortMux) (n : ℕ)
      → m.closed ≡ false
      → m.peer_keeps_alive ≡ true
      → count_unanswered false m ≡ n
      → n < misses
      → Waiting (tick c false m) n
  unfolding codec_post
  tick-Waiting m n h a k l =
      subst (λ x. Waiting x n) (sym (tick_pings m n h k l))
        (record { is_open = h; keeps = a; silent = refl; counts = refl })

  -- One more ping, and those of the ticks that follow.
  Pinged-more :
      (n k : ℕ) (m r : PortMux)
      → m.closed ≡ false
      → count_unanswered false m ≡ k
      → k < misses
      → Pinged n (tick c false m) r
      → Pinged (suc n) m r
  unfolding codec_post
  Pinged-more n k m r o h l p = (
    p.0,
    p.1
        ∙ ap (λ x. x.sent ++ pings n) (tick_pings m k o h l)
        ∙ append_assoc m.sent (posted_envelope ping ∷ []) (pings n),
  )

  ticks_open : (n k : ℕ) (m : PortMux) → Waiting m k → (k + n) < misses → Pinged n m (ticks c n m)
  unfolding ticks
  ticks_open zero k m w l = (w.is_open, sym (append-nil m.sent))
  ticks_open (suc n) k m w l =
      Pinged-more n (suc k) m (ticks c n (tick c false m)) w.is_open (count_more m k w)
        (omega (arith, l))
        (ticks_open n (suc k) (tick c false m)
          (tick-Waiting m (suc k) w.is_open w.keeps (count_more m k w) (omega (arith, l)))
          (omega (arith, l)))

  ticks_close :
      (n k : ℕ) (m : PortMux)
      → Waiting m k
      → (k + suc n) ≡ misses
      → (ticks c (suc n) m).closed ≡ true
  unfolding ticks
  ticks_close zero k m w l = tick_closes m (suc k) w.is_open (count_more m k w) (omega (arith, l))
  ticks_close (suc n) k m w l =
      ticks_close n (suc k) (tick c false m)
        (tick-Waiting m (suc k) w.is_open w.keeps (count_more m k w) (omega (arith, l)))
        (omega (arith, l))

-- A peer known to keep alive that was just heard and goes silent, while this end's transport has no backlog,
-- is found out: after as many intervals in which nothing was read as pings may be missed, or fewer, the mux is still
-- open and has sent one ping for each and nothing else; and one interval more closes it, with these pings unanswered.
pub ticks-closed :
    (c : Config) (misses n : ℕ) (m : PortMux)
    → c.misses ≡ some (suc misses)
    → m.closed ≡ false
    → m.peer_keeps_alive ≡ true
    → m.heard_since_ping ≡ true
    → n ≤ suc misses
    → Pinged n m (ticks c n m) × ((ticks c (suc (suc misses)) m).closed ≡ true)
unfolding ticks
ticks-closed c misses n m e o a h l =
    (open_until n l, ticks_close c (suc misses) e misses 0 (tick c false m) first (omega arith))
  where
    heard : count_unanswered false m ≡ 0
    heard = unfold count_unanswered in rw h refl

    first : Waiting (tick c false m) 0
    first = tick-Waiting c (suc misses) e m 0 o a heard (omega arith)

    open_until : (n : ℕ) → n ≤ suc misses → Pinged n m (ticks c n m)
    open_until zero l = (o, sym (append-nil m.sent))
    open_until (suc n) l =
        Pinged-more c (suc misses) e n 0 m (ticks c n (tick c false m)) o heard (omega arith)
          (ticks_open c (suc misses) e n 0 (tick c false m) first (omega (arith, l)))
