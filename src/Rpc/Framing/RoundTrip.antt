-- ===== src/Rpc/Framing/RoundTrip.antt =====
-- Frames split by one end and put together by the other.
use webrun_wire.Common.{
  lt_of_leb, ℕ, zero, suc, ◌+◌, ◌-◌, ◌≤◌, ◌≡◌, refl, ap, sym, ◌∙◌, List, [], ◌∷◌, ◌++◌,
}
use webrun_wire.Common.{Option, none, some, length, take, drop, true, false, arith, inl, inr}
use webrun_wire.Common.{if◌then◌else◌, leb, ◌==◌, Bool-cases, append_assoc, append-nil}
use webrun_wire.Common.{take-append-drop, length-drop, ap₂, subst, length-append}
use webrun_wire.Rpc.Framing.{Frame, split_from, split_frames, Partial, Overrun, charge, overrun}
use webrun_wire.Rpc.Framing.{add_chunk, join, begin_partial}
use webrun_wire.Rpc.Credit.{Credit}

-- The frames of one message, taken one after another: nothing while it is unfinished or where it passed what
-- it may hold, else its bytes and what `reassembling` comes to.
abbrev pub take_frame :
    (window reassembling : ℕ)
    → Frame
    → Partial
    → Option (List ℕ × ℕ)
    → Option Overrun
    → Option (List ℕ × ℕ)
take_frame window held f p rest (some why) = none
take_frame window held f p rest none =
    let p1 = add_chunk window f.data_bytes p in
    if f.last then some (join p1.chunks, held - p.charged) else rest

unfoldable pub take_frames :
    (limit window reassembling : ℕ) → List Frame → Partial → Option (List ℕ × ℕ)
take_frames limit window held [] p = none
take_frames limit window held (f ∷ fs) p =
    let p1 = add_chunk window f.data_bytes p in
    take_frame window held f p (take_frames limit window ((held - p.charged) + p1.charged) fs p1)
      (overrun limit window held (length f.data_bytes) p)

-- A message of which `n` bytes are still to come keeps within what it may hold.
pub record IsAllowed (limit window held n : ℕ) (p : Partial) : Type 0 where
  pub in_room : p.has_room ≡ true → (p.bytes + n + p.owed) ≤ window
  pub in_cap : ((held - p.charged) + charge window n p) ≤ limit
  pub counted : p.charged ≤ held

overrun-none :
    (limit window held n size : ℕ) (p : Partial)
    → size ≤ n
    → IsAllowed limit window held n p
    → overrun limit window held size p ≡ none
unfolding overrun charge
overrun-none limit window held n size p le a = ground (arith, le, a.in_room, a.in_cap)

charge-add_chunk :
    (window n : ℕ) (chunk : List ℕ) (p : Partial)
    → charge window n (add_chunk window chunk p) ≡ charge window (length chunk + n) p
unfolding charge add_chunk
charge-add_chunk window n chunk p = ground arith

add_chunk-IsAllowed :
    (limit window held n : ℕ) (chunk : List ℕ) (p : Partial)
    → IsAllowed limit window held (length chunk + n) p
    → IsAllowed limit window
        ((held - p.charged) + (add_chunk window chunk p).charged)
        n
        (add_chunk window chunk p)
unfolding add_chunk
add_chunk-IsAllowed limit window held n chunk p a = record {
  in_room = λ h. omega (arith, a.in_room h);
  in_cap = omega (arith, a.in_cap, charge-add_chunk window n chunk p);
  counted = omega arith;
}

join-append : (xs : List (List ℕ)) (y : List ℕ) → join (xs ++ (y ∷ [])) ≡ join xs ++ y
join-append [] y = append-nil y
join-append (x ∷ xs) y = ap (λ r. x ++ r) (join-append xs y) ∙ sym (append_assoc x (join xs) y)

cut_length : (n : ℕ) (bytes : List ℕ) → length bytes ≡ length (take n bytes) + length (drop n bytes)
cut_length n bytes =
    ap length (sym (take-append-drop n bytes)) ∙ length-append (take n bytes) (drop n bytes)

not_empty : (bytes : List ℕ) → 1 ≤ length bytes → (length bytes == 0) ≡ false
not_empty bytes h = ground (arith, h)

module _ (limit window : ℕ) where
  take_frames-last :
      (held : ℕ) (bytes : List ℕ) (p : Partial)
      → IsAllowed limit window held (length bytes) p
      → take_frames limit window held (record { data_bytes = bytes; last = true } ∷ []) p
        ≡ some (join p.chunks ++ bytes, held - p.charged)
  unfolding take_frames add_chunk
  take_frames-last held bytes p a =
      rw
        (
          overrun-none limit window held (length bytes) (length bytes) p (omega arith) a,
          join-append p.chunks bytes,
        )
        refl

  take_frames-more :
      (held n : ℕ) (chunk : List ℕ) (fs : List Frame) (p : Partial)
      → IsAllowed limit window held (length chunk + n) p
      → take_frames limit window held (record { data_bytes = chunk; last = false } ∷ fs) p
        ≡ take_frames limit window
            ((held - p.charged) + (add_chunk window chunk p).charged)
            fs
            (add_chunk window chunk p)
  unfolding take_frames
  take_frames-more held n chunk fs p a =
      rw (overrun-none limit window held (length chunk + n) (length chunk) p (omega arith) a) refl

  joined :
      (n held : ℕ) (bytes : List ℕ) (p : Partial)
      → ◌≡◌ {A = Option (List ℕ × ℕ)}
          (some (
            join (add_chunk window (take n bytes) p).chunks ++ drop n bytes,
            ((held - p.charged) + (add_chunk window (take n bytes) p).charged)
                - (add_chunk window (take n bytes) p).charged,
          ))
          (some (join p.chunks ++ bytes, held - p.charged))
  unfolding add_chunk
  joined n held bytes p =
      ap₂ (λ (b : List ℕ) (h : ℕ). some (b, h))
        (ap (λ j. j ++ drop n bytes) (join-append p.chunks (take n bytes))
          ∙ append_assoc (join p.chunks) (take n bytes) (drop n bytes)
          ∙ ap (λ b. join p.chunks ++ b) (take-append-drop n bytes))
        (omega arith)

  take_frames-split_from :
      (fuel frame_size held : ℕ) (bytes : List ℕ) (p : Partial)
      → 1 ≤ frame_size
      → 1 ≤ length bytes
      → length bytes ≤ fuel
      → IsAllowed limit window held (length bytes) p
      → take_frames limit window held (split_from fuel frame_size bytes) p
        ≡ some (join p.chunks ++ bytes, held - p.charged)
  unfolding split_from
  take_frames-split_from zero n held bytes p n1 b1 f a = ground arith
  take_frames-split_from (suc fuel) n held bytes p n1 b1 f a =
      elim (Bool-cases (leb (length bytes) n)) [
        | inl whole ↦ rw (not_empty bytes b1, whole) (take_frames-last held bytes p a)
        | inr longer ↦
            rw (not_empty bytes b1, longer)
              (let more = lt_of_leb (length bytes) n longer in
                let a1 = subst (λ k. IsAllowed limit window held k p) (cut_length n bytes) a in
                take_frames-more held (length (drop n bytes)) (take n bytes)
                  (split_from fuel n (drop n bytes)) p a1
                ∙ take_frames-split_from fuel n
                    ((held - p.charged) + (add_chunk window (take n bytes) p).charged)
                    (drop n bytes) (add_chunk window (take n bytes) p) n1
                    (omega (arith, length-drop n bytes, more))
                    (omega (arith, length-drop n bytes, more, n1, f))
                    (add_chunk-IsAllowed limit window held (length (drop n bytes)) (take n bytes) p
                      a1)
                ∙ joined n held bytes p)
      ]

-- The frames that one end splits a message into are, taken by the other end one after another, the message
-- itself, and the bytes counted in `reassembling` are back to what they were, where the message fits what the
-- window left, or, where nothing was owed, passes the window by no more than `maxReassembledBytes` leaves.
pub take_frames-split_frames :
    (limit reassembling frame_size : ℕ) (bytes : List ℕ) (c : Credit)
    → 1 ≤ frame_size
    → 1 ≤ length bytes
    → (1 ≤ (c.unconsumed + c.to_grant) → (length bytes + c.unconsumed + c.to_grant) ≤ c.window)
    → ((c.unconsumed + c.to_grant) ≡ 0 → (reassembling + (length bytes - c.window)) ≤ limit)
    → reassembling ≤ limit
    → take_frames limit c.window reassembling (split_frames frame_size bytes) (begin_partial c)
      ≡ some (bytes, reassembling)
unfolding split_frames begin_partial charge
take_frames-split_frames limit held n bytes c n1 b1 fits alone below =
    take_frames-split_from limit c.window (length bytes) n held bytes (begin_partial c) n1 b1
      (omega arith)
      (record {
        in_room = λ h. ground (arith, fits, h);
        in_cap = ground (arith, alone, below);
        counted = omega arith;
      })
    ∙ ap (λ h. some (bytes, h)) (omega arith)
