-- ===== src/Streams/Mux/Bounds.antt =====
-- The bounds of a mux: streams, buffered bytes, and a closed mux that holds nothing.
pub mod Holding
pub mod Sending
pub mod Receiving
pub mod Reach
use webrun_wire.Common.{
  ℕ, zero, suc, ◌+◌, ◌-◌, ◌≤◌, ◌<◌, ◌≡◌, ◌⊎◌, inl, inr, refl, arith, List, [], ◌∷◌, ◌++◌, All,
}
use webrun_wire.Common.{
  Option, none, some, Bool, true, false, not, ◌&&◌, ◌||◌, length, get_elem?, if◌then◌else◌,
}
use webrun_wire.Streams.Mux.State.{
  Config, Stream, Mux, Error, send_frame, set_object, teardown_stream, release_if_complete,
}
use webrun_wire.Streams.Mux.State.{
  close_stream, teardown_all, fail_all, create_stream, insert, delete, new_mux,
}
use webrun_wire.Streams.Mux.Outbound.{
  save, pump_failed, pump_reserve, pump_chunk, pump_resume, handler_done, pump_end,
}
use webrun_wire.Streams.Mux.Outbound.{run_handler, call, serve, unserve, close}
use webrun_wire.Common.{Bool-cases, ◌∙◌, min}
use webrun_wire.Streams.Queue.{Slot, value, done_slot, Queue}
use webrun_wire.Streams.Credit.Ledger
use webrun_wire.Streams.Credit.Ledger.{Ledger, Settled, resolved, rejected}
use webrun_wire.Streams.Mux.Frame.{type_error, type_close, type_end, type_data, type_open, type_ack}
use webrun_wire.Streams.Mux.State.{reservation_refused, Pump, pulling, stopped, reserving, granted}
use webrun_wire.Streams.Mux.Outbound.{after_reserve}
use webrun_wire.Streams.Mux.Inbound.{
  on_open, settle, settle_all, on_data, on_end, on_stream_frame, handle_frame,
}
use webrun_wire.Streams.Mux.Inbound.{with_stream, on_cancel, consumer_next, consumer_return}

-- The bytes of the chunks that wait in a queue, and of the one that its consumer has taken last.
abbrev pub held_slots : List (Slot Error) → ℕ
held_slots [] = 0
held_slots (value chunk ∷ slots) = length chunk + held_slots slots
held_slots (done_slot e ∷ slots) = held_slots slots

abbrev pub held_taken : Option (List ℕ) → ℕ
held_taken none = 0
held_taken (some chunk) = length chunk

abbrev pub held : Queue Error → ℕ
held q = held_slots q.slots + held_taken q.taken

module _ (c : Config) where
  -- The chunks that a stream holds for its consumer are counted, and they are no more bytes than the buffer
  -- allows; or the stream is torn down.
  abbrev pub Fits : Stream → Type 0
  Fits s =
      (s.closed ≡ true)
      ⊎ ((held s.inbound ≤ s.queued_bytes) × (s.queued_bytes ≤ c.max_stream_buffer))

  pub record IsValid (m : Mux) : Type 0 where
    pub size : length m.table ≤ c.max_streams
    pub shut : (m.mux_closed ≡ false) ⊎ (m.table ≡ [])
    pub fits : All Fits m.objects

  All-set_object :
      (ref : ℕ) (s : Stream) (xs : List Stream)
      → Fits s
      → All Fits xs
      → All Fits (set_object ref s xs)
  unfolding set_object
  All-set_object ref s [] h k = tt
  All-set_object zero s (x ∷ xs) h k = (h, k.1)
  All-set_object (suc ref) s (x ∷ xs) h k = (k.0, All-set_object ref s xs h k.1)

  All-snoc : (xs : List Stream) (s : Stream) → All Fits xs → Fits s → All Fits (xs ++ (s ∷ []))
  All-snoc [] s k h = (h, tt)
  All-snoc (x ∷ xs) s k h = (k.0, All-snoc xs s k.1 h)

  All-get_elem? :
      (xs : List Stream) (ref : ℕ) {s : Stream} → All Fits xs → get_elem? xs ref ≡ some s → Fits s
  All-get_elem? [] ref k e = cc
  All-get_elem? (x ∷ xs) zero k e = ground (arith, k.0)
  All-get_elem? (x ∷ xs) (suc ref) k e = All-get_elem? xs ref k.1 e

length-delete : (id : ℕ) (t : List (ℕ × ℕ)) → length (delete id t) ≤ length t
unfolding delete
length-delete id [] = omega arith
length-delete id ((i, r) ∷ t) = ground (arith, length-delete id t)

length-insert : (id ref : ℕ) (t : List (ℕ × ℕ)) → length (insert id ref t) ≤ suc (length t)
unfolding insert
length-insert id ref [] = omega arith
length-insert id ref ((i, r) ∷ t) = ground (arith, length-insert id ref t)

delete-nil : (id : ℕ) {t : List (ℕ × ℕ)} → t ≡ [] → delete id t ≡ []
unfolding delete
delete-nil id e = rw e

module _ (c : Config) where
  send_frame-IsValid :
      (id k : ℕ) (p : List ℕ) {m : Mux} → IsValid c m → IsValid c (send_frame id k p m)
  unfolding send_frame
  send_frame-IsValid id k p v = ground arith

  save-IsValid :
      (ref : ℕ) (s : Stream) {m : Mux} → Fits c s → IsValid c m → IsValid c (save ref s m)
  save-IsValid ref s {m} h v = ground (arith, All-set_object c ref s m.objects h v.fits)

  teardown_stream-IsValid :
      (ref : ℕ) (e : Option Error) (s : Stream) {m : Mux}
      → IsValid c m
      → IsValid c (teardown_stream ref e s m)
  unfolding teardown_stream
  teardown_stream-IsValid ref e s {m} v = ground (
    arith,
    All-set_object c ref (close_stream e s) m.objects (inl refl) v.fits,
    length-delete s.id m.table,
    delete-nil s.id {t = m.table},
  )

  teardown_stream-Fits :
      (ref : ℕ) (e : Option Error) (s : Stream) (m : Mux)
      → All (Fits c) m.objects
      → All (Fits c) (teardown_stream ref e s m).objects
  unfolding teardown_stream
  teardown_stream-Fits ref e s m k =
      ground (arith, k, All-set_object c ref (close_stream e s) m.objects (inl refl) k)

  release_if_complete-IsValid :
      (ref : ℕ) (s : Stream) {m : Mux}
      → Fits c s
      → IsValid c m
      → IsValid c (release_if_complete ref s m)
  unfolding release_if_complete
  release_if_complete-IsValid ref s {m} h v = ground (
    arith,
    All-set_object c ref s m.objects h v.fits,
    All-set_object c ref (record s { closed = true }) m.objects (inl refl) v.fits,
    length-delete s.id m.table,
    delete-nil s.id {t = m.table},
  )

  -- A new stream, where there is room for it.
  added-IsValid :
      (id : ℕ) (s : Stream) (m m' : Mux)
      → length m.table < c.max_streams
      → m.mux_closed ≡ false
      → Fits c s
      → m'.objects ≡ m.objects ++ (s ∷ [])
      → m'.table ≡ insert id (length m.objects) m.table
      → m'.mux_closed ≡ m.mux_closed
      → IsValid c m
      → IsValid c m'
  added-IsValid id s m m' room running h eo et em v = record {
    size = rw et (omega (arith, length-insert id (length m.objects) m.table));
    shut = inl (em ∙ running);
    fits = rw eo (All-snoc c m.objects s v.fits h);
  }
