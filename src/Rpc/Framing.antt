-- ===== src/Rpc/Framing.antt =====
-- The frames of a large message in `multiplex-port.ts`: how one end splits them off, and how the other puts
-- them together within what the window and `maxReassembledBytes` leave.
use webrun_wire.Common.{
  ℕ, zero, suc, ◌+◌, ◌-◌, List, [], ◌∷◌, ◌++◌, Option, none, some, length, take,
}
use webrun_wire.Common.{drop, Bool, true, false, ◌&&◌, ltb, leb, ◌==◌, if◌then◌else◌}
use webrun_wire.Rpc.Credit.{Credit}
pub mod RoundTrip

pub record Frame : Type 0 where
  pub data_bytes : List ℕ
  pub last : Bool

-- The loop over `at`, on the bytes from `at` on. A frame holds at least one byte, so there are no more
-- frames than bytes.
unfoldable pub split_from : (fuel frame_size : ℕ) → List ℕ → List Frame
split_from zero n bytes = []
split_from (suc fuel) n bytes =
    let rest = split_from fuel n (drop n bytes) in
    if length bytes == 0
    then []
    else if leb (length bytes) n
    then record { data_bytes = bytes; last = true } ∷ []
    else record { data_bytes = take n bytes; last = false } ∷ rest

unfoldable pub split_frames : (frame_size : ℕ) → List ℕ → List Frame
split_frames n bytes = split_from (length bytes) n bytes

-- `Entry.partial`. `has_room` says that `room` is there; it is then the window less `owed`, which the source
-- may leave negative, so that the tests below add `owed` on the other side.
pub record Partial : Type 0 where
  pub chunks : List (List ℕ)
  pub bytes : ℕ
  pub has_room : Bool
  pub owed : ℕ
  pub charged : ℕ

pub data Overrun : Type 0 where
  window_passed cap_passed : Overrun

unfoldable pub begin_partial : Credit → Partial
begin_partial c = record {
  chunks = [];
  bytes = 0;
  has_room = ltb 0 (c.unconsumed + c.to_grant);
  owed = c.unconsumed + c.to_grant;
  charged = 0;
}

unfoldable pub charge : (window size : ℕ) → Partial → ℕ
charge window size p = if p.has_room then 0 else (p.bytes + size) - window

unfoldable pub overrun : (limit window reassembling size : ℕ) → Partial → Option Overrun
overrun limit window reassembling size p =
    if p.has_room && ltb window (p.bytes + size + p.owed)
    then some window_passed
    else if ltb limit ((reassembling - p.charged) + charge window size p)
    then some cap_passed
    else none

unfoldable pub add_chunk : (window : ℕ) → List ℕ → Partial → Partial
add_chunk window chunk p = record p {
  chunks = p.chunks ++ (chunk ∷ []);
  bytes = p.bytes + length chunk;
  charged = charge window (length chunk) p;
}

abbrev pub join : List (List ℕ) → List ℕ
join [] = []
join (chunk ∷ chunks) = chunk ++ join chunks
