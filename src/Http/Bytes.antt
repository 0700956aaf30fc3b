-- ===== src/Http/Bytes.antt =====
-- packages/webrun-http-streams/src/bytes.ts, `ByteReader`. The chunks that the source has still to give
-- are a list, whose end is the end of the stream; that a source fails is not modelled.
use webrun_wire.Common.{ℕ, suc, ◌-◌, List, [], ◌∷◌, ◌++◌, length, take, drop, min}
use webrun_wire.Common.{Option, none, some, Bool, true, false, ◌==◌, ltb, if◌then◌else◌}
pub mod Lines

-- The errors of `ByteReader`, and those of the parser.
pub data Error : Type 0 where
  bare_lf line_too_long no_crlf : Error
  head_too_long obs_fold malformed_header invalid_name invalid_value : Error
  conflicting_length invalid_length both_framings unsupported_encoding old_version : Error
  invalid_chunk_size chunk_size_too_large trailer_too_long chunk_truncated chunk_not_terminated :
      Error
  invalid_method invalid_target no_target no_authority invalid_host no_host not_latin1 : Error
  body_exceeds_length body_below_length invalid_status invalid_status_text : Error
  malformed_request_line unsupported_version asterisk_form multiple_hosts unsupported_target : Error
  invalid_url malformed_status_line invalid_status_code trailing_bytes body_truncated : Error
  out_of_fuel : Error

pub data Result {ℓ} (A : Type ℓ) : Type ℓ where
  ok : A → Result A
  err : Error → Result A

infixl 5 ◌>>=◌
abbrev pub ◌>>=◌ {ℓ κ} : {A : Type ℓ} {B : Type κ} → Result A → (A → Result B) → Result B
ok a >>= f = f a
err e >>= f = err e

pub record Reader : Type 0 where
  pub buf : List ℕ
  pub source : List (List ℕ)

abbrev pub new_reader : List (List ℕ) → Reader
new_reader input = record { buf = []; source = input }

abbrev pub buffered_length : Reader → ℕ
buffered_length r = length r.buf

abbrev pub cr : ℕ
cr = 0x0d

abbrev pub lf : ℕ
lf = 0x0a

-- The bytes before the first LF and those behind it, where there is one.
unfoldable pub split_lf : List ℕ → Option (List ℕ × List ℕ)
split_lf [] = none
split_lf (b ∷ bytes) =
    let rest = split_lf bytes in
    if b == lf then some ([], bytes) else elim rest [ none ↦ none | some p ↦ some (b ∷ p.0, p.1) ]

-- The line without the CR that it must end in.
unfoldable pub chop_cr : List ℕ → Result (List ℕ)
chop_cr [] = err bare_lf
chop_cr (b ∷ []) = if b == cr then ok [] else err bare_lf
chop_cr (b ∷ c ∷ bytes) = chop_cr (c ∷ bytes) >>= λ line. ok (b ∷ line)

abbrev pub line_of : List ℕ × List ℕ → List (List ℕ) → Result (List ℕ × Reader)
line_of p source = chop_cr p.0 >>= λ line. ok (line, record { buf = p.1; source = source })

-- `readLine`: pull until the buffer holds an LF. The search for it starts anew in each round, over bytes
-- in which there was none before.
unfoldable pub read_line_loop : ℕ → List ℕ → List (List ℕ) → Result (List ℕ × Reader)
read_line_loop max_bytes buf [] = elim (split_lf buf) [
  | some p ↦ line_of p []
  | none ↦ if ltb max_bytes (length buf) then err line_too_long else err no_crlf
]
read_line_loop max_bytes buf (chunk ∷ source) =
    let pulled = read_line_loop max_bytes (buf ++ chunk) source in
    elim (split_lf buf) [
      | some p ↦ line_of p (chunk ∷ source)
      | none ↦ if ltb max_bytes (length buf) then err line_too_long else pulled
    ]

abbrev pub read_line : ℕ → Reader → Result (List ℕ × Reader)
read_line max_bytes r = read_line_loop max_bytes r.buf r.source

-- `readSome`: of a buffer that is empty, pull the next chunk that is not.
unfoldable pub read_some_loop : ℕ → List ℕ → List (List ℕ) → Option (List ℕ × Reader)
read_some_loop max_bytes [] [] = none
read_some_loop max_bytes [] (chunk ∷ source) = read_some_loop max_bytes chunk source
read_some_loop max_bytes (b ∷ bytes) source =
    let n = min max_bytes (length (b ∷ bytes)) in
    some (take n (b ∷ bytes), record { buf = drop n (b ∷ bytes); source = source })

abbrev pub read_some : ℕ → Reader → Option (List ℕ × Reader)
read_some max_bytes r = read_some_loop max_bytes r.buf r.source

-- `rest`: what is buffered, and every chunk that is not empty.
unfoldable pub rest_loop : List ℕ → List (List ℕ) → List (List ℕ)
rest_loop [] [] = []
rest_loop [] (chunk ∷ source) = rest_loop chunk source
rest_loop (b ∷ bytes) [] = (b ∷ bytes) ∷ []
rest_loop (b ∷ bytes) (chunk ∷ source) = (b ∷ bytes) ∷ rest_loop chunk source

unfoldable pub read_rest : Reader → List (List ℕ)
read_rest r = rest_loop r.buf r.source
