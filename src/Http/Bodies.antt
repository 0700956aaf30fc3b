-- ===== src/Http/Bodies.antt =====
-- The bodies of messages in packages/webrun-http-streams/src/http1: `emitBody` of encode.ts and `readBody` of
-- decode.ts. What a generator yields stands beside how it ends.
use webrun_wire.Common.{ℕ, zero, suc, ◌+◌, ◌-◌, List, [], ◌∷◌, length, Option, none, some}
use webrun_wire.Common.{◌==◌, ltb, Bool, true, false, if◌then◌else◌}
use webrun_wire.Http.Bytes.{Error, Result, ok, err, Reader, read_some, read_rest, buffered_length}
use webrun_wire.Http.Bytes.{
  body_exceeds_length, body_below_length, body_truncated, trailing_bytes, out_of_fuel,
}
use webrun_wire.Http.Headers.{BodyFraming, chunked, no_body, body_length}
use webrun_wire.Http.Chunked.{encode_chunked, decode_chunked, Yields, yield_first, and_then}
pub mod RoundTrip

-- What an encoder yields, and the error that it throws then, if it does.
abbrev pub Emits : Type 0
Emits = List (List ℕ) × Option Error

abbrev pub emit_first : List ℕ → Emits → Emits
emit_first chunk e = (chunk ∷ e.0, e.1)

-- The loop of `emitBody` over a body whose length is declared; `sent` counts the bytes that went out.
unfoldable pub emit_declared : (sent declared : ℕ) → List (List ℕ) → Emits
emit_declared sent declared [] =
    if sent == declared then ([], none) else ([], some body_below_length)
emit_declared sent declared ([] ∷ body) = emit_declared sent declared body
emit_declared sent declared ((b ∷ bytes) ∷ body) =
    let rest = emit_declared (sent + length (b ∷ bytes)) declared body in
    if ltb declared (sent + length (b ∷ bytes))
    then ([], some body_exceeds_length)
    else emit_first (b ∷ bytes) rest

unfoldable pub emit_body : List (List ℕ) → Option ℕ → Emits
emit_body body none = (encode_chunked body, none)
emit_body body (some declared) = emit_declared 0 declared body

-- `assertNoBufferedBytes`.
unfoldable pub no_buffered_bytes : Reader → Yields
no_buffered_bytes r = if buffered_length r == 0 then ([], ok r) else ([], err trailing_bytes)

-- The loop of `readBody` over a body of a known length, on fuel: each round takes at least one byte.
unfoldable pub read_length : ℕ → (remaining : ℕ) → Reader → Yields
read_length fuel zero r = ([], ok r)
read_length zero (suc remaining) r = ([], err out_of_fuel)
read_length (suc fuel) (suc remaining) r = elim (read_some (suc remaining) r) [
  | none ↦ ([], err body_truncated)
  | some p ↦ yield_first p.0 (read_length fuel (suc remaining - length p.0) p.1)
]

-- `readBody`, on fuel for a chunked one. `to_end` says that a body without a framing lasts until the end of the
-- stream.
unfoldable pub read_body :
    (fuel max_header_bytes : ℕ) → BodyFraming → (to_end : Bool) → Reader → Yields
read_body fuel max_bytes chunked to_end r =
    and_then (decode_chunked fuel max_bytes r) no_buffered_bytes
read_body fuel max_bytes (body_length n) to_end r = and_then (read_length n n r) no_buffered_bytes
read_body fuel max_bytes no_body to_end r =
    if to_end then (read_rest r, ok (record { buf = []; source = [] })) else no_buffered_bytes r
