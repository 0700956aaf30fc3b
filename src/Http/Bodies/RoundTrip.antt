-- ===== src/Http/Bodies/RoundTrip.antt =====
-- `emitBody` and `readBody` together.
use webrun_wire.Common.{
  ℕ, zero, suc, ◌+◌, ◌-◌, ◌≤◌, ◌<◌, ◌≡◌, refl, sym, ap, ◌∙◌, arith, List, [], ◌∷◌, ◌++◌,
}
use webrun_wire.Common.{
  Option, none, some, length, length-append, append-nil, subst, Bool, true, false, Bool-cases, inl,
  inr,
}
use webrun_wire.Common.{◌==◌, ltb, if◌then◌else◌, Option-cases}
use webrun_wire.Http.Bytes.{
  Reader, new_reader, ok, err, buffered_length, read_some, chunk_truncated, body_exceeds_length,
}
use webrun_wire.Http.Bytes.Lines.{concat, remaining}
use webrun_wire.Http.Headers.{BodyFraming, chunked, body_length}
use webrun_wire.Http.Chunked.{read_data, encode_chunked, yield_first}
use webrun_wire.Http.Chunked.RoundTrip.{
  Gives, IsSized, read_data-Gives, and_then-Gives, decode_chunked-Gives,
}
use webrun_wire.Http.Bodies.{
  Emits, emit_first, emit_declared, emit_body, no_buffered_bytes, read_length, read_body,
}

chunk_out :
    (over : Bool) (sent declared : ℕ) (chunk : List ℕ) (body : List (List ℕ)) (rest : Emits)
    → (if over then ([], some body_exceeds_length) else emit_first chunk rest).1 ≡ none
    → (rest.1 ≡ none
        → (concat rest.0 ≡ concat body) × (sent + length chunk + length (concat body) ≡ declared))
    → (concat (if over then ([], some body_exceeds_length) else emit_first chunk rest).0
        ≡ chunk ++ concat body)
      × (sent + length (chunk ++ concat body) ≡ declared)
chunk_out true sent declared chunk body rest h later = absurd (ground (arith, h))
chunk_out false sent declared chunk body rest h later =
    let l = later h in
    (ap (λ x. chunk ++ x) l.0, omega (arith, l.1, length-append chunk (concat body)))

-- A declared body that went out without an error is all of it, and of the length that was declared.
emit_declared_lem :
    (sent declared : ℕ) (body : List (List ℕ))
    → (emit_declared sent declared body).1 ≡ none
    → (concat (emit_declared sent declared body).0 ≡ concat body)
      × (sent + length (concat body) ≡ declared)
unfolding emit_declared
emit_declared_lem sent declared [] h = elim (Bool-cases (sent == declared)) [
  | inl e ↦ rw e (refl, ground (arith, e))
  | inr n ↦ absurd (grind (arith, h, n))
]
emit_declared_lem sent declared ([] ∷ body) h = emit_declared_lem sent declared body h
emit_declared_lem sent declared ((b ∷ bytes) ∷ body) h =
    chunk_out (ltb declared (sent + length (b ∷ bytes))) sent declared (b ∷ bytes) body
      (emit_declared (sent + length (b ∷ bytes)) declared body) h
      (emit_declared_lem (sent + length (b ∷ bytes)) declared body)

data_none :
    (fuel n : ℕ) (r : Reader)
    → read_some (suc n) r ≡ none
    → read_data (suc fuel) (suc n) r ≡ ([], err chunk_truncated)
unfolding read_data
data_none fuel n r e = rw (read_data, e) refl

data_some :
    (fuel n : ℕ) (r : Reader) (p : List ℕ × Reader)
    → read_some (suc n) r ≡ some p
    → read_data (suc fuel) (suc n) r ≡ yield_first p.0 (read_data fuel (suc n - length p.0) p.1)
unfolding read_data
data_some fuel n r p e = rw (read_data, e) refl

length-some :
    (fuel n : ℕ) (r : Reader) (p : List ℕ × Reader)
    → read_some (suc n) r ≡ some p
    → read_length (suc fuel) (suc n) r ≡ yield_first p.0 (read_length fuel (suc n - length p.0) p.1)
unfolding read_length
length-some fuel n r p e = rw (read_length, e) refl

-- As long as `read_data` does not fail, `read_length` does what it does.
read_length-read_data :
    (fuel n : ℕ) (r left : Reader)
    → (read_data fuel n r).1 ≡ ok left
    → read_length fuel n r ≡ read_data fuel n r
unfolding read_length read_data
read_length-read_data fuel zero r left h = refl
read_length-read_data zero (suc n) r left h = ground (arith, h)
read_length-read_data (suc fuel) (suc n) r left h = elim (Option-cases (read_some (suc n) r)) [
  | inl e ↦ absurd (ground (arith, sym h ∙ ap (λ y. y.1) (data_none fuel n r e)))
  | inr (p, e) ↦
      length-some fuel n r p e
      ∙ ap (yield_first p.0) (
          read_length-read_data fuel (suc n - length p.0) p.1 left
            (sym (ap (λ y. y.1) (data_some fuel n r p e)) ∙ h))
      ∙ sym (data_some fuel n r p e)
]

read_length-Gives :
    (n : ℕ) (r : Reader) (bytes : List ℕ)
    → length bytes ≡ n
    → remaining r ≡ bytes ++ []
    → Gives (read_length n n r) bytes []
read_length-Gives n r bytes l e =
    let g = read_data-Gives n n r bytes [] (omega arith) l e in
    subst (λ y. Gives y bytes []) (sym (read_length-read_data n n r g.left g.ends)) g

no_buffered_bytes-Gives : (r : Reader) → remaining r ≡ [] → Gives (no_buffered_bytes r) [] []
unfolding no_buffered_bytes
no_buffered_bytes-Gives r e =
    rw empty (record { left = r; ends = refl; data_bytes = refl; behind = e })
  where
    empty : (buffered_length r == 0) ≡ true
    empty = ground (arith, ap length e, length-append r.buf (concat r.source))

-- How `encodeRequest` and `encodeResponse` frame a body.
abbrev pub framing_of : Option ℕ → BodyFraming
framing_of none = chunked
framing_of (some declared) = body_length declared

-- A body that `emitBody` has written without an error, with its length declared or in chunks below 2^53 bytes, is read
-- back by `readBody` as the same bytes, however what was written is cut into chunks on the way, where nothing
-- follows it and lines of 15 bytes are allowed: it does not fail, and nothing is left.
pub read_body-emit_body :
    (fuel max_bytes : ℕ) (to_end : Bool) (body input : List (List ℕ)) (declared : Option ℕ)
    → length body < fuel
    → 15 ≤ max_bytes
    → IsSized body
    → (emit_body body declared).1 ≡ none
    → concat input ≡ concat (emit_body body declared).0
    → (left : Reader) × ((read_body fuel max_bytes
          (framing_of declared)
          to_end
          (new_reader input)).1
        ≡ ok left)
      × (concat (read_body fuel max_bytes (framing_of declared) to_end (new_reader input)).0
          ≡ concat body)
      × (remaining left ≡ [])
unfolding emit_body read_body
read_body-emit_body fuel max_bytes to_end body input none f l s o e =
    let g =
      and_then-Gives _ no_buffered_bytes (concat body) [] [] []
        (decode_chunked-Gives fuel max_bytes body (new_reader input) [] f l s
          (e ∙ sym (append-nil (concat (encode_chunked body)))))
        no_buffered_bytes-Gives in
    (g.left, g.ends, g.data_bytes ∙ append-nil (concat body), g.behind)
read_body-emit_body fuel max_bytes to_end body input (some n) f l s o e =
    let sent = emit_declared_lem 0 n body o in
    let g =
      and_then-Gives (read_length n n (new_reader input)) no_buffered_bytes (concat body) [] [] []
        (read_length-Gives n (new_reader input) (concat body) (omega (arith, sent.1))
          (e ∙ sent.0 ∙ sym (append-nil (concat body))))
        no_buffered_bytes-Gives in
    (g.left, g.ends, g.data_bytes ∙ append-nil (concat body), g.behind)
