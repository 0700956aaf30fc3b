-- ===== src/Http/Bytes/Lines.antt =====
-- `readLine` on bytes that are cut into chunks.
use webrun_wire.Common.{
  ℕ, ◌+◌, ◌≤◌, ◌≡◌, ◌≢◌, refl, sym, ap, ◌∙◌, subst, arith, List, [], ◌∷◌, ◌++◌, append_assoc,
  append-nil,
}
use webrun_wire.Common.{
  length, length-append, Option, none, some, false, ◌==◌, ltb, ltb_of_le, Bool-cases, Option-cases,
  All, inl, inr,
}
use webrun_wire.Http.Bytes.{ok, Reader, cr, lf, split_lf, chop_cr, read_line_loop, read_line}

-- The bytes of chunks, one behind the other.
abbrev pub concat : List (List ℕ) → List ℕ
concat [] = []
concat (c ∷ cs) = c ++ concat cs

-- The bytes that a reader has still to give.
abbrev pub remaining : Reader → List ℕ
remaining r = r.buf ++ concat r.source

abbrev pub IsNotLf : ℕ → Type 0
IsNotLf b = b ≢ lf

split_lf-append :
    (line rest : List ℕ) → All IsNotLf line → split_lf (line ++ (lf ∷ rest)) ≡ some (line, rest)
unfolding split_lf
split_lf-append [] rest h = refl
split_lf-append (b ∷ line) rest (n, h) = rw (miss, split_lf-append line rest h) refl
  where
    miss : (b == lf) ≡ false
    miss = ground (arith, n)

chop_cr-append : (line : List ℕ) → chop_cr (line ++ (cr ∷ [])) ≡ ok line
unfolding chop_cr
chop_cr-append [] = refl
chop_cr-append (b ∷ []) = refl
chop_cr-append (b ∷ c ∷ line) = rw (chop_cr-append (c ∷ line)) refl

split_lf-more :
    (buf ys line rest : List ℕ)
    → split_lf buf ≡ some (line, rest)
    → split_lf (buf ++ ys) ≡ some (line, rest ++ ys)
unfolding split_lf
split_lf-more [] ys line rest h = absurd (ground arith)
split_lf-more (b ∷ buf) ys line rest h = elim (Bool-cases (b == lf)) [
  | inl hit ↦ (grind arith)
  | inr miss ↦ elim (Option-cases (split_lf buf)) [
    | inl e ↦ absurd (grind arith)
    | inr (p, e) ↦ rw (miss, split_lf-more buf ys p.0 p.1 e) (grind arith)
  ]
]

split_lf-none :
    (buf ys line rest : List ℕ)
    → split_lf buf ≡ none
    → split_lf (buf ++ ys) ≡ some (line, rest)
    → length buf ≤ length line
unfolding split_lf
split_lf-none [] ys line rest n h = omega arith
split_lf-none (b ∷ buf) ys line rest n h = elim (Bool-cases (b == lf)) [
  | inl hit ↦ absurd (grind arith)
  | inr miss ↦ elim (Option-cases (split_lf (buf ++ ys))) [
    | inl e ↦ absurd (grind arith)
    | inr (p, e) ↦ grind (arith, split_lf-none buf ys p.0 p.1)
  ]
]

-- What is read, and what is left.
abbrev pub ReadsLine : ℕ → Reader → List ℕ → List ℕ → Type 0
ReadsLine max_bytes r line rest =
    (left : Reader) × (read_line max_bytes r ≡ ok (line, left)) × (remaining left ≡ rest)

some-pair : {A : Type 0} (a b : A) → some a ≡ some b → a ≡ b
some-pair a b h = ap (λ (o : Option _). elim o [ some x ↦ x | none ↦ a ]) h

loop_lem :
    (source : List (List ℕ)) (max_bytes : ℕ) (buf line rest : List ℕ)
    → split_lf (buf ++ concat source) ≡ some (line ++ (cr ∷ []), rest)
    → length line + 1 ≤ max_bytes
    → ReadsLine max_bytes (record { buf = buf; source = source }) line rest
unfolding read_line_loop
loop_lem [] max_bytes buf line rest h le = (
  record { buf = rest; source = [] },
  rw
      (
        read_line_loop,
        subst (λ (xs : List ℕ). split_lf xs ≡ some (line ++ (cr ∷ []), rest)) (append-nil buf) h,
        chop_cr-append line,
      )
      refl,
  append-nil rest,
)
loop_lem (chunk ∷ source) max_bytes buf line rest h le = elim (Option-cases (split_lf buf)) [
  | inl n ↦ later n (loop_lem source max_bytes (buf ++ chunk) line rest (shifted h) le)
  | inr (p, e) ↦ (
    record { buf = p.1; source = chunk ∷ source },
    rw (read_line_loop, e, now p e, chop_cr-append line) refl,
    ap (λ (q : List ℕ × List ℕ). q.1) (same p e),
  )
]
  where
    same :
        (p : List ℕ × List ℕ)
        → split_lf buf ≡ some p
        → ◌≡◌ {A = List ℕ × List ℕ} (p.0, p.1 ++ concat (chunk ∷ source)) (line ++ (cr ∷ []), rest)
    same p e =
        some-pair (p.0, p.1 ++ concat (chunk ∷ source)) (line ++ (cr ∷ []), rest)
          (sym (split_lf-more buf (concat (chunk ∷ source)) p.0 p.1 e) ∙ h)

    now : (p : List ℕ × List ℕ) → split_lf buf ≡ some p → p.0 ≡ line ++ (cr ∷ [])
    now p e = ap (λ (q : List ℕ × List ℕ). q.0) (same p e)

    short : split_lf buf ≡ none → ltb max_bytes (length buf) ≡ false
    short n = ltb_of_le max_bytes (length buf) (
        omega (
          arith,
          split_lf-none buf (concat (chunk ∷ source)) (line ++ (cr ∷ [])) rest n h,
          length-append line (cr ∷ []),
          le,
        ))

    shifted :
        split_lf (buf ++ concat (chunk ∷ source)) ≡ some (line ++ (cr ∷ []), rest)
        → split_lf ((buf ++ chunk) ++ concat source) ≡ some (line ++ (cr ∷ []), rest)
    shifted e = ap split_lf (append_assoc buf chunk (concat source)) ∙ e

    later :
        split_lf buf ≡ none
        → ReadsLine max_bytes (record { buf = buf ++ chunk; source = source }) line rest
        → ReadsLine max_bytes (record { buf = buf; source = chunk ∷ source }) line rest
    later n (left, e, bytes) = (left, rw (read_line_loop, n, short n) e, bytes)

-- When the bytes that a reader has still to give begin with a line without LF and CRLF, and the bound is
-- above the line's length, then `readLine` gives the line and leaves the bytes behind it, however the
-- bytes are cut into chunks, empty ones included.
pub read_line-chunks :
    (max_bytes : ℕ) (r : Reader) (line rest : List ℕ)
    → All IsNotLf line
    → remaining r ≡ line ++ (cr ∷ lf ∷ rest)
    → length line + 1 ≤ max_bytes
    → ReadsLine max_bytes r line rest
read_line-chunks max_bytes r line rest no_lf bytes le =
    loop_lem r.source max_bytes r.buf line rest
      (ap split_lf (bytes ∙ sym (append_assoc line (cr ∷ []) (lf ∷ rest)))
        ∙ split_lf-append (line ++ (cr ∷ [])) rest (with_cr line no_lf))
      le
  where
    with_cr : (line : List ℕ) → All IsNotLf line → All IsNotLf (line ++ (cr ∷ []))
    with_cr [] h = (λ e. omega (arith, e), tt)
    with_cr (b ∷ line) h = (h.0, with_cr line h.1)
