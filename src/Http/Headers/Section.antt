-- ===== src/Http/Headers/Section.antt =====
-- `encodeHeaderLines` and `readHeaderSection` together.
use webrun_wire.Common.{
  ℕ, zero, suc, ◌+◌, ◌-◌, ◌≤◌, ◌≡◌, ◌≢◌, refl, sym, ap, ◌∙◌, subst, arith, List, [], ◌∷◌, ◌++◌,
  append_assoc,
}
use webrun_wire.Common.{
  length, length-append, some, true, false, ◌==◌, leb, ltb_of_le, if◌then◌else◌, All,
}
use webrun_wire.Http.Bytes.{Result, ok, err, ◌>>=◌, Reader, lf, read_line}
use webrun_wire.Http.Bytes.Lines.{remaining, IsNotLf, read_line-chunks}
use webrun_wire.Http.Headers.{
  sp, colon, all_of, is_tchar, is_token, is_value_char, is_value, Headers, crlf,
  encode_header_lines,
}
use webrun_wire.Http.Headers.{
  split_colon, is_blank, trim_left, trim_right, parse_line, read_header_section, read_headers,
}

-- The headers that `encode_header_lines` takes, with values that do not begin or end in blanks.
abbrev pub AreHeaders : Headers → Type 0
AreHeaders [] = Unit {0}
AreHeaders ((name, value) ∷ hs) =
    (is_token name ≡ true)
    × (is_value value ≡ true)
    × (trim_right (trim_left value) ≡ value)
    × AreHeaders hs

abbrev line_of_header : List ℕ → List ℕ → List ℕ
line_of_header name value = name ++ (colon ∷ sp ∷ value)

tchar_lem : (c : ℕ) → is_tchar c ≡ true → ((c == colon) ≡ false) × (is_blank c ≡ false) × (c ≢ lf)
unfolding is_tchar
tchar_lem c h = (ground arith, ground arith, λ e. ground (arith, e))

split_colon-append :
    (name rest : List ℕ)
    → all_of is_tchar name ≡ true
    → split_colon (name ++ (colon ∷ rest)) ≡ some (name, rest)
unfolding split_colon
split_colon-append [] rest h = refl
split_colon-append (c ∷ name) rest h =
    rw ((tchar_lem c (ground arith)).0, split_colon-append name rest (ground arith)) refl

parse_line-header :
    (name value : List ℕ)
    → is_token name ≡ true
    → is_value value ≡ true
    → trim_right (trim_left value) ≡ value
    → parse_line (line_of_header name value) ≡ ok (name, value)
unfolding parse_line is_token
parse_line-header [] value n v t = absurd (ground arith)
parse_line-header (c ∷ name) value n v t =
    rw ((tchar_lem c (ground arith)).1, split_colon-append (c ∷ name) (sp ∷ value) n)
      (rw (n, blank) (rw (t, v) refl))
  where
    blank : trim_left (sp ∷ value) ≡ trim_left value
    blank = unfold trim_left in refl

value_no_lf : (value : List ℕ) → is_value value ≡ true → All IsNotLf value
unfolding is_value is_value_char
value_no_lf [] h = tt
value_no_lf (c ∷ value) h = (λ e. ground (arith, e), value_no_lf value (ground arith))

name_no_lf : (name : List ℕ) → all_of is_tchar name ≡ true → All IsNotLf name
name_no_lf [] h = tt
name_no_lf (c ∷ name) h = ((tchar_lem c (ground arith)).2, name_no_lf name (ground arith))

abbrev lines_of : Headers → List ℕ
lines_of [] = []
lines_of ((name, value) ∷ hs) = (line_of_header name value ++ crlf) ++ lines_of hs

encode_header_lines-lines_of :
    (hs : Headers) → AreHeaders hs → encode_header_lines hs ≡ ok (lines_of hs)
unfolding encode_header_lines
encode_header_lines-lines_of [] h = refl
encode_header_lines-lines_of ((name, value) ∷ hs) (n, v, t, h) =
    rw (n, v, encode_header_lines-lines_of hs h) refl

-- The headers, and the bytes behind the section.
abbrev pub ReadsSection : Result (Headers × Reader) → Headers → List ℕ → Type 0
ReadsSection result hs rest = (left : Reader) × (result ≡ ok (hs, left)) × (remaining left ≡ rest)

header_no_lf :
    (name value : List ℕ)
    → is_token name ≡ true
    → is_value value ≡ true
    → All IsNotLf (line_of_header name value)
unfolding is_token
header_no_lf [] value n v = absurd (ground arith)
header_no_lf (c ∷ name) value n v = go (c ∷ name) (name_no_lf (c ∷ name) n)
  where
    go : (xs : List ℕ) → All IsNotLf xs → All IsNotLf (xs ++ (colon ∷ sp ∷ value))
    go [] h = (λ e. omega (arith, e), (λ e. omega (arith, e), value_no_lf value v))
    go (x ∷ xs) h = (h.0, go xs h.1)

header_pos : (name value : List ℕ) → 2 ≤ length (line_of_header name value)
header_pos name value = omega (arith, length-append name (colon ∷ sp ∷ value))

after_line : ℕ → (max_bytes used : ℕ) → List ℕ → Reader → Result (Headers × Reader)
after_line fuel max_bytes used line left =
    if leb (length line) 0
    then ok ([], left)
    else parse_line line >>= λ h.
        read_header_section fuel max_bytes (used + (length line + 2)) left >>= λ q.
        ok (h ∷ q.0, q.1)

after_more :
    (fuel max_bytes used : ℕ) (name value : List ℕ) (hs : Headers) (left last : Reader)
    → leb (length (line_of_header name value)) 0 ≡ false
    → parse_line (line_of_header name value) ≡ ok (name, value)
    → read_header_section fuel max_bytes (used + (length (line_of_header name value) + 2)) left
      ≡ ok (hs, last)
    → after_line fuel max_bytes used (line_of_header name value) left
      ≡ ok ((name, value) ∷ hs, last)
unfolding after_line
after_more fuel max_bytes used name value hs left last e f g = rw (e, f, g) refl

one_round :
    (fuel max_bytes used : ℕ) (r left : Reader) (line : List ℕ)
    → read_line (max_bytes - used) r ≡ ok (line, left)
    → used + (length line + 2) ≤ max_bytes
    → read_header_section (suc fuel) max_bytes used r ≡ after_line fuel max_bytes used line left
unfolding read_header_section after_line
one_round fuel max_bytes used r left line e le =
    rw (below, e, ltb_of_le max_bytes (used + (length line + 2)) le) refl
  where
    below : leb max_bytes used ≡ false
    below = ground arith

size_lem :
    (name value : List ℕ) (hs : Headers)
    → length (lines_of ((name, value) ∷ hs))
      ≡ length (line_of_header name value) + 2 + length (lines_of hs)
size_lem name value hs = omega (
  arith,
  length-append (line_of_header name value ++ crlf) (lines_of hs),
  length-append (line_of_header name value) crlf,
)

not_empty : (name value : List ℕ) → leb (length (line_of_header name value)) 0 ≡ false
not_empty name value = ground (arith, header_pos name value)

section_lem :
    (hs : Headers) (fuel max_bytes used : ℕ) (r : Reader) (rest : List ℕ)
    → AreHeaders hs
    → remaining r ≡ lines_of hs ++ (crlf ++ rest)
    → used + (length (lines_of hs) + 2) ≤ max_bytes
    → length hs ≤ fuel
    → ReadsSection (read_header_section (suc fuel) max_bytes used r) hs rest
section_lem [] fuel max_bytes used r rest h bytes le enough =
    let p = read_line-chunks (max_bytes - used) r [] rest tt bytes (omega (arith, le)) in
    (p.0, one_round fuel max_bytes used r p.0 [] p.1 le ∙ (unfold after_line in refl), p.2)
section_lem ((name, value) ∷ hs) zero max_bytes used r rest (n, v, t, h) bytes le enough =
    absurd (omega (arith, enough))
section_lem ((name, value) ∷ hs) (suc fuel) max_bytes used r rest (n, v, t, h) bytes le enough =
    let line = line_of_header name value in
    let more = lines_of hs ++ (crlf ++ rest) in
    let p =
      read_line-chunks (max_bytes - used) r line more (header_no_lf name value n v)
        (bytes
          ∙ append_assoc (line ++ crlf) (lines_of hs) (crlf ++ rest)
          ∙ append_assoc line crlf more)
        (omega (arith, le, size_lem name value hs)) in
    let q =
      section_lem hs fuel max_bytes (used + (length line + 2)) p.0 rest h p.2
        (omega (arith, le, size_lem name value hs)) (omega (arith, enough)) in
    (
      q.0,
      one_round (suc fuel) max_bytes used r p.0 line p.1 (omega (arith, le, size_lem name value hs))
          ∙ after_more (suc fuel) max_bytes used name value hs p.0 q.0 (not_empty name value)
              (parse_line-header name value n v t) q.1,
      q.2,
    )

headers_fit : (hs : Headers) → length hs ≤ length (lines_of hs)
headers_fit [] = omega arith
headers_fit ((name, value) ∷ hs) = omega (arith, size_lem name value hs, headers_fit hs)

-- For headers whose names are tokens, and whose values have no control characters and neither begin nor
-- end in blanks: when the lines that `encodeHeaderLines` writes for them, a blank line and other bytes are
-- what a reader has still to give, cut into chunks in any way, and the lines fit the bound with what was
-- used before, then `readHeaderSection` gives the headers back and leaves the other bytes.
pub read_headers-encode_header_lines :
    (hs : Headers) (max_bytes used : ℕ) (r : Reader) (bytes rest : List ℕ)
    → AreHeaders hs
    → encode_header_lines hs ≡ ok bytes
    → remaining r ≡ bytes ++ (crlf ++ rest)
    → used + (length bytes + 2) ≤ max_bytes
    → ReadsSection (read_headers max_bytes used r) hs rest
unfolding read_headers
read_headers-encode_header_lines hs max_bytes used r bytes rest h e wire le =
    section_lem hs max_bytes max_bytes used r rest h
      (wire ∙ ap (λ (b : List ℕ). b ++ (crlf ++ rest)) same)
      (subst (λ (b : List ℕ). used + (length b + 2) ≤ max_bytes) same le)
      (omega (arith, headers_fit hs, ap length same, le))
  where
    same : bytes ≡ lines_of hs
    same =
        ap (λ (o : Result (List ℕ)). elim o [ ok b ↦ b | err x ↦ bytes ])
          (sym e ∙ encode_header_lines-lines_of hs h)
