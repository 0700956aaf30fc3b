-- ===== src/Http/Headers.antt =====
-- packages/webrun-http-streams/src/http1/headers.ts. A string is the list of its code units, and one that
-- was decoded as latin-1 is its bytes. Lower case is that of ASCII letters: the names and words that
-- the code compares with have no others.
use webrun_wire.Common.{ℕ, zero, suc, ◌+◌, ◌-◌, ◌*◌, List, [], ◌∷◌, ◌++◌, map, length}
use webrun_wire.Common.{
  Option, none, some, Bool, true, false, not, ◌&&◌, ◌||◌, ◌==◌, ltb, leb, if◌then◌else◌,
}
use webrun_wire.Http.Bytes.{Error, Result, ok, err, ◌>>=◌, Reader, read_line}
use webrun_wire.Http.Bytes.{head_too_long, obs_fold, malformed_header, invalid_name, invalid_value}
use webrun_wire.Http.Bytes.{
  conflicting_length, invalid_length, both_framings, unsupported_encoding, old_version, out_of_fuel,
}
pub mod Section
pub mod Framing

abbrev pub sp : ℕ
sp = 0x20

abbrev pub htab : ℕ
htab = 0x09

abbrev pub colon : ℕ
colon = 0x3a

abbrev pub comma : ℕ
comma = 0x2c

abbrev pub is_between : ℕ → ℕ → ℕ → Bool
is_between lo hi c = leb lo c && leb c hi

abbrev pub is_digit : ℕ → Bool
is_digit c = is_between 0x30 0x39 c

abbrev pub contains : List ℕ → ℕ → Bool
contains [] c = false
contains (x ∷ xs) c = (x == c) || contains xs c

abbrev punctuation : List ℕ
punctuation =
    0x21 ∷ 0x23 ∷ 0x24 ∷ 0x25 ∷ 0x26 ∷ 0x27 ∷ 0x2a ∷ 0x2b ∷ 0x2d ∷ 0x2e ∷ 0x5e ∷ 0x5f ∷ 0x60 ∷ 0x7c
    ∷ 0x7e ∷ []

-- `TCHAR.has`.
unfoldable pub is_tchar : ℕ → Bool
is_tchar c =
    is_digit c || is_between 0x61 0x7a c || is_between 0x41 0x5a c || contains punctuation c

unfoldable pub is_token_char : ℕ → Bool
is_token_char byte = ltb sp byte && ltb byte 0x7f && is_tchar byte

abbrev pub all_of : (ℕ → Bool) → List ℕ → Bool
all_of p [] = true
all_of p (c ∷ cs) = p c && all_of p cs

unfoldable pub is_token : List ℕ → Bool
is_token [] = false
is_token (c ∷ cs) = all_of is_tchar (c ∷ cs)

-- The characters that `assertNoControlChars` lets pass.
unfoldable pub is_value_char : ℕ → Bool
is_value_char c =
    not ((c == 0x0d) || (c == 0x0a))
    && not ((ltb c sp && not (c == htab)) || (c == 0x7f))
    && not (ltb 0xff c)

unfoldable pub is_value : List ℕ → Bool
is_value value = all_of is_value_char value

-- `assertValidTarget`.
unfoldable pub is_target : List ℕ → Bool
is_target target = all_of (λ c. not (leb c sp || leb 0x7f c)) target

abbrev pub Headers : Type 0
Headers = List (List ℕ × List ℕ)

abbrev pub crlf : List ℕ
crlf = 0x0d ∷ 0x0a ∷ []

unfoldable pub encode_header_lines : Headers → Result (List ℕ)
encode_header_lines [] = ok []
encode_header_lines ((name, value) ∷ hs) =
    let rest = encode_header_lines hs in
    if not (is_token name)
    then err invalid_name
    else if not (is_value value)
    then err invalid_value
    else rest >>= λ lines. ok ((name ++ (colon ∷ sp ∷ value) ++ crlf) ++ lines)

-- `indexOf(":")` and the two slices: the text before the first colon and that behind it.
unfoldable pub split_colon : List ℕ → Option (List ℕ × List ℕ)
split_colon [] = none
split_colon (c ∷ cs) =
    let rest = split_colon cs in
    if c == colon then some ([], cs) else elim rest [ none ↦ none | some p ↦ some (c ∷ p.0, p.1) ]

abbrev pub is_blank : ℕ → Bool
is_blank c = (c == sp) || (c == htab)

-- The two `replace` calls.
unfoldable pub trim_left : List ℕ → List ℕ
trim_left [] = []
trim_left (c ∷ cs) = let rest = trim_left cs in if is_blank c then rest else c ∷ cs

abbrev pub cons_unless_blank : ℕ → List ℕ → List ℕ
cons_unless_blank c [] = if is_blank c then [] else c ∷ []
cons_unless_blank c (d ∷ ds) = c ∷ d ∷ ds

unfoldable pub trim_right : List ℕ → List ℕ
trim_right [] = []
trim_right (c ∷ cs) = cons_unless_blank c (trim_right cs)

-- One line of the head section behind its bounds.
abbrev pub name_and_value : Option (List ℕ × List ℕ) → Result (List ℕ × List ℕ)
name_and_value none = err malformed_header
name_and_value (some ([], rest)) = err malformed_header
name_and_value (some (c ∷ cs, rest)) =
    let value = trim_right (trim_left rest) in
    if not (is_token (c ∷ cs))
    then err invalid_name
    else if not (is_value value)
    then err invalid_value
    else ok (c ∷ cs, value)

unfoldable pub parse_line : List ℕ → Result (List ℕ × List ℕ)
parse_line [] = err malformed_header
parse_line (c ∷ cs) = if is_blank c then err obs_fold else name_and_value (split_colon (c ∷ cs))

-- `readHeaderSection`, on fuel: each round counts at least the two bytes of a line's end.
unfoldable pub read_header_section : ℕ → (max_bytes used : ℕ) → Reader → Result (Headers × Reader)
read_header_section zero max_bytes used r = err out_of_fuel
read_header_section (suc fuel) max_bytes used r =
    if leb max_bytes used
    then err head_too_long
    else read_line (max_bytes - used) r >>= λ p.
        if ltb max_bytes (used + (length p.0 + 2))
        then err head_too_long
        else if leb (length p.0) 0
        then ok ([], p.1)
        else parse_line p.0 >>= λ h.
            read_header_section fuel max_bytes (used + (length p.0 + 2)) p.1 >>= λ q.
            ok (h ∷ q.0, q.1)

unfoldable pub read_headers : (max_bytes used : ℕ) → Reader → Result (Headers × Reader)
read_headers max_bytes used r = read_header_section (suc max_bytes) max_bytes used r

abbrev pub lower : ℕ → ℕ
lower c = if is_between 0x41 0x5a c then c + 0x20 else c

abbrev pub same_text : List ℕ → List ℕ → Bool
same_text [] [] = true
same_text [] (y ∷ ys) = false
same_text (x ∷ xs) [] = false
same_text (x ∷ xs) (y ∷ ys) = (x == y) && same_text xs ys

abbrev pub same_name : List ℕ → List ℕ → Bool
same_name xs ys = same_text (map lower xs) (map lower ys)

unfoldable pub get_all : Headers → List ℕ → List (List ℕ)
get_all [] name = []
get_all ((k, v) ∷ hs) name =
    let rest = get_all hs name in if same_name k name then v ∷ rest else rest

abbrev pub any_name : List (List ℕ) → List ℕ → Bool
any_name [] k = false
any_name (n ∷ ns) k = same_name n k || any_name ns k

unfoldable pub without_headers : Headers → List (List ℕ) → Headers
without_headers [] names = []
without_headers ((k, v) ∷ hs) names =
    let rest = without_headers hs names in if any_name names k then rest else (k, v) ∷ rest

abbrev pub is_space : ℕ → Bool
is_space c =
    is_between 0x09 0x0d c
    || (c == 0x20)
    || (c == 0xa0)
    || (c == 0x1680)
    || is_between 0x2000 0x200a c
    || (c == 0x2028)
    || (c == 0x2029)
    || (c == 0x202f)
    || (c == 0x205f)
    || (c == 0x3000)
    || (c == 0xfeff)

abbrev pub trim_start : List ℕ → List ℕ
trim_start [] = []
trim_start (c ∷ cs) = let rest = trim_start cs in if is_space c then rest else c ∷ cs

abbrev pub cons_unless_space : ℕ → List ℕ → List ℕ
cons_unless_space c [] = if is_space c then [] else c ∷ []
cons_unless_space c (d ∷ ds) = c ∷ d ∷ ds

abbrev pub trim_end : List ℕ → List ℕ
trim_end [] = []
trim_end (c ∷ cs) = cons_unless_space c (trim_end cs)

-- `String.trim`.
unfoldable pub trim : List ℕ → List ℕ
trim text = trim_end (trim_start text)

abbrev pub add_to_first : ℕ → List (List ℕ) → List (List ℕ)
add_to_first c [] = (c ∷ []) ∷ []
add_to_first c (t ∷ ts) = (c ∷ t) ∷ ts

-- `split(",")` and `join(",")`.
unfoldable pub split_comma : List ℕ → List (List ℕ)
split_comma [] = [] ∷ []
split_comma (c ∷ cs) =
    let rest = split_comma cs in if c == comma then [] ∷ rest else add_to_first c rest

unfoldable pub join_comma : List (List ℕ) → List ℕ
join_comma [] = []
join_comma (t ∷ []) = t
join_comma (t ∷ u ∷ ts) = t ++ (comma ∷ join_comma (u ∷ ts))

-- `flatMap((v) => v.split(",").map((s) => s.trim()))`.
unfoldable pub pieces : List (List ℕ) → List (List ℕ)
pieces [] = []
pieces (v ∷ vs) = map trim (split_comma v) ++ pieces vs

abbrev pub all_same : List ℕ → List (List ℕ) → Bool
all_same t [] = true
all_same t (u ∷ us) = same_text u t && all_same t us

-- `/^\d{1,15}$/` and `Number`.
unfoldable pub is_decimal : List ℕ → Bool
is_decimal text = leb 1 (length text) && leb (length text) 15 && all_of is_digit text

unfoldable pub decimal : ℕ → List ℕ → ℕ
decimal n [] = n
decimal n (c ∷ cs) = decimal (n * 10 + (c - 0x30)) cs

-- `parseContentLength`: the set of the pieces has one element when each is the same as the first.
abbrev pub one_length : List (List ℕ) → Result (Option ℕ)
one_length [] = err conflicting_length
one_length (raw ∷ others) =
    if not (all_same raw others)
    then err conflicting_length
    else if not (is_decimal raw)
    then err invalid_length
    else ok (some (decimal 0 raw))

unfoldable pub parse_content_length : List (List ℕ) → Result (Option ℕ)
parse_content_length [] = ok none
parse_content_length (v ∷ vs) = one_length (pieces (v ∷ vs))

unfoldable pub is_bodyless_status : ℕ → Bool
is_bodyless_status status = ltb status 200 || (status == 204) || (status == 304)

pub data BodyFraming : Type 0 where
  chunked no_body : BodyFraming
  body_length : ℕ → BodyFraming

abbrev pub transfer_encoding : List ℕ
transfer_encoding =
    b't' ∷ b'r' ∷ b'a' ∷ b'n' ∷ b's' ∷ b'f' ∷ b'e' ∷ b'r' ∷ b'-' ∷ b'e' ∷ b'n' ∷ b'c' ∷ b'o' ∷ b'd'
    ∷ b'i' ∷ b'n' ∷ b'g' ∷ []

abbrev pub content_length : List ℕ
content_length =
    b'c' ∷ b'o' ∷ b'n' ∷ b't' ∷ b'e' ∷ b'n' ∷ b't' ∷ b'-' ∷ b'l' ∷ b'e' ∷ b'n' ∷ b'g' ∷ b't' ∷ b'h'
    ∷ []

abbrev pub chunked_word : List ℕ
chunked_word = b'c' ∷ b'h' ∷ b'u' ∷ b'n' ∷ b'k' ∷ b'e' ∷ b'd' ∷ []

abbrev pub http_1_0 : List ℕ
http_1_0 = b'H' ∷ b'T' ∷ b'T' ∷ b'P' ∷ b'/' ∷ b'1' ∷ b'.' ∷ b'0' ∷ []

abbrev pub drop_empty : List (List ℕ) → List (List ℕ)
drop_empty [] = []
drop_empty ([] ∷ ts) = drop_empty ts
drop_empty ((c ∷ cs) ∷ ts) = (c ∷ cs) ∷ drop_empty ts

unfoldable pub encodings : List (List ℕ) → List (List ℕ)
encodings te = drop_empty (map (λ t. map lower (trim t)) (split_comma (join_comma te)))

abbrev pub is_chunked : List (List ℕ) → Bool
is_chunked [] = false
is_chunked (t ∷ []) = same_text t chunked_word
is_chunked (t ∷ u ∷ ts) = false

-- `resolveFraming`.
abbrev pub framing : (te cl : List (List ℕ)) → List ℕ → Result BodyFraming
framing [] cl version =
    parse_content_length cl >>= λ n. ok (elim n [ some k ↦ body_length k | none ↦ no_body ])
framing (t ∷ te) (c ∷ cl) version = err both_framings
framing (t ∷ te) [] version =
    if not (is_chunked (encodings (t ∷ te)))
    then err unsupported_encoding
    else if same_text version http_1_0
    then err old_version
    else ok chunked

unfoldable pub resolve_framing : Headers → List ℕ → Result BodyFraming
resolve_framing headers version =
    framing (get_all headers transfer_encoding) (get_all headers content_length) version
