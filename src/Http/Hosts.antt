-- ===== src/Http/Hosts.antt =====
-- The grammar of hosts in packages/webrun-http-streams/src/http1/headers.ts, and `splitTarget` of http1/encode.ts. A
-- character is its code unit.
use webrun_wire.Common.{ℕ, List, [], ◌∷◌, length, Option, none, some, Bool, true, false}
use webrun_wire.Common.{not, ◌&&◌, ◌||◌, ◌==◌, leb, if◌then◌else◌}
use webrun_wire.Http.Bytes.{Result, ok, err, invalid_target, no_target, no_authority}
use webrun_wire.Http.Bytes.{invalid_host, not_latin1}
use webrun_wire.Http.Headers.{colon, is_between, is_digit, contains, all_of, is_target}

abbrev pub slash : ℕ
slash = 0x2f

-- The longest prefix of characters that `p` accepts, and the rest.
unfoldable pub span : (ℕ → Bool) → List ℕ → List ℕ × List ℕ
span p [] = ([], [])
span p (c ∷ cs) = let rest = span p cs in if p c then (c ∷ rest.0, rest.1) else ([], c ∷ cs)

abbrev pub is_alpha : ℕ → Bool
is_alpha c = is_between 0x41 0x5a c || is_between 0x61 0x7a c

-- `(:\d{1,5})?$`.
abbrev pub is_port : List ℕ → Bool
is_port [] = true
is_port (c ∷ digits) =
    (c == colon) && all_of is_digit digits && leb 1 (length digits) && leb (length digits) 5

abbrev pub is_reg_char : ℕ → Bool
is_reg_char c = is_alpha c || is_digit c || contains (0x2e ∷ 0x5f ∷ 0x7e ∷ 0x2d ∷ []) c

abbrev pub is_ip_char : ℕ → Bool
is_ip_char c =
    is_digit c || is_between 0x41 0x46 c || is_between 0x61 0x66 c || contains (0x3a ∷ 0x2e ∷ []) c

unfoldable pub is_reg_name : List ℕ → Bool
is_reg_name host = let p = span is_reg_char host in leb 1 (length p.0) && is_port p.1

abbrev pub is_closed : List ℕ → Bool
is_closed [] = false
is_closed (c ∷ port) = (c == 0x5d) && is_port port

abbrev pub is_ip_literal : List ℕ → Bool
is_ip_literal [] = false
is_ip_literal (c ∷ cs) =
    let p = span is_ip_char cs in (c == 0x5b) && leb 1 (length p.0) && is_closed p.1

-- `assertValidHost`.
unfoldable pub is_host : List ℕ → Bool
is_host host = is_ip_literal host || is_reg_name host

unfoldable pub encode_latin1 : List ℕ → Result (List ℕ)
encode_latin1 text = if all_of (λ c. leb c 0xff) text then ok text else err not_latin1

abbrev pub is_scheme_char : ℕ → Bool
is_scheme_char c = is_alpha c || is_digit c || contains (0x2b ∷ 0x2e ∷ 0x2d ∷ []) c

-- `[a-zA-Z][a-zA-Z0-9+.-]*:\/\/`, and what stands behind it.
abbrev pub after_slashes : List ℕ → Option (List ℕ)
after_slashes (a ∷ b ∷ c ∷ rest) =
    if (a == colon) && (b == slash) && (c == slash) then some rest else none
after_slashes _ = none

unfoldable pub after_scheme : List ℕ → Option (List ℕ)
after_scheme [] = none
after_scheme (c ∷ cs) = if is_alpha c then after_slashes (span is_scheme_char cs).1 else none

-- What stands behind the last `@`, or all of it.
abbrev pub after_at_or : ℕ → List ℕ → Option (List ℕ) → Option (List ℕ)
after_at_or c cs (some rest) = some rest
after_at_or c cs none = if c == 0x40 then some cs else none

unfoldable pub after_at : List ℕ → Option (List ℕ)
after_at [] = none
after_at (c ∷ cs) = after_at_or c cs (after_at cs)

abbrev pub without_userinfo : List ℕ → List ℕ
without_userinfo authority = elim (after_at authority) [ none ↦ authority | some rest ↦ rest ]

abbrev pub starts_with_slash : List ℕ → Bool
starts_with_slash [] = false
starts_with_slash (c ∷ cs) = c == slash

-- The path of an absolute url as an origin-form target.
abbrev pub origin_form : List ℕ → List ℕ
origin_form [] = slash ∷ []
origin_form (c ∷ cs) = if c == slash then c ∷ cs else slash ∷ c ∷ cs

abbrev pub checked_target : List ℕ → List ℕ → Result (List ℕ × List ℕ)
checked_target target authority =
    if is_target target then ok (target, authority) else err invalid_target

abbrev pub split_absolute : Option (List ℕ) → Result (List ℕ × List ℕ)
split_absolute none = err no_target
split_absolute (some rest) =
    let parts = span (λ c. not (contains (0x2f ∷ 0x3f ∷ 0x23 ∷ []) c)) rest in
    let authority = without_userinfo parts.0 in
    let target = origin_form (span (λ c. not (c == 0x23)) parts.1).0 in
    if leb (length parts.0) 0
    then err no_authority
    else if is_host authority
    then checked_target target authority
    else err invalid_host

-- `splitTarget`: the target and the authority, which is the configured host for a url that is a path.
unfoldable pub split_target : (url host : List ℕ) → Result (List ℕ × List ℕ)
split_target url host =
    if starts_with_slash url then checked_target url host else split_absolute (after_scheme url)
