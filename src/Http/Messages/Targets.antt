-- ===== src/Http/Messages/Targets.antt =====
-- The targets that `splitTarget` gives, and the three parts of a request line.
use webrun_wire.Common.{ℕ, ◌≡◌, refl, arith, List, [], ◌∷◌, ◌++◌}
use webrun_wire.Common.{Option, none, some, length, true, false, Bool, All, if◌then◌else◌}
use webrun_wire.Common.{not, ◌==◌, leb}
use webrun_wire.Http.Bytes.{no_authority, invalid_host, Error}
use webrun_wire.Http.Hosts.{span, without_userinfo, origin_form}
use webrun_wire.Http.Headers.{contains}
use webrun_wire.Http.Bytes.{ok, err, Result, invalid_target}
use webrun_wire.Http.Bytes.Lines.{IsNotLf}
use webrun_wire.Http.Headers.{sp, is_token, is_tchar, is_target, all_of}
use webrun_wire.Http.Hosts.{
  split_target, split_absolute, checked_target, starts_with_slash, after_scheme, is_host,
}
use webrun_wire.Http.Messages.{split_spaces, three_parts, http_1_1}

-- Behind a guard that let through.
behind_guard :
    (b : Bool) (e : Error) (result : Result (List ℕ × List ℕ)) (p : List ℕ × List ℕ)
    → (if b then result else err e) ≡ ok p
    → (b ≡ true) × (result ≡ ok p)
behind_guard true e result p h = (refl, h)
behind_guard false e result p h = absurd (grind arith)

-- Behind a test that throws.
behind_throw :
    (b : Bool) (e : Error) (result : Result (List ℕ × List ℕ)) (p : List ℕ × List ℕ)
    → (if b then err e else result) ≡ ok p
    → result ≡ ok p
behind_throw true e result p h = absurd (grind arith)
behind_throw false e result p h = h

ok_target :
    (target authority : List ℕ) (p : List ℕ × List ℕ)
    → ◌≡◌ {A = Result (List ℕ × List ℕ)} (ok (target, authority)) (ok p)
    → is_target target ≡ true
    → is_target p.0 ≡ true
ok_target target authority p h t = grind arith

checked_target-target :
    (target authority : List ℕ) (p : List ℕ × List ℕ)
    → checked_target target authority ≡ ok p
    → is_target p.0 ≡ true
checked_target-target target authority p h =
    let q = behind_guard (is_target target) invalid_target (ok (target, authority)) p h in
    ok_target target authority p q.1 q.0

split_absolute-target :
    (rest : Option (List ℕ)) (p : List ℕ × List ℕ)
    → split_absolute rest ≡ ok p
    → is_target p.0 ≡ true
split_absolute-target none p h = absurd (grind arith)
split_absolute-target (some rest) p h =
    checked_target-target target authority p
      (behind_guard (is_host authority) invalid_host (checked_target target authority) p (
        behind_throw (leb (length parts.0) 0) no_authority
          (if is_host authority then checked_target target authority else err invalid_host) p h)).1
  where
    parts : List ℕ × List ℕ
    parts = span (λ c. not (contains (0x2f ∷ 0x3f ∷ 0x23 ∷ []) c)) rest

    authority : List ℕ
    authority = without_userinfo parts.0

    target : List ℕ
    target = origin_form (span (λ c. not (c == 0x23)) parts.1).0

pub split_target-target :
    (url host : List ℕ) (p : List ℕ × List ℕ) → split_target url host ≡ ok p → is_target p.0 ≡ true
unfolding split_target
split_target-target url host p h = go (starts_with_slash url) h
  where
    go :
        (b : Bool)
        → (if b then checked_target url host else split_absolute (after_scheme url)) ≡ ok p
        → is_target p.0 ≡ true
    go true e = checked_target-target url host p e
    go false e = split_absolute-target (after_scheme url) p e

pub token_chars : (text : List ℕ) → is_token text ≡ true → all_of is_tchar text ≡ true
unfolding is_token
token_chars [] h = refl
token_chars (c ∷ cs) h = h

-- A text without spaces is one part.
abbrev IsPart : List ℕ → Type 0
IsPart text = All (λ c. (c == sp) ≡ false) text

split_spaces-part : (text : List ℕ) → IsPart text → split_spaces text ≡ text ∷ []
unfolding split_spaces
split_spaces-part [] h = refl
split_spaces-part (c ∷ cs) (n, h) = rw (n, split_spaces-part cs h) refl

split_spaces-append :
    (text rest : List ℕ)
    → IsPart text
    → split_spaces (text ++ (sp ∷ rest)) ≡ text ∷ split_spaces rest
unfolding split_spaces
split_spaces-append [] rest h = refl
split_spaces-append (c ∷ cs) rest (n, h) = rw (n, split_spaces-append cs rest h) refl

tchar_part : (c : ℕ) → is_tchar c ≡ true → ((c == sp) ≡ false) × IsNotLf c
unfolding is_tchar
tchar_part c h = (ground (arith, h), λ e. ground (arith, h, e))

pub token-IsPart : (text : List ℕ) → all_of is_tchar text ≡ true → IsPart text × All IsNotLf text
token-IsPart [] h = (tt, tt)
token-IsPart (c ∷ cs) h =
    let rest = token-IsPart cs (ground (arith, h)) in
    let here = tchar_part c (ground (arith, h)) in ((here.0, rest.0), (here.1, rest.1))

pub target-IsPart : (text : List ℕ) → is_target text ≡ true → IsPart text × All IsNotLf text
unfolding is_target
target-IsPart [] h = (tt, tt)
target-IsPart (c ∷ cs) h =
    let rest = target-IsPart cs (ground (arith, h)) in
    ((ground (arith, h), rest.0), ((λ e. ground (arith, h, e)), rest.1))

pub no_lf-append :
    (text more : List ℕ) → All IsNotLf text → All IsNotLf more → All IsNotLf (text ++ more)
no_lf-append [] more h k = k
no_lf-append (c ∷ text) more (n, h) k = (n, no_lf-append text more h k)

abbrev pub line_of_request : (verb target : List ℕ) → List ℕ
line_of_request verb target = verb ++ (sp ∷ (target ++ (sp ∷ http_1_1)))

pub version-IsPart : IsPart http_1_1 × All IsNotLf http_1_1
unfolding is_target
version-IsPart =
    ((refl, (refl, (refl, (refl, (refl, (refl, (refl, (refl, tt)))))))), no_lf http_1_1 refl)
  where
    no_lf : (text : List ℕ) → is_target text ≡ true → All IsNotLf text
    no_lf text h = (target-IsPart text h).1

pub line_parts :
    (verb target : List ℕ)
    → is_token verb ≡ true
    → is_target target ≡ true
    → three_parts (split_spaces (line_of_request verb target)) ≡ ok (verb, target, http_1_1)
line_parts verb target v t =
    rw
      (
        split_spaces-append verb (target ++ (sp ∷ http_1_1))
            (token-IsPart verb (token_chars verb v)).0,
        split_spaces-append target http_1_1 (target-IsPart target t).0,
        split_spaces-part http_1_1 version-IsPart.0,
      )
      refl
