-- ===== src/Http/Messages/RequestLine.antt =====
-- The request line of an encoded request, as a decoder reads it.
use webrun_wire.Common.{ℕ, ◌+◌, ◌≤◌, ◌≡◌, refl, ap, ◌∙◌, arith, List, [], ◌∷◌, ◌++◌, append_assoc}
use webrun_wire.Common.{Option, none, some, length, true, false, Bool, All, if◌then◌else◌}
use webrun_wire.Common.{ltb, leb}
use webrun_wire.Http.Bytes.{not_latin1, invalid_method, Error}
use webrun_wire.Common.{zero, suc, subst, length-append}
use webrun_wire.Http.Bytes.{◌>>=◌}
use webrun_wire.Http.Bodies.{Emits}
use webrun_wire.Http.Hosts.{encode_latin1}
use webrun_wire.Http.Headers.{
  Headers, without_headers, transfer_encoding, parse_content_length, get_all, content_length,
  encode_header_lines,
}
use webrun_wire.Http.Bytes.{no_host}
use webrun_wire.Http.Messages.{host_word, connection_word}
use webrun_wire.Http.Bytes.{Reader, new_reader, ok, err, Result, read_line, cr, lf}
use webrun_wire.Http.Bytes.Lines.{concat, remaining, IsNotLf, read_line-chunks}
use webrun_wire.Http.Headers.{sp, crlf, is_token, is_target, all_of}
use webrun_wire.Http.Hosts.{split_target}
use webrun_wire.Http.Messages.{
  split_spaces, three_parts, http_1_1, request_head, guard, Options, Request, encode_request,
  emit_or, emit_message, host_line, connection_line, chunked_line_of,
}
use webrun_wire.Http.Messages.Targets.{
  line_of_request, line_parts, no_lf-append, split_target-target, target-IsPart, token_chars,
  token-IsPart, version-IsPart,
}

abbrev pub rest_of_head : (authority lines : List ℕ) → Option (List (List ℕ)) → Option ℕ → List ℕ
rest_of_head authority lines body declared =
    host_line authority ++ lines ++ connection_line ++ chunked_line_of body declared ++ crlf

request_head-line :
    (verb target authority lines : List ℕ) (body : Option (List (List ℕ))) (declared : Option ℕ)
    → request_head verb target authority lines body declared
      ≡ line_of_request verb target ++ (crlf ++ rest_of_head authority lines body declared)
request_head-line verb target authority lines body declared = simp (append_assoc)

line_no_lf :
    (verb target : List ℕ)
    → is_token verb ≡ true
    → is_target target ≡ true
    → All IsNotLf (line_of_request verb target)
line_no_lf verb target v t =
    no_lf-append verb (sp ∷ (target ++ (sp ∷ http_1_1))) (token-IsPart verb (token_chars verb v)).1
      (
        space,
        no_lf-append target (sp ∷ http_1_1) (target-IsPart target t).1 (space, version-IsPart.1),
      )
  where
    space : IsNotLf sp
    space e = omega (arith, e)

-- What a chain that ends well has gone through.
ends_well :
    {A B : Type 0} (r : Result A) (f : A → Result B) (b : B)
    → (r >>= f) ≡ ok b
    → (a : A) × (r ≡ ok a) × (f a ≡ ok b)
ends_well (ok a) f b h = (a, refl, h)
ends_well (err e) f b h = absurd (grind arith)

guard-true : (b : Bool) (e : Error) (u : Unit {0}) → guard b e ≡ ok u → b ≡ true
guard-true true e u h = refl
guard-true false e u h = absurd (grind arith)

-- The first that is emitted comes from a head that was made.
emit_or-first :
    (r : Result Emits) (head : List ℕ) (more : List (List ℕ)) (thrown : Option Error)
    → ◌≡◌ {A = Emits} (emit_or r) (head ∷ more, thrown)
    → r ≡ ok (head ∷ more, thrown)
emit_or-first (ok e) head more thrown h = ap ok h
emit_or-first (err e) head more thrown h = absurd (grind arith)

emit_message-first :
    (body : Option (List (List ℕ))) (declared : Option ℕ) (made head : List ℕ)
    (more : List (List ℕ)) (thrown : Option Error)
    → ◌≡◌ {A = Emits} (emit_message body declared made) (head ∷ more, thrown)
    → made ≡ head
emit_message-first none none made head more thrown h = grind arith
emit_message-first none (some zero) made head more thrown h = grind arith
emit_message-first none (some (suc n)) made head more thrown h = grind arith
emit_message-first (some body) declared made head more thrown h = grind arith

-- What a decoder reads of the first line of what `encodeRequest` has made.
abbrev pub ReadsRequestLine : (max_bytes : ℕ) (verb : List ℕ) → List (List ℕ) → Type 0
ReadsRequestLine max_bytes verb input =
    (line target : List ℕ) × (left : Reader) × (read_line max_bytes (new_reader input)
      ≡ ok (line, left))
    × (three_parts (split_spaces line) ≡ ok (verb, target, http_1_1))
    × (is_token verb ≡ true)
    × (is_target target ≡ true)

made_text : (text made : List ℕ) → encode_latin1 text ≡ ok made → made ≡ text
unfolding encode_latin1
made_text text made h = go (all_of (λ c. leb c 0xff) text) h
  where
    go : (b : Bool) → (if b then ok text else err not_latin1) ≡ ok made → made ≡ text
    go true e = grind arith
    go false e = absurd (grind arith)

head_line :
    (verb target authority lines made : List ℕ) (body : Option (List (List ℕ)))
    (declared : Option ℕ) (more : List (List ℕ)) (max_bytes : ℕ)
    → is_token verb ≡ true
    → is_target target ≡ true
    → encode_latin1 (request_head verb target authority lines body declared) ≡ ok made
    → length made ≤ max_bytes
    → ReadsRequestLine max_bytes verb (made ∷ more)
head_line verb target authority lines made body declared more max_bytes v t h le =
    (line, target, p.0, p.1, line_parts verb target v t, v, t)
  where
    line : List ℕ
    line = line_of_request verb target

    rest : List ℕ
    rest = rest_of_head authority lines body declared

    same : made ≡ line ++ (crlf ++ rest)
    same =
        made_text (request_head verb target authority lines body declared) made h
        ∙ request_head-line verb target authority lines body declared

    bytes : made ++ concat more ≡ line ++ (cr ∷ lf ∷ (rest ++ concat more))
    bytes = ap (λ x. x ++ concat more) same ∙ append_assoc line (crlf ++ rest) (concat more)

    small : length line + 1 ≤ max_bytes
    small = omega (arith, le, ap length same, length-append line (crlf ++ rest))

    p :
        (left : Reader) × (read_line max_bytes (new_reader (made ∷ more)) ≡ ok (line, left))
        × (remaining left ≡ rest ++ concat more)
    p =
        read_line-chunks max_bytes (new_reader (made ∷ more)) line (rest ++ concat more)
          (line_no_lf verb target v t) bytes small

-- Whatever `encodeRequest` is given: when it yields a head, and the reader's bound is at least as large, then the
-- first line that `readLine` gives is split by `decodeRequest` into the method that was given, a target that
-- its test accepts, and the version. So no url or method adds a space or a line of its own.
pub encode_request-three_parts :
    (env : Request) (body : Option (List (List ℕ))) (opts : Options) (head : List ℕ)
    (more : List (List ℕ)) (thrown : Option Error) (max_bytes : ℕ)
    → encode_request env body opts ≡ (head ∷ more, thrown)
    → length head ≤ max_bytes
    → ReadsRequestLine max_bytes env.verb (head ∷ more)
unfolding encode_request
encode_request-three_parts env body opts head more thrown max_bytes h le =
    let verb =
      ends_well (guard (is_token env.verb) invalid_method) (λ _. at_split) (head ∷ more, thrown)
        (emit_or-first (guard (is_token env.verb) invalid_method >>= λ _. at_split) head more thrown
          h) in
    let split = ends_well (split_target env.url opts.host) at_host (head ∷ more, thrown) verb.2 in
    let host =
      ends_well (guard (ltb 0 (length split.0.1)) no_host) (λ _. at_length split.0)
        (head ∷ more, thrown) split.2 in
    let declared =
      ends_well (parse_content_length (get_all carried content_length)) (at_lines split.0)
        (head ∷ more, thrown) host.2 in
    let lines =
      ends_well (encode_header_lines carried) (at_head split.0 declared.0) (head ∷ more, thrown)
        declared.2 in
    let made =
      ends_well (encode_latin1 (request_head env.verb split.0.0 split.0.1 lines.0 body declared.0))
        (at_end declared.0) (head ∷ more, thrown) lines.2 in
    let first = emit_message-first body declared.0 made.0 head more thrown (ok_same made.2) in
    subst (λ (x : List ℕ). ReadsRequestLine max_bytes env.verb (x ∷ more)) first
      (head_line env.verb split.0.0 split.0.1 lines.0 made.0 body declared.0 more max_bytes
        (guard-true (is_token env.verb) invalid_method verb.0 verb.1)
        (split_target-target env.url opts.host split.0 split.1) made.1
        (omega (arith, le, ap length first)))
  where
    carried : Headers
    carried = without_headers env.headers (host_word ∷ connection_word ∷ transfer_encoding ∷ [])

    at_end : Option ℕ → List ℕ → Result Emits
    at_end declared made = ok (emit_message body declared made)

    at_head : List ℕ × List ℕ → Option ℕ → List ℕ → Result Emits
    at_head p declared lines =
        encode_latin1 (request_head env.verb p.0 p.1 lines body declared) >>= at_end declared

    at_lines : List ℕ × List ℕ → Option ℕ → Result Emits
    at_lines p declared = encode_header_lines carried >>= at_head p declared

    at_length : List ℕ × List ℕ → Result Emits
    at_length p = parse_content_length (get_all carried content_length) >>= at_lines p

    at_host : List ℕ × List ℕ → Result Emits
    at_host p = guard (ltb 0 (length p.1)) no_host >>= λ _. at_length p

    at_split : Result Emits
    at_split = split_target env.url opts.host >>= at_host

    ok_same : {a b : Emits} → ◌≡◌ {A = Result Emits} (ok a) (ok b) → a ≡ b
    ok_same h = grind arith
