-- ===== src/Http/Messages.antt =====
-- packages/webrun-http-streams/src/http1/encode.ts and decode.ts: requests and responses. A text is its code
-- units; what a generator throws stands beside what it yields.
use webrun_wire.Common.{ℕ, ◌+◌, ◌-◌, ◌*◌, ◌/◌, ◌%◌, List, [], ◌∷◌, ◌++◌, length, map}
use webrun_wire.Common.{
  Option, none, some, Bool, true, false, not, ◌&&◌, ◌||◌, ◌==◌, ltb, leb, if◌then◌else◌,
}
use webrun_wire.Http.Bytes.{Error, Result, ok, err, ◌>>=◌, new_reader, read_line}
use webrun_wire.Http.Bytes.{
  invalid_method, no_host, body_below_length, invalid_status, invalid_status_text, invalid_target,
  invalid_host, malformed_request_line, unsupported_version, asterisk_form, multiple_hosts,
  unsupported_target, invalid_url, malformed_status_line, invalid_status_code,
}
use webrun_wire.Http.Headers.{
  sp, crlf, Headers, is_token, is_value, is_target, is_digit, all_of, encode_header_lines,
  read_headers, get_all, without_headers, parse_content_length, is_bodyless_status, no_body,
  resolve_framing, same_text, lower, transfer_encoding, content_length, http_1_0,
}
use webrun_wire.Http.Chunked.{Yields}
use webrun_wire.Http.Hosts.{
  is_host, encode_latin1, split_target, starts_with_slash, after_scheme, slash,
}
use webrun_wire.Http.Bodies.{Emits, emit_first, emit_body, read_body}
pub mod Targets
pub mod RequestLine

-- `ResolvedHttpCodecOptions`.
pub record Options : Type 0 where
  pub scheme : List ℕ
  pub host : List ℕ
  pub max_header_bytes : ℕ

pub record Request : Type 0 where
  pub url : List ℕ
  pub verb : List ℕ
  pub headers : Headers

pub record Response : Type 0 where
  pub status : ℕ
  pub status_text : List ℕ
  pub headers : Headers

abbrev pub http_1_1 : List ℕ
http_1_1 = b'H' ∷ b'T' ∷ b'T' ∷ b'P' ∷ b'/' ∷ b'1' ∷ b'.' ∷ b'1' ∷ []

abbrev pub host_word : List ℕ
host_word = b'h' ∷ b'o' ∷ b's' ∷ b't' ∷ []

abbrev pub connection_word : List ℕ
connection_word = b'c' ∷ b'o' ∷ b'n' ∷ b'n' ∷ b'e' ∷ b'c' ∷ b't' ∷ b'i' ∷ b'o' ∷ b'n' ∷ []

abbrev pub head_word : List ℕ
head_word = b'h' ∷ b'e' ∷ b'a' ∷ b'd' ∷ []

abbrev pub host_line : List ℕ → List ℕ
host_line authority = (b'H' ∷ b'o' ∷ b's' ∷ b't' ∷ b':' ∷ sp ∷ []) ++ authority ++ crlf

abbrev pub connection_line : List ℕ
connection_line =
    (b'C' ∷ b'o' ∷ b'n' ∷ b'n' ∷ b'e' ∷ b'c' ∷ b't' ∷ b'i' ∷ b'o' ∷ b'n' ∷ b':' ∷ sp ∷ b'c' ∷ b'l'
      ∷ b'o' ∷ b's' ∷ b'e' ∷ [])
    ++ crlf

abbrev pub chunked_line : List ℕ
chunked_line =
    (b'T' ∷ b'r' ∷ b'a' ∷ b'n' ∷ b's' ∷ b'f' ∷ b'e' ∷ b'r' ∷ b'-' ∷ b'E' ∷ b'n' ∷ b'c' ∷ b'o' ∷ b'd'
      ∷ b'i' ∷ b'n' ∷ b'g' ∷ b':' ∷ sp ∷ b'c' ∷ b'h' ∷ b'u' ∷ b'n' ∷ b'k' ∷ b'e' ∷ b'd' ∷ [])
    ++ crlf

abbrev pub is_none : Option ℕ → Bool
is_none none = true
is_none (some n) = false

-- The line that announces a chunked body, where the body has no declared length.
abbrev pub chunked_line_of : Option (List (List ℕ)) → Option ℕ → List ℕ
chunked_line_of none declared = []
chunked_line_of (some body) declared = if is_none declared then chunked_line else []

-- The head has been made; an absent body satisfies a declared length of 0 only.
abbrev pub emit_message : Option (List (List ℕ)) → Option ℕ → List ℕ → Emits
emit_message none none head = (head ∷ [], none)
emit_message none (some n) head =
    if n == 0 then (head ∷ [], none) else (head ∷ [], some body_below_length)
emit_message (some body) declared head = emit_first head (emit_body body declared)

abbrev pub emit_or : Result Emits → Emits
emit_or (ok e) = e
emit_or (err e) = ([], some e)

abbrev pub guard : Bool → Error → Result (Unit {0})
guard true e = ok tt
guard false e = err e

abbrev pub request_head :
    (verb target authority lines : List ℕ) → Option (List (List ℕ)) → Option ℕ → List ℕ
request_head verb target authority lines body declared =
    verb
    ++ (sp ∷ target)
    ++ (sp ∷ http_1_1)
    ++ crlf
    ++ host_line authority
    ++ lines
    ++ connection_line
    ++ chunked_line_of body declared
    ++ crlf

-- `encodeRequest`.
unfoldable pub encode_request : Request → Option (List (List ℕ)) → Options → Emits
encode_request env body opts = emit_or (
    guard (is_token env.verb) invalid_method >>= λ _. split_target env.url opts.host >>= λ p.
    guard (ltb 0 (length p.1)) no_host >>= λ _.
    let carried =
      without_headers env.headers (host_word ∷ connection_word ∷ transfer_encoding ∷ []) in
    parse_content_length (get_all carried content_length) >>= λ declared.
    encode_header_lines carried >>= λ lines.
    encode_latin1 (request_head env.verb p.0 p.1 lines body declared) >>= λ head.
    ok (emit_message body declared head))

abbrev pub status_digits : ℕ → List ℕ
status_digits n = (0x30 + n / 100) ∷ (0x30 + (n / 10) % 10) ∷ (0x30 + n % 10) ∷ []

abbrev pub response_head :
    (status : ℕ) (reason lines : List ℕ) → Option (List (List ℕ)) → Option ℕ → List ℕ
response_head status reason lines body declared =
    http_1_1
    ++ (sp ∷ status_digits status)
    ++ (sp ∷ reason)
    ++ crlf
    ++ lines
    ++ connection_line
    ++ chunked_line_of body declared
    ++ crlf

abbrev pub is_head : List ℕ → Bool
is_head verb = same_text (map lower verb) head_word

-- `encodeResponse`, to a request with the method `verb`. A status without a body carries no length.
unfoldable pub encode_response : Response → Option (List (List ℕ)) → (verb : List ℕ) → Emits
encode_response env body verb = emit_or (
    guard (leb 100 env.status && leb env.status 599) invalid_status >>= λ _.
    guard (is_value env.status_text) invalid_status_text >>= λ _.
    let bodyless = is_bodyless_status env.status || is_head verb in
    let owned = connection_word ∷ transfer_encoding ∷ [] in
    let carried =
      without_headers env.headers
        (if is_bodyless_status env.status then owned ++ (content_length ∷ []) else owned) in
    let sent = if bodyless then none else body in
    parse_content_length (get_all carried content_length) >>= λ declared.
    encode_header_lines carried >>= λ lines.
    encode_latin1 (response_head env.status env.status_text lines sent declared) >>= λ head.
    ok (if bodyless then (head ∷ [], none) else emit_message body declared head))

-- `split(" ")`.
abbrev pub into_first : ℕ → List (List ℕ) → List (List ℕ)
into_first c [] = (c ∷ []) ∷ []
into_first c (p ∷ ps) = (c ∷ p) ∷ ps

unfoldable pub split_spaces : List ℕ → List (List ℕ)
split_spaces [] = [] ∷ []
split_spaces (c ∷ cs) =
    let rest = split_spaces cs in if c == sp then [] ∷ rest else into_first c rest

abbrev pub three_parts : List (List ℕ) → Result (List ℕ × List ℕ × List ℕ)
three_parts (a ∷ b ∷ c ∷ []) = ok (a, b, c)
three_parts _ = err malformed_request_line

abbrev pub is_version : List ℕ → Bool
is_version version = same_text version http_1_1 || same_text version http_1_0

abbrev pub one_host : List (List ℕ) → Result (Option (List ℕ))
one_host [] = ok none
one_host (h ∷ []) = ok (some h)
one_host (h ∷ i ∷ hs) = err multiple_hosts

abbrev pub url_of : Options → (target : List ℕ) → List ℕ → List ℕ
url_of opts target host = opts.scheme ++ (b':' ∷ slash ∷ slash ∷ []) ++ host ++ target

abbrev pub origin_url : Options → (target version : List ℕ) → Option (List ℕ) → Result (List ℕ)
origin_url opts target version none =
    if same_text version http_1_1 then err no_host else ok (url_of opts target opts.host)
origin_url opts target version (some host) =
    if is_host host then ok (url_of opts target host) else err invalid_host

abbrev pub target_url : Options → (target version : List ℕ) → Option (List ℕ) → Result (List ℕ)
target_url opts target version host =
    if starts_with_slash target
    then origin_url opts target version host
    else elim (after_scheme target) [ none ↦ err unsupported_target | some rest ↦ ok target ]

-- `decodeRequest`: the envelope, and what its body yields. `is_url` is the test of `new URL`.
unfoldable pub decode_request :
    (is_url : List ℕ → Bool) (fuel : ℕ) → List (List ℕ) → Options → Result (Request × Yields)
decode_request is_url fuel input opts =
    read_line opts.max_header_bytes (new_reader input) >>= λ start.
    three_parts (split_spaces start.0) >>= λ p. guard (is_token p.0) invalid_method >>= λ _.
    guard (is_version p.2) unsupported_version >>= λ _.
    guard (not (same_text p.1 (0x2a ∷ []))) asterisk_form >>= λ _.
    guard (is_target p.1) invalid_target >>= λ _.
    read_headers opts.max_header_bytes (length start.0 + 2) start.1 >>= λ h.
    one_host (get_all h.0 host_word) >>= λ host. target_url opts p.1 p.2 host >>= λ url.
    guard (is_url url) invalid_url >>= λ _. resolve_framing h.0 p.2 >>= λ framing. ok (
      record { url = url; verb = p.0; headers = h.0 },
      read_body fuel opts.max_header_bytes framing false h.1,
    )

-- The text before the first space, and that behind it.
unfoldable pub split_space : List ℕ → Option (List ℕ × List ℕ)
split_space [] = none
split_space (c ∷ cs) =
    let rest = split_space cs in
    if c == sp then some ([], cs) else elim rest [ none ↦ none | some p ↦ some (c ∷ p.0, p.1) ]

abbrev pub code_and_text : Option (List ℕ × List ℕ) → List ℕ → List ℕ × List ℕ
code_and_text none text = (text, [])
code_and_text (some p) text = p

abbrev pub status_parts : Option (List ℕ × List ℕ) → Result (List ℕ × List ℕ × List ℕ)
status_parts none = err malformed_status_line
status_parts (some p) = let q = code_and_text (split_space p.1) p.1 in ok (p.0, q.0, q.1)

abbrev pub status_of : List ℕ → Result ℕ
status_of (a ∷ b ∷ c ∷ []) =
    if all_of is_digit (a ∷ b ∷ c ∷ [])
    then ok ((a - 0x30) * 100 + (b - 0x30) * 10 + (c - 0x30))
    else err invalid_status_code
status_of _ = err invalid_status_code

-- `decodeResponse`, to a request with the method `verb`.
unfoldable pub decode_response :
    (fuel : ℕ) → List (List ℕ) → Options → (verb : List ℕ) → Result (Response × Yields)
decode_response fuel input opts verb =
    read_line opts.max_header_bytes (new_reader input) >>= λ start.
    status_parts (split_space start.0) >>= λ p. guard (is_version p.0) unsupported_version >>= λ _.
    status_of p.1 >>= λ status.
    read_headers opts.max_header_bytes (length start.0 + 2) start.1 >>= λ h.
    let bodyless = is_bodyless_status status || is_head verb in
    (if bodyless then ok no_body else resolve_framing h.0 p.0) >>= λ framing. ok (
      record { status = status; status_text = p.2; headers = h.0 },
      read_body fuel opts.max_header_bytes framing (not bodyless) h.1,
    )
