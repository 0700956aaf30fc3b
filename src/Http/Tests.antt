-- ===== src/Http/Tests.antt =====
-- The HTTP/1.1 codec at concrete messages.
use webrun_wire.Common.{sym, append-nil, none, some, false}
use webrun_wire.Http.Messages.{Options, Request, encode_request}
use webrun_wire.Http.Messages.RequestLine.{ReadsRequestLine, encode_request-three_parts}
use webrun_wire.Http.Headers.{is_target, is_token, encode_header_lines, without_headers}
use webrun_wire.Http.Hosts.{split_target, encode_latin1}
use webrun_wire.Http.Bytes.{new_reader}
use webrun_wire.Http.Bytes.Lines.{concat, remaining}
use webrun_wire.Http.Chunked.{encode_chunked, decode_chunked}
use webrun_wire.Http.Chunked.RoundTrip.{IsSized, decode_chunked-encode_chunked}
use webrun_wire.Http.Bodies.{emit_body, emit_declared, read_body}
use webrun_wire.Http.Bodies.RoundTrip.{framing_of, read_body-emit_body}
use webrun_wire.Common.{ℕ, ◌≡◌, refl, arith, List, [], ◌∷◌}
use webrun_wire.Http.Bytes.{ok, Reader}
use webrun_wire.Http.Bytes.Lines.{ReadsLine, read_line-chunks}
use webrun_wire.Http.Headers.{
  Headers, is_token, is_tchar, is_value, is_value_char, trim_left, trim_right, encode_header_lines,
  read_headers,
}
use webrun_wire.Http.Headers.{get_all, content_length, parse_content_length}
use webrun_wire.Http.Headers.Section.{AreHeaders, ReadsSection, read_headers-encode_header_lines}
use webrun_wire.Http.Chunked.{to_hex, parse_size}
use webrun_wire.Http.Chunked.Sizes.{parse_size-to_hex}

-- "hi" and CRLF, cut after the CR.
abbrev cut_line : Reader
cut_line = record { buf = []; source = (0x68 ∷ 0x69 ∷ 0x0d ∷ []) ∷ [] ∷ (0x0a ∷ 0x21 ∷ []) ∷ [] }

read_line-chunks_example : ReadsLine 3 cut_line (0x68 ∷ 0x69 ∷ []) (0x21 ∷ [])
read_line-chunks_example =
    read_line-chunks 3 cut_line (0x68 ∷ 0x69 ∷ []) (0x21 ∷ [])
      ((λ e. omega (arith, e)), ((λ e. omega (arith, e)), tt)) refl (omega arith)

-- "a: b".
abbrev one_header : Headers
one_header = ((0x61 ∷ []), (0x62 ∷ [])) ∷ []

abbrev header_bytes : List ℕ
header_bytes = 0x61 ∷ 0x3a ∷ 0x20 ∷ 0x62 ∷ 0x0d ∷ 0x0a ∷ []

abbrev header_reader : Reader
header_reader = record {
  buf = [];
  source = (0x61 ∷ 0x3a ∷ []) ∷ (0x20 ∷ 0x62 ∷ 0x0d ∷ 0x0a ∷ 0x0d ∷ 0x0a ∷ 0x7a ∷ []) ∷ [];
}

one_header-AreHeaders : AreHeaders one_header
unfolding is_token is_tchar is_value is_value_char trim_left trim_right
one_header-AreHeaders = (refl, refl, refl, tt)

one_header_bytes : encode_header_lines one_header ≡ ok header_bytes
unfolding encode_header_lines is_token is_tchar is_value is_value_char
one_header_bytes = refl

read_headers-encode_header_lines_example :
    ReadsSection (read_headers 8 0 header_reader) one_header (0x7a ∷ [])
read_headers-encode_header_lines_example =
    read_headers-encode_header_lines one_header 8 0 header_reader header_bytes (0x7a ∷ [])
      one_header-AreHeaders one_header_bytes refl (omega arith)

-- "content-length: 5, 5".
abbrev length_header : Headers
length_header = (content_length, 0x35 ∷ 0x2c ∷ 0x20 ∷ 0x35 ∷ []) ∷ []

parse_size-to_hex_example : parse_size (to_hex 21) ≡ ok 21
parse_size-to_hex_example = parse_size-to_hex 21 (omega arith)

abbrev sized_body : List (List ℕ)
sized_body = (1 ∷ 2 ∷ 3 ∷ []) ∷ [] ∷ (4 ∷ []) ∷ []

sized_body-IsSized : IsSized sized_body
sized_body-IsSized = (omega arith, (omega arith, (omega arith, tt)))

decode_chunked-encode_chunked_example :
    (left : Reader) × ((decode_chunked 4 99 (new_reader (encode_chunked sized_body))).1 ≡ ok left)
    × (concat (decode_chunked 4 99 (new_reader (encode_chunked sized_body))).0 ≡ concat sized_body)
    × (remaining left ≡ [])
decode_chunked-encode_chunked_example =
    decode_chunked-encode_chunked 4 99 sized_body (encode_chunked sized_body) [] (omega arith)
      (omega arith) sized_body-IsSized (sym (append-nil (concat (encode_chunked sized_body))))

read_body-emit_body_example :
    (left : Reader) × ((read_body 4 99
        (framing_of (some 4))
        false
        (new_reader (emit_body sized_body (some 4)).0)).1
      ≡ ok left)
    × (concat
          (read_body 4 99
            (framing_of (some 4))
            false
            (new_reader (emit_body sized_body (some 4)).0)).0
        ≡ concat sized_body)
    × (remaining left ≡ [])
unfolding emit_body emit_declared
read_body-emit_body_example =
    read_body-emit_body 4 99 false sized_body (emit_body sized_body (some 4)).0 (some 4)
      (omega arith) (omega arith) sized_body-IsSized refl refl

-- GET of "/a" with the host "h".
abbrev get_request : Request
get_request = record { url = 0x2f ∷ 0x61 ∷ []; verb = 0x47 ∷ 0x45 ∷ 0x54 ∷ []; headers = [] }

abbrev plain_options : Options
plain_options = record {
  scheme = 0x68 ∷ 0x74 ∷ 0x74 ∷ 0x70 ∷ [];
  host = 0x68 ∷ [];
  max_header_bytes = 99;
}

abbrev get_head : List ℕ
get_head =
    0x47 ∷ 0x45 ∷ 0x54 ∷ 0x20 ∷ 0x2f ∷ 0x61 ∷ 0x20 ∷ 0x48 ∷ 0x54 ∷ 0x54 ∷ 0x50 ∷ 0x2f ∷ 0x31 ∷ 0x2e
    ∷ 0x31 ∷ 0x0d ∷ 0x0a ∷ 0x48 ∷ 0x6f ∷ 0x73 ∷ 0x74 ∷ 0x3a ∷ 0x20 ∷ 0x68 ∷ 0x0d ∷ 0x0a ∷ 0x43
    ∷ 0x6f ∷ 0x6e ∷ 0x6e ∷ 0x65 ∷ 0x63 ∷ 0x74 ∷ 0x69 ∷ 0x6f ∷ 0x6e ∷ 0x3a ∷ 0x20 ∷ 0x63 ∷ 0x6c
    ∷ 0x6f ∷ 0x73 ∷ 0x65 ∷ 0x0d ∷ 0x0a ∷ 0x0d ∷ 0x0a ∷ []

get_head_lem : encode_request get_request none plain_options ≡ (get_head ∷ [], none)
unfolding encode_request is_token is_tchar split_target is_target without_headers get_all
    parse_content_length encode_header_lines encode_latin1
get_head_lem = refl

encode_request-three_parts_example : ReadsRequestLine 99 get_request.verb (get_head ∷ [])
encode_request-three_parts_example =
    encode_request-three_parts get_request none plain_options get_head [] none 99 get_head_lem
      (omega arith)
