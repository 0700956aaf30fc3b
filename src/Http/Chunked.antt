-- ===== src/Http/Chunked.antt =====
-- packages/webrun-http-streams/src/http1/chunked.ts. The chunks that a generator has yielded are a list,
-- and the error that it threw, or the reader that it left, stands beside it. A size is read exactly;
-- the program refuses those that a JavaScript number cannot hold exactly.
use webrun_wire.Common.{
  ℕ, zero, suc, ◌+◌, ◌-◌, ◌*◌, ◌/◌, ◌%◌, ◌^◌, List, [], ◌∷◌, ◌++◌, length, take, drop,
}
use webrun_wire.Common.{
  Option, none, some, Bool, true, false, not, ◌&&◌, ◌||◌, ◌==◌, ltb, leb, if◌then◌else◌,
}
use webrun_wire.Http.Bytes.{Error, Result, ok, err, ◌>>=◌, Reader, read_line, read_some}
use webrun_wire.Http.Bytes.{
  bare_lf, line_too_long, no_crlf, invalid_chunk_size, chunk_size_too_large, trailer_too_long,
  chunk_truncated, chunk_not_terminated, out_of_fuel,
}
use webrun_wire.Http.Headers.{crlf, is_between, is_digit, all_of}
pub mod Sizes
pub mod RoundTrip

-- `toString(16)` of a digit, and of a number: `fuel` bounds the digits.
abbrev pub hex_digit : ℕ → ℕ
hex_digit d = if ltb d 10 then 0x30 + d else 0x57 + d

unfoldable pub hex_loop : ℕ → ℕ → List ℕ → List ℕ
hex_loop zero n digits = digits
hex_loop (suc fuel) n digits =
    let more = hex_loop fuel (n / 16) (hex_digit (n % 16) ∷ digits) in
    if ltb n 16 then hex_digit n ∷ digits else more

unfoldable pub to_hex : ℕ → List ℕ
to_hex n = hex_loop (suc n) n []

abbrev last_chunk : List ℕ
last_chunk = 0x30 ∷ 0x0d ∷ 0x0a ∷ 0x0d ∷ 0x0a ∷ []

-- `encodeChunked`.
unfoldable pub encode_chunked : List (List ℕ) → List (List ℕ)
encode_chunked [] = last_chunk ∷ []
encode_chunked ([] ∷ body) = encode_chunked body
encode_chunked ((b ∷ bytes) ∷ body) =
    (to_hex (length (b ∷ bytes)) ++ crlf) ∷ (b ∷ bytes) ∷ crlf ∷ encode_chunked body

abbrev semicolon : ℕ
semicolon = 0x3b

-- The text before the first semicolon.
unfoldable pub size_text : List ℕ → List ℕ
size_text [] = []
size_text (c ∷ cs) = let rest = size_text cs in if c == semicolon then [] else c ∷ rest

abbrev pub is_hex : ℕ → Bool
is_hex c = is_digit c || is_between 0x61 0x66 c || is_between 0x41 0x46 c

abbrev pub hex_value : ℕ → ℕ
hex_value c = if is_digit c then c - 0x30 else if is_between 0x61 0x66 c then c - 0x57 else c - 0x37

-- `Number.parseInt(sizeText, 16)`.
unfoldable pub parse_hex : ℕ → List ℕ → ℕ
parse_hex n [] = n
parse_hex n (c ∷ cs) = parse_hex (n * 16 + hex_value c) cs

unfoldable pub parse_size : List ℕ → Result ℕ
parse_size line =
    let text = size_text line in
    if not (leb 1 (length text) && leb (length text) 32 && all_of is_hex text)
    then err invalid_chunk_size
    else if leb (2 ^ 53) (parse_hex 0 text)
    then err chunk_size_too_large
    else ok (parse_hex 0 text)

-- The trailer section, on fuel: each round counts at least two bytes.
unfoldable pub read_trailers : ℕ → (max_bytes used : ℕ) → Reader → Result Reader
read_trailers zero max_bytes used r = err out_of_fuel
read_trailers (suc fuel) max_bytes used r =
    if leb max_bytes used
    then err trailer_too_long
    else read_line (max_bytes - used) r >>= λ p.
        if ltb max_bytes (used + (length p.0 + 2))
        then err trailer_too_long
        else if leb (length p.0) 0
        then ok p.1
        else read_trailers fuel max_bytes (used + (length p.0 + 2)) p.1

-- What a generator yields, and how it ends.
abbrev pub Yields : Type 0
Yields = List (List ℕ) × Result Reader

abbrev pub yield_first : List ℕ → Yields → Yields
yield_first part y = (part ∷ y.0, y.1)

-- The loop over the data of a chunk, on fuel: each round takes at least one byte.
unfoldable pub read_data : ℕ → (remaining : ℕ) → Reader → Yields
read_data fuel zero r = ([], ok r)
read_data zero (suc remaining) r = ([], err out_of_fuel)
read_data (suc fuel) (suc remaining) r = elim (read_some (suc remaining) r) [
  | none ↦ ([], err chunk_truncated)
  | some p ↦ yield_first p.0 (read_data fuel (suc remaining - length p.0) p.1)
]

-- The line that ends a chunk: an error of the reader becomes one of the parser.
abbrev pub end_of_chunk : Result (List ℕ × Reader) → Result Reader
end_of_chunk (err e) = err chunk_not_terminated
end_of_chunk (ok ([], r)) = ok r
end_of_chunk (ok (b ∷ bytes, r)) = err chunk_not_terminated

abbrev pub and_then : Yields → (Reader → Yields) → Yields
and_then (parts, err e) f = (parts, err e)
and_then (parts, ok r) f = (parts ++ (f r).0, (f r).1)

abbrev pub failing : Error → Yields
failing e = ([], err e)

abbrev pub on_size : Result (ℕ × Reader) → (Reader → Yields) → (ℕ → Reader → Yields) → Yields
on_size (err e) last f = failing e
on_size (ok (zero, r)) last f = last r
on_size (ok (suc n, r)) last f = f (suc n) r

-- The line of a chunk's size.
abbrev pub read_size : ℕ → Reader → Result (ℕ × Reader)
read_size max_bytes r = read_line max_bytes r >>= λ p. parse_size p.0 >>= λ n. ok (n, p.1)

-- `decodeChunked`, on fuel: each round reads at least one line.
unfoldable pub decode_chunked : ℕ → ℕ → Reader → Yields
decode_chunked zero max_bytes r = failing out_of_fuel
decode_chunked (suc fuel) max_bytes r =
    on_size (read_size max_bytes r) (λ left. ([], read_trailers (suc max_bytes) max_bytes 0 left))
      (λ n left.
        and_then (read_data n n left) λ behind.
          and_then ([], end_of_chunk (read_line 2 behind)) (decode_chunked fuel max_bytes))
