-- ===== src/Http/Chunked/RoundTrip.antt =====
-- `encodeChunked` and `decodeChunked` together.
use webrun_wire.Common.{ℕ, zero, suc, ◌-◌, ◌≤◌, ◌<◌, ◌≡◌, ◌^◌, refl, sym, ap, ap₂, ◌∙◌, arith}
use webrun_wire.Common.{List, [], ◌∷◌, ◌++◌, append_assoc, length, length-append, take, drop, min}
use webrun_wire.Common.{Option, some, true, false, take-append-drop, length-take}
use webrun_wire.Common.{ltb_of_le, All, leb, length-drop}
use webrun_wire.Http.Bytes.{new_reader, Reader, ok, err, Result, cr, lf, read_some_loop, read_line}
use webrun_wire.Http.Bytes.Lines.{concat, remaining, IsNotLf, read_line-chunks}
use webrun_wire.Http.Headers.{crlf, all_of}
use webrun_wire.Http.Chunked.{encode_chunked, decode_chunked, read_data, read_trailers, to_hex}
use webrun_wire.Http.Chunked.{is_hex, hex_loop, read_size, Yields, and_then, end_of_chunk}
use webrun_wire.Http.Chunked.Sizes.{parse_size-to_hex, all_of-to_hex, length-to_hex}

-- What `readSome` takes of the bytes that are left.
record Takes (n : ℕ) (bytes : List ℕ) (o : Option (List ℕ × Reader)) : Type 0 where
  part : List ℕ
  left : Reader
  given : o ≡ some (part, left)
  some_byte : 1 ≤ length part
  within : length part ≤ n
  whole : part ++ remaining left ≡ bytes

read_some_loop-Takes :
    (n : ℕ) (buf : List ℕ) (source : List (List ℕ))
    → 1 ≤ n
    → 1 ≤ length (buf ++ concat source)
    → Takes n (buf ++ concat source) (read_some_loop n buf source)
unfolding read_some_loop
read_some_loop-Takes n [] [] h l = absurd (omega (arith, l))
read_some_loop-Takes n [] (chunk ∷ source) h l = read_some_loop-Takes n chunk source h l
read_some_loop-Takes n (b ∷ bytes) source h l =
    let k = min n (length (b ∷ bytes)) in
    record {
      part = take k (b ∷ bytes);
      left = record { buf = drop k (b ∷ bytes); source = source };
      given = refl;
      some_byte = omega (arith, length-take k (b ∷ bytes), h);
      within = omega (arith, length-take k (b ∷ bytes));
      whole =
          sym (append_assoc (take k (b ∷ bytes)) (drop k (b ∷ bytes)) (concat source))
          ∙ ap (λ x. x ++ concat source) (take-append-drop k (b ∷ bytes));
    }

-- A prefix that is no longer than `body`.
take_prefix :
    (part rest body more : List ℕ)
    → part ++ rest ≡ body ++ more
    → length part ≤ length body
    → (part ≡ take (length part) body) × (rest ≡ drop (length part) body ++ more)
take_prefix [] rest body more h l = (refl, h)
take_prefix (b ∷ part) rest [] more h l = absurd (omega (arith, l))
take_prefix (b ∷ part) rest (c ∷ body) more h l =
    let same : (part ++ rest) ≡ (body ++ more) = ap (drop 1) h in
    let head : b ≡ c = ap (first b) h in
    let r = take_prefix part rest body more same (omega (arith, l)) in
    (ap₂ (λ x xs. x ∷ xs) head r.0, r.1)
  where
    first : ℕ → List ℕ → ℕ
    first d [] = d
    first d (x ∷ xs) = x

-- The bytes that a generator yields, and those that it leaves.
pub record Gives (y : Yields) (bytes rest : List ℕ) : Type 0 where
  pub left : Reader
  pub ends : y.1 ≡ ok left
  pub data_bytes : concat y.0 ≡ bytes
  pub behind : remaining left ≡ rest

pub read_data-Gives :
    (fuel n : ℕ) (r : Reader) (bytes rest : List ℕ)
    → n ≤ fuel
    → length bytes ≡ n
    → remaining r ≡ bytes ++ rest
    → Gives (read_data fuel n r) bytes rest
unfolding read_data
read_data-Gives fuel zero r [] rest f l e = record {
  left = r;
  ends = refl;
  data_bytes = refl;
  behind = e;
}
read_data-Gives fuel zero r (b ∷ bytes) rest f l e = absurd (omega (arith, l))
read_data-Gives zero (suc n) r bytes rest f l e = absurd (omega (arith, f))
read_data-Gives (suc fuel) (suc n) r bytes rest f l e =
    let t =
      read_some_loop-Takes (suc n) r.buf r.source (omega arith)
        (omega (arith, l, ap length e, length-append bytes rest)) in
    let p =
      take_prefix t.part (remaining t.left) bytes rest (t.whole ∙ e) (omega (arith, t.within, l)) in
    let g =
      read_data-Gives fuel (suc n - length t.part) t.left (drop (length t.part) bytes) rest
        (omega (arith, t.some_byte, f)) (omega (arith, length-drop (length t.part) bytes, l)) p.1 in
    rw (read_data, t.given)
      (record {
        left = g.left;
        ends = g.ends;
        data_bytes =
            ap (λ x. t.part ++ x) g.data_bytes
            ∙ ap (λ x. x ++ drop (length t.part) bytes) p.0
            ∙ take-append-drop (length t.part) bytes;
        behind = g.behind;
      })

abbrev reader_or : Reader → Result Reader → Reader
reader_or r (ok left) = left
reader_or r (err e) = r

concat-append : (xs ys : List (List ℕ)) → concat (xs ++ ys) ≡ concat xs ++ concat ys
concat-append [] ys = refl
concat-append (x ∷ xs) ys =
    ap (λ z. x ++ z) (concat-append xs ys) ∙ sym (append_assoc x (concat xs) (concat ys))

pub and_then-Gives :
    (y : Yields) (f : Reader → Yields) (xs ys middle rest : List ℕ)
    → Gives y xs middle
    → ((r : Reader) → remaining r ≡ middle → Gives (f r) ys rest)
    → Gives (and_then y f) (xs ++ ys) rest
and_then-Gives (parts, err e) f xs ys middle rest g h = absurd (ground (arith, g.ends))
and_then-Gives (parts, ok r) f xs ys middle rest g h =
    let more = h r (ap (λ o. remaining (reader_or r o)) g.ends ∙ g.behind) in
    record {
      left = more.left;
      ends = more.ends;
      data_bytes = concat-append parts (f r).0 ∙ ap₂ (λ a b. a ++ b) g.data_bytes more.data_bytes;
      behind = more.behind;
    }

hex_no_lf : (text : List ℕ) → all_of is_hex text ≡ true → All IsNotLf text
hex_no_lf [] h = tt
hex_no_lf (c ∷ text) h = (λ e. ground (arith, e, h), hex_no_lf text (ground (arith, h)))

-- The line of the size of a chunk, and what it leaves.
size_line :
    (max_bytes n : ℕ) (r : Reader) (rest : List ℕ)
    → n < 2 ^ 53
    → 15 ≤ max_bytes
    → remaining r ≡ to_hex n ++ (cr ∷ lf ∷ rest)
    → (left : Reader) × (read_size max_bytes r ≡ ok (n, left)) × (remaining left ≡ rest)
size_line max_bytes n r rest h l e =
    let line =
      read_line-chunks max_bytes r (to_hex n) rest (hex_no_lf (to_hex n) (all_of-to_hex n)) e
        (omega (arith, length-to_hex n h, l)) in
    (line.0, rw (line.1, parse_size-to_hex n h) refl, line.2)

-- The empty line behind a chunk.
empty_line :
    (r : Reader) (rest : List ℕ)
    → remaining r ≡ cr ∷ lf ∷ rest
    → Gives ([], end_of_chunk (read_line 2 r)) [] rest
empty_line r rest e =
    let line = read_line-chunks 2 r [] rest tt e (omega arith) in
    record { left = line.0; ends = ap end_of_chunk line.1; data_bytes = refl; behind = line.2 }

no_trailers :
    (max_bytes : ℕ) (r : Reader) (rest : List ℕ)
    → 15 ≤ max_bytes
    → remaining r ≡ cr ∷ lf ∷ rest
    → Gives ([], read_trailers (suc max_bytes) max_bytes 0 r) [] rest
unfolding read_trailers
no_trailers max_bytes r rest l e =
    let line = read_line-chunks (max_bytes - 0) r [] rest tt e (omega (arith, l)) in
    rw (unused, line.1, ltb_of_le max_bytes 2 (omega (arith, l)))
      (record { left = line.0; ends = refl; data_bytes = refl; behind = line.2 })
  where
    unused : leb max_bytes 0 ≡ false
    unused = ground (arith, l)

-- A body whose chunks are of sizes that are written exactly.
abbrev pub IsSized : List (List ℕ) → Type 0
IsSized body = All (λ chunk. length chunk < 2 ^ 53) body

last_lem :
    (rest : List ℕ) → concat (encode_chunked []) ++ rest ≡ to_hex 0 ++ (cr ∷ lf ∷ cr ∷ lf ∷ rest)
unfolding encode_chunked to_hex hex_loop
last_lem rest = refl

cut :
    (h d x rest : List ℕ)
    → ((h ++ crlf) ++ (d ++ (crlf ++ x))) ++ rest ≡ h ++ (cr ∷ lf ∷ (d ++ (crlf ++ (x ++ rest))))
cut h d x rest =
    append_assoc (h ++ crlf) (d ++ (crlf ++ x)) rest
    ∙ append_assoc h crlf ((d ++ (crlf ++ x)) ++ rest)
    ∙ ap (λ z. h ++ (crlf ++ z)) (append_assoc d (crlf ++ x) rest)

pub decode_chunked-Gives :
    (fuel max_bytes : ℕ) (body : List (List ℕ)) (r : Reader) (rest : List ℕ)
    → length body < fuel
    → 15 ≤ max_bytes
    → IsSized body
    → remaining r ≡ concat (encode_chunked body) ++ rest
    → Gives (decode_chunked fuel max_bytes r) (concat body) rest
unfolding decode_chunked encode_chunked
decode_chunked-Gives zero max_bytes body r rest f l s e = absurd (omega (arith, f))
decode_chunked-Gives (suc fuel) max_bytes [] r rest f l s e =
    let size = size_line max_bytes 0 r (cr ∷ lf ∷ rest) (omega arith) l (e ∙ last_lem rest) in
    rw size.1 (no_trailers max_bytes size.0 rest l size.2)
decode_chunked-Gives (suc fuel) max_bytes ([] ∷ body) r rest f l (z, s) e =
    decode_chunked-Gives (suc fuel) max_bytes body r rest (omega (arith, f)) l s e
decode_chunked-Gives (suc fuel) max_bytes ((b ∷ bytes) ∷ body) r rest f l (z, s) e =
    let after = crlf ++ (concat (encode_chunked body) ++ rest) in
    let size =
      size_line max_bytes (length (b ∷ bytes)) r ((b ∷ bytes) ++ after) z l
        (e ∙ cut (to_hex (length (b ∷ bytes))) (b ∷ bytes) (concat (encode_chunked body)) rest) in
    rw size.1 (
      and_then-Gives _ _ (b ∷ bytes) (concat body) after rest
        (read_data-Gives (length (b ∷ bytes)) (length (b ∷ bytes)) size.0 (b ∷ bytes) after
          (omega arith) refl size.2)
        (λ behind g.
          and_then-Gives _ _ [] (concat body) (concat (encode_chunked body) ++ rest) rest
            (empty_line behind (concat (encode_chunked body) ++ rest) g)
            (λ next k.
              decode_chunked-Gives fuel max_bytes body next rest (omega (arith, f)) l s k)))

-- A body that `encodeChunked` has written, of chunks below 2^53 bytes, is read back by `decodeChunked` as the same
-- bytes, however what it wrote is cut into chunks on the way, with a bound of 15 bytes or more for its lines:
-- it does not fail, and leaves what follows the body. One unit of fuel more than the body has chunks is enough.
pub decode_chunked-encode_chunked :
    (fuel max_bytes : ℕ) (body input : List (List ℕ)) (rest : List ℕ)
    → length body < fuel
    → 15 ≤ max_bytes
    → IsSized body
    → concat input ≡ concat (encode_chunked body) ++ rest
    → (left : Reader) × ((decode_chunked fuel max_bytes (new_reader input)).1 ≡ ok left)
      × (concat (decode_chunked fuel max_bytes (new_reader input)).0 ≡ concat body)
      × (remaining left ≡ rest)
decode_chunked-encode_chunked fuel max_bytes body input rest f l s e =
    let g = decode_chunked-Gives fuel max_bytes body (new_reader input) rest f l s e in
    (g.left, g.ends, g.data_bytes, g.behind)
