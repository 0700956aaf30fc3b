-- ===== src/Msgpack/Texts.antt =====
-- Strings on the wire, and what is relied on of `TextDecoder`.
use webrun_wire.Common.{ℕ, ◌^◌, ◌<◌, ◌≡◌, refl, sym, ap, ◌∙◌, arith, List, [], ◌∷◌, All, length}
use webrun_wire.Common.{true, ◌&&◌, leb, Bool-cases, inl, inr}
use webrun_wire.Msgpack.Utf8.{
  encode_utf8, decode_utf8, all_ascii, IsScalar, utf8, utf16, encode_utf8-utf16,
}
use webrun_wire.Msgpack.Decode.{Host}

-- Documented behaviour of `TextDecoder` with `ignoreBOM`: the UTF-8 form of a text is decoded to the
-- text, here as its UTF-16 code units.
abbrev pub DecodesUtf8 : Host → Type 0
DecodesUtf8 host = (cs : List ℕ) → All IsScalar cs → host.utf8_decoder (utf8 cs) ≡ utf16 cs

-- A string with no lone surrogate, whose UTF-8 form has fewer than 2^32 bytes.
pub record IsText (s : List ℕ) : Type 0 where
  pub points : List ℕ
  pub scalars : All IsScalar points
  pub units : s ≡ utf16 points
  pub short : length (encode_utf8 s) < 2 ^ 32

utf8-ascii : (cs : List ℕ) → all_ascii (utf8 cs) ≡ true → utf8 cs ≡ utf16 cs
unfolding utf8 utf16
utf8-ascii [] h = refl
utf8-ascii (c ∷ cs) h = ground (arith, utf8-ascii cs)

pub decode_utf8-encode_utf8 :
    (host : Host) (s : List ℕ)
    → DecodesUtf8 host
    → IsText s
    → decode_utf8 host.utf8_decoder (encode_utf8 s) ≡ s
unfolding decode_utf8
decode_utf8-encode_utf8 host s good t =
    rw bytes (elim (Bool-cases (leb (length (utf8 t.points)) 12 && all_ascii (utf8 t.points))) [
      | inl short ↦ rw short (utf8-ascii t.points (ground arith) ∙ sym t.units)
      | inr long ↦ rw long (good t.points t.scalars ∙ sym t.units)
    ])
  where
    bytes : encode_utf8 s ≡ utf8 t.points
    bytes = ap encode_utf8 t.units ∙ encode_utf8-utf16 t.points t.scalars
