-- ===== src/Http/Headers/Framing.antt =====
-- How the length of a body is found.
use webrun_wire.Common.{ℕ, ◌≡◌, List, [], ◌∷◌}
use webrun_wire.Common.{Option, none, some}
use webrun_wire.Common.{length, ◌-◌, ◌*◌, ◌+◌, ◌^◌, ◌≤◌, ◌≢◌, All}
use webrun_wire.Http.Headers.{chunked_word}
use webrun_wire.Http.Bytes.{Result, ok}
use webrun_wire.Http.Headers.{Headers, pieces, BodyFraming, chunked, no_body, body_length}
use webrun_wire.Http.Headers.{http_1_0, encodings}

-- The number that digits stand for.
abbrev pub place_value : List ℕ → ℕ
place_value [] = 0
place_value (d ∷ ds) = (d - 0x30) * 10 ^ length ds + place_value ds

abbrev pub IsDigit : ℕ → Type 0
IsDigit d = (0x30 ≤ d) × (d ≤ 0x39)

-- The lists of values that a framing comes from: never of both fields.
abbrev pub IsFramed : (te cl : List (List ℕ)) → List ℕ → BodyFraming → Type 0
IsFramed te cl version chunked =
    (te ≢ []) × (cl ≡ []) × (encodings te ≡ chunked_word ∷ []) × (version ≢ http_1_0)
IsFramed te cl version no_body = (te ≡ []) × (cl ≡ [])
IsFramed te cl version (body_length n) =
    (te ≡ [])
    × (cl ≢ [])
    × ((raw : List ℕ) × (others : List (List ℕ)) × (pieces cl ≡ raw ∷ others)
        × All (λ other. other ≡ raw) others
        × (1 ≤ length raw)
        × (length raw ≤ 15)
        × All IsDigit raw
        × (n ≡ place_value raw))

abbrev head_or : ℕ → List ℕ → ℕ
head_or x [] = x
head_or x (y ∷ ys) = y

abbrev tail_of : List ℕ → List ℕ
tail_of [] = []
tail_of (y ∷ ys) = ys

length_framing : Option ℕ → Result BodyFraming
length_framing n = ok (elim n [ some k ↦ body_length k | none ↦ no_body ])

-- The text of a length, as `/^\d{1,15}$/` takes it.
abbrev IsLength : List ℕ → Type 0
IsLength raw = (1 ≤ length raw) × (length raw ≤ 15) × All IsDigit raw
