-- ===== src/Http/Headers/Bare.antt =====
-- The header lines on which `parse_headers` throws.
use simple_server.Prelude.{
  ℕ, ◌+◌, ◌≡◌, ◌≢◌, ◌⊎◌, refl, true, false, none, some, List, [], ◌∷◌, ◌++◌, Bytes, length, take,
  drop, length-append, leb, All, arith, inl, inr, Bool-cases, ◌==◌,
}
use simple_server.Text.Search.{find_char-none, find_char-append}
use simple_server.Text.Words.{is_empty}
use simple_server.Text.StringMap.{insert}
use simple_server.Text.Lines.{lines}
use simple_server.Http.Response.{StringMap}
use simple_server.Http.Headers.{trim, parse_line, parse_lines, behind_first, parse_headers}

-- A line whose first colon is its last character.
pub data IsBare : Bytes → Type 0 where
  bare : (k : Bytes) → All (λ c. c ≢ b':') k → IsBare (k ++ b':' ∷ [])

-- A bare line stands before the first empty one.
pub data HasBareLine : List Bytes → Type 0 where
  this : {line : Bytes} {rest : List Bytes} → IsBare line → HasBareLine (line ∷ rest)
  later :
      {line : Bytes} {rest : List Bytes}
      → is_empty line ≡ false
      → HasBareLine rest
      → HasBareLine (line ∷ rest)

-- Around the first colon of a line.
data Around : Bytes → Type 0 where
  no_colon : {line : Bytes} → All (λ c. c ≢ b':') line → Around line
  colon : (k rest : Bytes) → All (λ c. c ≢ b':') k → Around (k ++ b':' ∷ rest)

around : (line : Bytes) → Around line
around [] = no_colon tt
around (c ∷ line) = elim (Bool-cases (c == b':')) [
  | inl e ↦ rw (is_colon c e) (colon [] line tt)
  | inr e ↦ extended c line (λ f. absurd (ground (arith, e, f))) (around line)
]
  where
    is_colon : (c : ℕ) → (c == b':') ≡ true → c ≡ b':'
    is_colon c e = ground arith

    extended : (c : ℕ) (line : Bytes) → c ≢ b':' → Around line → Around (c ∷ line)
    extended c line n (no_colon h) = no_colon (n, h)
    extended c line n (colon k rest h) = colon (c ∷ k) rest (n, h)

parse_line-bare : (line : Bytes) (m : StringMap) → IsBare line → parse_line line m ≡ none
unfolding parse_line
parse_line-bare line m (bare k h) =
    rw (find_char-append b':' k [] h, parse_line) (rw (too_short k) refl)
  where
    too_short : (k : Bytes) → leb (length k + 2) (length (k ++ b':' ∷ [])) ≡ false
    too_short k = ground (arith, length-append k (b':' ∷ []))

parse_line_defined :
    (line : Bytes) (m : StringMap)
    → IsBare line ⊎ ((m' : StringMap) × (parse_line line m ≡ some m'))
unfolding parse_line
parse_line_defined line m = by (around line)
  where
    long_enough :
        (k : Bytes) (r : ℕ) (rest : Bytes)
        → leb (length k + 2) (length (k ++ b':' ∷ r ∷ rest)) ≡ true
    long_enough k r rest = ground (arith, length-append k (b':' ∷ r ∷ rest))

    by :
        {line : Bytes}
        → Around line
        → IsBare line ⊎ ((m' : StringMap) × (parse_line line m ≡ some m'))
    by (no_colon {line = line} h) = inr (m, rw (find_char-none b':' line h, parse_line) refl)
    by (colon k [] h) = inl (bare k h)
    by (colon k (r ∷ rest) h) =
        let line = k ++ b':' ∷ r ∷ rest in
        (inr (
          insert (take (length k) line) (trim (drop (length k + 2) line)) m,
          rw (find_char-append b':' k (r ∷ rest) h, parse_line) (rw (long_enough k r rest) refl),
        ))

parse_lines-bare : (ls : List Bytes) (m : StringMap) → HasBareLine ls → parse_lines ls m ≡ none
unfolding parse_lines
parse_lines-bare [] m h = elim h [ ]
parse_lines-bare (line ∷ rest) m (this (bare [] h)) =
    rw (parse_line-bare (b':' ∷ []) m (bare [] h)) refl
parse_lines-bare (line ∷ rest) m (this (bare (c ∷ k) h)) =
    rw (parse_line-bare (c ∷ k ++ b':' ∷ []) m (bare (c ∷ k) h)) refl
parse_lines-bare (line ∷ rest) m (later filled h) = elim (parse_line_defined line m) [
  | inl b ↦ rw (filled, parse_line-bare line m b) refl
  | inr (m', e) ↦ rw (filled, e) (parse_lines-bare rest m' h)
]

parse_lines_defined :
    (ls : List Bytes) (m : StringMap)
    → HasBareLine ls ⊎ ((m' : StringMap) × (parse_lines ls m ≡ some m'))
unfolding parse_lines
parse_lines_defined [] m = inr (m, refl)
parse_lines_defined (line ∷ rest) m = elim (Bool-cases (is_empty line)) [
  | inl e ↦ inr (m, rw e refl)
  | inr filled ↦ elim (parse_line_defined line m) [
    | inl b ↦ inl (this b)
    | inr (m', e) ↦ elim (parse_lines_defined rest m') [
      | inl h ↦ inl (later filled h)
      | inr (m'', f) ↦ inr (m'', rw (filled, e) f)
    ]
  ]
]

-- Either the headers of a request are read, or a line before the first empty one has its first colon
-- at its end, and the exception of substr leaves parse_headers.
pub parse_headers_defined :
    (request : Bytes)
    → HasBareLine (behind_first (lines request))
      ⊎ ((m : StringMap) × (parse_headers request ≡ some m))
unfolding parse_headers
parse_headers_defined request = parse_lines_defined (behind_first (lines request)) []

pub parse_headers-bare :
    (request : Bytes) → HasBareLine (behind_first (lines request)) → parse_headers request ≡ none
unfolding parse_headers
parse_headers-bare request h = parse_lines-bare (behind_first (lines request)) [] h
