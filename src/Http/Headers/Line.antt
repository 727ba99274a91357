-- ===== src/Http/Headers/Line.antt =====
-- One header line: the trimming of its value, and reading a line that the server printed.
use simple_server.Prelude.{
  ℕ, ◌+◌, ◌≡◌, ◌≢◌, refl, ◌∙◌, Bool, true, false, some, [], ◌∷◌, ◌++◌, Bytes, codes, take, length,
  length-append, take-length, drop-length-add, le→leb, ==_ne, All, arith,
}
use simple_server.Text.Search.{find_char, find_char-append}
use simple_server.Text.Words.{is_empty}
use simple_server.Text.StringMap.{insert}
use simple_server.Text.Lines.{IsLine}
use simple_server.Http.Response.{StringMap}
use simple_server.Http.Headers.{
  erase_front, erase_back, is_newline, is_blank, is_cr, is_lf, trim, substr_from, parse_line,
}

erase_back_kept :
    (p : ℕ → Bool) (s : Bytes) (x : ℕ) → p x ≡ false → erase_back p (s ++ x ∷ []) ≡ s ++ x ∷ []
unfolding erase_back
erase_back_kept p [] x h = rw h
erase_back_kept p (c ∷ s) x h = rw (erase_back_kept p s x h) (ground (arith, snoc_not_empty s x))
  where
    snoc_not_empty : (s : Bytes) (x : ℕ) → is_empty (s ++ x ∷ []) ≡ false
    snoc_not_empty [] x = refl
    snoc_not_empty (c ∷ s) x = refl

erase_back_dropped :
    (p : ℕ → Bool) (s : Bytes) (x : ℕ) → p x ≡ true → erase_back p (s ++ x ∷ []) ≡ erase_back p s
unfolding erase_back
erase_back_dropped p [] x h = rw h
erase_back_dropped p (c ∷ s) x h = rw (erase_back_dropped p s x h)

erase_back_none : (p : ℕ → Bool) (s : Bytes) → All (λ c. p c ≡ false) s → erase_back p s ≡ s
unfolding erase_back
erase_back_none p [] h = refl
erase_back_none p (c ∷ s) (e, h) = rw (e, erase_back_none p s h)

-- A value that starts with no blank and holds no line break.
abbrev pub IsPlain : Bytes → Type 0
IsPlain = All (λ c. (c ≢ b'\r') × (c ≢ b'\n'))

abbrev pub IsValue : Bytes → Type 0
IsValue [] = Unit
IsValue (c ∷ cs) = (c ≢ b' ') × (c ≢ b'\t') × IsPlain (c ∷ cs)

IsPlain-newline : (s : Bytes) → IsPlain s → All (λ c. is_newline c ≡ false) s
IsPlain-newline [] h = tt
IsPlain-newline (c ∷ s) (p, h) = (rw (==_ne c b'\r' p.0, ==_ne c b'\n' p.1), IsPlain-newline s h)

trim_empty : trim (b'\r' ∷ []) ≡ []
unfolding trim erase_front erase_back
trim_empty = refl

erase_front_kept : (p : ℕ → Bool) (c : ℕ) (s : Bytes) → p c ≡ false → erase_front p (c ∷ s) ≡ c ∷ s
unfolding erase_front
erase_front_kept p c s h = rw h

trim-value : (v : Bytes) → IsValue v → trim (v ++ b'\r' ∷ []) ≡ v
unfolding trim
trim-value [] h = trim_empty
trim-value (c ∷ cs) (h1, h2, (h3, h)) =
    rw
      (
        erase_front_kept is_blank c (cs ++ b'\r' ∷ []) (rw (==_ne c b' ' h1, ==_ne c b'\t' h2)),
        erase_back_kept is_blank (c ∷ cs) b'\r' refl,
        erase_front_kept is_cr c (cs ++ b'\r' ∷ []) (==_ne c b'\r' h3.0),
        erase_front_kept is_lf c (cs ++ b'\r' ∷ []) (==_ne c b'\n' h3.1),
        erase_back_dropped is_newline (c ∷ cs) b'\r' refl,
      )
      (erase_back_none is_newline (c ∷ cs) (IsPlain-newline (c ∷ cs) (h3, h)))

-- The line of a header, without its newline.
abbrev pub printed : Bytes × Bytes → Bytes
printed (k, v) = k ++ (codes ": " ++ (v ++ b'\r' ∷ []))

abbrev pub IsHeader : Bytes × Bytes → Type 0
IsHeader (k, v) = All (λ c. c ≢ b':') k × IsLine k × IsValue v

parse_line_header :
    (line : Bytes) (m : StringMap) (pos : ℕ) (value : Bytes)
    → find_char b':' line ≡ some pos
    → substr_from (pos + 2) line ≡ some value
    → parse_line line m ≡ some (insert (take pos line) (trim value) m)
unfolding parse_line
parse_line_header line m pos value e f = ground arith

value_part : (k v : Bytes) → substr_from (length k + 2) (printed (k, v)) ≡ some (v ++ b'\r' ∷ [])
value_part k v = rw (
  le→leb (length k + 2) (length (printed (k, v)))
      (omega (arith, length-append k (codes ": " ++ (v ++ b'\r' ∷ [])))),
  drop-length-add k (codes ": " ++ (v ++ b'\r' ∷ [])) 2,
)

pub parse_line-printed :
    (k v : Bytes) (m : StringMap)
    → IsHeader (k, v)
    → parse_line (printed (k, v)) m ≡ some (insert k v m)
parse_line-printed k v m (hk, hl, hv) =
    parse_line_header (printed (k, v)) m (length k) (v ++ b'\r' ∷ [])
      (find_char-append b':' k (b' ' ∷ (v ++ b'\r' ∷ [])) hk) (value_part k v)
    ∙ rw (take-length k (codes ": " ++ (v ++ b'\r' ∷ [])), trim-value v hv)
