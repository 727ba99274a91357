-- ===== src/Text/Lines.antt =====
-- The lines that repeated calls of `std::getline` on a stream over a text give.
use simple_server.Prelude.{
  ◌≡◌, ◌≢◌, refl, ap, ◌∙◌, List, [], ◌∷◌, ◌++◌, Bytes, All, append_assoc, append-nil, if◌then◌else◌,
  ◌==◌, ==_ne,
}

-- `cur` is the part of the current line that was read; at the end of the text a line without its
-- newline still counts, if it has a character.
unfoldable pub lines_from : Bytes → Bytes → List Bytes
lines_from [] [] = []
lines_from (c ∷ cs) [] = (c ∷ cs) ∷ []
lines_from cur (c ∷ cs) =
    let ended = cur ∷ lines_from [] cs in
    let longer = lines_from (cur ++ c ∷ []) cs in if c == b'\n' then ended else longer

unfoldable pub lines : Bytes → List Bytes
unfolding lines_from
lines = lines_from []

-- Every line with a newline behind it.
abbrev pub unlines : List Bytes → Bytes
unlines [] = []
unlines (l ∷ ls) = l ++ (b'\n' ∷ unlines ls)

abbrev pub IsLine : Bytes → Type 0
IsLine = All (λ c. c ≢ b'\n')

lines_from-append :
    (cur l rest : Bytes)
    → IsLine l
    → lines_from cur (l ++ (b'\n' ∷ rest)) ≡ (cur ++ l) ∷ lines_from [] rest
unfolding lines_from
lines_from-append [] [] rest h = refl
lines_from-append (d ∷ ds) [] rest h = rw (append-nil ds)
lines_from-append [] (c ∷ l) rest (p, h) =
    rw (==_ne c b'\n' p) (lines_from-append (c ∷ []) l rest h)
lines_from-append (d ∷ ds) (c ∷ l) rest (p, h) =
    rw (==_ne c b'\n' p)
      (lines_from-append (d ∷ ds ++ c ∷ []) l rest h ∙ rw (append_assoc ds (c ∷ []) l))

-- A line is read up to its newline, and reading goes on behind it.
pub lines-append : (l rest : Bytes) → IsLine l → lines (l ++ (b'\n' ∷ rest)) ≡ l ∷ lines rest
unfolding lines
lines-append l rest h = lines_from-append [] l rest h

pub lines-unlines : (ls : List Bytes) → All IsLine ls → lines (unlines ls) ≡ ls
unfolding lines
lines-unlines [] h = refl
lines-unlines (l ∷ ls) (p, h) = lines-append l (unlines ls) p ∙ ap (λ t. l ∷ t) (lines-unlines ls h)
