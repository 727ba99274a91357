-- ===== src/Http/Headers.antt =====
-- `parse_headers` of src/http_handler.cpp.
pub mod Line
pub mod RoundTrip
pub mod Bare
use simple_server.Prelude.{
  ℕ, ◌+◌, Bool, true, false, ◌&&◌, ◌||◌, Option, none, some, List, [], ◌∷◌, ◌++◌, Bytes, codes,
  take, drop, length, leb, ◌==◌, if◌then◌else◌,
}
use simple_server.Text.Search.{find_char}
use simple_server.Text.Words.{is_empty}
use simple_server.Text.StringMap.{insert}
use simple_server.Text.Lines.{lines}
use simple_server.Http.Response.{StringMap}

-- `s.erase(0, s.find_first_not_of(set))`: where every character is in the set, all go.
unfoldable pub erase_front : (ℕ → Bool) → Bytes → Bytes
erase_front in_set [] = []
erase_front in_set (c ∷ cs) =
    let later = erase_front in_set cs in if in_set c then later else c ∷ cs

-- `s.erase(s.find_last_not_of(set) + 1)`: `npos + 1` is 0.
unfoldable pub erase_back : (ℕ → Bool) → Bytes → Bytes
erase_back in_set [] = []
erase_back in_set (c ∷ cs) =
    let later = erase_back in_set cs in if in_set c && is_empty later then [] else c ∷ later

abbrev pub is_blank : ℕ → Bool
is_blank c = c == b' ' || c == b'\t'

abbrev pub is_cr : ℕ → Bool
is_cr c = c == b'\r'

abbrev pub is_lf : ℕ → Bool
is_lf c = c == b'\n'

abbrev pub is_newline : ℕ → Bool
is_newline c = c == b'\r' || c == b'\n'

-- The five calls of `erase` on `headerValue`.
unfoldable pub trim : Bytes → Bytes
trim s =
    erase_back is_newline
      (erase_front is_lf (erase_front is_cr (erase_back is_blank (erase_front is_blank s))))

-- `line.substr(pos)`, which throws `std::out_of_range` behind the end.
abbrev pub substr_from : ℕ → Bytes → Option Bytes
substr_from pos s = if leb pos (length s) then some (drop pos s) else none

-- One round of the loop; `none` is the exception.
unfoldable pub parse_line : Bytes → StringMap → Option StringMap
parse_line line headers = elim (find_char b':' line) [
  | none ↦ some headers
  | some colon_pos ↦ elim (substr_from (colon_pos + 2) line) [
    | none ↦ none
    | some value ↦ some (insert (take colon_pos line) (trim value) headers)
  ]
]

infixl 5 ◌>>=◌
abbrev pub ◌>>=◌ : {A B : Type 0} → Option A → (A → Option B) → Option B
none >>= f = none
some a >>= f = f a

-- The loop stops at the first empty line.
unfoldable pub parse_lines : List Bytes → StringMap → Option StringMap
parse_lines [] headers = some headers
parse_lines (line ∷ rest) headers =
    let more = parse_line line headers >>= parse_lines rest in
    if is_empty line then some headers else more

abbrev pub behind_first : List Bytes → List Bytes
behind_first [] = []
behind_first (l ∷ ls) = ls

unfoldable pub parse_headers : Bytes → Option StringMap
parse_headers request = parse_lines (behind_first (lines request)) []
