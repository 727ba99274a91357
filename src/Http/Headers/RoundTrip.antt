-- ===== src/Http/Headers/RoundTrip.antt =====
-- Printing headers and reading them, and where the reading stops.
use simple_server.Prelude.{
  ◌≡◌, ◌≢◌, refl, sym, ap, ◌∙◌, false, some, List, [], ◌∷◌, ◌++◌, Bytes, codes, All, All-append,
  arith, append_assoc, append-nil,
}
use simple_server.Text.Search.{text_eq_ne, find_char}
use simple_server.Text.Words.{is_empty}
use simple_server.Text.StringMap.{insert}
use simple_server.Text.Lines.{lines, lines-append, IsLine}
use simple_server.Http.Codes.{crlf}
use simple_server.Http.Response.{StringMap, header_line, http_headers_to_response_string}
use simple_server.Http.Headers.{parse_line, parse_lines, parse_headers, behind_first}
use simple_server.Http.Headers.Line.{IsPlain, IsValue, IsHeader, printed, parse_line-printed}

printed_not_empty : (k v : Bytes) → is_empty (printed (k, v)) ≡ false
printed_not_empty [] v = refl
printed_not_empty (c ∷ k) v = refl

abbrev pub insert_all : StringMap → StringMap → StringMap
insert_all [] m = m
insert_all ((k, v) ∷ hs) m = insert_all hs (insert k v m)

IsLine-plain : (v : Bytes) → IsPlain v → IsLine v
IsLine-plain [] h = tt
IsLine-plain (c ∷ cs) (p, h) = (p.1, IsLine-plain cs h)

IsLine-value : (v : Bytes) → IsValue v → IsLine v
IsLine-value [] h = tt
IsLine-value (c ∷ cs) h = IsLine-plain (c ∷ cs) h.2

IsLine-printed : (k v : Bytes) → IsHeader (k, v) → IsLine (printed (k, v))
IsLine-printed k v h =
    All-append (λ c. c ≢ b'\n') k (codes ": " ++ (v ++ b'\r' ∷ [])) h.1
      (
        omega arith,
        (
          omega arith,
          All-append (λ c. c ≢ b'\n') v (b'\r' ∷ []) (IsLine-value v h.2) (omega arith, tt),
        ),
      )

lines-header :
    (k v rest : Bytes)
    → IsHeader (k, v)
    → lines (header_line (k, v) ++ rest) ≡ printed (k, v) ∷ lines rest
lines-header k v rest h =
    ap lines (regroup k v rest) ∙ lines-append (printed (k, v)) rest (IsLine-printed k v h)
  where
    regroup : (k v rest : Bytes) → header_line (k, v) ++ rest ≡ printed (k, v) ++ (b'\n' ∷ rest)
    regroup k v rest = simp append_assoc

parse_lines_more :
    (line : Bytes) (rest : List Bytes) (m m' : StringMap)
    → is_empty line ≡ false
    → parse_line line m ≡ some m'
    → parse_lines (line ∷ rest) m ≡ parse_lines rest m'
unfolding parse_lines
parse_lines_more line rest m m' e f = rw (e, f)

parse_lines-print :
    (hs : StringMap) (rest : Bytes) (m : StringMap)
    → All IsHeader hs
    → parse_lines (lines (http_headers_to_response_string hs ++ rest)) m
      ≡ parse_lines (lines rest) (insert_all hs m)
unfolding http_headers_to_response_string
parse_lines-print [] rest m h = refl
parse_lines-print ((k, v) ∷ hs) rest m (p, h) =
    ap (λ t. parse_lines (lines t) m) (append_assoc (header_line (k, v)) _ rest)
    ∙ ap (λ t. parse_lines t m) (lines-header k v (http_headers_to_response_string hs ++ rest) p)
    ∙ parse_lines_more (printed (k, v)) _ m (insert k v m) (printed_not_empty k v)
        (parse_line-printed k v m p)
    ∙ parse_lines-print hs rest (insert k v m) h

abbrev pub Distinct : StringMap → Type 0
Distinct [] = Unit
Distinct ((k, v) ∷ hs) = All (λ e. k ≢ e.0) hs × Distinct hs

insert_absent :
    (k v : Bytes) (m : StringMap) → All (λ e. e.0 ≢ k) m → insert k v m ≡ m ++ (k, v) ∷ []
unfolding insert
insert_absent k v [] h = refl
insert_absent k v ((j, w) ∷ m) (p, h) = rw (text_eq_ne j k p, insert_absent k v m h)

abbrev pub Apart : StringMap → StringMap → Type 0
Apart m hs = All (λ h. All (λ e. e.0 ≢ h.0) m) hs

Apart-snoc :
    (m hs : StringMap) (k v : Bytes)
    → Apart m hs
    → All (λ e. k ≢ e.0) hs
    → Apart (m ++ (k, v) ∷ []) hs
Apart-snoc m [] k v h d = tt
Apart-snoc m (e ∷ hs) k v (p, h) (q, d) =
    (All-append (λ x. x.0 ≢ e.0) m ((k, v) ∷ []) p (q, tt), Apart-snoc m hs k v h d)

pub insert_all-append : (hs m : StringMap) → Distinct hs → Apart m hs → insert_all hs m ≡ m ++ hs
insert_all-append [] m d a = sym (append-nil m)
insert_all-append ((k, v) ∷ hs) m (d, ds) (a, later) =
    ap (insert_all hs) (insert_absent k v m a)
    ∙ insert_all-append hs (m ++ (k, v) ∷ []) ds (Apart-snoc m hs k v later d)
    ∙ append_assoc m ((k, v) ∷ []) hs

pub Apart-nil : (hs : StringMap) → Apart [] hs
Apart-nil [] = tt
Apart-nil (h ∷ hs) = (tt, Apart-nil hs)

parse_headers-lines :
    (first rest : Bytes)
    → IsLine first
    → parse_headers (first ++ (b'\n' ∷ rest)) ≡ parse_lines (lines rest) []
unfolding parse_headers
parse_headers-lines first rest l =
    ap (λ t. parse_lines (behind_first t) []) (lines-append first rest l)

parse_lines_end : (m : StringMap) → parse_lines (lines []) m ≡ some m
unfolding parse_lines lines
parse_lines_end m = refl

-- Headers that print as lines and have different names are read back, in their order, when they are
-- printed behind a first line.
pub parse_headers-print :
    (first : Bytes) (hs : StringMap)
    → IsLine first
    → All IsHeader hs
    → Distinct hs
    → parse_headers (first ++ (b'\n' ∷ http_headers_to_response_string hs)) ≡ some hs
parse_headers-print first hs l h d =
    parse_headers-lines first (http_headers_to_response_string hs) l
    ∙ ap (λ t. parse_lines (lines t) []) (sym (append-nil (http_headers_to_response_string hs)))
    ∙ parse_lines-print hs [] [] h
    ∙ parse_lines_end (insert_all hs [])
    ∙ ap some (insert_all-append hs [] d (Apart-nil hs))

carriage_return : (m : StringMap) → parse_line (b'\r' ∷ []) m ≡ some m
unfolding parse_line find_char
carriage_return m = refl

-- For headers that print as lines behind a first line: the empty line that ends them holds a CR, and
-- so does not stop the loop. Whatever stands behind it is read as if that line were not there.
pub parse_headers_body :
    (first : Bytes) (hs : StringMap) (body : Bytes)
    → IsLine first
    → All IsHeader hs
    → parse_headers (first ++ (b'\n' ∷ (http_headers_to_response_string hs ++ (crlf ++ body))))
      ≡ parse_headers (first ++ (b'\n' ∷ (http_headers_to_response_string hs ++ body)))
parse_headers_body first hs body l h =
    parse_headers-lines first _ l
    ∙ parse_lines-print hs (crlf ++ body) [] h
    ∙ ap (λ t. parse_lines t (insert_all hs [])) (lines-append (b'\r' ∷ []) body (omega arith, tt))
    ∙ parse_lines_more (b'\r' ∷ []) (lines body) _ _ refl (carriage_return (insert_all hs []))
    ∙ sym (parse_lines-print hs body [] h)
    ∙ sym (parse_headers-lines first _ l)
