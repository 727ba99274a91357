-- ===== src/Experiments/Echo/Headers.antt =====
-- The headers of a request, as the echo server of experiments/cppws/cppws.cpp reads them.
use simple_server.Prelude.{
  suc, ◌≡◌, ◌≢◌, refl, sym, ap, ◌∙◌, false, none, some, List, [], ◌∷◌, ◌++◌, append_assoc, arith,
  Bytes, length, length-map, codes, All, All-append, map, take-length, drop-length-add, ==_ne,
}
use simple_server.Socket.{Script}
use simple_server.Text.Search.{find, starts_with, text_eq_ne, text_eq_refl}
use simple_server.Text.StringMap.{Map, insert}
use simple_server.Text.Words.{is_empty}
use simple_server.Http.Response.{header_line, http_headers_to_response_string}
use simple_server.Http.Headers.RoundTrip.{Distinct, Apart-nil, insert_all, insert_all-append}
use simple_server.Experiments.Echo.{split_by, add_line, extract_request}
use simple_server.Experiments.Echo.Echoes.{
  feed, IsText, IsRequestLine, request, add_lines, extract_request-request,
}

-- A header without carriage returns, and without a colon in its name.
abbrev pub IsField : Bytes × Bytes → Type 0
IsField (k, v) = All (λ c. c ≢ b':') k × IsText k × IsText v × (k ≢ codes "NOTHING")

abbrev field_line : Bytes × Bytes → Bytes
field_line (k, v) = k ++ (codes ": " ++ v)

find-colon :
    (k v : Bytes)
    → All (λ c. c ≢ b':') k
    → find (codes ": ") (k ++ (codes ": " ++ v)) ≡ some (length k)
unfolding find starts_with
find-colon [] v h = refl
find-colon (c ∷ k) v (p, h) = rw (==_ne b':' c (λ e. p (sym e)), find-colon k v h)

split_by-field :
    (k v : Bytes) → All (λ c. c ≢ b':') k → split_by (field_line (k, v)) (codes ": ") ≡ (k, v)
unfolding split_by
split_by-field k v h =
    rw (find-colon k v h, take-length k (codes ": " ++ v), drop-length-add k (codes ": " ++ v) 2)

add_line-field :
    (k v : Bytes) (ret : Map Bytes)
    → IsField (k, v)
    → add_line (field_line (k, v)) ret ≡ insert k v ret
unfolding add_line
add_line-field k v ret (h, _, _, other) =
    rw (split_by-field k v h, text_eq_ne k (codes "NOTHING") other)

add_line-ignored :
    (line : Bytes) (ret : Map Bytes) → find (codes ": ") line ≡ none → add_line line ret ≡ ret
unfolding add_line split_by
add_line-ignored line ret h = rw (h, text_eq_refl (codes "NOTHING")) refl

add_lines-fields :
    (hs ret : Map Bytes) → All IsField hs → add_lines (map field_line hs) ret ≡ insert_all hs ret
add_lines-fields [] ret h = refl
add_lines-fields ((k, v) ∷ hs) ret (p, h) =
    ap (add_lines (map field_line hs)) (add_line-field k v ret p)
    ∙ add_lines-fields hs (insert k v ret) h

field_line-IsRequestLine : (hs : Map Bytes) → All IsField hs → All IsRequestLine (map field_line hs)
field_line-IsRequestLine [] h = tt
field_line-IsRequestLine ((k, v) ∷ hs) ((_, text_k, text_v, _), h) = (
  (
    All-append (λ c. c ≢ b'\r') k (codes ": " ++ v) text_k (omega arith, (omega arith, text_v)),
    filled k,
  ),
  field_line-IsRequestLine hs h,
)
  where
    filled : (k : Bytes) → is_empty (k ++ (codes ": " ++ v)) ≡ false
    filled [] = refl
    filled (c ∷ k) = refl

feed-append : (xs ys : Bytes) (s : Script) → feed (xs ++ ys) s ≡ feed xs (feed ys s)
feed-append [] ys s = refl
feed-append (x ∷ xs) ys s = ap (λ t. some (x ∷ []) ∷ t) (feed-append xs ys s)

request-fields :
    (hs : Map Bytes) (s : Script)
    → feed (http_headers_to_response_string hs ++ codes "\r\n") s ≡ request (map field_line hs) s
unfolding http_headers_to_response_string
request-fields [] s = refl
request-fields ((k, v) ∷ hs) s =
    ap (λ t. feed t s) (regroup k v (http_headers_to_response_string hs))
    ∙ feed-append (field_line (k, v) ++ codes "\r\n") _ s
    ∙ ap (feed (field_line (k, v) ++ codes "\r\n")) (request-fields hs s)
  where
    regroup :
        (k v rest : Bytes)
        → (header_line (k, v) ++ rest) ++ codes "\r\n"
          ≡ (field_line (k, v) ++ codes "\r\n") ++ (rest ++ codes "\r\n")
    regroup k v rest = simp append_assoc

-- A request of a first line, not empty, without a carriage return, colon and space, of headers as
-- http_headers_to_response_string prints them, and of the empty line; it arrives character by
-- character, as recv asks for it. If the names differ, are not
-- NOTHING and hold no colon, and no text holds a carriage return, the map has exactly these
-- headers, and nothing behind the request is read. There is a round for each line.
pub extract_request-print :
    (first : Bytes) (hs : Map Bytes) (s : Script)
    → IsRequestLine first
    → find (codes ": ") first ≡ none
    → All IsField hs
    → Distinct hs
    → extract_request
        (suc (suc (length hs)))
        []
        (feed (first ++ (codes "\r\n" ++ (http_headers_to_response_string hs ++ codes "\r\n"))) s)
      ≡ some (hs, s)
extract_request-print first hs s line ignored fields distinct =
    ap (extract_request (suc (suc (length hs))) []) (arrives first)
    ∙ ap (λ n. extract_request (suc (suc n)) [] (request all_lines s))
        (sym (length-map field_line hs))
    ∙ extract_request-request all_lines [] s (line, field_line-IsRequestLine hs fields)
    ∙ ap (λ m. some (m, s))
        (ap (add_lines (map field_line hs)) (add_line-ignored first [] ignored)
          ∙ add_lines-fields hs [] fields
          ∙ insert_all-append hs [] distinct (Apart-nil hs))
  where
    all_lines : List Bytes
    all_lines = first ∷ map field_line hs

    arrives :
        (first : Bytes)
        → feed (first ++ (codes "\r\n" ++ (http_headers_to_response_string hs ++ codes "\r\n"))) s
          ≡ feed (first ++ codes "\r\n") (request (map field_line hs) s)
    arrives first =
        ap (λ t. feed t s) (sym (append_assoc first (codes "\r\n") _))
        ∙ feed-append (first ++ codes "\r\n") _ s
        ∙ ap (feed (first ++ codes "\r\n")) (request-fields hs s)
