-- ===== src/Http/Request/Line.antt =====
-- The parts of a well-formed request line.
use mathlib.Core.List.{map, map-append}
use simple_server.Prelude.{
  ℕ, suc, ◌+◌, ◌-◌, ◌≡◌, ◌≢◌, refl, sym, ap, ◌∙◌, some, [], ◌∷◌, ◌++◌, Bytes, codes, length,
  take-length, drop-length-add, le→leb, ==_ne, All, arith,
}
use simple_server.Text.Search.{
  find, find_char, starts_with, contains-append, find_char-none, find_char-append,
}
use simple_server.Text.Words.{to_lower, to_lower_case}
use simple_server.Http.Codes.{get}
use simple_server.Http.Request.{
  substr_to, extract_http_verb, behind_space, url_part, extract_url_with_query_params, extract_url,
  parse_http_request_verb,
}

abbrev pub NoSpace : Bytes → Type 0
NoSpace = All (λ d. d ≢ b' ')

abbrev pub version : Bytes
version = codes " HTTP/1.1"

-- A text that begins with a space stands behind everything without one.
find-version :
    (s rest : Bytes) → NoSpace s → find version (s ++ (version ++ rest)) ≡ some (length s)
unfolding find starts_with
find-version [] rest h = refl
find-version (c ∷ s) rest (p, h) = rw (==_ne b' ' c (λ e. p (sym e)), find-version s rest h)

find-version_target :
    (verb path rest : Bytes)
    → NoSpace verb
    → NoSpace path
    → find version (verb ++ (b' ' ∷ b'/' ∷ (path ++ (version ++ rest))))
      ≡ some (length verb + suc (suc (length path)))
unfolding find starts_with
find-version_target [] path rest h k = rw (find-version path rest k) (ap some (omega arith))
find-version_target (c ∷ verb) path rest (p, h) k =
    rw (==_ne b' ' c (λ e. p (sym e)), find-version_target verb path rest h k)
      (ap some (omega arith))

-- The text between the first space and the version.
url_part-target :
    (verb path rest : Bytes)
    → url_part
        (length verb + 1)
        (some (length verb + suc (suc (length path))))
        (verb ++ (b' ' ∷ b'/' ∷ (path ++ (version ++ rest))))
      ≡ b'/' ∷ path
url_part-target verb path rest =
    rw
      (
        le→leb (length verb + 1) (length verb + suc (suc (length path))) (omega arith),
        drop-length-add verb (b' ' ∷ b'/' ∷ (path ++ (version ++ rest))) 1,
        width (length verb) (length path),
      )
      (ap (λ t. b'/' ∷ t) (take-length path (version ++ rest)))
  where
    width : (m n : ℕ) → m + suc (suc n) - (m + 1) ≡ suc n
    width m n = omega arith

-- The text of a request with a target that starts with a slash.
abbrev pub request : Bytes → Bytes → Bytes → Bytes
request verb path rest = verb ++ (b' ' ∷ b'/' ∷ (path ++ (version ++ rest)))

module _ (verb path rest : Bytes) (h : NoSpace verb) (k : NoSpace path) where
  pub verb_lem : extract_http_verb (request verb path rest) ≡ verb
  unfolding extract_http_verb
  verb_lem =
      rw (find_char-append b' ' verb (b'/' ∷ (path ++ (version ++ rest))) h) (take-length verb _)

  target_lem :
      url_part
        (behind_space (find_char b' ' (request verb path rest)))
        (find version (request verb path rest))
        (request verb path rest)
      ≡ b'/' ∷ path
  target_lem =
      rw
        (
          find_char-append b' ' verb (b'/' ∷ (path ++ (version ++ rest))) h,
          find-version_target verb path rest h k,
        )
        (url_part-target verb path rest)

-- For a verb, a path and parameters without a space and a path without `?`: the verb, the target and
-- the path are extracted from a request `verb /path?params HTTP/1.1...`.
pub request_line :
    (verb path params rest : Bytes)
    → NoSpace verb
    → NoSpace (path ++ (b'?' ∷ params))
    → All (λ d. d ≢ b'?') path
    → (extract_http_verb (request verb (path ++ (b'?' ∷ params)) rest) ≡ verb)
      × (extract_url_with_query_params (request verb (path ++ (b'?' ∷ params)) rest)
          ≡ b'/' ∷ (path ++ (b'?' ∷ params)))
      × (extract_url (request verb (path ++ (b'?' ∷ params)) rest) ≡ b'/' ∷ path)
unfolding extract_url_with_query_params extract_url
request_line verb path params rest h k q = (
  verb_lem verb (path ++ (b'?' ∷ params)) rest h k,
  target_lem verb (path ++ (b'?' ∷ params)) rest h k,
  ap (λ u. substr_to (find_char b'?' u) u) (target_lem verb (path ++ (b'?' ∷ params)) rest h k)
      ∙ rw (find_char-append b'?' (b'/' ∷ path) params (omega arith, q))
          (take-length (b'/' ∷ path) (b'?' ∷ params)),
)

-- A request without a query: both functions give the whole target.
pub request_line_plain :
    (verb path rest : Bytes)
    → NoSpace verb
    → NoSpace path
    → All (λ d. d ≢ b'?') path
    → (extract_url_with_query_params (request verb path rest) ≡ b'/' ∷ path)
      × (extract_url (request verb path rest) ≡ b'/' ∷ path)
unfolding extract_url_with_query_params extract_url
request_line_plain verb path rest h k q = (
  target_lem verb path rest h k,
  ap (λ u. substr_to (find_char b'?' u) u) (target_lem verb path rest h k)
      ∙ rw (find_char-none b'?' (b'/' ∷ path) (omega arith, q)),
)

map-append_three :
    (f : ℕ → ℕ) (x y z : Bytes) → map f (x ++ (y ++ z)) ≡ map f x ++ (map f y ++ map f z)
map-append_three f x y z = simp map-append

-- A request that holds the letters `get` anywhere, in its path, its headers or its body, is taken
-- for a GET request.
pub parse_http_request_verb_get :
    (before letters after : Bytes)
    → to_lower_case letters ≡ codes "get"
    → parse_http_request_verb (before ++ (letters ++ after)) ≡ get
unfolding parse_http_request_verb to_lower_case
parse_http_request_verb_get before letters after e =
    rw (map-append_three to_lower before letters after, e)
      (rw (contains-append (codes "get") (map to_lower before) (map to_lower after)))
