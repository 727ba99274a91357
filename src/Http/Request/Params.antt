-- ===== src/Http/Request/Params.antt =====
-- The parameters behind the question mark of a URL.
use simple_server.Prelude.{
  ◌≡◌, ◌≢◌, refl, sym, ap, ◌∙◌, some, [], ◌∷◌, ◌++◌, Bytes, map, drop-length-add, All, All-append,
  All-map, append-nil, arith,
}
use simple_server.Text.Search.{find_char-append}
use simple_server.Text.StringMap.{insert}
use simple_server.Text.Words.{IsWord, split_words, split_loop, split_end}
use simple_server.Text.Words.Parts.{path, split_words-words}
use simple_server.Http.Headers.RoundTrip.{Distinct, insert_all, insert_all-append, Apart-nil}
use simple_server.Http.Request.{assign_pair, assign_pairs, parse_url_params}
use simple_server.Http.Response.{StringMap}

-- A name or a value: not empty, and without the separators and a zero.
abbrev pub IsToken : Bytes → Type 0
IsToken w = (w ≢ []) × All (λ c. (c ≢ b'=') × (c ≢ b';') × (c ≢ 0)) w

abbrev pub IsParam : Bytes × Bytes → Type 0
IsParam (k, v) = IsToken k × IsToken v

abbrev pub print_param : Bytes × Bytes → Bytes
print_param (k, v) = k ++ (b'=' ∷ v)

-- The parameters with a semicolon between them.
abbrev pub print_params : StringMap → Bytes
print_params [] = []
print_params (p ∷ ps) = print_param p ++ path b';' (map print_param ps)

-- The characters of a token are fit for a word between either separator.
token_equals : (w : Bytes) → IsToken w → All (λ c. (c ≢ b'=') × (c ≢ 0)) w
token_equals w (n, h) = All-map _ (λ c. (c ≢ b'=') × (c ≢ 0)) (λ c k. (k.0, k.2)) w h

token_semicolon : (w : Bytes) → IsToken w → All (λ c. (c ≢ b';') × (c ≢ 0)) w
token_semicolon w (n, h) = All-map _ (λ c. (c ≢ b';') × (c ≢ 0)) (λ c k. (k.1, k.2)) w h

print_param-IsWord : (p : Bytes × Bytes) → IsParam p → IsWord b';' (print_param p)
print_param-IsWord ([], v) ((n, k), h) = absurd (n refl)
print_param-IsWord (c ∷ k, v) (h, g) = (
  λ e. absurd (ground (arith, e)),
  All-append (λ c. (c ≢ b';') × (c ≢ 0)) (c ∷ k) (b'=' ∷ v) (token_semicolon (c ∷ k) h)
      ((omega arith, omega arith), token_semicolon v g),
)

print_params-All : (ps : StringMap) → All IsParam ps → All (IsWord b';') (map print_param ps)
print_params-All [] h = tt
print_params-All (p ∷ ps) (h, hs) = (print_param-IsWord p h, print_params-All ps hs)

split_words-params :
    (ps : StringMap) → All IsParam ps → split_words (print_params ps) b';' ≡ map print_param ps
unfolding split_words split_loop split_end
split_words-params [] h = refl
split_words-params (p ∷ ps) (h, hs) =
    split_words-words b';' (print_param p) (map print_param ps) (omega arith)
      (print_param-IsWord p h, print_params-All ps hs)

split_words-param :
    (k v : Bytes) → IsParam (k, v) → split_words (print_param (k, v)) b'=' ≡ k ∷ v ∷ []
split_words-param k v (h, g) =
    ap (λ t. split_words (k ++ (b'=' ∷ t)) b'=') (sym (append-nil v))
    ∙ split_words-words b'=' k (v ∷ []) (omega arith)
        ((h.0, token_equals k h), ((g.0, token_equals v g), tt))

assign_pairs-print :
    (ps m : StringMap)
    → All IsParam ps
    → assign_pairs (map print_param ps) m ≡ some (insert_all ps m)
unfolding assign_pairs assign_pair
assign_pairs-print [] m h = refl
assign_pairs-print ((k, v) ∷ ps) m (h, hs) =
    rw (split_words-param k v h) (assign_pairs-print ps (insert k v m) hs)

-- Parameters whose names and values are not empty and hold no separator, with different names,
-- printed behind a question mark, the first of the text, are read back.
pub parse_url_params-print :
    (front : Bytes) (ps : StringMap)
    → All (λ c. c ≢ b'?') front
    → All IsParam ps
    → Distinct ps
    → parse_url_params (front ++ (b'?' ∷ print_params ps)) ≡ some ps
unfolding parse_url_params
parse_url_params-print front ps f h d =
    rw (find_char-append b'?' front (print_params ps) f, parse_url_params)
      (ap (λ t. assign_pairs (split_words t b';') [])
          (drop-length-add front (b'?' ∷ print_params ps) 1)
        ∙ ap (λ w. assign_pairs w []) (split_words-params ps h)
        ∙ assign_pairs-print ps [] h
        ∙ ap some (insert_all-append ps [] d (Apart-nil ps)))
