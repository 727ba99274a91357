-- ===== src/Http/Route/Declined.antt =====
-- When no endpoint is chosen for a URL.
use simple_server.Prelude.{
  ◌≡◌, refl, ap, ◌∙◌, false, none, some, List, [], ◌∷◌, Bytes, codes, length, All, ◌==◌, ==_iff,
  inl, inr, Bool-cases, Option-cases,
}
use simple_server.Text.Search.{text_eq, text_eq_sound, text_eq_refl}
use simple_server.Text.Words.{split_words}
use simple_server.Text.StringMap.{Map, lookup}
use simple_server.Http.Route.{
  Regex, first_regex, first_pattern, search_routes, query_endpoint_from_map,
  validate_pattern_by_url, invalid_http_uri,
}
use simple_server.Http.Route.Segments.{Matches, validate_pattern_by_url_iff, validate_defined}

-- Nothing about the route answers the URL.
abbrev pub Declines : {C : Type 0} → Regex → Bytes → Bytes × C → Type 0
Declines regex uri (name, cb) =
    (regex name uri ≡ some false) × (¬ Matches (split_words uri b'/') (split_words name b'/'))

first_regex-none :
    {C : Type 0} (regex : Regex) (uri : Bytes) (routes : Map C)
    → All (Declines regex uri) routes
    → first_regex regex uri routes ≡ some none
unfolding first_regex
first_regex-none regex uri [] h = refl
first_regex-none regex uri ((name, cb) ∷ routes) ((p, q), h) =
    rw (p, first_regex) (first_regex-none regex uri routes h)

validate_false :
    (uri pattern : List Bytes)
    → length pattern ≡ length uri
    → ¬ Matches uri pattern
    → validate_pattern_by_url uri pattern ≡ some false
validate_false uri pattern e h = elim (Option-cases (validate_pattern_by_url uri pattern)) [
  | inl undefined ↦ absurd (validate_defined uri pattern e undefined)
  | inr (b, v) ↦ elim (Bool-cases b) [
    | inl t ↦ absurd (h ((validate_pattern_by_url_iff uri pattern e).0 (v ∙ ap some t)))
    | inr f ↦ v ∙ ap some f
  ]
]

first_pattern-none :
    {C : Type 0} (regex : Regex) (uri : Bytes) (routes : Map C)
    → All (Declines regex uri) routes
    → first_pattern (split_words uri b'/') routes ≡ some none
unfolding first_pattern
first_pattern-none regex uri [] h = refl
first_pattern-none regex uri ((name, cb) ∷ routes) ((p, q), h) =
    elim (Bool-cases (length (split_words name b'/') == length (split_words uri b'/'))) [
      | inr longer ↦ rw longer (first_pattern-none regex uri routes h)
      | inl e ↦
          rw
            (
              e,
              validate_false (split_words uri b'/') (split_words name b'/')
                  ((==_iff (length (split_words name b'/')) (length (split_words uri b'/'))).0 e) q,
            )
            (first_pattern-none regex uri routes h)
    ]

search_routes-none :
    {C : Type 0} (regex : Regex) (uri : Bytes) (routes : Map C)
    → All (Declines regex uri) routes
    → search_routes regex uri routes ≡ some (invalid_http_uri, none)
unfolding search_routes
search_routes-none regex uri routes h =
    rw (first_regex-none regex uri routes h, first_pattern-none regex uri routes h, search_routes)

-- Where no route has the URL as its name and every route declines it, the result is `INVALID URL`.
pub query_endpoint_invalid :
    {C : Type 0} (regex : Regex) (uri : Bytes) (routes : Map C)
    → lookup uri routes ≡ none
    → All (Declines regex uri) routes
    → query_endpoint_from_map regex uri routes ≡ some (invalid_http_uri, none)
unfolding query_endpoint_from_map
query_endpoint_invalid regex uri routes missing h = elim (Bool-cases (text_eq uri (codes "/"))) [
  | inl root ↦ rw (← text_eq_sound uri (codes "/") root, missing, text_eq_refl uri)
  | inr other ↦ rw (other, missing) (search_routes-none regex uri routes h)
]
