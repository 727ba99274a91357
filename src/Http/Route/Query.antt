-- ===== src/Http/Route/Query.antt =====
-- Which endpoint is chosen for a URL.
use mathlib.Core.List.{Memᴰ}
use simple_server.Prelude.{
  if◌then◌else◌, ◌≡◌, sym, ap, ◌∙◌, true, some, List, [], ◌∷◌, Bytes, codes, length, arith, ◌==◌,
  ==_iff, inl, inr, Bool-cases, Option-cases,
}
use simple_server.Text.Search.{text_eq, text_eq_sound, text_eq_refl}
use simple_server.Text.Words.{split_words}
use simple_server.Text.StringMap.{Map, lookup, insert, lookup-insert, lookup_found}
use simple_server.Http.Route.{
  validate_pattern_by_url, insert_new, add_route_handler, Regex, first_regex, first_pattern,
  search_routes, query_endpoint_from_map, validate_pattern_by_url,
}
use simple_server.Http.Route.Segments.{Matches, validate_pattern_by_url_iff}

-- Why a route may answer a URL.
pub data Answers (regex : Regex) (uri name : Bytes) : Type 0 where
  by_name : name ≡ uri → Answers regex uri name
  by_regex : regex name uri ≡ some true → Answers regex uri name
  by_pattern : Matches (split_words uri b'/') (split_words name b'/') → Answers regex uri name

module _ {C : Type 0} (regex : Regex) where
  first_regex_sound :
      (uri : Bytes) (routes : Map C) (name : Bytes) (cb : C)
      → first_regex regex uri routes ≡ some (some (name, cb))
      → Memᴰ (name, cb) routes × (regex name uri ≡ some true)
  unfolding first_regex
  first_regex_sound uri [] name cb h = absurd (ground arith)
  first_regex_sound uri ((url, f) ∷ routes) name cb h = elim (Option-cases (regex url uri)) [
    | inl thrown ↦ absurd (ground arith)
    | inr (matched, e) ↦ elim (Bool-cases matched) [
      | inl yes_match ↦
          let same : ◌≡◌ {A = Bytes × C} (url, f) (name, cb) = ground arith in
          (Memᴰ.head (sym same), rw (← ap (λ p. p.0) same) (e ∙ ap some yes_match))
      | inr no_match ↦
          let (listed, fits) = first_regex_sound uri routes name cb (ground arith) in
          (Memᴰ.tail listed, fits)
    ]
  ]

module _ {C : Type 0} where
  first_pattern_sound :
      (words : List Bytes) (routes : Map C) (name : Bytes) (cb : C)
      → first_pattern words routes ≡ some (some (name, cb))
      → Memᴰ (name, cb) routes × Matches words (split_words name b'/')
  unfolding first_pattern
  first_pattern_sound words [] name cb h = absurd (ground arith)
  first_pattern_sound words ((url, f) ∷ routes) name cb h =
      elim (Bool-cases (length (split_words url b'/') == length words)) [
        | inr longer ↦
            let (listed, fits) = first_pattern_sound words routes name cb (ground arith) in
            (Memᴰ.tail listed, fits)
        | inl e ↦ elim (Option-cases (validate_pattern_by_url words (split_words url b'/'))) [
          | inl undefined ↦ absurd (ground arith)
          | inr (true_or_false, v) ↦ elim (Bool-cases true_or_false) [
            | inl matched ↦
                let same : ◌≡◌ {A = Bytes × C} (url, f) (name, cb) = ground arith in
                let fits =
                  (validate_pattern_by_url_iff words (split_words url b'/')
                      ((==_iff (length (split_words url b'/')) (length words)).0 e)).0
                    (v ∙ ap some matched) in
                (Memᴰ.head (sym same), rw (← ap (λ p. p.0) same) fits)
            | inr unmatched ↦
                let (listed, fits) = first_pattern_sound words routes name cb (ground arith) in
                (Memᴰ.tail listed, fits)
          ]
        ]
      ]

module _ {C : Type 0} (regex : Regex) where
  -- A route whose name is the URL is chosen before all others.
  pub query_endpoint-lookup :
      (uri : Bytes) (routes : Map C) (cb : C)
      → lookup uri routes ≡ some cb
      → query_endpoint_from_map regex uri routes ≡ some (uri, some cb)
  unfolding query_endpoint_from_map
  query_endpoint-lookup uri routes cb h = elim (Bool-cases (text_eq uri (codes "/"))) [
    | inl root ↦ ground (arith, text_eq_sound uri (codes "/"))
    | inr other ↦ ground arith
  ]

  search_routes_sound :
      (uri : Bytes) (routes : Map C) (name : Bytes) (cb : C)
      → search_routes regex uri routes ≡ some (name, some cb)
      → Memᴰ (name, cb) routes × Answers regex uri name
  unfolding search_routes
  search_routes_sound uri routes name cb h = elim (Option-cases (first_regex regex uri routes)) [
    | inl thrown ↦ absurd (ground arith)
    | inr (r, e) ↦ elim (Option-cases r) [
      | inr ((url, f), er) ↦
          let (listed, fits) = first_regex_sound regex uri routes name cb (ground arith) in
          (listed, by_regex fits)
      | inl unmatched ↦ elim (Option-cases (first_pattern (split_words uri b'/') routes)) [
        | inl thrown ↦ absurd (ground arith)
        | inr (q, eq) ↦ elim (Option-cases q) [
          | inl nothing ↦ absurd (ground arith)
          | inr ((url, f), ef) ↦
              let (listed, fits) =
                first_pattern_sound (split_words uri b'/') routes name cb (ground arith) in
              (listed, by_pattern fits)
        ]
      ]
    ]
  ]

  -- A callback is returned only for a registered route with the name that is returned, which is the
  -- URL, or matches it as a regular expression, or fits it as a pattern.
  pub query_endpoint_sound :
      (uri : Bytes) (routes : Map C) (name : Bytes) (cb : C)
      → query_endpoint_from_map regex uri routes ≡ some (name, some cb)
      → Memᴰ (name, cb) routes × Answers regex uri name
  unfolding query_endpoint_from_map
  query_endpoint_sound uri routes name cb h = elim (Option-cases (lookup uri routes)) [
    | inr (f, e) ↦
        let found = query_endpoint-lookup uri routes f e in
        let same : ◌≡◌ {A = Bytes} uri name = cc (sym found ∙ h) in
        let same_cb : ◌≡◌ {A = C} f cb = cc (sym found ∙ h) in
        (rw (← same, ← same_cb) (lookup_found uri routes f e), by_name (sym same))
    | inl missing ↦ elim (Bool-cases (text_eq uri (codes "/"))) [
      | inl root ↦ absurd (ground (arith, text_eq_sound uri (codes "/")))
      | inr other ↦ search_routes_sound uri routes name cb (ground arith)
    ]
  ]

lookup-insert_new :
    {C : Type 0} (j url : Bytes) (cb : C) (routes : Map C)
    → lookup url routes ≡ some cb
    → lookup j (insert_new url cb routes) ≡ lookup j routes
unfolding insert_new
lookup-insert_new j url cb routes h = rw (h, insert_new)

-- A route that has been added is the one that its name leads to, whatever was there before, and
-- every other URL that is the name of a route keeps that route.
pub query_endpoint-add_route_handler :
    {C : Type 0} (regex : Regex) (url : Bytes) (cb : C) (routes : Map C)
    → (query_endpoint_from_map regex url (add_route_handler url cb routes) ≡ some (url, some cb))
      × ((j : Bytes)
          → lookup j (add_route_handler url cb routes)
            ≡ (if text_eq url j then some cb else lookup j routes))
unfolding add_route_handler
query_endpoint-add_route_handler regex url cb routes = (
  query_endpoint-lookup regex url (insert_new url cb (insert url cb routes)) cb
      (found url ∙ rw (text_eq_refl url)),
  found,
)
  where
    found :
        (j : Bytes)
        → lookup j (insert_new url cb (insert url cb routes))
          ≡ (if text_eq url j then some cb else lookup j routes)
    found j =
        lookup-insert_new j url cb (insert url cb routes)
          (lookup-insert url url cb routes ∙ rw (text_eq_refl url))
        ∙ lookup-insert url j cb routes
