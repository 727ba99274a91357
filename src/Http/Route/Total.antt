-- ===== src/Http/Route/Total.antt =====
-- The search for an endpoint has a result.
use simple_server.Prelude.{
  ◌≡◌, ◌⊎◌, refl, Option, none, some, List, [], ◌∷◌, Bytes, codes, length, All, arith, inl, inr,
  Bool-cases, Option-cases, ◌==◌,
}
use simple_server.Text.Search.{text_eq}
use simple_server.Text.StringMap.{Map, lookup}
use simple_server.Text.Words.{split_words}
use simple_server.Http.Route.{
  Regex, first_regex, first_pattern, search_routes, query_endpoint_from_map, as_result,
  validate_pattern_by_url,
}
use simple_server.Http.Route.Segments.{validate_defined}

abbrev pub Defined : {A : Type 0} → Option A → Type 0
Defined {A = A} o = (a : A) × (o ≡ some a)

pub some-Defined : {A : Type 0} (a : A) → Defined (some a)
some-Defined a = (a, refl)

-- Matching with a pattern of a route throws for no URL.
abbrev pub WellFormed : {C : Type 0} → Regex → Map C → Type 0
WellFormed regex routes = (uri : Bytes) → All (λ r. Defined (regex r.0 uri)) routes

module _ {C : Type 0} where
  -- The result is a route with its callback, or the name for an invalid URL.
  abbrev pub IsResult : Bytes × Option C → Type 0
  IsResult result =
      (result ≡ as_result none) ⊎ ((route : Bytes × C) × (result ≡ as_result (some route)))

  abbrev pub Found : Option (Bytes × Option C) → Type 0
  Found o = (result : Bytes × Option C) × (o ≡ some result) × IsResult result

  IsResult-as_result : (found : Option (Bytes × C)) → IsResult (as_result found)
  IsResult-as_result none = inl refl
  IsResult-as_result (some route) = inr (route, refl)

module _ {C : Type 0} (regex : Regex) where
  first_regex-Defined :
      (uri : Bytes) (routes : Map C)
      → All (λ r. Defined (regex r.0 uri)) routes
      → Defined (first_regex regex uri routes)
  unfolding first_regex
  first_regex-Defined uri [] h = (none, refl)
  first_regex-Defined uri ((url, cb) ∷ routes) ((b, e), h) = elim (Bool-cases b) [
    | inl t ↦ (some (url, cb), rw (e, first_regex) (rw t refl))
    | inr f ↦
        let (found, g) = first_regex-Defined uri routes h in (found, rw (e, first_regex) (rw f g))
  ]

  first_pattern-Defined :
      (words : List Bytes) (routes : Map C) → Defined (first_pattern words routes)
  unfolding first_pattern
  first_pattern-Defined words [] = (none, refl)
  first_pattern-Defined words ((url, cb) ∷ routes) =
      let (later, f) = first_pattern-Defined words routes in
      elim (Bool-cases (length (split_words url b'/') == length words)) [
        | inr other ↦ (later, rw (other, first_pattern) f)
        | inl same ↦ elim (Option-cases (validate_pattern_by_url words (split_words url b'/'))) [
          | inl undefined ↦
              absurd
                (validate_defined words (split_words url b'/') (ground (arith, same)) undefined)
          | inr (b, v) ↦ elim (Bool-cases b) [
            | inl t ↦ (some (url, cb), rw (same, v, first_pattern) (rw t refl))
            | inr n ↦ (later, rw (same, v, first_pattern) (rw n f))
          ]
        ]
      ]

  search_routes-Found :
      (uri : Bytes) (routes : Map C)
      → All (λ r. Defined (regex r.0 uri)) routes
      → Found (search_routes regex uri routes)
  unfolding search_routes
  search_routes-Found uri routes h = behind (first_regex-Defined uri routes h)
    where
      behind : Defined (first_regex regex uri routes) → Found (search_routes regex uri routes)
      behind (some route, e) =
          (as_result (some route), rw (e, search_routes) refl, inr (route, refl))
      behind (none, e) =
          let (found, f) = first_pattern-Defined (split_words uri b'/') routes in
          (
            as_result found,
            rw (e, search_routes) (rw (f, search_routes) refl),
            IsResult-as_result found,
          )

  pub query_endpoint-Found :
      (uri : Bytes) (routes : Map C)
      → All (λ r. Defined (regex r.0 uri)) routes
      → Found (query_endpoint_from_map regex uri routes)
  unfolding query_endpoint_from_map
  query_endpoint-Found uri routes h = elim (Bool-cases (text_eq uri (codes "/"))) [
    | inl root ↦ elim (Option-cases (lookup (codes "/") routes)) [
      | inl e ↦ (as_result none, rw (root, e, query_endpoint_from_map) refl, inl refl)
      | inr (cb, e) ↦ (
        (codes "/", some cb),
        rw (root, e, query_endpoint_from_map) refl,
        inr ((codes "/", cb), refl),
      )
    ]
    | inr other ↦ elim (Option-cases (lookup uri routes)) [
      | inl e ↦ rw (other, e, query_endpoint_from_map) (search_routes-Found uri routes h)
      | inr (cb, e) ↦
          ((uri, some cb), rw (other, e, query_endpoint_from_map) refl, inr ((uri, cb), refl))
    ]
  ]
