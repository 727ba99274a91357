-- ===== src/Tests/Route.antt =====
-- Runs of the choice of an endpoint.
use mathlib.Core.List.{Memᴰ, Permᴰ}
use simple_server.Prelude.{ℕ, ◌≡◌, ◌↔◌, refl, true, none, some, [], ◌∷◌, Bytes, codes, All}
use simple_server.Text.Search.{text_eq, contains, find, starts_with}
use simple_server.Text.Words.{split_words, split_loop, split_step, split_end}
use simple_server.Text.StringMap.{Map, lookup, insert}
use simple_server.Http.Codes.{invalid_url_datatype, url_data_type_as_str, integer}
use simple_server.Http.Route.{
  Regex, first_regex, first_pattern, search_routes, query_endpoint_from_map, add_route_handler,
  insert_new, segment_matches, validate_pattern_by_url, get_node_data_type_by_pattern,
  get_data_type_by_value, is_integer,
}
use simple_server.Http.Route.Segments.{Matches, segment, validate_pattern_by_url_iff}
use simple_server.Http.Route.Order.{added, query_endpoint_any_order}
use simple_server.Http.Route.Query.{Answers, query_endpoint_sound}
use simple_server.Http.Route.Declined.{Declines}

-- Matching of patterns without special characters.
abbrev literal : Regex
literal pattern uri = some (text_eq pattern uri)

abbrev node_routes : Map ℕ
node_routes = (codes "/a", 1) ∷ (codes "/<n:int>/b", 2) ∷ []

node_run :
    query_endpoint_from_map literal (codes "/12/b") node_routes ≡ some (codes "/<n:int>/b", some 2)
unfolding query_endpoint_from_map search_routes first_regex first_pattern validate_pattern_by_url
    segment_matches get_node_data_type_by_pattern get_data_type_by_value is_integer text_eq contains
    find starts_with split_words split_loop split_step split_end lookup
node_run = refl

query_endpoint_sound_example :
    Memᴰ {A = Bytes × ℕ} (codes "/<n:int>/b", 2) node_routes
    × Answers literal (codes "/12/b") (codes "/<n:int>/b")
query_endpoint_sound_example =
    query_endpoint_sound literal (codes "/12/b") node_routes (codes "/<n:int>/b") 2 node_run

abbrev calls : Map ℕ
calls = (codes "/b", 5) ∷ (codes "/a", 7) ∷ (codes "/b", 9) ∷ []

calls_run : added calls ≡ (codes "/b", 5) ∷ (codes "/a", 7) ∷ []
unfolding add_route_handler insert_new insert lookup text_eq
calls_run = refl

last_b : lookup (codes "/b") calls ≡ some 5
unfolding lookup text_eq
last_b = refl

other_order : Permᴰ (added calls) ((codes "/a", 7) ∷ (codes "/b", 5) ∷ [])
other_order = rw calls_run (Permᴰ.swap refl refl)

query_endpoint_any_order_example :
    query_endpoint_from_map {C = ℕ} literal (codes "/b") ((codes "/a", 7) ∷ (codes "/b", 5) ∷ [])
    ≡ some (codes "/b", some 5)
query_endpoint_any_order_example =
    query_endpoint_any_order literal calls ((codes "/a", 7) ∷ (codes "/b", 5) ∷ []) (codes "/b") 5
      other_order last_b

add_route_run :
    add_route_handler (codes "/a") 7 node_routes ≡ (codes "/a", 7) ∷ (codes "/<n:int>/b", 2) ∷ []
unfolding add_route_handler insert_new insert lookup text_eq
add_route_run = refl

validate_pattern_by_url_iff_example :
    (validate_pattern_by_url (codes "12" ∷ codes "b" ∷ []) (codes "<n:int>" ∷ codes "b" ∷ [])
      ≡ some true)
    ↔ Matches (codes "12" ∷ codes "b" ∷ []) (codes "<n:int>" ∷ codes "b" ∷ [])
validate_pattern_by_url_iff_example =
    validate_pattern_by_url_iff (codes "12" ∷ codes "b" ∷ []) (codes "<n:int>" ∷ codes "b" ∷ [])
      refl

unknown_run : get_node_data_type_by_pattern (codes "<int>") ≡ invalid_url_datatype
unfolding get_node_data_type_by_pattern contains find starts_with
unknown_run = refl

type_name_run : url_data_type_as_str integer ≡ codes "Integer"
unfolding url_data_type_as_str
type_name_run = refl

abbrev one_route : Map ℕ
one_route = (codes "/a", 1) ∷ []

missing_run : lookup (codes "/b/c") one_route ≡ none
unfolding lookup text_eq
missing_run = refl

one_route-Declines : All (Declines literal (codes "/b/c")) one_route
unfolding text_eq split_words split_loop split_step split_end
one_route-Declines = ((refl, λ m. elim m [ segment f r ↦ elim r [ ] ]), tt)
