-- ===== src/Http/Route.antt =====
-- Route patterns, and the choice of an endpoint in `http_server` of src/http_handler.cpp.
pub mod Segments
pub mod Query
pub mod Declined
pub mod Order
pub mod Total
use simple_server.Prelude.{
  ℕ, Bool, true, false, not, ◌&&◌, ◌||◌, Option, none, some, List, [], ◌∷◌, Bytes, codes, length,
  leb, ◌==◌, if◌then◌else◌,
}
use simple_server.Text.Search.{text_eq, contains}
use simple_server.Text.Words.{split_words}
use simple_server.Text.StringMap.{Map, lookup, insert}
use simple_server.Http.Codes.{UrlDataType, integer, str, boolean, invalid_url_datatype}

unfoldable pub get_node_data_type_by_pattern : Bytes → UrlDataType
get_node_data_type_by_pattern route_node =
    if contains (codes ":int>") route_node
    then integer
    else if contains (codes ":str>") route_node
    then str
    else if contains (codes ":boolean>") route_node
    then boolean
    else invalid_url_datatype

unfoldable pub is_boolean : Bytes → Bool
is_boolean sn = contains (codes "true") sn || contains (codes "false") sn

-- `isdigit`
abbrev pub is_digit : ℕ → Bool
is_digit c = leb b'0' c && leb c b'9'

unfoldable pub is_integer : Bytes → Bool
is_integer [] = true
is_integer (c ∷ cs) = is_digit c && is_integer cs

unfoldable pub get_data_type_by_value : Bytes → UrlDataType
get_data_type_by_value value =
    if is_integer value then integer else if is_boolean value then boolean else str

-- `==` of two data types.
abbrev pub same_type : UrlDataType → UrlDataType → Bool
same_type integer integer = true
same_type str str = true
same_type boolean boolean = true
same_type invalid_url_datatype invalid_url_datatype = true
same_type _ _ = false

-- `pValue[0]`
abbrev pub first_char : Bytes → ℕ
first_char [] = 0
first_char (c ∷ cs) = c

-- One round of the loop of `validate_pattern_by_url`: whether it goes on.
unfoldable pub segment_matches : Bytes → Bytes → Bool
segment_matches value p_value =
    if text_eq value p_value
    then true
    else if not (first_char p_value == b'<')
    then false
    else same_type (get_node_data_type_by_pattern p_value) (get_data_type_by_value value)

-- `none`: the pattern has fewer segments than the URL, and its iterator runs behind the end.
unfoldable pub validate_pattern_by_url : List Bytes → List Bytes → Option Bool
unfolding segment_matches
validate_pattern_by_url [] pattern = some true
validate_pattern_by_url (u ∷ uri) [] = none
validate_pattern_by_url (u ∷ uri) (p ∷ pattern) =
    let more = validate_pattern_by_url uri pattern in
    if segment_matches u p then more else some false

abbrev pub invalid_http_uri : Bytes
invalid_http_uri = codes "INVALID URL"

-- `std::regex_match` of a URL against a pattern; `none` is the exception for a malformed pattern.
abbrev pub Regex : Type 0
Regex = Bytes → Bytes → Option Bool

module _ {C : Type 0} (regex : Regex) where
  unfoldable pub first_regex : Bytes → Map C → Option (Option (Bytes × C))
  first_regex uri [] = some none
  first_regex uri ((url, cb) ∷ routes) = elim (regex url uri) [
    | none ↦ none
    | some matched ↦ if matched then some (some (url, cb)) else first_regex uri routes
  ]

module _ {C : Type 0} where
  -- The loop over the patterns, for the words of the URL.
  unfoldable pub first_pattern : List Bytes → Map C → Option (Option (Bytes × C))
  first_pattern words [] = some none
  first_pattern words ((url, cb) ∷ routes) =
      let later = first_pattern words routes in
      let e_splitted = split_words url b'/' in
      if not (length e_splitted == length words)
      then later
      else elim (validate_pattern_by_url words e_splitted) [
        | none ↦ none
        | some status ↦ if status then some (some (url, cb)) else later
      ]

  -- The pair that is returned: the name `INVALID URL` comes with no callback.
  abbrev pub as_result : Option (Bytes × C) → Bytes × Option C
  as_result none = (invalid_http_uri, none)
  as_result (some (url, cb)) = (url, some cb)

module _ {C : Type 0} (regex : Regex) where
  -- What is tried when no route has the URL as its name.
  unfoldable pub search_routes : Bytes → Map C → Option (Bytes × Option C)
  search_routes uri routes = elim (first_regex regex uri routes) [
    | none ↦ none
    | some (some found) ↦ some (as_result (some found))
    | some none ↦ elim (first_pattern (split_words uri b'/') routes) [
      | none ↦ none
      | some result ↦ some (as_result result)
    ]
  ]

  -- `none` is an exception of the regular expressions.
  unfoldable pub query_endpoint_from_map : Bytes → Map C → Option (Bytes × Option C)
  query_endpoint_from_map uri routes =
      if text_eq uri (codes "/")
      then elim (lookup (codes "/") routes) [
        | some cb ↦ some (codes "/", some cb)
        | none ↦ some (as_result none)
      ]
      else elim (lookup uri routes) [
        | some cb ↦ some (uri, some cb)
        | none ↦ search_routes uri routes
      ]

-- `m.insert(pair)`, which does nothing where the key is there.
unfoldable pub insert_new : {C : Type 0} → Bytes → C → Map C → Map C
insert_new url cb routes = elim (lookup url routes) [
  | none ↦ insert url cb routes
  | some old ↦ routes
]

unfoldable pub add_route_handler : {C : Type 0} → Bytes → C → Map C → Map C
add_route_handler url cb routes = insert_new url cb (insert url cb routes)
