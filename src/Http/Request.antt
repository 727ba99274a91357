-- ===== src/Http/Request.antt =====
-- How src/http_handler.cpp takes the text of a request apart, and `http_request`.
pub mod Line
pub mod Params
pub mod Lone
use simple_server.Prelude.{
  ℕ, ◌+◌, ◌-◌, Bool, true, false, Option, none, some, List, [], ◌∷◌, ◌++◌, Bytes, codes, take, drop,
  leb, if◌then◌else◌,
}
use simple_server.Text.Search.{find, find_char, contains}
use simple_server.Text.Words.{to_lower_case, split_words}
use simple_server.Text.StringMap.{insert}
use simple_server.Http.Codes.{RequestVerb, get, post, put}
use simple_server.Http.Response.{StringMap}

-- `s.substr(0, pos)`, where `npos` takes all.
abbrev pub substr_to : Option ℕ → Bytes → Bytes
substr_to none s = s
substr_to (some n) s = take n s

unfoldable pub extract_http_verb : Bytes → Bytes
extract_http_verb request = substr_to (find_char b' ' request) request

unfoldable pub parse_http_request_verb : Bytes → RequestVerb
parse_http_request_verb buffer =
    let test_str = to_lower_case buffer in
    if contains (codes "get") test_str
    then get
    else if contains (codes "post") test_str
    then post
    else if contains (codes "put") test_str
    then put
    else get

-- `firstSpace + 1`, where `npos` is -1 as an `int`.
abbrev pub behind_space : Option ℕ → ℕ
behind_space none = 0
behind_space (some n) = n + 1

-- `request.substr(start, version - start)`: a negative length takes all the rest.
abbrev pub url_part : ℕ → Option ℕ → Bytes → Bytes
url_part start none request = drop start request
url_part start (some version) request =
    if leb start version then take (version - start) (drop start request) else drop start request

unfoldable pub extract_url_with_query_params : Bytes → Bytes
extract_url_with_query_params request =
    url_part (behind_space (find_char b' ' request)) (find (codes " HTTP/1.1") request) request

-- The first lines repeat `extract_url_with_query_params`.
unfoldable pub extract_url : Bytes → Bytes
extract_url request =
    let url =
      url_part (behind_space (find_char b' ' request)) (find (codes " HTTP/1.1") request) request in
    substr_to (find_char b'?' url) url

-- The `if` has an empty body, and the `return` behind it ends the function.
unfoldable pub extract_body : Bytes → Bytes
extract_body str = codes " "

-- `ret[keyPairs[0]] = keyPairs[1]`; `none` is an index behind the end of the vector, for which the
-- language defines no behaviour.
unfoldable pub assign_pair : List Bytes → StringMap → Option StringMap
assign_pair (key ∷ value ∷ more) ret = some (insert key value ret)
assign_pair _ ret = none

infixl 5 ◌>>=◌
abbrev ◌>>=◌ : {A B : Type 0} → Option A → (A → Option B) → Option B
none >>= f = none
some a >>= f = f a

unfoldable pub assign_pairs : List Bytes → StringMap → Option StringMap
unfolding assign_pair
assign_pairs [] ret = some ret
assign_pairs (var ∷ vars) ret = assign_pair (split_words var b'=') ret >>= assign_pairs vars

unfoldable pub parse_url_params : Bytes → Option StringMap
unfolding assign_pairs
parse_url_params url = elim (find_char b'?' url) [
  | none ↦ some []
  | some pos ↦ assign_pairs (split_words (drop (pos + 1) url) b';') []
]

-- The field `fd`, which nothing sets or reads, is left out.
pub record HttpRequest : Type 0 where
  pub request_verb_id : RequestVerb
  pub str_verb : Bytes
  pub url : Bytes
  pub headers : StringMap
  pub query_params : StringMap
  pub body : Bytes
