-- ===== src/Older/Texts.antt =====
-- The functions on texts and URLs of src/base/simple_server_utils.cpp. Their code is that of
-- includes/string_utils.h and src/http_handler.cpp, up to the names of functions and types, so that
-- each is the definition that models it there.
use simple_server.Prelude.{Bool, Option, List, Bytes, ℕ}
use simple_server.Text.Words
use simple_server.Text.Replace
use simple_server.Http.Codes
use simple_server.Older.Constants.{UrlDataType}
use simple_server.Http.Headers
use simple_server.Http.Request
use simple_server.Http.Response.{StringMap}
use simple_server.Http.Route

abbrev pub replace_all : ℕ → Bytes → Bytes → Bytes → Option Bytes
replace_all = Replace.replace_all

abbrev pub split_words : Bytes → ℕ → List Bytes
split_words = Words.split_words

abbrev pub to_lower_case_str : Bytes → Bytes
to_lower_case_str = Words.to_lower_case

abbrev pub extract_url_with_query_params : Bytes → Bytes
extract_url_with_query_params = Request.extract_url_with_query_params

abbrev pub extract_url : Bytes → Bytes
extract_url = Request.extract_url

abbrev pub extract_body : Bytes → Bytes
extract_body = Request.extract_body

abbrev pub parse_headers : Bytes → Option StringMap
parse_headers = Headers.parse_headers

abbrev pub parse_url_params : Bytes → Option StringMap
parse_url_params = Request.parse_url_params

abbrev pub get_node_data_type_by_pattern : Bytes → UrlDataType
get_node_data_type_by_pattern = Route.get_node_data_type_by_pattern

abbrev pub url_data_type_as_str : UrlDataType → Bytes
url_data_type_as_str = Codes.url_data_type_as_str

abbrev pub is_boolean : Bytes → Bool
is_boolean = Route.is_boolean

abbrev pub is_integer : Bytes → Bool
is_integer = Route.is_integer

abbrev pub get_data_type_by_value : Bytes → UrlDataType
get_data_type_by_value = Route.get_data_type_by_value

abbrev pub validate_pattern_by_url : List Bytes → List Bytes → Option Bool
validate_pattern_by_url = Route.validate_pattern_by_url
