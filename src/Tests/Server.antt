-- ===== src/Tests/Server.antt =====
-- Runs of the handler of a request.
use simple_server.Prelude.{
  ◌<◌, ◌≡◌, ◌≢◌, refl, Option, none, some, [], ◌∷◌, ◌++◌, Bytes, codes, All, arith, length,
}
use simple_server.Text.Search.{text_eq, find_char, find, starts_with}
use simple_server.Text.Words.{split_words, split_loop, split_step, split_end}
use simple_server.Text.StringMap.{Map, lookup, insert}
use simple_server.Text.Lines.{lines, lines_from}
use simple_server.Http.Codes.{ok}
use simple_server.Http.Headers.{
  parse_headers, parse_lines, parse_line, trim, erase_front, erase_back,
}
use simple_server.Http.Request.{extract_url_with_query_params, extract_url, parse_url_params}
use simple_server.Http.Response.{
  StringMap, HttpResponse, new_response, set_body, build, http_headers_to_response_string,
}
use simple_server.Http.Route.{Regex}
use simple_server.Http.Route.Declined.{Declines}
use simple_server.Http.Route.Segments.{segment}
use simple_server.Http.Server.{
  Endpoint, Handled, default_500_msg, default_400_msg, handle_text, handle_parsed, received_str,
  from_buffer, handle_connection_request,
}
use simple_server.Http.Server.Arrival.{request_text}
use simple_server.Http.Server.Serve.{handle-request_text, handle-unknown}
use simple_server.Http.Server.Query.{target, handle-request_query}
use simple_server.Http.Server.Outcome.{Outcome, handle_connection_request-outcome}
use simple_server.Text.Words.{to_lower_case, to_lower}
use simple_server.Websocket.Manager
use simple_server.Websocket.Manager.{
  Sha1, handshake, get_accept_key, is_upgrade, add_new_connection_connection, find_websocket_key,
}

abbrev literal : Regex
literal pattern uri = some (text_eq pattern uri)

abbrev sum_words : Sha1
sum_words input = length input ∷ []

abbrev greeted : HttpResponse
greeted = set_body (codes "hi") (new_response ok)

abbrev greeting : Endpoint
greeting request = some greeted

abbrev routes : Map Endpoint
routes = (codes "/a", greeting) ∷ []

abbrev sent_headers : StringMap
sent_headers = (codes "Host", codes "here") ∷ []

abbrev answered_request : Handled
answered_request = record {
  sent = (4, build (set_body (codes "hi") (new_response ok))) ∷ [];
  closed = 4 ∷ [];
  descriptors = 5 ∷ [];
}

no_upgrade : lookup (codes "Upgrade") sent_headers ≡ none
unfolding lookup text_eq
no_upgrade = refl

route_a : lookup (codes "/a") routes ≡ some greeting
unfolding lookup text_eq
route_a = refl

request_plain : All (λ c. c ≢ 0) (request_text (codes "GET") (codes "a") sent_headers)
unfolding http_headers_to_response_string
request_plain = ground arith

request_short : length (request_text (codes "GET") (codes "a") sent_headers) < 2048
unfolding http_headers_to_response_string
request_short = omega arith

handle-request_text_example :
    handle_connection_request literal sum_words routes 4
      (5 ∷ [])
      (some (request_text (codes "GET") (codes "a") sent_headers))
    ≡ some answered_request
unfolding set_body
handle-request_text_example =
    handle-request_text literal sum_words routes 4 (5 ∷ []) (codes "GET") (codes "a") sent_headers
      greeting greeted (ground arith, ground arith) (ground arith, ground arith, ground arith)
      (ground arith, ground arith) no_upgrade request_plain request_short route_a refl

abbrev upgrade_text : Bytes
upgrade_text = codes "GET /c HTTP/1.1\r\nUpgrade: websocket\r\nSec-WebSocket-Key: abc\r\n\r\n"

abbrev upgraded_connection : Handled
upgraded_connection = record {
  sent = (7, handshake (get_accept_key sum_words (codes "abc"))) ∷ [];
  closed = [];
  descriptors = 5 ∷ 7 ∷ [];
}

upgrade_run :
    handle_connection_request literal sum_words routes 7 (5 ∷ []) (some upgrade_text)
    ≡ some upgraded_connection
unfolding handle_connection_request handle_text handle_parsed received_str from_buffer parse_headers
    parse_lines parse_line trim erase_front erase_back find_char find starts_with lines lines_from
    insert parse_url_params extract_url_with_query_params is_upgrade lookup text_eq
    add_new_connection_connection find_websocket_key to_lower_case to_lower Manager.insert
upgrade_run = refl

handle_connection_request-outcome_example : Outcome sum_words 7 (5 ∷ []) upgraded_connection
handle_connection_request-outcome_example =
    handle_connection_request-outcome literal sum_words routes 7 (5 ∷ []) (some upgrade_text)
      upgraded_connection upgrade_run

abbrev unknown_text : Bytes
unknown_text = codes "GET /b/c HTTP/1.1\r\nHost: here\r\n"

unknown_headers : parse_headers unknown_text ≡ some sent_headers
unfolding parse_headers parse_lines parse_line trim erase_front erase_back find_char lines
    lines_from insert
unknown_headers = refl

unknown_params : parse_url_params (extract_url_with_query_params unknown_text) ≡ some []
unfolding parse_url_params extract_url_with_query_params find_char find starts_with
unknown_params = refl

unknown_missing : lookup (extract_url unknown_text) routes ≡ none
unfolding lookup text_eq extract_url find_char find starts_with
unknown_missing = refl

unknown_declined : All (Declines literal (extract_url unknown_text)) routes
unfolding text_eq split_words split_loop split_step split_end extract_url find_char find starts_with
unknown_declined = ((refl, λ m. elim m [ segment f r ↦ elim r [ ] ]), tt)

handle-unknown_example :
    handle_connection_request literal sum_words routes 4 (5 ∷ []) (some unknown_text)
    ≡ some (record { sent = (4, default_500_msg) ∷ []; closed = 4 ∷ []; descriptors = 5 ∷ [] })
handle-unknown_example =
    handle-unknown literal sum_words routes 4 (5 ∷ []) unknown_text sent_headers [] (ground arith)
      (omega arith) refl unknown_headers unknown_params no_upgrade unknown_missing unknown_declined

-- A buffer that is cut at the first zero byte.
received_run : received_str (some (codes "ab" ++ (0 ∷ codes "c"))) ≡ some (codes "ab")
unfolding received_str from_buffer find_char
received_run = refl

bad_request_run : find (codes "400") default_400_msg ≡ some 9
unfolding find starts_with default_400_msg
bad_request_run = refl

abbrev sent_params : StringMap
sent_params = (codes "k", codes "1") ∷ (codes "m", codes "2") ∷ []

query_plain :
    All (λ c. c ≢ 0) (request_text (codes "GET") (target (codes "a") sent_params) sent_headers)
unfolding http_headers_to_response_string
query_plain = ground arith

query_short :
    length (request_text (codes "GET") (target (codes "a") sent_params) sent_headers) < 2048
unfolding http_headers_to_response_string
query_short = omega arith

abbrev echo_key : Endpoint
echo_key request =
    some (set_body (or_text (lookup (codes "m") request.query_params)) (new_response ok))
  where
    or_text : Option Bytes → Bytes
    or_text none = codes "none"
    or_text (some value) = value

abbrev echo_routes : Map Endpoint
echo_routes = (codes "/a", echo_key) ∷ []

echo_a : lookup (codes "/a") echo_routes ≡ some echo_key
unfolding lookup text_eq
echo_a = refl

handle-request_query_example :
    handle_connection_request literal sum_words echo_routes 4 []
      (some (request_text (codes "GET") (target (codes "a") sent_params) sent_headers))
    ≡ some (record {
      sent = (4, build (set_body (codes "2") (new_response ok))) ∷ [];
      closed = 4 ∷ [];
      descriptors = [];
    })
unfolding set_body lookup text_eq
handle-request_query_example =
    handle-request_query literal sum_words echo_routes 4 [] (codes "GET") (codes "a") sent_headers
      sent_params echo_key (set_body (codes "2") (new_response ok)) (ground arith, ground arith)
      (ground arith, ground arith) (ground arith) (ground arith, ground arith)
      (ground arith, ground arith) no_upgrade query_plain query_short echo_a refl
