-- ===== src/Tests/Service.antt =====
-- A run of the parts put together: a handshake, a message, and the end of the connection.
use mathlib.Core.List.{Memᴰ}
use simple_server.Prelude.{List, ◌≡◌, ◌≢◌, refl, true, some, [], ◌∷◌, ◌++◌, Bytes, codes, length}
use simple_server.Text.Search.{text_eq, find_char, find, starts_with}
use simple_server.Text.Words.{to_lower_case, to_lower}
use simple_server.Text.StringMap.{Map, lookup, insert}
use simple_server.Text.Lines.{lines, lines_from}
use simple_server.Http.Headers.{
  parse_headers, parse_lines, parse_line, trim, erase_front, erase_back,
}
use simple_server.Http.Request.{extract_url_with_query_params, parse_url_params}
use simple_server.Http.Route.{Regex}
use simple_server.Http.Server.{
  Endpoint, handle_text, handle_parsed, received_str, from_buffer, handle_connection_request,
}
use simple_server.Service.{World, Arrivals, perform, perform_all}
use simple_server.Service.Registered.{perform_all-greeted, perform_all-kept}
use simple_server.Tcp.Poll.{Call, close, set_non_blocking, handle_incomming_connection}
use simple_server.Websocket.Manager
use simple_server.Websocket.Manager.{
  Sha1, handshake, get_accept_key, is_upgrade, add_new_connection_connection, find_websocket_key,
  has,
}

abbrev literal : Regex
literal pattern uri = some (text_eq pattern uri)

abbrev sum_words : Sha1
sum_words input = length input ∷ []

abbrev no_routes : Map Endpoint
no_routes = []

abbrev arrivals : Arrivals
arrivals = record {
  received =
      λ i. some (codes "GET /c HTTP/1.1\r\nUpgrade: websocket\r\nSec-WebSocket-Key: abc\r\n\r\n");
  frames = λ i. [];
}

abbrev new_world : World
new_world = record { descriptors = []; sent = []; closed = [] }

abbrev greeted_world : World
greeted_world = record {
  descriptors = 7 ∷ [];
  sent = (7, handshake (get_accept_key sum_words (codes "abc"))) ∷ [];
  closed = [];
}

abbrev arrival_calls : List Call
arrival_calls = set_non_blocking 7 ∷ handle_incomming_connection 7 ∷ []

greeted_run :
    perform_all literal sum_words no_routes arrivals 0 arrival_calls new_world ≡ some greeted_world
unfolding perform_all perform handle_connection_request handle_text handle_parsed received_str
    from_buffer parse_headers parse_lines parse_line trim erase_front erase_back find_char find
    starts_with lines lines_from insert parse_url_params extract_url_with_query_params is_upgrade
    lookup text_eq add_new_connection_connection find_websocket_key to_lower_case to_lower
    Manager.insert
greeted_run = refl

registered : has 7 greeted_world.descriptors ≡ true
unfolding has
registered = refl

perform_all-greeted_example :
    (key : Bytes) × (key ≢ [])
    × Memᴰ (7, handshake (get_accept_key sum_words key)) greeted_world.sent
perform_all-greeted_example =
    perform_all-greeted sum_words literal no_routes arrivals arrival_calls greeted_world greeted_run
      7 registered

closed_run :
    perform_all literal sum_words no_routes arrivals 0 ([] ++ close 7 ∷ []) greeted_world
    ≡ some (record greeted_world { closed = 7 ∷ [] })
unfolding perform_all perform
closed_run = refl

perform_all-kept_example : has 7 greeted_world.descriptors ≡ true
perform_all-kept_example =
    perform_all-kept sum_words literal no_routes arrivals [] greeted_world
      (record greeted_world { closed = 7 ∷ [] }) 7 closed_run registered
