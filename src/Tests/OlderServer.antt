-- ===== src/Tests/OlderServer.antt =====
-- Runs of the older server and of the functions that call the system.
use simple_server.Older.System.Pipes.{read_pipe, read_pipe_whole}
use simple_server.Prelude.{
  ◌<◌, ◌≡◌, ◌≢◌, refl, false, none, some, [], ◌∷◌, codes, All, arith, length, List,
}
use simple_server.Text.Search.{text_eq}
use simple_server.Text.StringMap.{Map, lookup, insert}
use simple_server.Text.Decimal.{to_decimal, decimal_loop}
use simple_server.Text.Words.{to_lower_case, to_lower}
use simple_server.Http.Codes.{ok}
use simple_server.Http.Response.{StringMap, http_headers_to_response_string}
use simple_server.Http.Route.{Regex}
use simple_server.Older.Connections.{Connections, is_websocket_request}
use simple_server.Older.Response.{Response, build_response}
use simple_server.Older.Server.{Endpoint, Handled, set_assets_folder}
use simple_server.Older.Server.Outcome.{Outcome, handle_connection_request-closes}
use simple_server.Older.Server.Serve.{older-request_text}
use simple_server.Older.System.{Disk, check_if_path_exist, send_buffer, send_data_set, negsuc}
use simple_server.Older.System.Interfaces.{
  Interface, inet, inet6, missing, get_local_ip_address_list, add_interfaces, add_interface,
  add_address,
}
use simple_server.Http.Server.Arrival.{request_text}
use simple_server.Websocket.Manager.{Sha1, find_websocket_key}

abbrev literal : Regex
literal pattern uri = some (text_eq pattern uri)

abbrev sum_words : Sha1
sum_words input = length input ∷ []

abbrev no_connections : Connections
no_connections = record { poll_fds = []; web_socket_connections = [] }

abbrev hi : Response
hi = record { headers = []; body = codes "hi"; status_code = ok }

abbrev greeting : Endpoint
greeting request = some hi

abbrev routes : Map Endpoint
routes = (codes "/a", greeting) ∷ []

abbrev sent_headers : StringMap
sent_headers = (codes "Host", codes "here") ∷ []

no_key : is_websocket_request sent_headers ≡ false
unfolding is_websocket_request find_websocket_key to_lower_case to_lower text_eq
no_key = refl

route_a : lookup (codes "/a") routes ≡ some greeting
unfolding lookup text_eq
route_a = refl

plain : All (λ c. c ≢ 0) (request_text (codes "GET") (codes "a") sent_headers)
unfolding http_headers_to_response_string
plain = ground arith

short : length (request_text (codes "GET") (codes "a") sent_headers) < 2048
unfolding http_headers_to_response_string
short = omega arith

abbrev answered_request : Handled
answered_request = record {
  sent = (4, build_response hi) ∷ [];
  closed = 4 ∷ [];
  connections = no_connections;
}

handle_connection_request-closes_example : Outcome sum_words 4 no_connections answered_request
handle_connection_request-closes_example =
    handle_connection_request-closes literal sum_words routes 4 no_connections
      (some (request_text (codes "GET") (codes "a") sent_headers)) answered_request
      (older-request_text literal sum_words routes 4 no_connections b'G' (codes "ET") (codes "a")
        sent_headers greeting hi (ground arith, ground arith)
        (ground arith, ground arith, ground arith) (ground arith, ground arith) no_key plain short
        route_a refl)

abbrev no_disk : Disk
no_disk = record { open_file = λ name. none; stat = λ name. false; getcwd = none }

assets_run : set_assets_folder no_disk (codes "/home") (codes "assets") ≡ codes "/home//www"
unfolding set_assets_folder check_if_path_exist
assets_run = refl

send_run : send_buffer 4 (codes "hi") ≡ negsuc 998
unfolding send_buffer send_data_set
send_run = refl

abbrev interfaces : List Interface
interfaces =
    record { ifa_name = codes "eth1"; ifa_addr = inet (codes "10.0.0.1") }
    ∷ record { ifa_name = codes "eth"; ifa_addr = inet (codes "10.0.0.2") }
    ∷ record { ifa_name = codes "lo"; ifa_addr = missing }
    ∷ record { ifa_name = codes "eth"; ifa_addr = inet6 (codes "fe80::1") }
    ∷ []

-- The second address of `eth` takes the place of that of `eth1`.
interfaces_run :
    get_local_ip_address_list (some interfaces)
    ≡ (codes "eth1", codes "fe80::1") ∷ (codes "eth", codes "10.0.0.2") ∷ []
unfolding get_local_ip_address_list add_interfaces add_interface add_address lookup insert text_eq
    to_decimal decimal_loop
interfaces_run = refl

read_pipe_whole_example : read_pipe 9 2 (codes "ab\ncdefg") ≡ some (codes "ab\ncdefg")
read_pipe_whole_example = read_pipe_whole 9 1 (codes "ab\ncdefg") (ground arith) (omega arith)
