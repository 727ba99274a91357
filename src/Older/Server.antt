-- ===== src/Older/Server.antt =====
-- `http_server` of src/http/simple_server_http.cpp: what the thread of a connection does with the
-- request, and the routes. The callbacks, the regular expressions and the digest of the handshake
-- are parameters.
pub mod Outcome
pub mod Serve
pub mod Page
pub mod Crashes
use simple_server.Prelude.{
  ℕ, Bool, true, false, Option, none, some, List, [], ◌∷◌, ◌++◌, Bytes, codes, length,
  if◌then◌else◌,
}
use simple_server.Socket.{Received}
use simple_server.Text.Search.{text_eq}
use simple_server.Text.Words.{is_empty}
use simple_server.Text.Decimal.{to_decimal}
use simple_server.Text.StringMap.{Map, insert}
use simple_server.Older.Constants.{RequestVerb}
use simple_server.Http.Headers.{◌>>=◌}
use simple_server.Http.Response.{StringMap}
use simple_server.Http.Route.{Regex, invalid_http_uri}
use simple_server.Http.Route
use simple_server.Http.Server.{from_buffer}
use simple_server.Older.Texts.{
  extract_url, extract_url_with_query_params, parse_headers, parse_url_params, extract_body,
}
use simple_server.Older.Response.{Response, build_response, extract_http_verb, parse_request_verb}
use simple_server.Older.Listening.{ServerStatus, running}
use simple_server.Older.Connections.{Connections, create_new_ws_connection, is_websocket_request}
use simple_server.Older.System.{Disk, check_if_path_exist}
use simple_server.Websocket.Manager.{Sha1, Sent}

pub record Request : Type 0 where
  pub request_verb : RequestVerb
  pub url : Bytes
  pub headers : StringMap
  pub query_params : StringMap
  pub body : Bytes

-- `std::function<Response*(Request *)>`; `none` is a null pointer, an exception of the callback, or
-- that of the call of an empty one. Each of them ends the program.
abbrev pub Endpoint : Type 0
Endpoint = Request → Option Response

-- The code is that of `query_endpoint_from_map` in src/http_handler.cpp.
abbrev pub query_endpoint_from_map : Regex → Bytes → Map Endpoint → Option (Bytes × Option Endpoint)
query_endpoint_from_map = Route.query_endpoint_from_map

unfoldable pub add_route_handler : Bytes → Endpoint → Map Endpoint → Map Endpoint
add_route_handler url cb routes_map = insert url cb routes_map

-- `root_assets_path` behind the call; `current` is the directory that `get_current_dir_name` gives.
unfoldable pub set_assets_folder : Disk → Bytes → Bytes → Bytes
set_assets_folder disk current path =
    if check_if_path_exist disk path then path else current ++ (codes "/" ++ codes "/www")

-- A line for every entry, with the separator between its name and its value.
unfoldable pub entry_lines : Bytes → StringMap → Bytes
entry_lines separator [] = []
entry_lines separator ((name, value) ∷ entries) =
    name ++ (separator ++ (value ++ (codes "\n" ++ entry_lines separator entries)))

-- The page that answers a request for an unknown URL.
unfoldable pub unknown_body : Bytes → StringMap → StringMap → Bytes
unfolding entry_lines
unknown_body text headers params =
    codes "HTTP VERB: "
    ++ (extract_http_verb text
        ++ (codes "\nURL: "
            ++ (extract_url text
                ++ (codes "\nDynamic Url: "
                    ++ (extract_url_with_query_params text
                        ++ (codes "\nHTTP Headers: "
                            ++ (entry_lines (codes ": ") headers
                                ++ (if is_empty_map params
                                    then []
                                    else codes "Query Parameters: \n"
                                      ++ entry_lines (codes " : ") params))))))))
  where
    is_empty_map : StringMap → Bool
    is_empty_map [] = true
    is_empty_map (e ∷ es) = false

unfoldable pub unknown_page : Bytes → Bytes
unknown_page body =
    codes "HTTP/1.1 200 OK\r\n"
    ++ (codes "Content-Length: "
        ++ (to_decimal (length body)
            ++ (codes "\r\n"
                ++ (codes "Content-Type: text/plain\r\n" ++ (codes "\r\n\r\n" ++ body)))))

unfoldable pub request_of : Bytes → StringMap → StringMap → Request
request_of text headers params = record {
  request_verb = parse_request_verb text;
  url = extract_url text;
  headers = headers;
  query_params = params;
  body = extract_body text;
}

-- The response to a request that is no WebSocket request.
unfoldable pub response_to : Bytes → StringMap → StringMap → Bytes × Option Endpoint → Option Bytes
unfolding unknown_page unknown_body request_of
response_to text headers params (name, callback) =
    if text_eq name invalid_http_uri
    then some (unknown_page (unknown_body text headers params))
    else callback >>= λ cb. cb (request_of text headers params) >>= λ res. some (build_response res)

-- What the call does: the bytes sent, the descriptors closed, and the connections behind it.
pub record Handled : Type 0 where
  pub sent : Sent
  pub closed : List ℕ
  pub connections : Connections

-- `create_new_ws_connection`, whose result is sent.
unfoldable pub handle_websocket_handshake : Sha1 → StringMap → ℕ → Connections → Handled
handle_websocket_handshake sha1 headers con connections =
    let (response, after) = create_new_ws_connection sha1 headers con connections in
    record { sent = (con, response) ∷ []; closed = []; connections = after }

-- The connections for which `start` starts a thread, from the results of `accept`; none is -1.
unfoldable pub accept_loop : List (Option ℕ) → List ℕ
accept_loop [] = []
accept_loop (none ∷ accepted) = accept_loop accepted
accept_loop (some connection ∷ accepted) = connection ∷ accept_loop accepted

-- `start`: the threads that are started, and the descriptors that are closed. Nothing changes the
-- status of a running server, so that its loop never ends.
unfoldable pub start_server : ServerStatus → ℕ → List (Option ℕ) → List ℕ × List ℕ
unfolding accept_loop
start_server running server_socket accepted = (accept_loop accepted, [])
start_server _ server_socket accepted = ([], server_socket ∷ [])

module _ (regex : Regex) (sha1 : Sha1) (routes_map : Map Endpoint) where
  unfoldable pub handle_http : ℕ → Connections → Bytes → StringMap → StringMap → Option Handled
  unfolding response_to
  handle_http con connections text headers params =
      query_endpoint_from_map regex (extract_url text) routes_map >>= λ it.
      response_to text headers params it >>= λ response.
      some (record { sent = (con, response) ∷ []; closed = con ∷ []; connections = connections })

  unfoldable pub handle_text : ℕ → Connections → Bytes → Option Handled
  unfolding handle_http handle_websocket_handshake
  handle_text con connections text = parse_headers text >>= λ headers.
      parse_url_params (extract_url_with_query_params text) >>= λ params.
      if is_websocket_request headers
      then some (handle_websocket_handshake sha1 headers con connections)
      else handle_http con connections text headers params

  -- `none`: an exception, which ends the program, or the language defines no behaviour.
  unfoldable pub handle_connection_request : ℕ → Connections → Received → Option Handled
  unfolding handle_text
  handle_connection_request con connections none =
      some (record { sent = []; closed = con ∷ []; connections = connections })
  handle_connection_request con connections (some []) =
      some (record { sent = []; closed = con ∷ []; connections = connections })
  handle_connection_request con connections (some (b ∷ bytes)) =
      from_buffer (b ∷ bytes) >>= handle_text con connections
