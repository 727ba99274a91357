-- ===== src/Older/Server/Outcome.antt =====
-- What the thread of a connection may do, whatever arrives.
use simple_server.Prelude.{
  ℕ, ◌≡◌, ◌≢◌, inl, inr, true, Option, none, some, [], ◌∷◌, Bytes, arith, Bool-cases,
}
use simple_server.Socket.{Received}
use simple_server.Text.Words.{is_empty}
use simple_server.Text.StringMap.{Map}
use simple_server.Http.Response.{StringMap}
use simple_server.Http.Route.{Regex}
use simple_server.Http.Server.{from_buffer}
use simple_server.Http.Server.Outcome.{WhenSome, WhenSome-bind}
use simple_server.Older.Connections.{
  Connections, add_socket_to_the_list, create_new_ws_connection, is_websocket_request,
}
use simple_server.Older.Texts.{
  extract_url, extract_url_with_query_params, parse_headers, parse_url_params,
}
use simple_server.Older.Server.{
  Endpoint, Handled, query_endpoint_from_map, response_to, handle_http, handle_websocket_handshake,
  handle_text, handle_connection_request,
}
use simple_server.Websocket.Manager.{Sha1, handshake, get_accept_key, find_websocket_key}
use simple_server.Websocket.Manager.Handshake.{is_empty-false}

-- The three ends: nothing arrived, the connection became a WebSocket, or one response was sent. The
-- connection is closed, once, except where it became a WebSocket.
pub data Outcome (sha1 : Sha1) (con : ℕ) (connections : Connections) : Handled → Type 0 where
  silent :
      Outcome sha1 con connections
        (record { sent = []; closed = con ∷ []; connections = connections })
  upgraded :
      (key : Bytes)
      → key ≢ []
      → Outcome sha1 con connections (record {
        sent = (con, handshake (get_accept_key sha1 key)) ∷ [];
        closed = [];
        connections = add_socket_to_the_list con connections;
      })
  answered :
      (response : Bytes)
      → Outcome sha1 con connections
          (record { sent = (con, response) ∷ []; closed = con ∷ []; connections = connections })

module _ (regex : Regex) (sha1 : Sha1) (routes_map : Map Endpoint) (con : ℕ)
    (connections : Connections) where
  abbrev Ends : Option Handled → Type 0
  Ends = WhenSome (Outcome sha1 con connections)

  handle_http-outcome :
      (text : Bytes) (headers params : StringMap)
      → Ends (handle_http regex sha1 routes_map con connections text headers params)
  unfolding handle_http
  handle_http-outcome text headers params =
      WhenSome-bind _ (query_endpoint_from_map regex (extract_url text) routes_map) _ (λ it.
        WhenSome-bind _ (response_to text headers params it) _ (λ response. answered response))

  handshake-outcome :
      (headers : StringMap)
      → is_websocket_request headers ≡ true
      → Outcome sha1 con connections (handle_websocket_handshake sha1 headers con connections)
  unfolding handle_websocket_handshake create_new_ws_connection is_websocket_request
  handshake-outcome headers h = elim (Bool-cases (is_empty (find_websocket_key headers))) [
    | inl k ↦ absurd (ground arith)
    | inr k ↦
        rw k (upgraded (find_websocket_key headers) (is_empty-false (find_websocket_key headers) k))
  ]

  handle_text-outcome :
      (text : Bytes) → Ends (handle_text regex sha1 routes_map con connections text)
  unfolding handle_text
  handle_text-outcome text = WhenSome-bind _ (parse_headers text) _ (λ headers.
      WhenSome-bind _ (parse_url_params (extract_url_with_query_params text)) _ (λ params.
        elim (Bool-cases (is_websocket_request headers)) [
          | inl w ↦ rw w (handshake-outcome headers w)
          | inr w ↦ rw w (handle_http-outcome text headers params)
        ]))

  request-outcome :
      (received : Received)
      → Ends (handle_connection_request regex sha1 routes_map con connections received)
  unfolding handle_connection_request
  request-outcome none = silent
  request-outcome (some []) = silent
  request-outcome (some (b ∷ bytes)) =
      WhenSome-bind _ (from_buffer (b ∷ bytes)) _ (λ text. handle_text-outcome text)

  -- Whatever arrives, a call that ends closes the connection and sends nothing or one response, or
  -- sends the handshake, keeps the connection open and adds it to the list.
  pub handle_connection_request-closes :
      (received : Received) (h : Handled)
      → handle_connection_request regex sha1 routes_map con connections received ≡ some h
      → Outcome sha1 con connections h
  handle_connection_request-closes received h e = rw e at (request-outcome received)
