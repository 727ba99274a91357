-- ===== src/Http/Server/Outcome.antt =====
-- What the handler of a request may do to its connection, whatever arrives.
use simple_server.Prelude.{
  ℕ, ◌≡◌, ◌≢◌, inl, inr, true, Option, none, some, [], ◌∷◌, Bytes, arith, Bool-cases,
}
use simple_server.Text.Words.{is_empty}
use simple_server.Text.StringMap.{Map}
use simple_server.Socket.{Received}
use simple_server.Http.Headers.{parse_headers, ◌>>=◌}
use simple_server.Http.Request.{extract_url_with_query_params, extract_url, parse_url_params}
use simple_server.Http.Response.{StringMap}
use simple_server.Http.Route.{Regex, query_endpoint_from_map}
use simple_server.Http.Server.{
  received_str, Endpoint, Answer, answer, Handled, respond, request_of, handle_http, handle_parsed,
  handle_text, handle_connection_request,
}
use simple_server.Websocket.Manager.{
  Sha1, Descriptors, insert, handshake, get_accept_key, find_websocket_key, is_upgrade,
  add_new_connection_connection,
}
use simple_server.Websocket.Manager.Handshake.{is_empty-false}

-- The three ends of the handler: nothing arrived, the connection became a WebSocket, or the request
-- was answered.
pub data Outcome (sha1 : Sha1) (connection : ℕ) (descriptors : Descriptors) : Handled → Type 0 where
  silent :
      Outcome sha1 connection descriptors
        (record { sent = []; closed = []; descriptors = descriptors })
  upgraded :
      (key : Bytes)
      → key ≢ []
      → Outcome sha1 connection descriptors (record {
        sent = (connection, handshake (get_accept_key sha1 key)) ∷ [];
        closed = [];
        descriptors = insert connection descriptors;
      })
  answered : (a : Answer) → Outcome sha1 connection descriptors (respond connection descriptors a)

-- The predicate holds of the result, where there is one.
abbrev pub WhenSome : {A : Type 0} → (A → Type 0) → Option A → Type 0
WhenSome P none = Unit
WhenSome P (some a) = P a

pub WhenSome-bind :
    {A B : Type 0} (P : B → Type 0) (o : Option A) (f : A → Option B)
    → ((a : A) → WhenSome P (f a))
    → WhenSome P (o >>= f)
WhenSome-bind P none f h = tt
WhenSome-bind P (some a) f h = h a

module _ (regex : Regex) (sha1 : Sha1) (routes : Map Endpoint) (connection : ℕ)
    (descriptors : Descriptors) where
  abbrev Ends : Option Handled → Type 0
  Ends = WhenSome (Outcome sha1 connection descriptors)

  http_outcome :
      (text : Bytes) (headers params : StringMap)
      → Ends (handle_http regex sha1 routes connection descriptors text headers params)
  unfolding handle_http
  http_outcome text headers params =
      WhenSome-bind _ (query_endpoint_from_map regex (extract_url text) routes) _ (λ found.
        WhenSome-bind _ (answer (request_of text headers params) found) _ (λ a. answered a))

  upgrade_outcome :
      (headers : StringMap)
      → let added = add_new_connection_connection sha1 connection headers descriptors in
        added.accepted ≡ true
        → Outcome sha1 connection descriptors
            (record { sent = added.sent; closed = []; descriptors = added.descriptors })
  unfolding add_new_connection_connection
  upgrade_outcome headers a = elim (Bool-cases (is_empty (find_websocket_key headers))) [
    | inl k ↦ absurd (ground arith)
    | inr k ↦
        rw k (upgraded (find_websocket_key headers) (is_empty-false (find_websocket_key headers) k))
  ]

  parsed_outcome :
      (text : Bytes) (headers params : StringMap)
      → Ends (handle_parsed regex sha1 routes connection descriptors text headers params)
  unfolding handle_parsed
  parsed_outcome text headers params =
      let added = add_new_connection_connection sha1 connection headers descriptors in
      elim (Bool-cases (is_upgrade headers)) [
        | inr u ↦ rw u (http_outcome text headers params)
        | inl u ↦ elim (Bool-cases added.accepted) [
          | inr k ↦ rw (u, k) (http_outcome text headers params)
          | inl k ↦ rw (u, k) (upgrade_outcome headers k)
        ]
      ]

  text_outcome : (text : Bytes) → Ends (handle_text regex sha1 routes connection descriptors text)
  unfolding handle_text
  text_outcome text = WhenSome-bind _ (parse_headers text) _ (λ headers.
      WhenSome-bind _ (parse_url_params (extract_url_with_query_params text)) _
        (λ params. parsed_outcome text headers params))

  request_outcome :
      (received : Received)
      → Ends (handle_connection_request regex sha1 routes connection descriptors received)
  unfolding handle_connection_request
  request_outcome received = WhenSome-bind _ (received_str received) _ (λ text.
      elim (Bool-cases (is_empty text)) [ inl e ↦ rw e silent | inr e ↦ rw e (text_outcome text) ])

  -- Whatever arrives and whatever the endpoints are, a call of the handler that ends sends nothing,
  -- or the handshake, which registers the connection and leaves it open, or one response.
  pub handle_connection_request-outcome :
      (received : Received) (h : Handled)
      → handle_connection_request regex sha1 routes connection descriptors received ≡ some h
      → Outcome sha1 connection descriptors h
  handle_connection_request-outcome received h e = rw e at (request_outcome received)
