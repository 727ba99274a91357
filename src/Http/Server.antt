-- ===== src/Http/Server.antt =====
-- `http_server` of src/http_handler.cpp, with `received_str` of includes/io_utils.h: what the server
-- does with a connection on which a request has arrived. The callbacks of the routes, the regular
-- expressions and the digest of the handshake are parameters.
pub mod Arrival
pub mod Buffer
pub mod Serve
pub mod Query
pub mod Outcome
pub mod Crashes
use simple_server.Prelude.{
  ℕ, Bool, true, false, Option, none, some, List, [], ◌∷◌, ◌++◌, Bytes, codes, length, ltb, ◌==◌,
  if◌then◌else◌,
}
use simple_server.Socket.{Received, Script, recv}
use simple_server.Text.Search.{text_eq, is_some, find_char}
use simple_server.Text.Words.{is_empty}
use simple_server.Text.StringMap.{Map}
use simple_server.Http.Headers.{parse_headers, ◌>>=◌}
use simple_server.Http.Request.{
  substr_to, HttpRequest, extract_http_verb, parse_http_request_verb, extract_url_with_query_params,
  extract_url, extract_body, parse_url_params,
}
use simple_server.Http.Response.{StringMap, HttpResponse, build}
use simple_server.Http.Route.{Regex, invalid_http_uri, query_endpoint_from_map}
use simple_server.Websocket.Manager.{
  Sha1, Descriptors, Sent, Added, is_upgrade, add_new_connection_connection,
}

abbrev pub max_buffer : ℕ
max_buffer = 2048

-- `ret = buffer`: the string ends at the first zero byte. The buffer is filled with zeros first, but
-- where the bytes that arrive fill it and none of them is zero, the string has no end and the
-- language defines no behaviour: `none`.
unfoldable pub from_buffer : Bytes → Option Bytes
from_buffer bytes = elim (find_char 0 bytes) [
  | some end ↦ some (substr_to (some end) bytes)
  | none ↦ if ltb (length bytes) max_buffer then some bytes else none
]

unfoldable pub received_str : Received → Option Bytes
received_str none = some []
received_str (some bytes) = from_buffer bytes

unfoldable pub default_400_msg : Bytes
default_400_msg =
    codes "HTTP/1.1 400 Bad Request\r\n"
    ++ (codes "Server: SimpleServer/1.0\r\n"
        ++ (codes "Content-Type: text/html; charset=UTF-8\r\n"
            ++ (codes "Content-Length: 129\r\n"
                ++ (codes "Connection: close\r\n\r\n"
                    ++ (codes "<html>"
                        ++ (codes "<head><title>400 Bad Request</title></head>"
                            ++ (codes "<body>"
                                ++ (codes "<h1>400 Bad Request</h1>"
                                    ++ (codes
                                          "<p>Your request could not be understood by the server due to malformed syntax.</p>"
                                        ++ (codes "</body>" ++ codes "</html>"))))))))))

unfoldable pub default_500_msg : Bytes
default_500_msg =
    codes "HTTP/1.1 500 Not Found\r\n"
    ++ (codes "Server: SimpleServer/1.0\r\n" ++ codes "Connection: close\r\n\r\n")

-- `std::function<http_response(http_request)>`; `none` is an exception of the callback, or that of the
-- call of an empty one.
abbrev pub Endpoint : Type 0
Endpoint = HttpRequest → Option HttpResponse

-- The locals `response` and `closefd` when the response is sent.
pub record Answer : Type 0 where
  pub response : Bytes
  pub closefd : Bool

abbrev pub answer_with : Option HttpResponse → Option Answer
answer_with none = none
answer_with (some res) = some (record { response = build res; closefd = res.close_fd })

-- `none` is an exception.
unfoldable pub answer : HttpRequest → Bytes × Option Endpoint → Option Answer
answer request (name, callback) =
    if text_eq name invalid_http_uri
    then some (record { response = default_500_msg; closefd = true })
    else elim callback [ none ↦ none | some cb ↦ answer_with (cb request) ]

-- What the handler does: the bytes sent, the descriptors closed, and the manager's set behind it.
pub record Handled : Type 0 where
  pub sent : Sent
  pub closed : List ℕ
  pub descriptors : Descriptors

unfoldable pub respond : ℕ → Descriptors → Answer → Handled
respond connection descriptors a = record {
  sent = (connection, a.response) ∷ [];
  closed = if a.closefd then connection ∷ [] else [];
  descriptors = descriptors;
}

-- The `http_request` that the endpoint is given.
unfoldable pub request_of : Bytes → StringMap → StringMap → HttpRequest
request_of text headers params = record {
  request_verb_id = parse_http_request_verb text;
  str_verb = extract_http_verb text;
  url = extract_url text;
  headers = headers;
  query_params = params;
  body = extract_body text;
}

module _ (regex : Regex) (sha1 : Sha1) (routes : Map Endpoint) where
  -- The request as an HTTP request.
  unfoldable pub handle_http : ℕ → Descriptors → Bytes → StringMap → StringMap → Option Handled
  unfolding respond
  handle_http connection descriptors text headers params =
      query_endpoint_from_map regex (extract_url text) routes >>= λ found.
      answer (request_of text headers params) found >>= λ a. some (respond connection descriptors a)

  -- An upgrade of a connection that the manager accepts ends the handler.
  unfoldable pub handle_parsed : ℕ → Descriptors → Bytes → StringMap → StringMap → Option Handled
  unfolding handle_http
  handle_parsed connection descriptors text headers params =
      let added = add_new_connection_connection sha1 connection headers descriptors in
      let http = handle_http connection descriptors text headers params in
      if is_upgrade headers
      then (if added.accepted
          then some (record { sent = added.sent; closed = []; descriptors = added.descriptors })
          else http)
      else http

  -- A text that is not empty.
  unfoldable pub handle_text : ℕ → Descriptors → Bytes → Option Handled
  unfolding handle_parsed
  handle_text connection descriptors text = parse_headers text >>= λ headers.
      parse_url_params (extract_url_with_query_params text) >>= λ params.
      handle_parsed connection descriptors text headers params

  -- `none`: an exception leaves the handler before it has sent or closed anything, or the language
  -- defines no behaviour.
  unfoldable pub handle_connection_request : ℕ → Descriptors → Received → Option Handled
  unfolding handle_text
  handle_connection_request connection descriptors received = received_str received >>= λ text.
      if is_empty text
      then some (record { sent = []; closed = []; descriptors = descriptors })
      else handle_text connection descriptors text
