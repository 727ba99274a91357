-- ===== src/Older/Server/Serve.antt =====
-- A request from its arrival to the answer of its endpoint, in the older server.
use simple_server.Prelude.{
  ℕ, ◌<◌, ◌≡◌, ◌≢◌, sym, ap, ◌∙◌, false, some, [], ◌∷◌, ◌++◌, Bytes, codes, length, All, arith,
}
use simple_server.Text.Search.{text_eq_ne}
use simple_server.Text.StringMap.{Map, lookup}
use simple_server.Text.Lines.{IsLine}
use simple_server.Http.Codes.{crlf}
use simple_server.Http.Headers.Line.{IsHeader}
use simple_server.Http.Headers.RoundTrip.{Distinct}
use simple_server.Http.Request.Line.{NoSpace, request_line_plain}
use simple_server.Http.Response.{StringMap, http_headers_to_response_string}
use simple_server.Http.Route.{Regex, invalid_http_uri}
use simple_server.Http.Route.Query.{query_endpoint-lookup}
use simple_server.Http.Server.{max_buffer, received_str}
use simple_server.Http.Server.Arrival.{
  request_text, received_str-text, parse_url_params_plain, parse_headers-request,
}
use simple_server.Older.Connections.{Connections, is_websocket_request}
use simple_server.Http.Request.{extract_body}
use simple_server.Older.Texts.{
  extract_url, extract_url_with_query_params, parse_headers, parse_url_params,
}
use simple_server.Older.Response.{Response, build_response, parse_request_verb}
use simple_server.Older.Server.{
  Request, Endpoint, Handled, request_of, response_to, handle_http, handle_text,
  handle_connection_request,
}
use simple_server.Websocket.Manager.{Sha1}

-- The request that the endpoint is given: `extract_body` gives a space for every body.
abbrev pub expected : Bytes → Bytes → StringMap → Request
expected verb path headers = record {
  request_verb = parse_request_verb (request_text verb path headers);
  url = b'/' ∷ path;
  headers = headers;
  query_params = [];
  body = codes " ";
}

module _ (regex : Regex) (sha1 : Sha1) (routes_map : Map Endpoint) (con : ℕ)
    (connections : Connections) where
  abbrev answered : Bytes → Handled
  answered response = record {
    sent = (con, response) ∷ [];
    closed = con ∷ [];
    connections = connections;
  }

  handle_http-found :
      (text : Bytes) (headers params : StringMap) (cb : Endpoint) (res : Response)
      → lookup (extract_url text) routes_map ≡ some cb
      → extract_url text ≢ invalid_http_uri
      → cb (request_of text headers params) ≡ some res
      → handle_http regex sha1 routes_map con connections text headers params
        ≡ some (answered (build_response res))
  unfolding handle_http response_to
  handle_http-found text headers params cb res h valid e = rw (
    query_endpoint-lookup regex (extract_url text) routes_map cb h,
    text_eq_ne (extract_url text) invalid_http_uri valid,
    e,
  )

  handle_text-parsed :
      (text : Bytes) (headers params : StringMap)
      → parse_headers text ≡ some headers
      → parse_url_params (extract_url_with_query_params text) ≡ some params
      → is_websocket_request headers ≡ false
      → handle_text regex sha1 routes_map con connections text
        ≡ handle_http regex sha1 routes_map con connections text headers params
  unfolding handle_text
  handle_text-parsed text headers params p q w = rw (p, q, w)

  handle_connection_request-text :
      (b : ℕ) (text : Bytes)
      → All (λ c. c ≢ 0) (b ∷ text)
      → length (b ∷ text) < max_buffer
      → handle_connection_request regex sha1 routes_map con connections (some (b ∷ text))
        ≡ handle_text regex sha1 routes_map con connections (b ∷ text)
  unfolding handle_connection_request received_str
  handle_connection_request-text b text h l = rw (received_str-text (b ∷ text) h l)

pub older-request_text :
    (regex : Regex) (sha1 : Sha1) (routes_map : Map Endpoint) (con : ℕ) (connections : Connections)
    (v : ℕ) (verb path : Bytes) (headers : StringMap) (cb : Endpoint) (res : Response)
    → NoSpace (v ∷ verb) × IsLine (v ∷ verb)
    → NoSpace path × IsLine path × All (λ c. c ≢ b'?') path
    → All IsHeader headers × Distinct headers
    → is_websocket_request headers ≡ false
    → All (λ c. c ≢ 0) (request_text (v ∷ verb) path headers)
    → length (request_text (v ∷ verb) path headers) < max_buffer
    → lookup (b'/' ∷ path) routes_map ≡ some cb
    → cb (expected (v ∷ verb) path headers) ≡ some res
    → handle_connection_request regex sha1 routes_map con connections
        (some (request_text (v ∷ verb) path headers))
      ≡ some (record {
        sent = (con, build_response res) ∷ [];
        closed = con ∷ [];
        connections = connections;
      })
unfolding request_of extract_body
older-request_text regex sha1 routes_map con connections v verb path headers cb res (vs, vl)
      (ps, pl, pq) (hh, hd) plain nul short found e =
    let text = request_text (v ∷ verb) path headers in
    let rest = crlf ++ (http_headers_to_response_string headers ++ crlf) in
    let (target, url) = request_line_plain (v ∷ verb) path rest vs ps pq in
    handle_connection_request-text regex sha1 routes_map con connections v _ nul short
    ∙ handle_text-parsed regex sha1 routes_map con connections text headers []
        (parse_headers-request (v ∷ verb) path headers vl pl hh hd)
        (ap parse_url_params target ∙ parse_url_params_plain (b'/' ∷ path) (omega arith, pq)) plain
    ∙ handle_http-found regex sha1 routes_map con connections text headers [] cb res
        (rw (url) found) (λ e. absurd (ground (arith, sym url ∙ e))) (rw url e)
