-- ===== src/Http/Server/Serve.antt =====
-- A request from its arrival to the answer of its endpoint.
use simple_server.Prelude.{
  ℕ, ◌<◌, ◌≡◌, ◌≢◌, ap, ◌∙◌, false, none, some, [], ◌∷◌, ◌++◌, Bytes, codes, length, All, arith,
  if◌then◌else◌,
}
use simple_server.Text.Search.{is_some, text_eq_ne, text_eq_refl}
use simple_server.Text.Words.{is_empty}
use simple_server.Text.StringMap.{Map, lookup}
use simple_server.Text.Lines.{IsLine}
use simple_server.Http.Codes.{crlf}
use simple_server.Http.Headers.{parse_headers}
use simple_server.Http.Headers.Line.{IsHeader}
use simple_server.Http.Headers.RoundTrip.{Distinct}
use simple_server.Http.Request.{
  HttpRequest, extract_url_with_query_params, extract_url, extract_body, parse_http_request_verb,
  parse_url_params,
}
use simple_server.Http.Request.Line.{NoSpace, verb_lem, request_line_plain}
use simple_server.Http.Response.{HttpResponse, StringMap, http_headers_to_response_string, build}
use simple_server.Http.Route.{Regex, invalid_http_uri, query_endpoint_from_map}
use simple_server.Http.Route.Query.{query_endpoint-lookup}
use simple_server.Http.Route.Declined.{Declines, query_endpoint_invalid}
use simple_server.Http.Server.Arrival.{
  request_text, received_str-text, parse_url_params_plain, is_empty-request, parse_headers-request,
}
use simple_server.Http.Server.{
  default_500_msg, max_buffer, Endpoint, answer, respond, request_of, handle_http, handle_parsed,
  handle_text, handle_connection_request,
}
use simple_server.Websocket.Manager.{Sha1, Descriptors, is_upgrade}

-- What the endpoint is given for a request whose target is split into a URL and parameters.
abbrev pub request_to : Bytes → Bytes → Bytes → StringMap → StringMap → HttpRequest
request_to verb target url headers params = record {
  request_verb_id = parse_http_request_verb (request_text verb target headers);
  str_verb = verb;
  url = url;
  headers = headers;
  query_params = params;
  body = codes " ";
}

-- The request that its endpoint is given: `extract_body` gives a space for every body.
abbrev pub expected : Bytes → Bytes → StringMap → HttpRequest
expected verb path headers = request_to verb path (b'/' ∷ path) headers []

module _ (regex : Regex) (sha1 : Sha1) (routes : Map Endpoint) (connection : ℕ)
    (descriptors : Descriptors) where
  handle_http-chosen :
      (text : Bytes) (headers params : StringMap) (name : Bytes) (cb : Endpoint)
      (res : HttpResponse)
      → query_endpoint_from_map regex (extract_url text) routes ≡ some (name, some cb)
      → name ≢ invalid_http_uri
      → cb (request_of text headers params) ≡ some res
      → handle_http regex sha1 routes connection descriptors text headers params
        ≡ some (
            respond connection descriptors
              (record { response = build res; closefd = res.close_fd }))
  unfolding handle_http answer
  handle_http-chosen text headers params name cb res h valid returned =
      rw (h, text_eq_ne name invalid_http_uri valid, returned)

  handle_text-parsed :
      (text : Bytes) (headers params : StringMap)
      → parse_headers text ≡ some headers
      → parse_url_params (extract_url_with_query_params text) ≡ some params
      → is_some (lookup (codes "Upgrade") headers) ≡ false
      → handle_text regex sha1 routes connection descriptors text
        ≡ handle_http regex sha1 routes connection descriptors text headers params
  unfolding handle_text handle_parsed is_upgrade
  handle_text-parsed text headers params p q u = rw (p, q, u)

handle_connection_request-text :
    (regex : Regex) (sha1 : Sha1) (routes : Map Endpoint) (connection : ℕ)
    (descriptors : Descriptors) (text : Bytes)
    → All (λ c. c ≢ 0) text
    → length text < max_buffer
    → is_empty text ≡ false
    → handle_connection_request regex sha1 routes connection descriptors (some text)
      ≡ handle_text regex sha1 routes connection descriptors text
unfolding handle_connection_request
handle_connection_request-text regex sha1 routes connection descriptors text h l e =
    rw (received_str-text text h l, e)

-- A request with any target, when its URL and its parameters are known.
pub handle-request_target :
    (regex : Regex) (sha1 : Sha1) (routes : Map Endpoint) (connection : ℕ)
    (descriptors : Descriptors) (verb target url : Bytes) (headers params : StringMap)
    (name : Bytes) (cb : Endpoint) (res : HttpResponse)
    → NoSpace verb × IsLine verb
    → NoSpace target × IsLine target
    → (extract_url_with_query_params (request_text verb target headers) ≡ b'/' ∷ target)
      × (extract_url (request_text verb target headers) ≡ url)
      × (parse_url_params (b'/' ∷ target) ≡ some params)
    → All IsHeader headers × Distinct headers
    → lookup (codes "Upgrade") headers ≡ none
    → All (λ c. c ≢ 0) (request_text verb target headers)
    → length (request_text verb target headers) < max_buffer
    → query_endpoint_from_map regex url routes ≡ some (name, some cb)
    → name ≢ invalid_http_uri
    → cb (request_to verb target url headers params) ≡ some res
    → handle_connection_request regex sha1 routes connection descriptors
        (some (request_text verb target headers))
      ≡ some (record {
        sent = (connection, build res) ∷ [];
        closed = if res.close_fd then connection ∷ [] else [];
        descriptors = descriptors;
      })
unfolding request_of extract_body respond
handle-request_target regex sha1 routes connection descriptors verb target url headers params name
      cb res (vs, vl) (ts, tl) (whole, front, query) (hh, hd) up nul short chosen valid returned =
    let text = request_text verb target headers in
    let rest = crlf ++ (http_headers_to_response_string headers ++ crlf) in
    handle_connection_request-text regex sha1 routes connection descriptors text nul short
      (is_empty-request verb target rest)
    ∙ handle_text-parsed regex sha1 routes connection descriptors text headers params
        (parse_headers-request verb target headers vl tl hh hd) (ap parse_url_params whole ∙ query)
        (ap is_some up)
    ∙ handle_http-chosen regex sha1 routes connection descriptors text headers params name cb res
        (rw front chosen) valid (rw (front, verb_lem verb target rest vs ts) returned)

-- A request without a body, of fewer than 2048 bytes and without a zero byte: its verb and path hold no
-- space and no newline, the path no `?`, its headers print as lines and have different names, and none
-- is `Upgrade`. If an endpoint is chosen for the path, and it returns a response for the parts of the
-- request, then this is sent, and the connection is closed as the response says.
pub handle-request_chosen :
    (regex : Regex) (sha1 : Sha1) (routes : Map Endpoint) (connection : ℕ)
    (descriptors : Descriptors) (verb path : Bytes) (headers : StringMap) (name : Bytes)
    (cb : Endpoint) (res : HttpResponse)
    → NoSpace verb × IsLine verb
    → NoSpace path × IsLine path × All (λ c. c ≢ b'?') path
    → All IsHeader headers × Distinct headers
    → lookup (codes "Upgrade") headers ≡ none
    → All (λ c. c ≢ 0) (request_text verb path headers)
    → length (request_text verb path headers) < max_buffer
    → query_endpoint_from_map regex (b'/' ∷ path) routes ≡ some (name, some cb)
    → name ≢ invalid_http_uri
    → cb (expected verb path headers) ≡ some res
    → handle_connection_request regex sha1 routes connection descriptors
        (some (request_text verb path headers))
      ≡ some (record {
        sent = (connection, build res) ∷ [];
        closed = if res.close_fd then connection ∷ [] else [];
        descriptors = descriptors;
      })
handle-request_chosen regex sha1 routes connection descriptors verb path headers name cb res v
      (ps, pl, pq) =
    let rest = crlf ++ (http_headers_to_response_string headers ++ crlf) in
    let (target, url) = request_line_plain verb path rest v.0 ps pq in
    handle-request_target regex sha1 routes connection descriptors verb path (b'/' ∷ path) headers
      [] name cb res v (ps, pl)
      (target, url, parse_url_params_plain (b'/' ∷ path) (omega arith, pq))

-- A request without a body, of fewer than 2048 bytes and without a zero byte: its verb and path hold no
-- space and no newline, the path no `?`, its headers print as lines and have different names, and none
-- is `Upgrade`. If the path is the name of a route, whose endpoint returns a response for the parts of
-- the request, then this is sent, and the connection is closed as the response says. Of the parts,
-- the number of the verb is what the code finds anywhere in the text, and the body is a space.
pub handle-request_text :
    (regex : Regex) (sha1 : Sha1) (routes : Map Endpoint) (connection : ℕ)
    (descriptors : Descriptors) (verb path : Bytes) (headers : StringMap) (cb : Endpoint)
    (res : HttpResponse)
    → NoSpace verb × IsLine verb
    → NoSpace path × IsLine path × All (λ c. c ≢ b'?') path
    → All IsHeader headers × Distinct headers
    → lookup (codes "Upgrade") headers ≡ none
    → All (λ c. c ≢ 0) (request_text verb path headers)
    → length (request_text verb path headers) < max_buffer
    → lookup (b'/' ∷ path) routes ≡ some cb
    → cb (expected verb path headers) ≡ some res
    → handle_connection_request regex sha1 routes connection descriptors
        (some (request_text verb path headers))
      ≡ some (record {
        sent = (connection, build res) ∷ [];
        closed = if res.close_fd then connection ∷ [] else [];
        descriptors = descriptors;
      })
handle-request_text regex sha1 routes connection descriptors verb path headers cb res v p h up nul
      short found =
    handle-request_chosen regex sha1 routes connection descriptors verb path headers (b'/' ∷ path)
      cb res v p h up nul short (query_endpoint-lookup regex (b'/' ∷ path) routes cb found)
      (λ e. absurd (ground (arith, e)))

-- A text of fewer than 2048 bytes that is not empty and holds no zero byte, whose headers and
-- parameters can be read, without a header `Upgrade`, whose URL is the name of no route and is
-- declined by every route: the fixed message is sent and the connection is closed.
pub handle-unknown :
    (regex : Regex) (sha1 : Sha1) (routes : Map Endpoint) (connection : ℕ)
    (descriptors : Descriptors) (text : Bytes) (headers params : StringMap)
    → All (λ c. c ≢ 0) text
    → length text < max_buffer
    → is_empty text ≡ false
    → parse_headers text ≡ some headers
    → parse_url_params (extract_url_with_query_params text) ≡ some params
    → lookup (codes "Upgrade") headers ≡ none
    → lookup (extract_url text) routes ≡ none
    → All (Declines regex (extract_url text)) routes
    → handle_connection_request regex sha1 routes connection descriptors (some text)
      ≡ some (record {
        sent = (connection, default_500_msg) ∷ [];
        closed = connection ∷ [];
        descriptors = descriptors;
      })
unfolding handle_http answer respond
handle-unknown regex sha1 routes connection descriptors text headers params nul short e p q up
      missing declined =
    handle_connection_request-text regex sha1 routes connection descriptors text nul short e
    ∙ handle_text-parsed regex sha1 routes connection descriptors text headers params p q
        (ap is_some up)
    ∙ rw (
      query_endpoint_invalid regex (extract_url text) routes missing declined,
      text_eq_refl invalid_http_uri,
    )
