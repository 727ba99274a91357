-- ===== src/Http/Server/Query.antt =====
-- A request with parameters from its arrival to the answer of its endpoint.
use simple_server.Prelude.{
  ℕ, ◌<◌, ◌≡◌, ◌≢◌, none, some, [], ◌∷◌, ◌++◌, Bytes, codes, length, All, arith, if◌then◌else◌,
}
use simple_server.Text.StringMap.{Map, lookup}
use simple_server.Text.Lines.{IsLine}
use simple_server.Http.Codes.{crlf}
use simple_server.Http.Headers.Line.{IsHeader}
use simple_server.Http.Headers.RoundTrip.{Distinct}
use simple_server.Http.Request.Line.{NoSpace, request_line}
use simple_server.Http.Request.Params.{IsParam, print_params, parse_url_params-print}
use simple_server.Http.Response.{HttpResponse, StringMap, http_headers_to_response_string, build}
use simple_server.Http.Route.{Regex}
use simple_server.Http.Route.Query.{query_endpoint-lookup}
use simple_server.Http.Server.{max_buffer, Endpoint, handle_connection_request}
use simple_server.Http.Server.Arrival.{request_text}
use simple_server.Http.Server.Serve.{request_to, handle-request_target}
use simple_server.Websocket.Manager.{Sha1, Descriptors}

-- The path, a question mark, and the parameters with a semicolon between them.
abbrev pub target : Bytes → StringMap → Bytes
target path params = path ++ (b'?' ∷ print_params params)

-- A request without a body, of fewer than 2048 bytes and without a zero byte: its verb and target hold
-- no space and no newline, the path no `?`, the names and values of its parameters are not empty and
-- hold no separator, the headers print as lines, none is `Upgrade`, and the names of each are
-- different. If the path is the name of a route, whose endpoint returns a response for the path, the
-- headers, the parameters and the other parts of the request, then this is sent, and the connection is
-- closed as the response says. The number of the verb is what the code finds anywhere in the text, and
-- the body is a space.
pub handle-request_query :
    (regex : Regex) (sha1 : Sha1) (routes : Map Endpoint) (connection : ℕ)
    (descriptors : Descriptors) (verb path : Bytes) (headers params : StringMap) (cb : Endpoint)
    (res : HttpResponse)
    → NoSpace verb × IsLine verb
    → NoSpace (target path params) × IsLine (target path params)
    → All (λ c. c ≢ b'?') path
    → All IsParam params × Distinct params
    → All IsHeader headers × Distinct headers
    → lookup (codes "Upgrade") headers ≡ none
    → All (λ c. c ≢ 0) (request_text verb (target path params) headers)
    → length (request_text verb (target path params) headers) < max_buffer
    → lookup (b'/' ∷ path) routes ≡ some cb
    → cb (request_to verb (target path params) (b'/' ∷ path) headers params) ≡ some res
    → handle_connection_request regex sha1 routes connection descriptors
        (some (request_text verb (target path params) headers))
      ≡ some (record {
        sent = (connection, build res) ∷ [];
        closed = if res.close_fd then connection ∷ [] else [];
        descriptors = descriptors;
      })
handle-request_query regex sha1 routes connection descriptors verb path headers params cb res v t q
      (ph, pd) h up nul short found =
    let rest = crlf ++ (http_headers_to_response_string headers ++ crlf) in
    let (verb_part, whole, front) = request_line verb path (print_params params) rest v.0 t.0 q in
    handle-request_target regex sha1 routes connection descriptors verb (target path params)
      (b'/' ∷ path) headers params (b'/' ∷ path) cb res v t
      (whole, front, parse_url_params-print (b'/' ∷ path) params (omega arith, q) ph pd) h up nul
      short (query_endpoint-lookup regex (b'/' ∷ path) routes cb found)
      (λ e. absurd (ground (arith, e)))
