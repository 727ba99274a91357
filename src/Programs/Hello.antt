-- ===== src/Programs/Hello.antt =====
-- The routes of src/main.cpp, which is built on the older version of the library.
use simple_server.Prelude.{
  ℕ, ◌<◌, ◌≡◌, ◌≢◌, refl, false, some, [], ◌∷◌, ◌++◌, Bytes, codes, length, All,
}
use simple_server.Text.Decimal.{to_decimal, decimal_loop}
use simple_server.Text.Search.{text_eq}
use simple_server.Text.StringMap.{Map, lookup, insert}
use simple_server.Text.Lines.{IsLine}
use simple_server.Http.Codes.{
  HttpResponseCode, ok, switching_protocols, http_response_code_to_string, str_builder,
}
use simple_server.Http.Headers.Line.{IsHeader}
use simple_server.Http.Headers.RoundTrip.{Distinct}
use simple_server.Http.Request.Line.{NoSpace}
use simple_server.Http.Response.{StringMap, http_headers_to_response_string, build_http_response}
use simple_server.Http.Route.{Regex}
use simple_server.Http.Server.{max_buffer}
use simple_server.Http.Server.Arrival.{request_text}
use simple_server.Older.Connections.{Connections, is_websocket_request}
use simple_server.Older.Constants.{ContentType, text_html, text_css, http_content_type_to_string}
use simple_server.Older.Response.{Response, build_response}
use simple_server.Older.Server.{Endpoint, add_route_handler, handle_connection_request}
use simple_server.Older.Server.Serve.{older-request_text}
use simple_server.Older.System.{Disk, read_whole_file}
use simple_server.Websocket.Manager.{Sha1}

-- `new Response()`
abbrev new_response : HttpResponseCode → Response
new_response memory = record { headers = []; body = []; status_code = memory }

-- A response with a type and a length.
abbrev typed : Bytes → Bytes → Bytes → Response
typed type size body = record {
  headers = insert (codes "Content-Length") size (insert (codes "Content-type") type []);
  body = body;
  status_code = ok;
}

-- The first callback of `/`.
unfoldable pub switching : HttpResponseCode → Endpoint
switching memory request = some (record (new_response memory) { status_code = switching_protocols })

-- The second callback of `/`.
unfoldable pub hola : Endpoint
hola request = some (typed (codes "text/plain") (codes "4") (codes "HOLA 1"))

-- A file of the directory in which the program was started.
unfoldable pub file : Disk → Bytes → Bytes → ContentType → Endpoint
file disk current name type request =
    let body = read_whole_file disk (current ++ (codes "/" ++ name)) in
    some (typed (http_content_type_to_string type) (to_decimal (length body)) body)

unfoldable pub index_html : Disk → Bytes → Endpoint
unfolding file
index_html disk current = file disk current (codes "index.html") text_html

unfoldable pub style_css : Disk → Bytes → Endpoint
unfolding file
style_css disk current = file disk current (codes "style.css") text_css

-- The callback of the last two routes.
unfoldable pub hola_url : Endpoint
hola_url req =
    let body = codes "HOLA XPP" ++ req.url in
    some (typed (codes "text/plain") (to_decimal (length body)) body)

-- The routes behind the calls of `add_route_handler`. An unknown escape such as `\.` in a string is
-- the character itself.
unfoldable pub main : Disk → Bytes → HttpResponseCode → Map Endpoint
unfolding add_route_handler
main disk current memory =
    let once = add_route_handler (codes "/") (switching memory) [] in
    let root = add_route_handler (codes "/") hola once in
    let html = add_route_handler (codes "^/.*.html$") (index_html disk current) root in
    let css = add_route_handler (codes "^/.*.css$") (style_css disk current) html in
    let xpp = add_route_handler (codes "^/.*.xpp$") hola_url css in
    add_route_handler (codes "/<int>/hola") hola_url xpp

main-root :
    (disk : Disk) (current : Bytes) (memory : HttpResponseCode)
    → lookup (codes "/") (main disk current memory) ≡ some hola
unfolding main add_route_handler insert lookup text_eq
main-root disk current memory = refl

-- A request for `/` of fewer than 2048 bytes without a zero byte, made of a verb and of headers that
-- name no WebSocket key: the program answers with six characters and says that they are four.
pub main-answers :
    (disk : Disk) (current : Bytes) (memory : HttpResponseCode) (regex : Regex) (sha1 : Sha1)
    (con : ℕ) (connections : Connections) (v : ℕ) (verb : Bytes) (headers : StringMap)
    → NoSpace (v ∷ verb) × IsLine (v ∷ verb)
    → All IsHeader headers × Distinct headers
    → is_websocket_request headers ≡ false
    → All (λ c. c ≢ 0) (request_text (v ∷ verb) [] headers)
    → length (request_text (v ∷ verb) [] headers) < max_buffer
    → handle_connection_request regex sha1
        (main disk current memory)
        con
        connections
        (some (request_text (v ∷ verb) [] headers))
      ≡ some (record {
        sent =
            (
              con,
              codes
                  "HTTP/1.1 200 OK\r\nContent-type: text/plain\r\nContent-Length: 4\r\n\r\nHOLA 1",
            )
            ∷ [];
        closed = con ∷ [];
        connections = connections;
      })
unfolding hola build_response build_http_response http_response_code_to_string str_builder
    http_headers_to_response_string insert lookup text_eq to_decimal decimal_loop
main-answers disk current memory regex sha1 con connections v verb headers vh h plain nul short =
    older-request_text regex sha1 (main disk current memory) con connections v verb [] headers hola
      _ vh (tt, tt, tt) h plain nul short (main-root disk current memory) refl
