-- ===== src/Tests/Crashes.antt =====
-- Requests on which the handler ends abnormally.
use simple_server.Prelude.{◌≡◌, ◌↔◌, refl, none, some, [], ◌∷◌, codes, length, arith}
use simple_server.Socket.{Received}
use simple_server.Text.Search.{text_eq, find_char, find, starts_with}
use simple_server.Text.StringMap.{Map, lookup}
use simple_server.Text.Lines.{lines, lines_from}
use simple_server.Http.Codes.{ok}
use simple_server.Http.Headers.{parse_headers, parse_lines, parse_line}
use simple_server.Http.Request.{parse_url_params, extract_url_with_query_params, extract_url}
use simple_server.Http.Headers.Bare.{bare, this, later}
use simple_server.Http.Response.{new_response, set_body}
use simple_server.Http.Route.{Regex, query_endpoint_from_map}
use simple_server.Http.Route.Total.{WellFormed}
use simple_server.Http.Server.{
  Endpoint, handle_connection_request, received_str, from_buffer, handle_text, handle_parsed,
  handle_http, answer,
}
use simple_server.Http.Server.Crashes.{
  Crashes, crashing_text, bare_line, handle_connection_request-Crashes,
}
use simple_server.Older.Server as Older
use simple_server.Older.Server.Crashes as OlderCrashes
use simple_server.Older.Server.Crashes.{older-request-Crashes}
use simple_server.Older.Connections.{Connections}
use simple_server.Websocket.Manager.{Sha1, is_upgrade}

abbrev literal : Regex
literal pattern uri = some (text_eq pattern uri)

abbrev sum_words : Sha1
sum_words input = length input ∷ []

abbrev routes : Map Endpoint
routes = (codes "/a", (λ request. some (set_body (codes "hi") (new_response ok)))) ∷ []

literal-WellFormed : WellFormed literal routes
literal-WellFormed uri = ((text_eq (codes "/a") uri, refl), tt)

-- The last line has a name, and nothing behind its colon.
abbrev unfinished : Received
unfinished = some (codes "GET /a HTTP/1.1\r\nHost: here\r\nAccept:")

handle_connection_request-Crashes_example :
    (handle_connection_request literal sum_words routes 4 [] unfinished ≡ none)
    ↔ Crashes literal routes unfinished
handle_connection_request-Crashes_example =
    handle_connection_request-Crashes literal sum_words routes 4 [] literal-WellFormed unfinished

unfinished-Crashes : Crashes literal routes unfinished
unfolding received_str from_buffer find_char lines lines_from
unfinished-Crashes =
    crashing_text unfinished (codes "GET /a HTTP/1.1\r\nHost: here\r\nAccept:") refl refl
      (bare_line (later refl (this (bare (codes "Accept") (ground arith)))))

-- An endpoint of the older server that returns a null pointer.
abbrev older_routes : Map Older.Endpoint
older_routes = (codes "/a", (λ request. none)) ∷ []

older_routes-WellFormed : WellFormed literal older_routes
older_routes-WellFormed uri = ((text_eq (codes "/a") uri, refl), tt)

-- A call that throws.
raised_run :
    handle_connection_request literal sum_words
      ((codes "/a", (λ request. none)) ∷ [])
      4
      []
      (some (codes "GET /a HTTP/1.1\r\n\r\n"))
    ≡ none
unfolding handle_connection_request handle_text handle_parsed handle_http answer received_str
    from_buffer parse_headers parse_lines parse_line find_char find starts_with lines lines_from
    parse_url_params extract_url_with_query_params extract_url is_upgrade lookup text_eq
    query_endpoint_from_map
raised_run = refl

abbrev no_sockets : Connections
no_sockets = record { poll_fds = []; web_socket_connections = [] }

older-request-Crashes_example :
    (Older.handle_connection_request literal sum_words older_routes 4 no_sockets unfinished ≡ none)
    ↔ OlderCrashes.Crashes literal older_routes unfinished
older-request-Crashes_example =
    older-request-Crashes literal sum_words older_routes 4 no_sockets older_routes-WellFormed
      unfinished
