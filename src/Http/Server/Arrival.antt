-- ===== src/Http/Server/Arrival.antt =====
-- The text of a request, as it arrives and is taken apart.
use simple_server.Prelude.{
  ◌<◌, ◌≡◌, ◌≢◌, refl, sym, ap, ◌∙◌, false, some, [], ◌∷◌, ◌++◌, Bytes, length, All, All-append,
  append_assoc, append-nil, arith, lt→ltb,
}
use simple_server.Text.Words.{is_empty}
use simple_server.Text.Lines.{IsLine}
use simple_server.Http.Codes.{crlf}
use simple_server.Http.Headers.{parse_headers}
use simple_server.Http.Headers.Line.{IsHeader}
use simple_server.Http.Headers.RoundTrip.{Distinct, parse_headers-print, parse_headers_body}
use simple_server.Http.Request.{parse_url_params}
use simple_server.Http.Request.Line.{version, request}
use simple_server.Text.Search.{find_char-none}
use simple_server.Http.Response.{StringMap, http_headers_to_response_string}
use simple_server.Http.Server.{max_buffer, from_buffer, received_str}

-- The text of a request without a query and without a body.
abbrev pub request_text : Bytes → Bytes → StringMap → Bytes
request_text verb path headers =
    request verb path (crlf ++ (http_headers_to_response_string headers ++ crlf))

pub received_str-text :
    (text : Bytes)
    → All (λ c. c ≢ 0) text
    → length text < max_buffer
    → received_str (some text) ≡ some text
unfolding received_str from_buffer
received_str-text text h l = rw (find_char-none 0 text h, from_buffer, lt→ltb (length text) 2048 l)

pub parse_url_params_plain :
    (path : Bytes) → All (λ c. c ≢ b'?') path → parse_url_params path ≡ some []
unfolding parse_url_params
parse_url_params_plain path h = rw (find_char-none b'?' path h, parse_url_params)

pub is_empty-request : (verb path rest : Bytes) → is_empty (request verb path rest) ≡ false
is_empty-request [] path rest = refl
is_empty-request (c ∷ verb) path rest = refl

pub IsLine-first :
    (verb path : Bytes) → IsLine verb → IsLine path → IsLine (request verb path (b'\r' ∷ []))
IsLine-first verb path v p =
    All-append (λ c. c ≢ b'\n') verb _ v
      (
        omega arith,
        (omega arith, All-append (λ c. c ≢ b'\n') path (version ++ b'\r' ∷ []) p (ground arith)),
      )

regroup :
    (verb path more : Bytes)
    → request verb path (crlf ++ more) ≡ request verb path (b'\r' ∷ []) ++ (b'\n' ∷ more)
regroup verb path more = simp append_assoc

pub parse_headers-request :
    (verb path : Bytes) (headers : StringMap)
    → IsLine verb
    → IsLine path
    → All IsHeader headers
    → Distinct headers
    → parse_headers (request_text verb path headers) ≡ some headers
parse_headers-request verb path headers v p h d =
    let first = request verb path (b'\r' ∷ []) in
    let printed = http_headers_to_response_string headers in
    ap parse_headers (regroup verb path (printed ++ crlf))
    ∙ ap (λ t. parse_headers (first ++ (b'\n' ∷ (printed ++ t)))) (sym (append-nil crlf))
    ∙ parse_headers_body first headers [] (IsLine-first verb path v p) h
    ∙ ap (λ t. parse_headers (first ++ (b'\n' ∷ t))) (append-nil printed)
    ∙ parse_headers-print first headers (IsLine-first verb path v p) h d
