-- ===== src/Http/Response/Laws.antt =====
-- How a response with a body is framed.
use simple_server.Prelude.{
  ◌≡◌, ◌≢◌, refl, sym, ◌∙◌, true, none, some, [], ◌∷◌, ◌++◌, Bytes, codes, length, ltb,
  append_assoc, append-nil, arith,
}
use simple_server.Text.Search.{text_eq_refl}
use simple_server.Text.Decimal.{to_decimal}
use simple_server.Text.StringMap.{lookup, insert, lookup-insert}
use simple_server.Http.Codes.{HttpResponseCode, crlf, http_response_code_to_string}
use simple_server.Http.Response.{
  StringMap, header_line, http_headers_to_response_string, build_http_response, HttpResponse, build,
  set_body,
}

-- The text of a response: status line, header lines, an empty line and the body.
abbrev pub framed : HttpResponseCode → StringMap → Bytes → Bytes
framed status_code headers body =
    codes "HTTP/1.1 "
    ++ (http_response_code_to_string status_code
        ++ (http_headers_to_response_string headers ++ (crlf ++ body)))

headers-append :
    (hs ks : StringMap)
    → http_headers_to_response_string (hs ++ ks)
      ≡ http_headers_to_response_string hs ++ http_headers_to_response_string ks
unfolding http_headers_to_response_string
headers-append [] ks = refl
headers-append (h ∷ hs) ks = rw (headers-append hs ks) (
    sym (
      append_assoc (header_line h) (http_headers_to_response_string hs)
        (http_headers_to_response_string ks)))

not_empty : (body : Bytes) → body ≢ [] → ltb 0 (length body) ≡ true
not_empty [] h = absurd (h refl)
not_empty (c ∷ cs) h = ground arith

abbrev content_length : Bytes
content_length = codes "Content-Length"

last_line :
    (v rest : Bytes)
    → http_headers_to_response_string ((codes "Content-Length", v) ∷ []) ++ rest
      ≡ codes "Content-Length: " ++ (v ++ (crlf ++ rest))
unfolding http_headers_to_response_string
last_line v rest = simp (append_assoc, append-nil)

-- A body, not empty, whose length no header gives is sent with a `Content-Length` header behind the others.
pub build_http_response-framed :
    (headers : StringMap) (body : Bytes) (status_code : HttpResponseCode)
    → body ≢ []
    → lookup (codes "Content-Length") headers ≡ none
    → build_http_response headers body status_code
      ≡ framed status_code (headers ++ (codes "Content-Length", to_decimal (length body)) ∷ []) body
unfolding build_http_response
build_http_response-framed headers body status_code h e = rw (
  not_empty body h,
  e,
  headers-append headers ((codes "Content-Length", to_decimal (length body)) ∷ []),
  append_assoc (http_headers_to_response_string headers)
      (http_headers_to_response_string ((codes "Content-Length", to_decimal (length body)) ∷ []))
      (crlf ++ body),
  last_line (to_decimal (length body)) (crlf ++ body),
)

-- A body, not empty, that `set_body` was given is sent as it is behind the headers, which hold its
-- length whatever they held before.
pub build-set_body :
    (text : Bytes) (r : HttpResponse)
    → text ≢ []
    → (build (set_body text r) ≡ framed r.status_code (set_body text r).headers text)
      × (lookup (codes "Content-Length") (set_body text r).headers
          ≡ some (to_decimal (length text)))
unfolding build build_http_response set_body
build-set_body text r h = (rw (not_empty text h, found), found)
  where
    found :
        lookup
          (codes "Content-Length")
          (insert (codes "Content-Length") (to_decimal (length text)) r.headers)
        ≡ some (to_decimal (length text))
    found =
        lookup-insert (codes "Content-Length") (codes "Content-Length") (to_decimal (length text))
          r.headers
        ∙ rw (text_eq_refl (codes "Content-Length"))

-- Without a body nothing follows the last header line: the empty line that ends the headers is not
-- sent either.
pub build_http_response_empty :
    (headers : StringMap) (status_code : HttpResponseCode)
    → build_http_response headers [] status_code ++ crlf ≡ framed status_code headers []
unfolding build_http_response
build_http_response_empty headers status_code = simp (append_assoc, append-nil)
