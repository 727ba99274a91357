-- ===== src/Http/Response.antt =====
-- `http_response` of includes/http_handler.h, and the text that is sent for one.
pub mod Laws
use simple_server.Prelude.{
  ℕ, zero, suc, ◌+◌, ◌<◌, ◌≡◌, ◌≢◌, refl, ap, ◌∙◌, Bool, true, false, Option, none, some, List, [],
  ◌∷◌, ◌++◌, Bytes, codes, length, length-append, ltb, if◌then◌else◌, append_assoc, arith,
}
use simple_server.Text.Search.{is_some}
use simple_server.Text.Decimal.{to_decimal}
use simple_server.Text.StringMap.{Map, lookup, insert, lookup-insert}
use simple_server.Files.{FileSystem, read_text_file, list_dir}
use simple_server.Http.Codes.{
  HttpResponseCode, HttpContentType, text_html, crlf, http_response_code_to_string,
  content_type_to_string,
}

abbrev pub StringMap : Type 0
StringMap = Map Bytes

-- `first + ": " + second + "\r\n"`
abbrev pub header_line : Bytes × Bytes → Bytes
header_line (k, v) = k ++ (codes ": " ++ (v ++ crlf))

unfoldable pub http_headers_to_response_string : StringMap → Bytes
http_headers_to_response_string [] = []
http_headers_to_response_string (h ∷ hs) = header_line h ++ http_headers_to_response_string hs

unfoldable pub build_http_response : StringMap → Bytes → HttpResponseCode → Bytes
build_http_response headers body status_code =
    codes "HTTP/1.1 "
    ++ (http_response_code_to_string status_code
        ++ (http_headers_to_response_string headers
            ++ (if ltb 0 (length body)
                then (if is_some (lookup (codes "Content-Length") headers)
                    then crlf ++ body
                    else codes "Content-Length: "
                      ++ (to_decimal (length body) ++ (crlf ++ (crlf ++ body))))
                else [])))

-- `status_code` has no initial value in the source: the field holds what the memory held. The field
-- `raw_response`, which nothing uses, is left out.
pub record HttpResponse : Type 0 where
  pub close_fd : Bool
  pub home_path : Bytes
  pub headers : StringMap
  pub body : Bytes
  pub status_code : HttpResponseCode

-- `http_response()`
abbrev pub new_response : HttpResponseCode → HttpResponse
new_response memory = record {
  close_fd = true;
  home_path = codes "/var";
  headers = [];
  body = [];
  status_code = memory;
}

unfoldable pub build : HttpResponse → Bytes
build r = build_http_response r.headers r.body r.status_code

-- The methods change the object and return a copy of it.
unfoldable pub set_home_path : Bytes → HttpResponse → HttpResponse
set_home_path p r = record r { home_path = p }

unfoldable pub set_content_type : HttpContentType → HttpResponse → HttpResponse
set_content_type type r = record r {
  headers = insert (codes "Content-Type") (content_type_to_string type) r.headers;
}

unfoldable pub set_body : Bytes → HttpResponse → HttpResponse
set_body text r = record r {
  headers = insert (codes "Content-Length") (to_decimal (length text)) r.headers;
  body = text;
}

-- The text for a directory: every entry on a line of its own.
unfoldable pub listing : List Bytes → Bytes
listing [] = []
listing (d ∷ ds) = d ++ (crlf ++ listing ds)

unfoldable pub text_or_listing : FileSystem → Bytes → Bytes → Bytes
unfolding listing
text_or_listing fs filename (c ∷ cs) = c ∷ cs
text_or_listing fs filename [] =
    let directories = list_dir fs filename in
    if ltb 0 (length directories) then listing directories else codes "file could not be opened."

unfoldable pub render_text_file : FileSystem → Bytes → HttpResponse → HttpResponse
unfolding text_or_listing
render_text_file fs filename r = record r {
  body = text_or_listing fs filename (read_text_file fs filename);
}

unfoldable pub render_html_file : FileSystem → Bytes → HttpResponse → HttpResponse
unfolding render_text_file
render_html_file fs filename r = render_text_file fs filename (set_content_type text_html r)
