-- ===== src/Http/Codes.antt =====
-- The enumerations of includes/http_handler.h, and the texts that src/http_handler.cpp gives them.
use simple_server.Prelude.{ℕ, ◌≡◌, ◌≢◌, refl, ◌++◌, Bytes, codes}
use simple_server.Text.Decimal.{to_decimal}

pub data RequestVerb : Type 0 where
  get post put delete options : RequestVerb

pub data HttpResponseCode : Type 0 where
  continue switching_protocols ok created accepted moved_permanently found see_other bad_request
        unauthorized forbidden not_found internal_server_error not_implemented :
      HttpResponseCode

pub data HttpContentType : Type 0 where
  text_html text_plain text_css application_javascript application_json application_xml
        multipart_form_data application_octet_stream image_png image_jpeg unknown :
      HttpContentType

pub data UrlDataType : Type 0 where
  integer str boolean invalid_url_datatype : UrlDataType

-- `(int)code`
abbrev pub number : HttpResponseCode → ℕ
number continue = 100
number switching_protocols = 101
number ok = 200
number created = 201
number accepted = 202
number moved_permanently = 301
number found = 302
number see_other = 303
number bad_request = 400
number unauthorized = 401
number forbidden = 403
number not_found = 404
number internal_server_error = 500
number not_implemented = 501

abbrev pub crlf : Bytes
crlf = codes "\r\n"

-- The lambda `strBuilder`.
unfoldable pub str_builder : ℕ → Bytes → Bytes
str_builder n s = to_decimal n ++ (codes " " ++ (s ++ crlf))

unfoldable pub http_response_code_to_string : HttpResponseCode → Bytes
unfolding str_builder
http_response_code_to_string continue = str_builder (number continue) (codes "Continue")
http_response_code_to_string switching_protocols =
    str_builder (number switching_protocols) (codes "Switching Protocols")
http_response_code_to_string ok = str_builder (number ok) (codes "OK")
http_response_code_to_string created = str_builder (number created) (codes "Created")
http_response_code_to_string accepted = str_builder (number accepted) (codes "Accepted")
http_response_code_to_string moved_permanently =
    str_builder (number moved_permanently) (codes "Moved Permanently")
http_response_code_to_string found = str_builder (number found) (codes "Found")
http_response_code_to_string see_other = str_builder (number see_other) (codes "See Other")
http_response_code_to_string bad_request = str_builder (number bad_request) (codes "Bad Request")
http_response_code_to_string unauthorized = str_builder (number unauthorized) (codes "Unauthorized")
http_response_code_to_string forbidden = str_builder (number forbidden) (codes "OK")
http_response_code_to_string not_found = str_builder (number not_found) (codes "Not Found")
http_response_code_to_string internal_server_error =
    str_builder (number internal_server_error) (codes "Internal Server Error")
http_response_code_to_string not_implemented =
    str_builder (number not_implemented) (codes "Not Implemented")

unfoldable pub content_type_to_string : HttpContentType → Bytes
content_type_to_string text_html = codes "text/html"
content_type_to_string text_plain = codes "text/plain"
content_type_to_string application_json = codes "application/json"
content_type_to_string application_xml = codes "application/xml"
content_type_to_string multipart_form_data = codes "multipart/form-data"
content_type_to_string application_octet_stream = codes "application/octet-stream"
content_type_to_string image_png = codes "image/png"
content_type_to_string image_jpeg = codes "image/jpeg"
content_type_to_string text_css = codes "text/css"
content_type_to_string application_javascript = codes "application/javascript"
content_type_to_string unknown = codes "unknown"

unfoldable pub url_data_type_as_str : UrlDataType → Bytes
url_data_type_as_str integer = codes "Integer"
url_data_type_as_str str = codes "Str"
url_data_type_as_str boolean = codes "Boolean"
url_data_type_as_str invalid_url_datatype = codes "Invalid"

-- The reason phrases of RFC 9110.
abbrev pub reason : HttpResponseCode → Bytes
reason continue = codes "Continue"
reason switching_protocols = codes "Switching Protocols"
reason ok = codes "OK"
reason created = codes "Created"
reason accepted = codes "Accepted"
reason moved_permanently = codes "Moved Permanently"
reason found = codes "Found"
reason see_other = codes "See Other"
reason bad_request = codes "Bad Request"
reason unauthorized = codes "Unauthorized"
reason forbidden = codes "Forbidden"
reason not_found = codes "Not Found"
reason internal_server_error = codes "Internal Server Error"
reason not_implemented = codes "Not Implemented"

-- Every status line but that of 403 has the code's number and its standard phrase.
pub status_line :
    (code : HttpResponseCode)
    → code ≢ forbidden
    → http_response_code_to_string code
      ≡ to_decimal (number code) ++ (codes " " ++ (reason code ++ crlf))
unfolding http_response_code_to_string to_decimal
status_line forbidden h = absurd (h refl)
status_line continue h = refl
status_line _ h = refl
