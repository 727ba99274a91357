-- ===== src/Older/Response.antt =====
-- `Response` of includes/simple_server/http/simple_server_http_connection.h, and the functions of
-- src/http/simple_server_http_connection.cpp. Where their code is that of src/http_handler.cpp, each
-- is the definition that models it there.
use simple_server.Prelude.{Bytes, codes}
use simple_server.Older.Constants.{HttpResponseCode, RequestVerb}
use simple_server.Http.Response.{StringMap}
use simple_server.Http.Request.{parse_http_request_verb}
use simple_server.Http

-- `http_content_type`
pub data HttpContentType : Type 0 where
  text_html text_plain application_json application_xml multipart_form_data application_octet_stream
        image_png image_jpeg uknown :
      HttpContentType

-- `status_code` holds what the memory held until it is set. `raw_response`, which nothing uses, is
-- left out.
pub record Response : Type 0 where
  pub headers : StringMap
  pub body : Bytes
  pub status_code : HttpResponseCode

abbrev pub http_headers_to_response_string : StringMap → Bytes
http_headers_to_response_string = Http.Response.http_headers_to_response_string

abbrev pub http_response_code_to_string : HttpResponseCode → Bytes
http_response_code_to_string = Http.Codes.http_response_code_to_string

abbrev pub build_http_response : StringMap → Bytes → HttpResponseCode → Bytes
build_http_response = Http.Response.build_http_response

unfoldable pub build_response : Response → Bytes
build_response r = build_http_response r.headers r.body r.status_code

unfoldable pub content_type_to_string : HttpContentType → Bytes
content_type_to_string text_html = codes "text/html"
content_type_to_string text_plain = codes "text/plain"
content_type_to_string application_json = codes "application/json"
content_type_to_string application_xml = codes "application/xml"
content_type_to_string multipart_form_data = codes "multipart/form-data"
content_type_to_string application_octet_stream = codes "application/octet-stream"
content_type_to_string image_png = codes "image/png"
content_type_to_string image_jpeg = codes "image/jpeg"
content_type_to_string uknown = codes "unknown"

abbrev pub extract_http_verb : Bytes → Bytes
extract_http_verb = Http.Request.extract_http_verb

abbrev pub parse_request_verb : Bytes → RequestVerb
parse_request_verb buffer = parse_http_request_verb buffer
