-- ===== src/Older/Constants.antt =====
-- The tables of includes/simple_server/http/simple_server_http_constant.h, and the functions of
-- src/http/simple_server_http_connection.cpp that search them. The order of the unordered map is that
-- of the source.
use simple_server.Prelude.{ℕ, ◌≡◌, refl, List, [], ◌∷◌, Bytes, codes, ◌==◌, if◌then◌else◌}
use simple_server.Http.Codes
use simple_server.Text.Search.{text_eq}

pub data ContentType : Type 0 where
  text_html text_css text_plain application_json application_xml application_octet_stream image_jpeg
        image_png audio_mpeg video_mp4 unknown :
      ContentType

-- These three have the constructors of the enumerations of includes/http_handler.h.
abbrev pub HttpResponseCode : Type 0
HttpResponseCode = Codes.HttpResponseCode

abbrev pub UrlDataType : Type 0
UrlDataType = Codes.UrlDataType

abbrev pub RequestVerb : Type 0
RequestVerb = Codes.RequestVerb

pub data HttpHeader : Type 0 where
  host content_type content_length user_agent accept authorization cache_control connection upgrade
        sec_websocket_key sec_websocket_accept sec_websocket_version sec_websocket_protocol
        sec_websocket_extensions unknown_header :
      HttpHeader

-- The values of the enumerations.
abbrev content_type_number : ContentType → ℕ
content_type_number text_html = 0
content_type_number text_css = 1
content_type_number text_plain = 2
content_type_number application_json = 3
content_type_number application_xml = 4
content_type_number application_octet_stream = 5
content_type_number image_jpeg = 6
content_type_number image_png = 7
content_type_number audio_mpeg = 8
content_type_number video_mp4 = 9
content_type_number unknown = 10

abbrev http_header_number : HttpHeader → ℕ
http_header_number host = 0
http_header_number content_type = 1
http_header_number content_length = 2
http_header_number user_agent = 3
http_header_number accept = 4
http_header_number authorization = 5
http_header_number cache_control = 6
http_header_number connection = 7
http_header_number upgrade = 8
http_header_number sec_websocket_key = 9
http_header_number sec_websocket_accept = 10
http_header_number sec_websocket_version = 11
http_header_number sec_websocket_protocol = 12
http_header_number sec_websocket_extensions = 13
http_header_number unknown_header = 14

abbrev pub content_type_map : List (ContentType × Bytes)
content_type_map =
    (text_html, codes "text/html")
    ∷ (text_plain, codes "text/plain")
    ∷ (application_json, codes "application/json")
    ∷ (application_xml, codes "application/xml")
    ∷ (application_octet_stream, codes "application/octet-stream")
    ∷ (image_jpeg, codes "image/jpeg")
    ∷ (image_png, codes "image/png")
    ∷ (audio_mpeg, codes "audio/mpeg")
    ∷ (text_css, codes "text/css")
    ∷ (video_mp4, codes "video/mp4")
    ∷ (unknown, codes "unknown")
    ∷ []

abbrev pub header_to_string : List (HttpHeader × Bytes)
header_to_string =
    (host, codes "host")
    ∷ (content_type, codes "content-type")
    ∷ (content_length, codes "content-length")
    ∷ (user_agent, codes "user-agent")
    ∷ (accept, codes "accept")
    ∷ (authorization, codes "authorization")
    ∷ (cache_control, codes "cache-control")
    ∷ (connection, codes "connection")
    ∷ (upgrade, codes "upgrade")
    ∷ (sec_websocket_key, codes "sec-websocket-key")
    ∷ (sec_websocket_accept, codes "sec-websocket-accept")
    ∷ (sec_websocket_version, codes "sec-websocket-version")
    ∷ (sec_websocket_protocol, codes "sec-websocket-protocol")
    ∷ (sec_websocket_extensions, codes "sec-websocket-extensions")
    ∷ (unknown_header, codes "unknown")
    ∷ []

module _ {K : Type 0} (number : K → ℕ) where
  -- The text of the first entry with the key.
  unfoldable pub find_text : K → List (K × Bytes) → Bytes
  find_text key [] = codes "unknown"
  find_text key ((k, text) ∷ rest) = if number k == number key then text else find_text key rest

-- The key of the first entry with the text.
unfoldable pub find_key : {K : Type 0} → K → Bytes → List (K × Bytes) → K
find_key default text [] = default
find_key default text ((k, t) ∷ rest) = if text_eq t text then k else find_key default text rest

unfoldable pub http_content_type_to_string : ContentType → Bytes
unfolding find_text
http_content_type_to_string type = find_text content_type_number type content_type_map

unfoldable pub http_content_type_from_string : Bytes → ContentType
unfolding find_key
http_content_type_from_string type = find_key unknown type content_type_map

unfoldable pub http_header_to_string : HttpHeader → Bytes
unfolding find_text
http_header_to_string header = find_text http_header_number header header_to_string

unfoldable pub string_to_http_header : Bytes → HttpHeader
unfolding find_key
string_to_http_header header_str = find_key unknown_header header_str header_to_string

-- The text of a header leads back to the header.
pub string_to_http_header-http_header_to_string :
    (header : HttpHeader) → string_to_http_header (http_header_to_string header) ≡ header
unfolding string_to_http_header http_header_to_string text_eq
string_to_http_header-http_header_to_string host = refl
string_to_http_header-http_header_to_string content_type = refl
string_to_http_header-http_header_to_string content_length = refl
string_to_http_header-http_header_to_string user_agent = refl
string_to_http_header-http_header_to_string accept = refl
string_to_http_header-http_header_to_string authorization = refl
string_to_http_header-http_header_to_string cache_control = refl
string_to_http_header-http_header_to_string connection = refl
string_to_http_header-http_header_to_string upgrade = refl
string_to_http_header-http_header_to_string sec_websocket_key = refl
string_to_http_header-http_header_to_string sec_websocket_accept = refl
string_to_http_header-http_header_to_string sec_websocket_version = refl
string_to_http_header-http_header_to_string sec_websocket_protocol = refl
string_to_http_header-http_header_to_string sec_websocket_extensions = refl
string_to_http_header-http_header_to_string unknown_header = refl

-- The text of a content type leads back to the content type.
pub http_content_type_from_string-http_content_type_to_string :
    (type : ContentType) → http_content_type_from_string (http_content_type_to_string type) ≡ type
unfolding http_content_type_from_string http_content_type_to_string text_eq
http_content_type_from_string-http_content_type_to_string text_html = refl
http_content_type_from_string-http_content_type_to_string text_css = refl
http_content_type_from_string-http_content_type_to_string text_plain = refl
http_content_type_from_string-http_content_type_to_string application_json = refl
http_content_type_from_string-http_content_type_to_string application_xml = refl
http_content_type_from_string-http_content_type_to_string application_octet_stream = refl
http_content_type_from_string-http_content_type_to_string image_jpeg = refl
http_content_type_from_string-http_content_type_to_string image_png = refl
http_content_type_from_string-http_content_type_to_string audio_mpeg = refl
http_content_type_from_string-http_content_type_to_string video_mp4 = refl
http_content_type_from_string-http_content_type_to_string unknown = refl
