-- ===== src/Tests/Http.antt =====
-- Runs of the request and response functions.
use simple_server.Prelude.{◌≡◌, refl, none, some, [], ◌∷◌, ◌++◌, Bytes, codes}
use simple_server.Text.Search.{text_eq, find_char}
use simple_server.Text.Words.{
  to_lower_case, to_lower, split_words, split_loop, split_step, split_end,
}
use simple_server.Text.Decimal.{to_decimal, decimal_loop}
use simple_server.Text.StringMap.{lookup, insert}
use simple_server.Text.Lines.{lines, lines_from}
use simple_server.Files.{FileSystem, str_to_byte_array, read_text_file, list_dir, list_entries}
use simple_server.Http.Codes.{
  ok, text_html, http_response_code_to_string, content_type_to_string, str_builder,
}
use simple_server.Http.Headers.{
  parse_headers, parse_lines, parse_line, trim, erase_front, erase_back,
}
use simple_server.Http.Request.{extract_body, parse_url_params, assign_pairs, assign_pair}
use simple_server.Http.Response.{
  StringMap, new_response, build, build_http_response, http_headers_to_response_string,
  set_home_path, set_content_type, set_body, render_text_file, render_html_file, text_or_listing,
  listing,
}

abbrev two_headers : StringMap
two_headers = (codes "Host", codes "here") ∷ (codes "Accept", codes "*/*") ∷ []

abbrev first_line : Bytes
first_line = codes "GET / HTTP/1.1\r"

headers_run :
    parse_headers (codes "GET / HTTP/1.1\r\nHost: here\r\n")
    ≡ some ((codes "Host", codes "here") ∷ [])
unfolding parse_headers parse_lines parse_line trim erase_front erase_back find_char lines
    lines_from insert
headers_run = refl

lower_run : to_lower_case (codes "Get") ≡ codes "get"
unfolding to_lower_case to_lower
lower_run = refl

params_run :
    parse_url_params (codes "/a?x=1;y=2")
    ≡ some ((codes "x", codes "1") ∷ (codes "y", codes "2") ∷ [])
unfolding parse_url_params assign_pairs assign_pair split_words split_loop split_step split_end
    find_char insert text_eq
params_run = refl

-- A parameter without a value is read behind the end of the vector.
params_undefined_run : parse_url_params (codes "/a?x") ≡ none
unfolding parse_url_params assign_pairs assign_pair split_words split_loop split_step split_end
    find_char
params_undefined_run = refl

body_run : extract_body (codes "a\r\n\r\nb") ≡ codes " "
unfolding extract_body
body_run = refl

no_length : lookup (codes "Content-Length") two_headers ≡ none
unfolding lookup text_eq
no_length = refl

response_run :
    build (set_body (codes "hi") (set_home_path (codes "/srv") (new_response ok)))
    ≡ codes "HTTP/1.1 200 OK\r\nContent-Length: 2\r\n\r\nhi"
unfolding build build_http_response set_body set_home_path http_headers_to_response_string
    http_response_code_to_string str_builder to_decimal decimal_loop insert lookup text_eq
response_run = refl

abbrev files : FileSystem
files = record {
  open_file = λ p. none;
  open_dir = λ p. some (codes "." ∷ codes "a" ∷ []);
  full_path = λ p n. p ++ (codes "/" ++ n);
}

render_run : (render_html_file files (codes "/d") (new_response ok)).body ≡ codes "/d/a\r\n"
unfolding render_html_file render_text_file text_or_listing listing read_text_file list_dir
    list_entries set_content_type text_eq
render_run = refl

content_type_run : content_type_to_string text_html ≡ codes "text/html"
unfolding content_type_to_string
content_type_run = refl

bytes_run : str_to_byte_array (codes "ab") ≡ codes "ab"
unfolding str_to_byte_array
bytes_run = refl
