-- ===== src/Tests/Programs.antt =====
-- Requests to the two programs.
use simple_server.Prelude.{true, none, some, [], ◌∷◌, codes, length}
use simple_server.Files.{FileSystem}
use simple_server.Http.Response.{StringMap}
use simple_server.Http.Route.{Regex}
use simple_server.Websocket.Manager.{Sha1}

abbrev always : Regex
always pattern uri = some true

abbrev sum_words : Sha1
sum_words input = length input ∷ []

abbrev one_page : FileSystem
one_page = record {
  open_file = λ name. some (codes "hi\n");
  open_dir = λ name. none;
  full_path = λ path name. name;
}

abbrev sent_headers : StringMap
sent_headers = (codes "Host", codes "here") ∷ []
