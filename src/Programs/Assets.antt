-- ===== src/Programs/Assets.antt =====
-- The routes of sample/main.cpp: the files of a directory of assets, by the end of their name. The
-- program passes the requests on by a callback of `tcp_epoll_handler`, which does not call it.
use simple_server.Prelude.{true, some, [], ◌∷◌, ◌++◌, Bytes, codes, if◌then◌else◌}
use simple_server.Files.{FileSystem, read_text_file}
use simple_server.Text.Search.{contains}
use simple_server.Text.StringMap.{Map}
use simple_server.Http.Codes.{HttpResponseCode, text_html, text_css, application_javascript}
use simple_server.Http.Response.{
  StringMap, HttpResponse, new_response, set_home_path, set_content_type, set_body, text_or_listing,
  render_text_file,
}
use simple_server.Http.Route.{add_route_handler}
use simple_server.Http.Server.{default_500_msg, Endpoint}

abbrev pub home : Bytes
home = codes "/home/neon/Documents/projects/simple_server/sample/assets"

-- `memory` is what the field `status_code` of a new response holds; nothing sets it.
module _ (fs : FileSystem) (memory : HttpResponseCode) where
  -- The response with the file, behind the choice of its content type.
  unfoldable pub with_file : Bytes → HttpResponse → HttpResponse
  with_file url response = render_text_file fs (home ++ url) response

  -- The callback of the route `/.*`.
  unfoldable pub assets : Endpoint
  unfolding with_file
  assets req =
      let response = set_home_path (home ++ codes "/") (new_response memory) in
      if contains (codes ".html") req.url
      then some (with_file req.url (set_content_type text_html response))
      else if contains (codes ".css") req.url
      then some (with_file req.url (set_content_type text_css response))
      else if contains (codes ".js") req.url
      then some (with_file req.url (set_content_type application_javascript response))
      else some (set_body default_500_msg response)

  -- The callback of the route `/`.
  unfoldable pub index : Endpoint
  index req = some (render_text_file fs (home ++ codes "/index.html") (new_response memory))

  unfoldable pub assest_sample_main : Map Endpoint
  assest_sample_main =
      add_route_handler (codes "/") index (add_route_handler (codes "/.*") assets [])

module _ (fs : FileSystem) (memory : HttpResponseCode) where
  -- The response with an HTML file, or with the list of a directory.
  abbrev pub html_page : Bytes → HttpResponse
  html_page url = record {
    close_fd = true;
    home_path = home ++ codes "/";
    headers = (codes "Content-Type", codes "text/html") ∷ [];
    body = text_or_listing fs (home ++ url) (read_text_file fs (home ++ url));
    status_code = memory;
  }
