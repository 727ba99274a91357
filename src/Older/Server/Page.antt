-- ===== src/Older/Server/Page.antt =====
-- What a client makes of the page for an unknown URL.
use simple_server.Prelude.{
  ℕ, ◌≡◌, ap, ◌∙◌, ◌∷◌, ◌++◌, Bytes, codes, length, take, drop, drop-length, append_assoc,
}
use simple_server.Text.Decimal.{to_decimal}
use simple_server.Older.Server.{unknown_page}

-- The header section ends with the first empty line; the body is as long as Content-Length says.
abbrev pub head : Bytes → Bytes
head body =
    codes "HTTP/1.1 200 OK\r\nContent-Length: "
    ++ (to_decimal (length body) ++ codes "\r\nContent-Type: text/plain\r\n\r\n")

unknown_page-head : (body : Bytes) → unknown_page body ≡ head body ++ (codes "\r\n" ++ body)
unfolding unknown_page
unknown_page-head body = simp append_assoc

-- Behind the empty line stand another line end and then the page: a client that takes as many
-- characters as the header says loses the last two of the page.
pub unknown_page-cut :
    (a b : ℕ) (body : Bytes)
    → let page = a ∷ b ∷ body in
      take (length page) (drop (length (head page)) (unknown_page page))
      ≡ codes "\r\n" ++ take (length body) page
unknown_page-cut a b body =
    let page = a ∷ b ∷ body in
    ap (λ t. take (length page) (drop (length (head page)) t)) (unknown_page-head page)
    ∙ ap (take (length page)) (drop-length (head page) (codes "\r\n" ++ page))
