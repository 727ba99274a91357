-- ===== src/Tests/OlderService.antt =====
-- A run of the older server with both kinds of threads.
use simple_server.Prelude.{false, Option, some, List, [], ◌∷◌, Bytes, codes, ℕ}
use simple_server.Text.Search.{text_eq}
use simple_server.Text.StringMap.{Map}
use simple_server.Http.Route.{Regex}
use simple_server.Older.Connections.{Connections, PollFd, Revents, read, close}
use simple_server.Older.Server.{Endpoint, Handled}
use simple_server.Older.Service.{Log, sent, polled}
use simple_server.Websocket.Manager.{Sha1, handshake, get_accept_key}

abbrev zero_sum : Sha1
zero_sum input = 0 ∷ 0 ∷ 0 ∷ 0 ∷ 0 ∷ []

abbrev never : Regex
never pattern uri = some false

abbrev no_routes : Map Endpoint
no_routes = []

abbrev quiet : ℕ → PollFd
quiet fd = record { fd = fd; pollin = false; pollerr = false; pollhup = false }

abbrev at_start : Connections
at_start = record { poll_fds = quiet 3 ∷ []; web_socket_connections = [] }

abbrev opening : Bytes
opening = codes "GET / HTTP/1.1\r\nSec-WebSocket-Key: abc\r\n\r\n"

abbrev opened : Handled
opened = record {
  sent = (7, handshake (get_accept_key zero_sum (codes "abc"))) ∷ [];
  closed = [];
  connections = record { poll_fds = quiet 3 ∷ quiet 7 ∷ []; web_socket_connections = 7 ∷ [] };
}

-- The connection has input, of five characters, and then hangs up.
abbrev input_first : Revents
input_first fd = record {
  fd = fd;
  pollin = text_eq (fd ∷ []) (7 ∷ []);
  pollerr = false;
  pollhup = false;
}

abbrev hang_up : Revents
hang_up fd = record {
  fd = fd;
  pollin = false;
  pollerr = false;
  pollhup = text_eq (fd ∷ []) (7 ∷ []);
}

abbrev five : ℕ → ℕ → Option ℕ
five i j = some 5

abbrev two_rounds : List (Option (Revents × (ℕ → ℕ → Option ℕ)))
two_rounds = some (input_first, five) ∷ some (hang_up, five) ∷ []

-- The connection is polled before its handshake is sent.
abbrev done : Log
done =
    sent 7 (handshake (get_accept_key zero_sum (codes "abc")))
    ∷ polled (close 7)
    ∷ polled (read 7 6)
    ∷ []

abbrev at_end : Connections
at_end = record { poll_fds = quiet 3 ∷ []; web_socket_connections = 7 ∷ [] }
