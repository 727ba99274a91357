-- ===== src/Tests/Older.antt =====
-- Runs of the older library and of the default handler.
use simple_server.Prelude.{
  arith, ℕ, List, ◌≡◌, refl, true, false, none, some, [], ◌∷◌, codes, ◌==◌, ltb, if◌then◌else◌,
}
use simple_server.Tcp.Epoll.{ok}
use simple_server.Tcp.Default.{create_server, handle_incomming_connection}
use simple_server.Text.Search.{text_eq}
use simple_server.Text.Words.{to_lower_case, to_lower}
use simple_server.Websocket.Manager.{find_websocket_key}
use simple_server.Older.Connections.{
  PollFd, Connections, add_socket_to_the_list, create_new_ws_connection, check_and_notify_events,
  check_events, erase_at, hung_up, visit, read_connections, read, close,
}
use simple_server.Older.Connections.Rounds.{Rounds, kept_by, done_by, check_and_notify_events-kept}
use simple_server.Older.Listening.{listening, create_socket, create_socket_fd}

listening_run : create_socket (record { socket = true; bind = true; listen = false }) ≡ listening
unfolding create_socket create_socket_fd
listening_run = refl

echo_run : handle_incomming_connection none 4 (some (codes "hi")) ≡ some ((4, codes "hi") ∷ [])
unfolding handle_incomming_connection
echo_run = refl

server_run : create_server 3 ≡ (ok, record { server_fd = 3; run = true })
unfolding create_server
server_run = refl

abbrev quiet : ℕ → PollFd
quiet fd = record { fd = fd; pollin = false; pollerr = false; pollhup = false }

abbrev gone : ℕ → PollFd
gone fd = record { fd = fd; pollin = false; pollerr = false; pollhup = true }

-- In the first round 4 and 5 have hung up, and 3 has input of two bytes; in the second one nothing
-- happens, and then `poll` fails.
abbrev rounds : Rounds
rounds = some (first, λ i j. some 2) ∷ some (quiet, λ i j. none) ∷ none ∷ []
  where
    first : ℕ → PollFd
    first fd =
        if fd == 3
        then record { fd = 3; pollin = true; pollerr = false; pollhup = false }
        else if ltb fd 6
        then gone fd
        else quiet fd

abbrev entries : List PollFd
entries = quiet 3 ∷ quiet 4 ∷ quiet 5 ∷ quiet 6 ∷ []

check_and_notify_events-kept_example :
    check_and_notify_events (3 ∷ 4 ∷ 3 ∷ []) rounds entries
    ≡ some (kept_by rounds entries, done_by (3 ∷ 4 ∷ 3 ∷ []) rounds entries)
check_and_notify_events-kept_example =
    check_and_notify_events-kept (3 ∷ 4 ∷ 3 ∷ []) rounds entries
      ((λ i j. omega arith), ((λ i j. omega arith), tt))

round_run :
    check_and_notify_events (3 ∷ 4 ∷ 3 ∷ []) rounds entries
    ≡ some (quiet 3 ∷ quiet 6 ∷ [], read 3 3 ∷ read 3 3 ∷ close 4 ∷ close 5 ∷ [])
unfolding check_and_notify_events check_events erase_at hung_up visit read_connections
round_run = refl

abbrev no_sockets : Connections
no_sockets = record { poll_fds = []; web_socket_connections = [] }

connection_run :
    (create_new_ws_connection
      (λ t. [])
      ((codes "Sec-WebSocket-Key", codes "k") ∷ [])
      4
      no_sockets).1
    ≡ record { poll_fds = quiet 4 ∷ []; web_socket_connections = 4 ∷ [] }
unfolding create_new_ws_connection add_socket_to_the_list find_websocket_key to_lower_case to_lower
    text_eq
connection_run = refl
