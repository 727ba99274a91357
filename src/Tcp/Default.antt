-- ===== src/Tcp/Default.antt =====
-- `tcp_default_handler` of src/tcp_default_handler.cpp: the set-up, whose system calls may fail without
-- any effect on it, what the thread of a connection does, and the loop that starts the threads.
use simple_server.Prelude.{ℕ, Bool, true, Option, none, some, List, [], ◌∷◌, Bytes, if◌then◌else◌}
use simple_server.Socket.{Received}
use simple_server.Tcp.Epoll.{TcpHandlerStatus, ok}

pub record Listener : Type 0 where
  pub server_fd : ℕ
  pub run : Bool

-- The results of `bind`, `listen` and `setsockopt` are only logged.
unfoldable pub create_server : ℕ → TcpHandlerStatus × Listener
create_server server_fd = (ok, record { server_fd = server_fd; run = true })

-- The bytes that are sent, with their connection. Without a callback, what arrived is sent back; where
-- `recv` fails, its result -1 is the length that `send` is given, and the language defines no
-- behaviour: `none`.
unfoldable pub handle_incomming_connection :
    Option (ℕ → List (ℕ × Bytes)) → ℕ → Received → Option (List (ℕ × Bytes))
handle_incomming_connection (some callback) fd received = some (callback fd)
handle_incomming_connection none fd none = none
handle_incomming_connection none fd (some bytes) = some ((fd, bytes) ∷ [])

-- `set_incomming_connection_handler`
abbrev pub set_incomming_connection_handler :
    (ℕ → List (ℕ × Bytes)) → Option (ℕ → List (ℕ × Bytes)) → Option (ℕ → List (ℕ × Bytes))
set_incomming_connection_handler cb on_new_connection_handler_cb = some cb

-- The rounds of the loop, from the results of `accept`, each with what arrives on the connection: the
-- work of the threads, in the order in which they are started. A failed `accept` has its thread as
-- well.
unfoldable pub start_threads :
    Option (ℕ → List (ℕ × Bytes)) → List (ℕ × Received) → List (Option (List (ℕ × Bytes)))
unfolding handle_incomming_connection
start_threads callback [] = []
start_threads callback ((connection_client, received) ∷ accepted) =
    handle_incomming_connection callback connection_client received
    ∷ start_threads callback accepted

-- The loop, which nothing ends but the list: no code resets `run`.
unfoldable pub accept_and_process_message :
    Listener
    → Option (ℕ → List (ℕ × Bytes))
    → List (ℕ × Received)
    → List (Option (List (ℕ × Bytes)))
unfolding start_threads
accept_and_process_message listener callback accepted =
    if listener.run then start_threads callback accepted else []
