-- ===== src/Older/Service.antt =====
-- The older server as a whole: the threads of its connections, which src/http/simple_server_http.cpp
-- starts, and the thread that polls, of src/websocket/simple_server_websocket_connection.cpp. The
-- thread of a connection takes two steps, up to the connection's place in the list, and what is sent
-- and closed behind that; between them there may be others, and rounds of the loop that polls.
pub mod Greeted
use simple_server.Prelude.{ℕ, ◌≡◌, Option, some, List, [], ◌∷◌, ◌++◌, Bytes}
use simple_server.Socket.{Received}
use simple_server.Text.StringMap.{Map}
use simple_server.Http.Route.{Regex}
use simple_server.Older.Connections.{
  Connections, Action, Revents, PollFd, websocket_connection_manager, check_and_notify_events,
}
use simple_server.Older.Server.{Endpoint, Handled, handle_connection_request}
use simple_server.Websocket.Manager.{Sha1, Sent}

-- What is done to a connection: by its thread, or by the thread that polls.
pub data Doing : Type 0 where
  sent : ℕ → Bytes → Doing
  closed : ℕ → Doing
  polled : Action → Doing

-- All that was done, the last first.
abbrev pub Log : Type 0
Log = List Doing

abbrev pub with_sent : Sent → Log → Log
with_sent [] log = log
with_sent ((c, bytes) ∷ more) log = with_sent more (sent c bytes ∷ log)

abbrev pub with_closed : List ℕ → Log → Log
with_closed [] log = log
with_closed (c ∷ more) log = with_closed more (closed c ∷ log)

abbrev pub with_polled : List Action → Log → Log
with_polled [] log = log
with_polled (a ∷ more) log = with_polled more (polled a ∷ log)

-- The states that the server reaches: the two vectors, the requests whose answers are still to be
-- sent, and what was done.
pub data History (regex : Regex) (sha1 : Sha1) (routes_map : Map Endpoint) (event_fd : ℕ)
    : Connections → List Handled → Log → Type 0 where
  start :
      History regex sha1 routes_map event_fd (websocket_connection_manager (some event_fd)).0 [] []
  request :
      {s : Connections} {pending : List Handled} {log : Log} (con : ℕ) (received : Received)
      (h : Handled)
      → handle_connection_request regex sha1 routes_map con s received ≡ some h
      → History regex sha1 routes_map event_fd s pending log
      → History regex sha1 routes_map event_fd h.connections (h ∷ pending) log
  respond :
      {s : Connections} {log : Log} (before : List Handled) (h : Handled) (after : List Handled)
      → History regex sha1 routes_map event_fd s (before ++ h ∷ after) log
      → History regex sha1 routes_map event_fd s
          (before ++ after)
          (with_closed h.closed (with_sent h.sent log))
  rounds :
      {s : Connections} {pending : List Handled} {log : Log}
      (answers : List (Option (Revents × (ℕ → ℕ → Option ℕ)))) (ps : List PollFd)
      (actions : List Action)
      → check_and_notify_events s.web_socket_connections answers s.poll_fds ≡ some (ps, actions)
      → History regex sha1 routes_map event_fd s pending log
      → History regex sha1 routes_map event_fd
          (record { poll_fds = ps; web_socket_connections = s.web_socket_connections })
          pending
          (with_polled actions log)
