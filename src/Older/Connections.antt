-- ===== src/Older/Connections.antt =====
-- The connections of src/websocket/simple_server_websocket_connection.cpp: the two vectors that a new
-- connection is added to, and `check_and_notify_events`, the loop over the polled descriptors. No
-- connection of the vector ever has the callback `on_message_received`, so that what arrives is read
-- and dropped; the loop keeps the vector of the connections. The functions for the handshake are
-- the same text as those of src/websocket_handler.cpp.
pub mod Rounds
pub mod Refine
pub mod Acts
use simple_server.Prelude.{
  ℕ, zero, suc, ◌+◌, ◌==◌, Bool, true, false, not, Option, none, some, List, [], ◌∷◌, ◌++◌, Bytes,
  codes, length, ltb, if◌then◌else◌,
}
use simple_server.Text.Words.{is_empty}
use simple_server.Text.StringMap.{Map}
use simple_server.Websocket.Manager.{Sha1, get_accept_key, find_websocket_key, handshake}

-- `pollfd`: the bits of `revents` that the loop tests.
pub record PollFd : Type 0 where
  pub fd : ℕ
  pub pollin : Bool
  pub pollerr : Bool
  pub pollhup : Bool

pub record Connections : Type 0 where
  pub poll_fds : List PollFd
  pub web_socket_connections : List ℕ

-- The constructor of the manager, for the result of `eventfd`: the vectors, and whether the thread
-- that polls is started.
unfoldable pub websocket_connection_manager : Option ℕ → Connections × Bool
websocket_connection_manager none = (record { poll_fds = []; web_socket_connections = [] }, false)
websocket_connection_manager (some event_fd) = (
  record {
    poll_fds = record { fd = event_fd; pollin = false; pollerr = false; pollhup = false } ∷ [];
    web_socket_connections = [];
  },
  true,
)

unfoldable pub add_socket_to_the_list : ℕ → Connections → Connections
add_socket_to_the_list fd s = record {
  poll_fds =
      s.poll_fds ++ record { fd = fd; pollin = false; pollerr = false; pollhup = false } ∷ [];
  web_socket_connections = s.web_socket_connections ++ fd ∷ [];
}

unfoldable pub is_websocket_request : Map Bytes → Bool
is_websocket_request headers = not (is_empty (find_websocket_key headers))

-- The response, which is empty where no header names a key, and the connections behind the call.
unfoldable pub create_new_ws_connection : Sha1 → Map Bytes → ℕ → Connections → Bytes × Connections
unfolding add_socket_to_the_list
create_new_ws_connection sha1 headers connection s =
    let key = find_websocket_key headers in
    if is_empty key
    then ([], s)
    else (handshake (get_accept_key sha1 key), add_socket_to_the_list connection s)

abbrev pub entry : ℕ → List PollFd → Option PollFd
entry i [] = none
entry zero (p ∷ ps) = some p
entry (suc i) (p ∷ ps) = entry i ps

-- `poll_fds.erase(poll_fds.begin() + i)`
unfoldable pub erase_at : ℕ → List PollFd → List PollFd
erase_at i [] = []
erase_at zero (p ∷ ps) = ps
erase_at (suc i) (p ∷ ps) = p ∷ erase_at i ps

-- What the thread that polls does to a connection: a `read`, with the index of the buffer at which a
-- zero is then stored; and `close`.
pub data Action : Type 0 where
  read : ℕ → ℕ → Action
  close : ℕ → Action

-- `bytes_read + 1`, where `none` is -1.
abbrev pub end_index : Option ℕ → ℕ
end_index none = 0
end_index (some bytes_read) = bytes_read + 1

-- A `read` in front of what follows; `none` where the zero is stored behind the 1024 characters, which
-- is so if 1023 or more were read, and for which the language defines no behaviour.
unfoldable pub read_one : ℕ → ℕ → Option (List Action) → Option (List Action)
read_one fd end none = none
read_one fd end (some later) = if ltb end 1024 then some (read fd end ∷ later) else none

-- The loop over the connections for an entry with input; `results` are those of `read` at the
-- positions of the vector.
unfoldable pub read_connections : (ℕ → Option ℕ) → ℕ → ℕ → List ℕ → Option (List Action)
unfolding read_one
read_connections results fd j [] = some []
read_connections results fd j (c ∷ cs) =
    let later = read_connections results fd (suc j) cs in
    if c == fd then read_one fd (end_index (results j)) later else later

-- Whether the descriptor is closed and removed.
unfoldable pub hung_up : PollFd → Bool
hung_up p = if p.pollin then false else if p.pollerr then false else p.pollhup

-- The body of the loop for an entry, but for its removal.
unfoldable pub visit : (ℕ → Option ℕ) → List ℕ → PollFd → Option (List Action)
unfolding read_connections
visit results connections p =
    if p.pollin
    then read_connections results p.fd 0 connections
    else if p.pollerr
    then some []
    else if p.pollhup
    then some (close p.fd ∷ [])
    else some []

abbrev pub Outcome : Type 0
Outcome = List PollFd × List Action

abbrev pub with_actions : List Action → Option Outcome → Option Outcome
with_actions actions none = none
with_actions actions (some (ps, more)) = some (ps, actions ++ more)

-- What follows a visit of an entry.
abbrev pub behind_visit : Option (List Action) → Option Outcome → Option Outcome
behind_visit none later = none
behind_visit (some actions) later = with_actions actions later

module _ (results : ℕ → ℕ → Option ℕ) (connections : List ℕ) where
  -- The loop from index i on, on fuel. Where an entry is removed, the index goes back by one before
  -- it is increased; `none` is too little fuel, or no defined behaviour. `results` gives those of `read` at an index and a position.
  unfoldable pub check_events : ℕ → ℕ → List PollFd → Option Outcome
  unfolding visit
  check_events zero i ps = elim (entry i ps) [ none ↦ some (ps, []) | some p ↦ none ]
  check_events (suc fuel) i ps = elim (entry i ps) [
    | none ↦ some (ps, [])
    | some p ↦ behind_visit (visit (results i) connections p) (elim (hung_up p) [
      | true ↦ check_events fuel i (erase_at i ps)
      | false ↦ check_events fuel (suc i) ps
    ])
  ]

-- What `poll` reports of a descriptor; the descriptor in it is not used.
abbrev pub Revents : Type 0
Revents = ℕ → PollFd

abbrev pub poll : Revents → List PollFd → List PollFd
poll revents [] = []
poll revents (p ∷ ps) =
    record {
      fd = p.fd;
      pollin = (revents p.fd).pollin;
      pollerr = (revents p.fd).pollerr;
      pollhup = (revents p.fd).pollhup;
    }
    ∷ poll revents ps

abbrev pub behind_round : (List PollFd → Option Outcome) → Option Outcome → Option Outcome
behind_round later none = none
behind_round later (some (ps, actions)) = with_actions actions (later ps)

-- The outer loop while no connection is added, for what `poll` and `read` give in each of its rounds:
-- where `poll` fails, the loop ends.
unfoldable pub check_and_notify_events :
    List ℕ → List (Option (Revents × (ℕ → ℕ → Option ℕ))) → List PollFd → Option Outcome
unfolding check_events
check_and_notify_events connections [] ps = some (ps, [])
check_and_notify_events connections (none ∷ rounds) ps = some (ps, [])
check_and_notify_events connections (some (revents, results) ∷ rounds) ps =
    let polled = poll revents ps in
    behind_round (check_and_notify_events connections rounds)
      (check_events results connections (length polled) 0 polled)
