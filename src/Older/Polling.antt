-- ===== src/Older/Polling.antt =====
-- The thread that runs `check_and_notify_events` of
-- src/websocket/simple_server_websocket_connection.cpp, together with the threads that add
-- connections. It does not take the mutex. One visit of an entry, and one call of `poll`, is a step
-- of the model, as if it could not be interrupted: the language defines no behaviour where another
-- thread adds to a vector meanwhile.
pub mod Balance
use simple_server.Prelude.{ℕ, suc, ◌≡◌, ◌≢◌, true, false, Option, none, some, List, [], ◌++◌}
use simple_server.Older.Connections.{PollFd, Action, entry, erase_at, hung_up, visit, Revents, poll}
use simple_server.Older.Threads.{State, Step, start}

-- Before a call of `poll`, before the test of the loop at an index, or behind the loop.
pub data Poller : Type 0 where
  idle stopped : Poller
  visiting : ℕ → Poller

pub record World : Type 0 where
  pub state : State
  pub poller : Poller
  pub actions : List Action

abbrev pub entries : World → List PollFd
entries w = w.state.shared.poll_fds

-- The polling thread has written `poll_fds`, and stands elsewhere.
abbrev pub looked : List PollFd → Poller → List Action → World → World
looked ps poller actions w = record {
  state = record w.state { shared = record w.state.shared { poll_fds = ps } };
  poller = poller;
  actions = w.actions ++ actions;
}

-- A step of the polling thread: `poll` fails or reports, an entry is visited and kept or removed, where
-- the visit has a defined behaviour, or there is no entry at the index.
pub data Look : World → World → Type 0 where
  poll_fails : {w : World} → w.poller ≡ idle → Look w (looked (entries w) stopped [] w)
  polls :
      {w : World} (revents : Revents)
      → w.poller ≡ idle
      → Look w (looked (poll revents (entries w)) (visiting 0) [] w)
  keeps :
      {w : World} (i : ℕ) (p : PollFd) (results : ℕ → Option ℕ) (actions : List Action)
      → w.poller ≡ visiting i
      → entry i (entries w) ≡ some p
      → hung_up p ≡ false
      → visit results w.state.shared.web_socket_connections p ≡ some actions
      → Look w (looked (entries w) (visiting (suc i)) actions w)
  removes :
      {w : World} (i : ℕ) (p : PollFd) (results : ℕ → Option ℕ) (actions : List Action)
      → w.poller ≡ visiting i
      → entry i (entries w) ≡ some p
      → hung_up p ≡ true
      → visit results w.state.shared.web_socket_connections p ≡ some actions
      → Look w (looked (erase_at i (entries w)) (visiting i) actions w)
  ends_round :
      {w : World} (i : ℕ)
      → w.poller ≡ visiting i
      → entry i (entries w) ≡ none
      → Look w (looked (entries w) idle [] w)

-- Any thread may move next.
pub data Turn : World → World → Type 0 where
  adds : {w : World} {t : State} → Step w.state t → Turn w (record w { state = t })
  looks : {w u : World} → Look w u → Turn w u

pub data Turns : World → World → Type 0 where
  none_yet : {w : World} → Turns w w
  and_then : {w u v : World} → Turns w u → Turn u v → Turns w v

-- The world behind the constructor of the manager.
abbrev pub start_world : ℕ → List ℕ → World
start_world event_fd fds = record { state = start event_fd fds; poller = idle; actions = [] }
