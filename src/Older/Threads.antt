-- ===== src/Older/Threads.antt =====
-- `add_socket_to_the_list` of src/websocket/simple_server_websocket_connection.cpp as it is called
-- by the threads of several connections at once: they share the two vectors, the mutex `mu` and the
-- counter of `event_fd`, and run in any order, one statement at a time. The thread that polls does
-- not take the mutex and is not part of this model.
pub mod Exclusive
pub mod Invariant
pub mod Progress
use simple_server.Prelude.{ℕ, suc, Bool, true, false, List, [], ◌∷◌, ◌++◌}
use simple_server.Older.Connections.{PollFd, Connections, add_socket_to_the_list}

-- `{fd, POLLIN, 0}`: no event has been reported.
abbrev pub new_poll_fd : ℕ → PollFd
new_poll_fd fd = record { fd = fd; pollin = false; pollerr = false; pollhup = false }

-- Where a thread is in the call for its descriptor.
pub data Phase : Type 0 where
  waiting holding polled stored signalled returned : ℕ → Phase

pub record Shared : Type 0 where
  pub locked : Bool
  pub poll_fds : List PollFd
  pub web_socket_connections : List ℕ
  pub signals : ℕ

-- One statement: `lock_guard`, the two `push_back`s, `write`, and the end of the block.
pub data Move : Shared → Phase → Shared → Phase → Type 0 where
  lock :
      {fd n : ℕ} {ps : List PollFd} {ws : List ℕ}
      → Move
          (record { locked = false; poll_fds = ps; web_socket_connections = ws; signals = n })
          (waiting fd)
          (record { locked = true; poll_fds = ps; web_socket_connections = ws; signals = n })
          (holding fd)
  push_poll_fd :
      {fd n : ℕ} {l : Bool} {ps : List PollFd} {ws : List ℕ}
      → Move
          (record { locked = l; poll_fds = ps; web_socket_connections = ws; signals = n })
          (holding fd)
          (record {
            locked = l;
            poll_fds = ps ++ new_poll_fd fd ∷ [];
            web_socket_connections = ws;
            signals = n;
          })
          (polled fd)
  push_connection :
      {fd n : ℕ} {l : Bool} {ps : List PollFd} {ws : List ℕ}
      → Move
          (record { locked = l; poll_fds = ps; web_socket_connections = ws; signals = n })
          (polled fd)
          (record {
            locked = l;
            poll_fds = ps;
            web_socket_connections = ws ++ fd ∷ [];
            signals = n;
          })
          (stored fd)
  write :
      {fd n : ℕ} {l : Bool} {ps : List PollFd} {ws : List ℕ}
      → Move
          (record { locked = l; poll_fds = ps; web_socket_connections = ws; signals = n })
          (stored fd)
          (record { locked = l; poll_fds = ps; web_socket_connections = ws; signals = suc n })
          (signalled fd)
  unlock :
      {fd n : ℕ} {l : Bool} {ps : List PollFd} {ws : List ℕ}
      → Move
          (record { locked = l; poll_fds = ps; web_socket_connections = ws; signals = n })
          (signalled fd)
          (record { locked = false; poll_fds = ps; web_socket_connections = ws; signals = n })
          (returned fd)

pub record State : Type 0 where
  pub shared : Shared
  pub threads : List Phase

-- Any thread may move next.
pub data Step : State → State → Type 0 where
  step :
      {s s' : Shared} {p p' : Phase} (before after : List Phase)
      → Move s p s' p'
      → Step
          (record { shared = s; threads = before ++ p ∷ after })
          (record { shared = s'; threads = before ++ p' ∷ after })

pub data Steps : State → State → Type 0 where
  done : {s : State} → Steps s s
  more : {s t u : State} → Steps s t → Step t u → Steps s u

abbrev pub all_waiting : List ℕ → List Phase
all_waiting [] = []
all_waiting (fd ∷ fds) = waiting fd ∷ all_waiting fds

-- The state behind the constructor of the manager, with threads for the descriptors. The polling
-- thread that the constructor starts as well is left out: it would erase entries of the vectors.
abbrev pub start : ℕ → List ℕ → State
start event_fd fds = record {
  shared = record {
    locked = false;
    poll_fds = new_poll_fd event_fd ∷ [];
    web_socket_connections = [];
    signals = 0;
  };
  threads = all_waiting fds;
}
