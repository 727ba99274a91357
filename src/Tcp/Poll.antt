-- ===== src/Tcp/Poll.antt =====
-- `tcp_poll_handler` of src/tcp_poll_handler.cpp: the vector that is passed to `poll`, one round over it
-- behind a successful `poll`, and the loop of the rounds. What the system calls return is a parameter;
-- the calls that the loop makes of the system and of the handlers are the result. A descriptor is the
-- number of its 32 bits, so that the -1 of a failed `accept` is 4294967295.
mod Vector
pub mod Rounds
pub mod Serving
pub mod Order
pub mod Runs
pub mod Refine
use simple_server.Prelude.{
  ℕ, zero, suc, ◌+◌, Bool, true, false, Option, none, some, List, [], ◌∷◌, ◌++◌, length, ◌==◌,
  if◌then◌else◌,
}

-- `pollfd`: the bits of `revents` that the loop tests.
pub record PollFd : Type 0 where
  pub fd : ℕ
  pub pollhup : Bool
  pub pollout : Bool
  pub pollin : Bool

-- `{new_connection, POLLIN, 0}`
abbrev pub watched : ℕ → PollFd
watched fd = record { fd = fd; pollhup = false; pollout = false; pollin = false }

pub data Call : Type 0 where
  close : ℕ → Call
  set_non_blocking : ℕ → Call
  handle_incomming_connection : ℕ → Call
  notify_message_request : ℕ → Call

-- What the system answers in the round, in the step at each index, of which a round has at most one:
-- the result of `accept`, whether `recv` with `MSG_PEEK` gives bytes, and whether `fcntl` knows the
-- descriptor.
pub record System : Type 0 where
  pub accept : ℕ → ℕ
  pub has_data : ℕ → Bool
  pub is_valid : ℕ → Bool

abbrev pub Outcome : Type 0
Outcome = List PollFd × List Call

-- `poll_fds.erase(it)` for the first entry with the descriptor.
unfoldable pub erase : ℕ → List PollFd → List PollFd
erase fd [] = []
erase fd (p ∷ ps) = if p.fd == fd then ps else p ∷ erase fd ps

unfoldable pub listed : ℕ → List PollFd → Bool
listed fd [] = false
listed fd (p ∷ ps) = if p.fd == fd then true else listed fd ps

unfoldable pub remove_socket : ℕ → List PollFd → Outcome
remove_socket fd poll_fds = (erase fd poll_fds, if listed fd poll_fds then close fd ∷ [] else [])

unfoldable pub create_server : ℕ → List PollFd → Outcome
create_server server_fd poll_fds =
    (poll_fds ++ watched server_fd ∷ [], set_non_blocking server_fd ∷ [])

abbrev pub calls_first : List Call → Outcome → Outcome
calls_first calls (poll_fds, more) = (poll_fds, calls ++ more)

abbrev pub entry : ℕ → List PollFd → Option PollFd
entry i [] = none
entry zero (p ∷ ps) = some p
entry (suc i) (p ∷ ps) = entry i ps

abbrev pub with_calls : List Call → Option Outcome → Option Outcome
with_calls calls none = none
with_calls calls (some outcome) = some (calls_first calls outcome)

module _ (server_fd : ℕ) (sys : System) where
  -- A connection on which there is something to read, or which its peer has closed.
  unfoldable pub read_client : ℕ → ℕ → List PollFd → Outcome
  unfolding remove_socket
  read_client i client_fd poll_fds =
      if sys.has_data i
      then (poll_fds, notify_message_request client_fd ∷ [])
      else if sys.is_valid i
      then calls_first (close client_fd ∷ []) (remove_socket client_fd poll_fds)
      else remove_socket client_fd poll_fds

  unfoldable pub accept_client : ℕ → List PollFd → Outcome
  accept_client new_connection poll_fds = (
    poll_fds ++ watched new_connection ∷ [],
    set_non_blocking new_connection ∷ handle_incomming_connection new_connection ∷ [],
  )

  -- The body of the loop at index i, whose entry is p.
  unfoldable pub process : ℕ → PollFd → List PollFd → Outcome
  unfolding read_client accept_client
  process i p poll_fds =
      if p.pollhup
      then remove_socket p.fd poll_fds
      else if p.pollout
      then (poll_fds, [])
      else if p.pollin
      then (if p.fd == server_fd
          then accept_client (sys.accept i) poll_fds
          else read_client i p.fd poll_fds)
      else (poll_fds, [])

  -- The loop from index i on; `none` means that the fuel was too little.
  unfoldable pub process_all : ℕ → ℕ → List PollFd → Option Outcome
  process_all zero i poll_fds = elim (entry i poll_fds) [
    | none ↦ some (poll_fds, [])
    | some p ↦ none
  ]
  process_all (suc fuel) i poll_fds = elim (entry i poll_fds) [
    | none ↦ some (poll_fds, [])
    | some p ↦
        let (poll_fds', calls) = process i p poll_fds in
        with_calls calls (process_all fuel (suc i) poll_fds')
  ]

-- Entries with an event: only these may make the vector grow.
abbrev pub active : List PollFd → ℕ
active [] = 0
active (p ∷ ps) = if p.pollin then suc (active ps) else active ps

-- The loop over the whole vector. Every step leaves an entry behind, and a step that adds an entry
-- leaves an active one behind.
unfoldable pub poll_round : ℕ → System → List PollFd → Option Outcome
unfolding process_all
poll_round server_fd sys poll_fds =
    process_all server_fd sys (length poll_fds + active poll_fds) 0 poll_fds

-- `poll`: the bits that it stores in every entry depend on the descriptor only.
abbrev pub Revents : Type 0
Revents = ℕ → PollFd

abbrev pub poll : Revents → List PollFd → List PollFd
poll revents [] = []
poll revents (p ∷ poll_fds) =
    record {
      fd = p.fd;
      pollhup = (revents p.fd).pollhup;
      pollout = (revents p.fd).pollout;
      pollin = (revents p.fd).pollin;
    }
    ∷ poll revents poll_fds

-- The outer loop, for what the system does in each of its rounds: where `poll` fails, the loop ends.
unfoldable pub accept_and_process_message :
    ℕ → List (Option (Revents × System)) → List PollFd → Option Outcome
unfolding poll_round
accept_and_process_message server_fd [] poll_fds = some (poll_fds, [])
accept_and_process_message server_fd (none ∷ rounds) poll_fds = some (poll_fds, [])
accept_and_process_message server_fd (some (revents, sys) ∷ rounds) poll_fds =
    elim (poll_round server_fd sys (poll revents poll_fds)) [
      | none ↦ none
      | some (poll_fds', calls) ↦
          with_calls calls (accept_and_process_message server_fd rounds poll_fds')
    ]
