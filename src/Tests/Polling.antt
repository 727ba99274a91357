-- ===== src/Tests/Polling.antt =====
-- Runs of the loops over polled descriptors, against the bag, and between threads.
use simple_server.Prelude.{
  arith, ℕ, ◌+◌, ◌≡◌, refl, true, false, Option, none, some, List, [], ◌∷◌, ◌==◌, count,
}
use simple_server.Watching.{Refines}
use simple_server.Tcp.Poll
use simple_server.Tcp.Poll.Refine as PollRefine
use simple_server.Older.Connections
use simple_server.Older.Connections.{erase_at, hung_up, visit, close}
use simple_server.Older.Connections.Rounds.{Rounds}
use simple_server.Older.Connections.Refine as OlderRefine
use simple_server.Older.Threads.{
  new_poll_fd, returned, lock, push_poll_fd, push_connection, write, unlock, step,
}
use simple_server.Older.Threads.Invariant.{fds}
use simple_server.Older.Polling.{
  World, idle, entries, polls, keeps, removes, ends_round, Turns, adds, looks, none_yet, and_then,
  start_world,
}
use simple_server.Older.Polling.Balance.{closes, polling-balance}

-- 5 is the listening socket, 7 has nothing more to give, and 9 is accepted.
abbrev one_round : List (Option (Poll.Revents × Poll.System))
one_round =
    some (
      (λ fd. record { fd = fd; pollhup = false; pollout = false; pollin = true }),
      record { accept = λ i. 9; has_data = λ i. false; is_valid = λ i. true },
    )
    ∷ []

abbrev vector : List Poll.PollFd
vector = Poll.watched 5 ∷ Poll.watched 7 ∷ []

accept_and_process_message-Refines_example :
    (outcome : Poll.Outcome) × (Poll.accept_and_process_message 5 one_round vector ≡ some outcome)
    × Refines PollRefine.Emits
        (PollRefine.descriptors vector)
        (PollRefine.descriptors outcome.0)
        outcome.1
accept_and_process_message-Refines_example =
    PollRefine.accept_and_process_message-Refines 5 one_round vector

-- 4 hangs up.
abbrev report : ℕ → Connections.PollFd
report fd = record { fd = fd; pollin = false; pollerr = false; pollhup = fd == 4 }

abbrev rounds : Rounds
rounds = some (report, λ i j. none) ∷ []

check_and_notify_events-Refines_example :
    (outcome : Connections.Outcome) × (Connections.check_and_notify_events
        (4 ∷ [])
        rounds
        (new_poll_fd 3 ∷ new_poll_fd 4 ∷ [])
      ≡ some outcome)
    × Refines OlderRefine.Emits (3 ∷ 4 ∷ []) (OlderRefine.descriptors outcome.0) outcome.1
check_and_notify_events-Refines_example =
    OlderRefine.check_and_notify_events-Refines (4 ∷ []) rounds (new_poll_fd 3 ∷ new_poll_fd 4 ∷ [])
      ((λ i j. omega arith), tt)

-- A thread adds 4, and the polling thread finds that it hung up.
abbrev dropped : World
dropped = record {
  state = record {
    shared = record {
      locked = false;
      poll_fds = new_poll_fd 3 ∷ [];
      web_socket_connections = 4 ∷ [];
      signals = 1;
    };
    threads = returned 4 ∷ [];
  };
  poller = idle;
  actions = close 4 ∷ [];
}

dropped_reached : Turns (start_world 3 (4 ∷ [])) dropped
unfolding erase_at hung_up visit
dropped_reached =
    let added =
      and_then
        (and_then
          (and_then
            (and_then (and_then none_yet (adds (step [] [] lock))) (adds (step [] [] push_poll_fd)))
            (adds (step [] [] push_connection)))
          (adds (step [] [] write)))
        (adds (step [] [] unlock)) in
    and_then
      (and_then
        (and_then (and_then added (looks (polls report refl)))
          (looks (keeps 0 (report 3) (λ j. none) _ refl refl refl refl)))
        (looks (removes 1 (report 4) (λ j. none) _ refl refl refl refl)))
      (looks (ends_round 1 refl refl))

polling-balance_example :
    count 4 (fds (entries dropped)) + count 4 (closes dropped.actions)
    ≡ count 4 (3 ∷ dropped.state.shared.web_socket_connections)
polling-balance_example = polling-balance 3 (4 ∷ []) dropped dropped_reached refl 4
