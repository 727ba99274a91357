-- ===== src/Tests/Tcp.antt =====
-- Runs of the loop over the polled descriptors.
use simple_server.Prelude.{ℕ, Option, none, All, ◌≢◌, ◌≡◌, refl, true, false, some, List, [], ◌∷◌}
use simple_server.Tcp.Poll.{
  PollFd, watched, Call, close, set_non_blocking, handle_incomming_connection,
  notify_message_request, System, Outcome, remove_socket, erase, listed, read_client, accept_client,
  process, process_all, poll_round, create_server, Revents, accept_and_process_message,
}
use simple_server.Tcp.Poll.Runs.{accept_and_process_message-Serving}

abbrev system : System
system = record { accept = λ i. 9; has_data = λ i. true; is_valid = λ i. true }

abbrev silent_system : System
silent_system = record { accept = λ i. 9; has_data = λ i. false; is_valid = λ i. true }

abbrev readable : ℕ → PollFd
readable fd = record { fd = fd; pollhup = false; pollout = false; pollin = true }

abbrev gone : ℕ → PollFd
gone fd = record { fd = fd; pollhup = true; pollout = false; pollin = true }

abbrev polled : List PollFd
polled = readable 3 ∷ gone 4 ∷ readable 5 ∷ readable 6 ∷ []

abbrev polled_calls : List Call
polled_calls =
    set_non_blocking 9 ∷ handle_incomming_connection 9 ∷ close 4 ∷ notify_message_request 6 ∷ []

-- The entry of 5 is passed over, since that of 4 before it is removed.
poll_run :
    poll_round 3 system polled
    ≡ some (readable 3 ∷ readable 5 ∷ readable 6 ∷ watched 9 ∷ [], polled_calls)
unfolding poll_round process_all process read_client accept_client remove_socket erase listed
poll_run = refl

create_server_run : create_server 3 [] ≡ (watched 3 ∷ [], set_non_blocking 3 ∷ [])
unfolding create_server
create_server_run = refl

abbrev always_readable : Revents
always_readable fd = readable fd

abbrev two_rounds : List (Option (Revents × System))
two_rounds = some (always_readable, system) ∷ some (always_readable, silent_system) ∷ none ∷ []

three_listed : listed 3 polled ≡ true
unfolding listed
three_listed = refl

accept_and_process_message-Serving_example :
    (outcome : Outcome) × (accept_and_process_message 3 two_rounds polled ≡ some outcome)
    × (listed 3 outcome.0 ≡ true)
    × All (λ c. c ≢ close 3) outcome.1
accept_and_process_message-Serving_example =
    accept_and_process_message-Serving 3 two_rounds polled (refl, (refl, (tt, tt))) three_listed
