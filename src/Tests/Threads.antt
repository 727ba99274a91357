-- ===== src/Tests/Threads.antt =====
-- A run of two threads that add their connections.
use simple_server.Prelude.{◌≡◌, ◌⊎◌, ◌+◌, refl, false, [], ◌∷◌}
use simple_server.Older.Threads.{
  new_poll_fd, waiting, returned, lock, push_poll_fd, push_connection, write, unlock, State, Step,
  step, Steps, done, more, start,
}
use simple_server.Older.Threads.Invariant.{fds, add_socket-consistent}
use simple_server.Older.Threads.Progress.{total_left, run_length, add_socket-progress}

-- The second thread has returned, the first still waits.
abbrev second_returned : State
second_returned = record {
  shared = record {
    locked = false;
    poll_fds = new_poll_fd 3 ∷ new_poll_fd 5 ∷ [];
    web_socket_connections = 5 ∷ [];
    signals = 1;
  };
  threads = waiting 4 ∷ returned 5 ∷ [];
}

second_first : Steps (start 3 (4 ∷ 5 ∷ [])) second_returned
second_first =
    let first = waiting 4 ∷ [] in
    more
      (more
        (more (more (more done (step first [] lock)) (step first [] push_poll_fd))
          (step first [] push_connection))
        (step first [] write))
      (step first [] unlock)

add_socket-consistent_example :
    fds second_returned.shared.poll_fds ≡ 3 ∷ second_returned.shared.web_socket_connections
add_socket-consistent_example =
    add_socket-consistent 3 (4 ∷ 5 ∷ []) second_returned second_first refl

add_socket-progress_example :
    (run_length second_first + total_left second_returned.threads ≡ 10)
    × ((total_left second_returned.threads ≡ 0) ⊎ ((t : State) × Step second_returned t))
add_socket-progress_example = add_socket-progress 3 (4 ∷ 5 ∷ []) second_returned second_first
