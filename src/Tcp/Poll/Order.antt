-- ===== src/Tcp/Poll/Order.antt =====
-- What removing an entry means for the rest of the round.
use simple_server.Prelude.{
  ℕ, suc, ◌≡◌, ◌≢◌, refl, ap, ◌∙◌, true, false, some, List, [], ◌∷◌, ◌++◌, length, All, ==_ne,
  ==_refl,
}
use simple_server.Tcp.Poll.{
  PollFd, close, System, erase, listed, remove_socket, calls_first, read_client, process, entry,
  with_calls, process_all,
}
use simple_server.Tcp.Poll.Rounds.{process_all-some}

process_hung_up :
    (server_fd : ℕ) (sys : System) (i : ℕ) (p : PollFd) (ps : List PollFd)
    → p.pollhup ≡ true
    → process server_fd sys i p ps ≡ remove_socket p.fd ps
unfolding process
process_hung_up server_fd sys i p ps hup = rw hup

process_disconnected :
    (server_fd : ℕ) (sys : System) (i : ℕ) (p : PollFd) (ps : List PollFd)
    → p.pollhup ≡ false
    → p.pollout ≡ false
    → p.pollin ≡ true
    → p.fd ≢ server_fd
    → sys.has_data i ≡ false
    → sys.is_valid i ≡ true
    → process server_fd sys i p ps ≡ calls_first (close p.fd ∷ []) (remove_socket p.fd ps)
unfolding process read_client
process_disconnected server_fd sys i p ps up idle input client closed valid =
    rw (up, idle, input, ==_ne p.fd server_fd client, closed, valid)

module _ (before : List PollFd) (p : PollFd) (after : List PollFd)
    (new : All (λ q. q.fd ≢ p.fd) before) where
  erase-middle :
      (before : List PollFd)
      → All (λ q. q.fd ≢ p.fd) before
      → erase p.fd (before ++ p ∷ after) ≡ before ++ after
  unfolding erase
  erase-middle [] h = rw (==_refl p.fd)
  erase-middle (q ∷ qs) (n, h) = rw (==_ne q.fd p.fd n, erase-middle qs h)

  listed-middle :
      (before : List PollFd)
      → All (λ q. q.fd ≢ p.fd) before
      → listed p.fd (before ++ p ∷ after) ≡ true
  unfolding listed
  listed-middle [] h = rw (==_refl p.fd)
  listed-middle (q ∷ qs) (n, h) = rw (==_ne q.fd p.fd n, listed-middle qs h)

  remove_socket-middle :
      remove_socket p.fd (before ++ p ∷ after) ≡ (before ++ after, close p.fd ∷ [])
  unfolding remove_socket
  remove_socket-middle = rw (erase-middle before new, listed-middle before new)

  entry-middle : (before : List PollFd) → entry (length before) (before ++ p ∷ after) ≡ some p
  entry-middle [] = refl
  entry-middle (q ∷ qs) = entry-middle qs

  -- A connection that has hung up, and whose descriptor no earlier entry has, is closed and removed,
  -- and the loop goes on behind the entry that has moved to its place: that entry, the first of those
  -- behind it, is passed over in this round.
  pub hang_up-next :
      (server_fd : ℕ) (sys : System) (fuel : ℕ)
      → p.pollhup ≡ true
      → process_all server_fd sys (suc fuel) (length before) (before ++ p ∷ after)
        ≡ with_calls
            (close p.fd ∷ [])
            (process_all server_fd sys fuel (suc (length before)) (before ++ after))
  hang_up-next server_fd sys fuel hup =
      process_all-some server_fd sys fuel (length before) (before ++ p ∷ after) p
        (entry-middle before)
      ∙ ap (λ o. with_calls o.1 (process_all server_fd sys fuel (suc (length before)) o.0))
          (process_hung_up server_fd sys (length before) p (before ++ p ∷ after) hup
            ∙ remove_socket-middle)

  -- A connection other than the listening socket with input but nothing to read, whose descriptor is
  -- valid and in no earlier entry, is closed twice and removed.
  pub disconnected-closed_twice :
      (server_fd : ℕ) (sys : System) (i : ℕ)
      → p.pollhup ≡ false
      → p.pollout ≡ false
      → p.pollin ≡ true
      → p.fd ≢ server_fd
      → sys.has_data i ≡ false
      → sys.is_valid i ≡ true
      → process server_fd sys i p (before ++ p ∷ after)
        ≡ (before ++ after, close p.fd ∷ close p.fd ∷ [])
  disconnected-closed_twice server_fd sys i up idle input client closed valid =
      process_disconnected server_fd sys i p (before ++ p ∷ after) up idle input client closed valid
      ∙ ap (calls_first (close p.fd ∷ [])) remove_socket-middle
