-- ===== src/Tcp/Poll/Refine.antt =====
-- The vector of the poll handler implements the bag of watched descriptors.
use simple_server.Prelude.{
  ℕ, zero, suc, ◌+◌, ◌≤◌, ◌≡◌, refl, sym, ap, ◌∙◌, true, Option, none, some, List, [], ◌∷◌, ◌++◌,
  length, ◌==◌, arith, bag, put-last, take_out-bag, without, Bool-cases, Option-cases, inl, inr,
}
use simple_server.Watching.{
  Happening, accepted, served, dropped, watch, watch-accepted, watch-served, watch-dropped, Refines,
  Refines-none, Refines-one, Refines-then,
}
use simple_server.Tcp.Poll.{
  PollFd, watched, Call, close, set_non_blocking, handle_incomming_connection,
  notify_message_request, System, Outcome, erase, listed, remove_socket, calls_first, entry,
  with_calls, read_client, accept_client, process, process_all, active, poll_round, Revents, poll,
  accept_and_process_message,
}
use simple_server.Tcp.Poll.Rounds.{process-left, process_all-none, process_all-some}
use simple_server.Tcp.Poll.Vector.{left}
use simple_server.Tcp.Poll.Runs.{run-round}

abbrev pub descriptors : List PollFd → List ℕ
descriptors [] = []
descriptors (p ∷ ps) = p.fd ∷ descriptors ps

-- The calls for each happening: a descriptor that is dropped is closed once, or twice.
pub data Emits : Happening → List Call → Type 0 where
  accepts :
      (fd : ℕ) → Emits (accepted fd) (set_non_blocking fd ∷ handle_incomming_connection fd ∷ [])
  notifies : (fd : ℕ) → Emits (served fd) (notify_message_request fd ∷ [])
  removes : (fd : ℕ) → Emits (dropped fd) (close fd ∷ [])
  closes_first : (fd : ℕ) → Emits (dropped fd) (close fd ∷ close fd ∷ [])

descriptors-erase :
    (fd : ℕ) (ps : List PollFd) → descriptors (erase fd ps) ≡ without fd (descriptors ps)
unfolding erase
descriptors-erase fd [] = refl
descriptors-erase fd (p ∷ ps) = ground (arith, descriptors-erase fd ps)

descriptors-append :
    (ps qs : List PollFd) → descriptors (ps ++ qs) ≡ descriptors ps ++ descriptors qs
descriptors-append [] qs = refl
descriptors-append (p ∷ ps) qs = ap (λ r. p.fd ∷ r) (descriptors-append ps qs)

descriptors-poll :
    (revents : Revents) (ps : List PollFd) → descriptors (poll revents ps) ≡ descriptors ps
descriptors-poll revents [] = refl
descriptors-poll revents (p ∷ ps) = ap (λ r. p.fd ∷ r) (descriptors-poll revents ps)

entry-listed : (i : ℕ) (ps : List PollFd) (p : PollFd) → entry i ps ≡ some p → listed p.fd ps ≡ true
unfolding listed
entry-listed i [] p e = cc
entry-listed zero (q ∷ ps) p e = ground (arith, e)
entry-listed (suc i) (q ∷ ps) p e = ground (arith, entry-listed i ps p e)

abbrev StepsTo : List PollFd → Outcome → Type 0
StepsTo ps o = Refines Emits (descriptors ps) (descriptors o.0) o.1

drop_bag :
    (fd : ℕ) (ps : List PollFd)
    → bag (descriptors (erase fd ps)) ≡ watch (dropped fd ∷ []) (bag (descriptors ps))
drop_bag fd ps =
    ap bag (descriptors-erase fd ps)
    ∙ sym (take_out-bag fd (descriptors ps))
    ∙ sym (watch-dropped fd (bag (descriptors ps)))

module _ (server_fd : ℕ) (sys : System) where
  remove_socket-Refines :
      (fd : ℕ) (ps : List PollFd) → listed fd ps ≡ true → StepsTo ps (remove_socket fd ps)
  unfolding remove_socket
  remove_socket-Refines fd ps l =
      rw l (
        Refines-one Emits (descriptors ps) (descriptors (erase fd ps)) (removes fd)
          (drop_bag fd ps))

  read_client-Refines :
      (i fd : ℕ) (ps : List PollFd)
      → listed fd ps ≡ true
      → StepsTo ps (read_client server_fd sys i fd ps)
  unfolding read_client remove_socket
  read_client-Refines i fd ps l = elim (Bool-cases (sys.has_data i)) [
    | inl data_there ↦ rw data_there (
        Refines-one Emits (descriptors ps) (descriptors ps) (notifies fd)
          (sym (watch-served fd (bag (descriptors ps)))))
    | inr nothing_there ↦ elim (Bool-cases (sys.is_valid i)) [
      | inl valid ↦
          rw (nothing_there, valid, l)
            (Refines-one Emits (descriptors ps) (descriptors (erase fd ps)) (closes_first fd)
              (drop_bag fd ps))
      | inr invalid ↦ rw (nothing_there, invalid) (remove_socket-Refines fd ps l)
    ]
  ]

  accept_client-Refines :
      (fd : ℕ) (ps : List PollFd) → StepsTo ps (accept_client server_fd sys fd ps)
  unfolding accept_client
  accept_client-Refines fd ps =
      Refines-one Emits (descriptors ps) (descriptors (ps ++ watched fd ∷ [])) (accepts fd) (
        ap bag (descriptors-append ps (watched fd ∷ []))
        ∙ put-last fd (descriptors ps)
        ∙ sym (watch-accepted fd (bag (descriptors ps))))

  process-Refines :
      (i : ℕ) (p : PollFd) (ps : List PollFd)
      → entry i ps ≡ some p
      → StepsTo ps (process server_fd sys i p ps)
  unfolding process
  process-Refines i p ps e =
      let there = entry-listed i ps p e in
      elim (Bool-cases p.pollhup) [
        | inl hup ↦ rw hup (remove_socket-Refines p.fd ps there)
        | inr up ↦ elim (Bool-cases p.pollout) [
          | inl out ↦ rw (up, out) (Refines-none Emits (descriptors ps))
          | inr quiet ↦ elim (Bool-cases p.pollin) [
            | inr silent ↦ rw (up, quiet, silent) (Refines-none Emits (descriptors ps))
            | inl input ↦ elim (Bool-cases (p.fd == server_fd)) [
              | inl server ↦ rw (up, quiet, input, server) (accept_client-Refines (sys.accept i) ps)
              | inr client ↦ rw (up, quiet, input, client) (read_client-Refines i p.fd ps there)
            ]
          ]
        ]
      ]

-- A result, and what has happened between the vector and it.
abbrev Settles : List PollFd → Option Outcome → Type 0
Settles ps o = (outcome : Outcome) × (o ≡ some outcome) × StepsTo ps outcome

Settles-then :
    (ps : List PollFd) (first : Outcome) (o : Option Outcome)
    → StepsTo ps first
    → Settles first.0 o
    → Settles ps (with_calls first.1 o)
Settles-then ps (qs, calls) o h (outcome, e, k) = (
  calls_first calls outcome,
  ap (with_calls calls) e,
  Refines-then Emits (descriptors ps) (descriptors qs) (descriptors outcome.0) h k,
)

module _ (server_fd : ℕ) where
  process_all-Settles :
      (sys : System) (fuel i : ℕ) (ps : List PollFd)
      → left i ps ≤ fuel
      → Settles ps (process_all server_fd sys fuel i ps)
  process_all-Settles sys zero i ps h = elim (Option-cases (entry i ps)) [
    | inl e ↦
        ((ps, []), process_all-none server_fd sys 0 i ps e, Refines-none Emits (descriptors ps))
    | inr (p, e) ↦ absurd (omega (arith, process-left server_fd sys i p ps e))
  ]
  process_all-Settles sys (suc fuel) i ps h = elim (Option-cases (entry i ps)) [
    | inl e ↦ (
      (ps, []),
      process_all-none server_fd sys (suc fuel) i ps e,
      Refines-none Emits (descriptors ps),
    )
    | inr (p, e) ↦
        let first = process server_fd sys i p ps in
        rw (process_all-some server_fd sys fuel i ps p e) (
          Settles-then ps first _ (process-Refines server_fd sys i p ps e) (
            process_all-Settles sys fuel (suc i) first.0
              (omega (arith, process-left server_fd sys i p ps e))))
  ]

  poll_round-Settles : (sys : System) (ps : List PollFd) → Settles ps (poll_round server_fd sys ps)
  unfolding poll_round
  poll_round-Settles sys ps = process_all-Settles sys (length ps + active ps) 0 ps (omega arith)

  -- Whatever the system answers in the rounds, and to each call anew: the loop has a result, and it implements a bag of
  -- watched descriptors. Some happenings, each with its calls and in the order of the calls, take
  -- the bag of the descriptors of the vector to that of the vector behind the loop.
  pub accept_and_process_message-Refines :
      (rounds : List (Option (Revents × System))) (ps : List PollFd)
      → (outcome : Outcome) × (accept_and_process_message server_fd rounds ps ≡ some outcome)
        × Refines Emits (descriptors ps) (descriptors outcome.0) outcome.1
  unfolding accept_and_process_message
  accept_and_process_message-Refines [] ps = ((ps, []), refl, Refines-none Emits (descriptors ps))
  accept_and_process_message-Refines (none ∷ rounds) ps =
      ((ps, []), refl, Refines-none Emits (descriptors ps))
  accept_and_process_message-Refines (some (revents, sys) ∷ rounds) ps =
      let polled = poll revents ps in
      let ((qs, calls), e, h) = poll_round-Settles sys polled in
      rw (run-round server_fd revents sys rounds ps qs calls e) (
        Settles-then ps (qs, calls) _ (rw (sym (descriptors-poll revents ps)) h)
          (accept_and_process_message-Refines rounds qs))
