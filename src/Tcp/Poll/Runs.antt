-- ===== src/Tcp/Poll/Runs.antt =====
-- The loop of the rounds of the poll handler.
use simple_server.Prelude.{
  ℕ, ◌≡◌, ◌≢◌, ◌⊎◌, refl, ap, ◌∙◌, true, false, Option, none, some, List, [], ◌∷◌, arith, All,
  All-append, ◌==◌, Bool-cases, inl, inr,
}
use simple_server.Tcp.Poll.{
  PollFd, Call, close, System, Outcome, listed, calls_first, with_calls, poll_round, Revents, poll,
  accept_and_process_message,
}
use simple_server.Tcp.Poll.Rounds.{poll_round_ends}
use simple_server.Tcp.Poll.Serving.{NoHangUp, poll_round-Serving}

module _ (server_fd : ℕ) where
  -- The listening socket does not hang up.
  abbrev pub Listens : Option (Revents × System) → Type 0
  Listens none = Unit
  Listens (some (revents, sys)) = (revents server_fd).pollhup ≡ false

  poll-NoHangUp :
      (revents : Revents) (sys : System) (ps : List PollFd)
      → (revents server_fd).pollhup ≡ false
      → All (NoHangUp server_fd sys) (poll revents ps)
  poll-NoHangUp revents sys [] h = tt
  poll-NoHangUp revents sys (p ∷ ps) h = (here, poll-NoHangUp revents sys ps h)
    where
      here : (p.fd ≢ server_fd) ⊎ ((revents p.fd).pollhup ≡ false)
      here = elim (Bool-cases (p.fd == server_fd)) [
        | inl e ↦
            let same : p.fd ≡ server_fd = ground (arith, e) in
            inr (ap (λ fd. (revents fd).pollhup) same ∙ h)
        | inr e ↦ inl (λ same. absurd (ground (arith, e, same)))
      ]

  listed-poll :
      (revents : Revents) (fd : ℕ) (ps : List PollFd) → listed fd (poll revents ps) ≡ listed fd ps
  unfolding listed
  listed-poll revents fd [] = refl
  listed-poll revents fd (p ∷ ps) = ground (arith, listed-poll revents fd ps)

  pub run-round :
      (revents : Revents) (sys : System) (rounds : List (Option (Revents × System)))
      (ps ps' : List PollFd) (calls : List Call)
      → poll_round server_fd sys (poll revents ps) ≡ some (ps', calls)
      → accept_and_process_message server_fd (some (revents, sys) ∷ rounds) ps
        ≡ with_calls calls (accept_and_process_message server_fd rounds ps')
  unfolding accept_and_process_message
  run-round revents sys rounds ps ps' calls e = rw (e, accept_and_process_message) refl

  -- The loop has a result for any number of rounds, and as long as the listening socket does not
  -- hang up, it stays in the vector and is not closed.
  pub accept_and_process_message-Serving :
      (rounds : List (Option (Revents × System))) (ps : List PollFd)
      → All Listens rounds
      → listed server_fd ps ≡ true
      → (outcome : Outcome) × (accept_and_process_message server_fd rounds ps ≡ some outcome)
        × (listed server_fd outcome.0 ≡ true)
        × All (λ c. c ≢ close server_fd) outcome.1
  unfolding accept_and_process_message
  accept_and_process_message-Serving [] ps h l = ((ps, []), refl, l, tt)
  accept_and_process_message-Serving (none ∷ rounds) ps h l = ((ps, []), refl, l, tt)
  accept_and_process_message-Serving (some (revents, sys) ∷ rounds) ps (q, h) l =
      let polled = poll revents ps in
      let ((ps', calls), e) = poll_round_ends server_fd sys polled in
      let (kept, spared) =
        poll_round-Serving server_fd sys polled (ps', calls)
          (listed-poll revents server_fd ps ∙ l, poll-NoHangUp revents sys ps q) e in
      let (later, f, stays, spares) = accept_and_process_message-Serving rounds ps' h kept.0 in
      (
        calls_first calls later,
        run-round revents sys rounds ps ps' calls e ∙ ap (with_calls calls) f,
        stays,
        All-append (λ c. c ≢ close server_fd) calls later.1 spared spares,
      )
