-- ===== src/Tcp/Poll/Serving.antt =====
-- The listening socket of the poll handler during a round.
use simple_server.Prelude.{
  ℕ, zero, suc, ◌+◌, ◌≡◌, ◌≢◌, ◌⊎◌, refl, sym, ◌∙◌, true, false, Option, none, some, List, [], ◌∷◌,
  ◌++◌, length, arith, All, All-append, ◌==◌, ==_iff, Bool-cases, Option-cases, inl, inr,
}
use simple_server.Tcp.Poll.{
  PollFd, watched, Call, close, System, Outcome, erase, listed, remove_socket, calls_first,
  read_client, accept_client, process, entry, with_calls, process_all, active, poll_round,
}
use simple_server.Tcp.Poll.Rounds.{process_all-none, process_all_zero, process_all-some}

module _ (server_fd : ℕ) (sys : System) where
  -- The entry is of another socket, or has no `POLLHUP`.
  abbrev pub NoHangUp : PollFd → Type 0
  NoHangUp p = (p.fd ≢ server_fd) ⊎ (p.pollhup ≡ false)

  erase-NoHangUp : (fd : ℕ) (ps : List PollFd) → All NoHangUp ps → All NoHangUp (erase fd ps)
  unfolding erase
  erase-NoHangUp fd [] h = tt
  erase-NoHangUp fd (p ∷ ps) (q, h) = elim (Bool-cases (p.fd == fd)) [
    | inl e ↦ rw e h
    | inr e ↦ rw e (q, erase-NoHangUp fd ps h)
  ]

  listed-erase :
      (fd : ℕ) (ps : List PollFd)
      → fd ≢ server_fd
      → listed server_fd (erase fd ps) ≡ listed server_fd ps
  unfolding erase listed
  listed-erase fd [] n = refl
  listed-erase fd (p ∷ ps) n = ground (arith, listed-erase fd ps n)

  listed-watched :
      (fd : ℕ) (ps : List PollFd)
      → listed server_fd ps ≡ true
      → listed server_fd (ps ++ watched fd ∷ []) ≡ true
  unfolding listed
  listed-watched fd [] h = absurd (ground arith)
  listed-watched fd (p ∷ ps) h = ground (arith, listed-watched fd ps)

  -- The listening socket is in the vector, and no entry of it has hung up.
  abbrev pub Serving : List PollFd → Type 0
  Serving ps = (listed server_fd ps ≡ true) × All NoHangUp ps

  abbrev pub Spares : List Call → Type 0
  Spares = All (λ c. c ≢ close server_fd)

  abbrev Good : Outcome → Type 0
  Good (ps, calls) = Serving ps × Spares calls

  remove_socket-Good :
      (fd : ℕ) (ps : List PollFd) → fd ≢ server_fd → Serving ps → Good (remove_socket fd ps)
  unfolding remove_socket
  remove_socket-Good fd ps n (l, h) = (
    (listed-erase fd ps n ∙ l, erase-NoHangUp fd ps h),
    elim (Bool-cases (listed fd ps)) [ inl e ↦ rw e (other, tt) | inr e ↦ rw e tt ],
  )
    where
      other : close fd ≢ close server_fd
      other e = n cc

  read_client-Good :
      (i fd : ℕ) (ps : List PollFd)
      → fd ≢ server_fd
      → Serving ps
      → Good (read_client server_fd sys i fd ps)
  unfolding read_client
  read_client-Good i fd ps n s = elim (Bool-cases (sys.has_data i)) [
    | inl e ↦ rw e (s, ((λ x. cc), tt))
    | inr e ↦ elim (Bool-cases (sys.is_valid i)) [
      | inr f ↦ rw (e, f) (remove_socket-Good fd ps n s)
      | inl f ↦
          let (kept, spared) = remove_socket-Good fd ps n s in
          rw (e, f) (kept, ((λ x. n cc), spared))
    ]
  ]

  accept_client-Good :
      (fd : ℕ) (ps : List PollFd) → Serving ps → Good (accept_client server_fd sys fd ps)
  unfolding accept_client
  accept_client-Good fd ps (l, h) = (
    (listed-watched fd ps l, All-append NoHangUp ps (watched fd ∷ []) h (inr refl, tt)),
    ((λ x. cc), ((λ x. cc), tt)),
  )

  All-entry :
      (i : ℕ) (ps : List PollFd) (p : PollFd) → All NoHangUp ps → entry i ps ≡ some p → NoHangUp p
  All-entry i [] p h e = absurd (ground arith)
  All-entry zero (q ∷ ps) p (g, h) e = rw (← entry_first e) g
    where
      entry_first : ◌≡◌ {A = Option PollFd} (some q) (some p) → q ≡ p
      entry_first e = cc
  All-entry (suc i) (q ∷ ps) p (g, h) e = All-entry i ps p h e

  process-Good :
      (i : ℕ) (p : PollFd) (ps : List PollFd)
      → NoHangUp p
      → Serving ps
      → Good (process server_fd sys i p ps)
  unfolding process
  process-Good i p ps g s = elim (Bool-cases p.pollhup) [
    | inl hup ↦ rw hup (remove_socket-Good p.fd ps (not_server g hup) s)
    | inr up ↦ elim (Bool-cases p.pollout) [
      | inl o ↦ rw (up, o) (s, tt)
      | inr idle ↦ elim (Bool-cases p.pollin) [
        | inr quiet ↦ rw (up, idle, quiet) (s, tt)
        | inl input ↦ elim (Bool-cases (p.fd == server_fd)) [
          | inl e ↦ rw (up, idle, input, e) (accept_client-Good (sys.accept i) ps s)
          | inr e ↦ rw (up, idle, input, e) (read_client-Good i p.fd ps (other e) s)
        ]
      ]
    ]
  ]
    where
      not_server : NoHangUp p → p.pollhup ≡ true → p.fd ≢ server_fd
      not_server (inl n) hup e = n e
      not_server (inr up) hup e = cc

      other : (p.fd == server_fd) ≡ false → p.fd ≢ server_fd
      other h e = ground (arith, (==_iff p.fd server_fd).1 e)

  then_Good :
      (calls : List Call) (o : Option Outcome) (outcome : Outcome)
      → Spares calls
      → ((later : Outcome) → o ≡ some later → Good later)
      → with_calls calls o ≡ some outcome
      → Good outcome
  then_Good calls none outcome c h e = absurd (ground arith)
  then_Good calls (some later) outcome c h e =
      let (kept, spared) = h later refl in
      let same : ◌≡◌ {A = Outcome} (calls_first calls later) outcome = cc in
      rw (← same) (kept, All-append (λ x. x ≢ close server_fd) calls later.1 c spared)

  unchanged_Good :
      (fuel i : ℕ) (ps : List PollFd) (outcome : Outcome)
      → Serving ps
      → entry i ps ≡ none
      → process_all server_fd sys fuel i ps ≡ some outcome
      → Good outcome
  unchanged_Good fuel i ps outcome s e h =
      let same : ◌≡◌ {A = Outcome} (ps, []) outcome =
        cc (sym (process_all-none server_fd sys fuel i ps e) ∙ h) in
      rw (← same) (s, tt)

  process_all-Good :
      (fuel i : ℕ) (ps : List PollFd) (outcome : Outcome)
      → Serving ps
      → process_all server_fd sys fuel i ps ≡ some outcome
      → Good outcome
  process_all-Good zero i ps outcome s h = elim (Option-cases (entry i ps)) [
    | inl e ↦ unchanged_Good zero i ps outcome s e h
    | inr (p, e) ↦ absurd (ground (arith, process_all_zero server_fd sys i ps p e))
  ]
  process_all-Good (suc fuel) i ps outcome s h = elim (Option-cases (entry i ps)) [
    | inl e ↦ unchanged_Good (suc fuel) i ps outcome s e h
    | inr (p, e) ↦
        let (kept, spared) = process-Good i p ps (All-entry i ps p s.1 e) s in
        then_Good (process server_fd sys i p ps).1 _ outcome spared
          (λ later l. process_all-Good fuel (suc i) (process server_fd sys i p ps).0 later kept l)
          (sym (process_all-some server_fd sys fuel i ps p e) ∙ h)
  ]

  -- A round in which the listening socket does not hang up leaves it in the vector and does not
  -- close it, whatever the other connections do.
  pub poll_round-Serving :
      (ps : List PollFd) (outcome : Outcome)
      → Serving ps
      → poll_round server_fd sys ps ≡ some outcome
      → Serving outcome.0 × Spares outcome.1
  unfolding poll_round
  poll_round-Serving ps outcome s h = process_all-Good (length ps + active ps) 0 ps outcome s h
