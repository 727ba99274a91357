-- ===== src/Older/Connections/Acts.antt =====
-- Which descriptors the loop over the polled descriptors reads and closes.
use simple_server.Prelude.{
  ℕ, zero, suc, sym, Option, none, some, List, [], ◌∷◌, inl, inr, All, All-append, Bool-cases,
  Option-cases, ◌==◌, ==_iff, ltb, length,
}
use simple_server.Http.Server.Outcome.{WhenSome}
use simple_server.Older.Connections.{
  PollFd, Action, read, close, entry, erase_at, read_one, read_connections, end_index, behind_visit,
  visit, hung_up, with_actions, check_events, check_and_notify_events, Revents, poll, behind_round,
  Outcome,
}

-- What holds of the connections, and what of the descriptors that are polled.
module _ (P Q : ℕ → Type 0) where
  abbrev pub ActsOn : Action → Type 0
  ActsOn (read fd i) = P fd
  ActsOn (close fd) = Q fd

  abbrev pub Polls : List PollFd → Type 0
  Polls = All (λ p. Q p.fd)

  abbrev pub Keeps : Outcome → Type 0
  Keeps o = Polls o.0 × All ActsOn o.1

  entry-Polls : (i : ℕ) (ps : List PollFd) → Polls ps → WhenSome (λ p. Q p.fd) (entry i ps)
  entry-Polls i [] h = tt
  entry-Polls zero (p ∷ ps) (q, h) = q
  entry-Polls (suc i) (p ∷ ps) (q, h) = entry-Polls i ps h

  erase_at-Polls : (i : ℕ) (ps : List PollFd) → Polls ps → Polls (erase_at i ps)
  unfolding erase_at
  erase_at-Polls i [] h = tt
  erase_at-Polls zero (p ∷ ps) (q, h) = h
  erase_at-Polls (suc i) (p ∷ ps) (q, h) = (q, erase_at-Polls i ps h)

  poll-Polls : (revents : Revents) (ps : List PollFd) → Polls ps → Polls (poll revents ps)
  poll-Polls revents [] h = tt
  poll-Polls revents (p ∷ ps) (q, h) = (q, poll-Polls revents ps h)

  with_actions-Keeps :
      (actions : List Action) (o : Option Outcome)
      → All ActsOn actions
      → WhenSome Keeps o
      → WhenSome Keeps (with_actions actions o)
  with_actions-Keeps actions none h k = tt
  with_actions-Keeps actions (some (ps, more)) h (k, m) = (k, All-append ActsOn actions more h m)

  behind_visit-Keeps :
      (actions : Option (List Action)) (o : Option Outcome)
      → WhenSome (All ActsOn) actions
      → WhenSome Keeps o
      → WhenSome Keeps (behind_visit actions o)
  behind_visit-Keeps none o h k = tt
  behind_visit-Keeps (some actions) o h k = with_actions-Keeps actions o h k

  read_one-ActsOn :
      (fd end : ℕ) (later : Option (List Action))
      → P fd
      → WhenSome (All ActsOn) later
      → WhenSome (All ActsOn) (read_one fd end later)
  unfolding read_one
  read_one-ActsOn fd end none p h = tt
  read_one-ActsOn fd end (some later) p h = elim (Bool-cases (ltb end 1024)) [
    | inl e ↦ rw e (p, h)
    | inr e ↦ rw e tt
  ]

  read_connections-ActsOn :
      (results : ℕ → Option ℕ) (fd j : ℕ) (cs : List ℕ)
      → All P cs
      → WhenSome (All ActsOn) (read_connections results fd j cs)
  unfolding read_connections
  read_connections-ActsOn results fd j [] h = tt
  read_connections-ActsOn results fd j (c ∷ cs) (p, h) =
      let later = read_connections-ActsOn results fd (suc j) cs h in
      elim (Bool-cases (c == fd)) [
        | inl e ↦ rw e (
            read_one-ActsOn fd (end_index (results j)) (read_connections results fd (suc j) cs)
              (rw (sym ((==_iff c fd).0 e)) p) later)
        | inr e ↦ rw e later
      ]

  visit-ActsOn :
      (results : ℕ → Option ℕ) (cs : List ℕ) (p : PollFd)
      → All P cs
      → Q p.fd
      → WhenSome (All ActsOn) (visit results cs p)
  unfolding visit
  visit-ActsOn results cs p h q = elim (Bool-cases p.pollin) [
    | inl e ↦ rw e (read_connections-ActsOn results p.fd 0 cs h)
    | inr e ↦ elim (Bool-cases p.pollerr) [
      | inl f ↦ rw (e, f) tt
      | inr f ↦ elim (Bool-cases p.pollhup) [
        | inl g ↦ rw (e, f, g) (q, tt)
        | inr g ↦ rw (e, f, g) tt
      ]
    ]
  ]

  module _ (results : ℕ → ℕ → Option ℕ) (connections : List ℕ) (known : All P connections) where
    check_events-Keeps :
        (fuel i : ℕ) (ps : List PollFd)
        → Polls ps
        → WhenSome Keeps (check_events results connections fuel i ps)
    unfolding check_events
    check_events-Keeps zero i ps h = elim (Option-cases (entry i ps)) [
      | inl e ↦ rw (e, check_events) (h, tt)
      | inr (p, e) ↦ rw (e, check_events) tt
    ]
    check_events-Keeps (suc fuel) i ps h = elim (Option-cases (entry i ps)) [
      | inl e ↦ rw (e, check_events) (h, tt)
      | inr (p, e) ↦
          let acts = visit-ActsOn (results i) connections p known (rw e at (entry-Polls i ps h)) in
          elim (Bool-cases (hung_up p)) [
            | inl up ↦
                rw (e, check_events)
                  (rw up (
                    behind_visit-Keeps (visit (results i) connections p) _ acts
                      (check_events-Keeps fuel i (erase_at i ps) (erase_at-Polls i ps h))))
            | inr on ↦
                rw (e, check_events)
                  (rw on (
                    behind_visit-Keeps (visit (results i) connections p) _ acts
                      (check_events-Keeps fuel (suc i) ps h)))
          ]
    ]

  behind_round-Keeps :
      (later : List PollFd → Option Outcome) (o : Option Outcome)
      → ((ps : List PollFd) → Polls ps → WhenSome Keeps (later ps))
      → WhenSome Keeps o
      → WhenSome Keeps (behind_round later o)
  behind_round-Keeps later none h k = tt
  behind_round-Keeps later (some (ps, actions)) h (k, acts) =
      with_actions-Keeps actions (later ps) acts (h ps k)

  -- The loop keeps what holds of the polled descriptors, and acts on those of which it holds, and on
  -- connections of the list.
  pub check_and_notify_events-Keeps :
      (connections : List ℕ) (answers : List (Option (Revents × (ℕ → ℕ → Option ℕ))))
      (ps : List PollFd)
      → All P connections
      → Polls ps
      → WhenSome Keeps (check_and_notify_events connections answers ps)
  unfolding check_and_notify_events
  check_and_notify_events-Keeps connections [] ps known h = (h, tt)
  check_and_notify_events-Keeps connections (none ∷ answers) ps known h = (h, tt)
  check_and_notify_events-Keeps connections (some (revents, results) ∷ answers) ps known h =
      let now = poll revents ps in
      behind_round-Keeps (check_and_notify_events connections answers) _
        (λ qs k. check_and_notify_events-Keeps connections answers qs known k)
        (check_events-Keeps results connections known (length now) 0 now (poll-Polls revents ps h))
