-- ===== src/Older/Polling/Balance.antt =====
-- Where the descriptors are while the polling thread of the older library runs with the others.
use simple_server.Prelude.{
  ℕ, zero, suc, ◌+◌, ◌≡◌, refl, sym, ap, ◌∙◌, Bool, true, false, Option, some, List, [], ◌∷◌, ◌++◌,
  arith, none, ◌==◌, ltb, Bool-cases, inl, inr, count, count-append, if◌then◌else◌,
}
use simple_server.Http.Server.Outcome.{WhenSome}
use simple_server.Older.Connections.{
  PollFd, Action, read, close, entry, erase_at, hung_up, read_one, end_index, read_connections,
  visit, Revents, poll,
}
use simple_server.Older.Threads.{
  new_poll_fd, Phase, waiting, holding, polled, stored, signalled, returned, lock, push_poll_fd,
  push_connection, write, unlock, State, Step, step, all_waiting,
}
use simple_server.Older.Threads.Exclusive.{insiders, Step-exclusive, none_inside}
use simple_server.Older.Threads.Invariant.{
  fds, fds-append, half, halves, halves-append, halves-outside,
}
use simple_server.Older.Polling.{
  World, entries, Look, poll_fails, polls, keeps, removes, ends_round, Turn, adds, looks, Turns,
  none_yet, and_then, start_world,
}

-- The descriptors that were closed.
abbrev pub closes : List Action → List ℕ
closes [] = []
closes (read fd i ∷ actions) = closes actions
closes (close fd ∷ actions) = fd ∷ closes actions

closes-append : (xs ys : List Action) → closes (xs ++ ys) ≡ closes xs ++ closes ys
closes-append [] ys = refl
closes-append (read fd i ∷ xs) ys = closes-append xs ys
closes-append (close fd ∷ xs) ys = ap (λ r. fd ∷ r) (closes-append xs ys)

closes-read_one :
    (fd end : ℕ) (later : Option (List Action))
    → WhenSome (λ done. closes done ≡ []) later
    → WhenSome (λ done. closes done ≡ []) (read_one fd end later)
unfolding read_one
closes-read_one fd end none h = tt
closes-read_one fd end (some later) h = elim (Bool-cases (ltb end 1024)) [
  | inl e ↦ rw e h
  | inr e ↦ rw e tt
]

closes-read_connections :
    (results : ℕ → Option ℕ) (fd j : ℕ) (cs : List ℕ)
    → WhenSome (λ done. closes done ≡ []) (read_connections results fd j cs)
unfolding read_connections
closes-read_connections results fd j [] = refl
closes-read_connections results fd j (c ∷ cs) =
    let later = closes-read_connections results fd (suc j) cs in
    elim (Bool-cases (c == fd)) [
      | inl e ↦ rw e (
          closes-read_one fd (end_index (results j)) (read_connections results fd (suc j) cs) later)
      | inr e ↦ rw e later
    ]

-- Only an entry that hung up is closed.
closes-visit :
    (results : ℕ → Option ℕ) (cs : List ℕ) (p : PollFd)
    → WhenSome (λ done. closes done ≡ (if hung_up p then p.fd ∷ [] else [])) (visit results cs p)
unfolding visit hung_up
closes-visit results cs p = elim (Bool-cases p.pollin) [
  | inl e ↦ rw e (closes-read_connections results p.fd 0 cs)
  | inr e ↦ elim (Bool-cases p.pollerr) [
    | inl f ↦ rw (e, f) refl
    | inr f ↦ elim (Bool-cases p.pollhup) [ inl g ↦ rw (e, f, g) refl | inr g ↦ rw (e, f, g) refl ]
  ]
]

count-visit :
    (x : ℕ) (results : ℕ → Option ℕ) (cs : List ℕ) (p : PollFd) (actions : List Action) (b : Bool)
    → hung_up p ≡ b
    → visit results cs p ≡ some actions
    → count x (closes actions) ≡ (if b then count x (p.fd ∷ []) else 0)
count-visit x results cs p actions b h v =
    ap (count x) (rw v at (closes-visit results cs p))
    ∙ ap (λ b. count x (if b then p.fd ∷ [] else [])) h
    ∙ ground arith

fds-poll : (revents : Revents) (ps : List PollFd) → fds (poll revents ps) ≡ fds ps
fds-poll revents [] = refl
fds-poll revents (p ∷ ps) = ap (λ r. p.fd ∷ r) (fds-poll revents ps)

count-erase_at :
    (x i : ℕ) (ps : List PollFd) (p : PollFd)
    → entry i ps ≡ some p
    → count x (fds ps) ≡ count x (p.fd ∷ fds (erase_at i ps))
unfolding erase_at
count-erase_at x i [] p e = cc
count-erase_at x zero (q ∷ ps) p e = ground (arith, e)
count-erase_at x (suc i) (q ∷ ps) p e = ground (arith, count-erase_at x i ps p e)

-- Listed and closed on one side, event_fd and the connections on the other.
abbrev held : ℕ → World → ℕ
held x w = count x (fds (entries w)) + count x (closes w.actions)

abbrev owed : ℕ → ℕ → State → ℕ
owed x event_fd s =
    count x (event_fd ∷ []) + (count x s.shared.web_socket_connections + count x (halves s.threads))

count-halves :
    (x : ℕ) (before after : List Phase) (p : Phase)
    → count x (halves (before ++ p ∷ after))
      ≡ count x (halves before) + (count x (half p) + count x (halves after))
count-halves x before after p =
    ap (count x) (halves-append before (p ∷ after))
    ∙ omega (
      arith,
      count-append x (halves before) (half p ++ halves after),
      count-append x (half p) (halves after),
    )

-- What a thread that adds a connection puts into `poll_fds` is owed from then on.
Step-owed :
    {s t : State} (x event_fd : ℕ)
    → Step s t
    → count x (fds t.shared.poll_fds) + owed x event_fd s
      ≡ count x (fds s.shared.poll_fds) + owed x event_fd t
Step-owed x event_fd (step before after (lock {fd = fd})) =
    omega
      (arith, count-halves x before after (waiting fd), count-halves x before after (holding fd))
Step-owed x event_fd (step before after (push_poll_fd {fd = fd} {ps = ps})) = omega (
  arith,
  count-halves x before after (holding fd),
  count-halves x before after (polled fd),
  ap (count x) (fds-append ps (new_poll_fd fd ∷ [])),
  count-append x (fds ps) (fd ∷ []),
)
Step-owed x event_fd (step before after (push_connection {fd = fd} {ws = ws})) = omega (
  arith,
  count-halves x before after (polled fd),
  count-halves x before after (stored fd),
  count-append x ws (fd ∷ []),
)
Step-owed x event_fd (step before after (write {fd = fd})) =
    omega
      (arith, count-halves x before after (stored fd), count-halves x before after (signalled fd))
Step-owed x event_fd (step before after (unlock {fd = fd})) =
    omega
      (arith, count-halves x before after (signalled fd), count-halves x before after (returned fd))

held-looked :
    (x : ℕ) (ps qs : List PollFd) (old new : List Action)
    → count x (fds qs) + count x (closes new) ≡ count x (fds ps)
    → count x (fds qs) + count x (closes (old ++ new)) ≡ count x (fds ps) + count x (closes old)
held-looked x ps qs old new h =
    omega (arith, h, ap (count x) (closes-append old new), count-append x (closes old) (closes new))

Look-held : {w u : World} (x : ℕ) → Look w u → held x u ≡ held x w
Look-held {w = w} x (poll_fails e) =
    held-looked x (entries w) (entries w) w.actions [] (omega arith)
Look-held {w = w} x (polls revents e) =
    held-looked x (entries w) (poll revents (entries w)) w.actions []
      (omega (arith, ap (count x) (fds-poll revents (entries w))))
Look-held {w = w} x (keeps i p results actions e at h v) =
    let cs = w.state.shared.web_socket_connections in
    held-looked x (entries w) (entries w) w.actions actions
      (omega (arith, count-visit x results cs p actions false h v))
Look-held {w = w} x (removes i p results actions e at h v) =
    let cs = w.state.shared.web_socket_connections in
    held-looked x (entries w) (erase_at i (entries w)) w.actions actions (
      ground
        (arith, count-visit x results cs p actions true h v, count-erase_at x i (entries w) p at))
Look-held {w = w} x (ends_round i e at) =
    held-looked x (entries w) (entries w) w.actions [] (omega arith)

-- The polling thread changes neither the mutex nor what is owed.
abbrev Exclusive : World → Type 0
Exclusive w = insiders w.state.threads ≡ (if w.state.shared.locked then 1 else 0)

Look-Exclusive : {w u : World} → Look w u → Exclusive w → Exclusive u
Look-Exclusive (poll_fails e) h = h
Look-Exclusive (polls revents e) h = h
Look-Exclusive (keeps i p results actions e at k v) h = h
Look-Exclusive (removes i p results actions e at k v) h = h
Look-Exclusive (ends_round i e at) h = h

Look-owed :
    {w u : World} (x event_fd : ℕ) → Look w u → owed x event_fd u.state ≡ owed x event_fd w.state
Look-owed x event_fd (poll_fails e) = refl
Look-owed x event_fd (polls revents e) = refl
Look-owed x event_fd (keeps i p results actions e at k v) = refl
Look-owed x event_fd (removes i p results actions e at k v) = refl
Look-owed x event_fd (ends_round i e at) = refl

-- The mutex admits one thread that adds, and what is listed or closed is what was put there.
pub record Balanced (event_fd : ℕ) (w : World) : Type 0 where
  pub exclusive : Exclusive w
  pub balance : (x : ℕ) → held x w ≡ owed x event_fd w.state

module _ (event_fd : ℕ) where
  start-Balanced : (ds : List ℕ) → Balanced event_fd (start_world event_fd ds)
  start-Balanced ds =
      let none_half = halves-outside (all_waiting ds) (none_inside ds) in
      record { exclusive = none_inside ds; balance = λ x. ground (arith, ap (count x) none_half) }

  Look-Balanced : {w u : World} → Balanced event_fd w → Look w u → Balanced event_fd u
  Look-Balanced b look = record {
    exclusive = Look-Exclusive look b.exclusive;
    balance = λ x. Look-held x look ∙ b.balance x ∙ sym (Look-owed x event_fd look);
  }

  Turn-Balanced : {w u : World} → Balanced event_fd w → Turn w u → Balanced event_fd u
  Turn-Balanced b (looks look) = Look-Balanced b look
  Turn-Balanced {w = w} b (adds {t = t} move) = record {
    exclusive = Step-exclusive b.exclusive move;
    balance = λ x. omega (arith, b.balance x, Step-owed x event_fd move);
  }

  Turns-Balanced : {w u : World} → Balanced event_fd w → Turns w u → Balanced event_fd u
  Turns-Balanced b none_yet = b
  Turns-Balanced b (and_then before last) = Turn-Balanced (Turns-Balanced b before) last

  -- Whatever the order in which the polling thread and the others move, and whatever poll and read
  -- give, if no step interrupts another and no read brings 1023 or more characters, behind which the
  -- code stores outside its buffer: while no thread holds the mutex, the descriptors in poll_fds and
  -- those that were closed are, as often as they occur, event_fd and those of the connections. None
  -- is lost or closed twice.
  pub polling-balance :
      (ds : List ℕ) (w : World)
      → Turns (start_world event_fd ds) w
      → w.state.shared.locked ≡ false
      → (x : ℕ)
      → count x (fds (entries w)) + count x (closes w.actions)
        ≡ count x (event_fd ∷ w.state.shared.web_socket_connections)
  polling-balance ds w reached free x =
      let b = Turns-Balanced (start-Balanced ds) reached in
      let none_half =
        ap (count x)
          (halves-outside w.state.threads (b.exclusive ∙ ap (λ l. if l then 1 else 0) free)) in
      b.balance x ∙ ground (arith, none_half)
