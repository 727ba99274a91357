-- ===== src/Older/Threads/Invariant.antt =====
-- What holds in every state that the threads reach.
use simple_server.Prelude.{
  ℕ, ◌+◌, ◌≤◌, ◌≡◌, refl, sym, ap, ◌∙◌, Bool, true, false, List, [], ◌∷◌, ◌++◌, append_assoc,
  append-nil, arith, if◌then◌else◌,
}
use simple_server.Older.Connections.{PollFd}
use simple_server.Older.Threads.Exclusive.{
  inside, insiders, insiders-append, Step-exclusive, none_inside,
}
use simple_server.Older.Threads.{
  new_poll_fd, Phase, waiting, holding, polled, stored, signalled, returned, lock, push_poll_fd,
  push_connection, write, unlock, State, Step, step, Steps, done, more, all_waiting, start,
}

-- 1 for a thread that has signalled.
abbrev pub has_signalled : Phase → ℕ
has_signalled (signalled fd) = 1
has_signalled (returned fd) = 1
has_signalled _ = 0

abbrev pub signalled_count : List Phase → ℕ
signalled_count [] = 0
signalled_count (p ∷ ps) = has_signalled p + signalled_count ps

-- The descriptor that stands in `poll_fds` only.
abbrev pub half : Phase → List ℕ
half (polled fd) = fd ∷ []
half _ = []

abbrev pub halves : List Phase → List ℕ
halves [] = []
halves (p ∷ ps) = half p ++ halves ps

abbrev pub fds : List PollFd → List ℕ
fds [] = []
fds (p ∷ ps) = p.fd ∷ fds ps

pub fds-append : (ps qs : List PollFd) → fds (ps ++ qs) ≡ fds ps ++ fds qs
fds-append [] qs = refl
fds-append (p ∷ ps) qs = ap (λ r. p.fd ∷ r) (fds-append ps qs)

signalled_count-append :
    (ps qs : List Phase) → signalled_count (ps ++ qs) ≡ signalled_count ps + signalled_count qs
signalled_count-append [] qs = omega arith
signalled_count-append (p ∷ ps) qs = omega (arith, signalled_count-append ps qs)

pub halves-append : (ps qs : List Phase) → halves (ps ++ qs) ≡ halves ps ++ halves qs
halves-append [] qs = refl
halves-append (p ∷ ps) qs =
    ap (λ r. half p ++ r) (halves-append ps qs)
    ∙ sym (append_assoc (half p) (halves ps) (halves qs))

pub halves-outside : (ps : List Phase) → insiders ps ≡ 0 → halves ps ≡ []
halves-outside [] h = refl
halves-outside (waiting fd ∷ ps) h = halves-outside ps (omega arith)
halves-outside (returned fd ∷ ps) h = halves-outside ps (omega arith)
halves-outside (holding fd ∷ ps) h = absurd (omega arith)
halves-outside (polled fd ∷ ps) h = absurd (omega arith)
halves-outside (stored fd ∷ ps) h = absurd (omega arith)
halves-outside (signalled fd ∷ ps) h = absurd (omega arith)

-- The mutex is held by as many threads as are inside, the vectors differ by what the thread inside
-- has not stored yet, and every signal is that of a thread.
pub record Consistent (event_fd : ℕ) (s : State) : Type 0 where
  pub exclusive : insiders s.threads ≡ (if s.shared.locked then 1 else 0)
  pub listed :
      fds s.shared.poll_fds ≡ event_fd ∷ s.shared.web_socket_connections ++ halves s.threads
  pub counted : s.shared.signals ≡ signalled_count s.threads

halves-same :
    (before after : List Phase) (p q : Phase)
    → half p ≡ half q
    → halves (before ++ p ∷ after) ≡ halves (before ++ q ∷ after)
halves-same before after p q h =
    halves-append before (p ∷ after)
    ∙ ap (λ x. halves before ++ (x ++ halves after)) h
    ∙ sym (halves-append before (q ∷ after))

-- A thread that is the only one inside has the only half entry.
halves-alone :
    (before after : List Phase) (p : Phase)
    → inside p ≡ 1
    → insiders (before ++ p ∷ after) ≤ 1
    → halves (before ++ p ∷ after) ≡ half p
halves-alone before after p h l =
    let sum = insiders-append before (p ∷ after) in
    halves-append before (p ∷ after)
    ∙ ap (λ x. x ++ (half p ++ halves after)) (halves-outside before (omega (arith, sum, h, l)))
    ∙ ap (λ x. half p ++ x) (halves-outside after (omega (arith, sum, h, l)))
    ∙ append-nil (half p)

at_most_one : (n : ℕ) (l : Bool) → n ≡ (if l then 1 else 0) → n ≤ 1
at_most_one n true h = omega (arith, h)
at_most_one n false h = omega (arith, h)

module _ (event_fd : ℕ) where
  pub start-Consistent : (ds : List ℕ) → Consistent event_fd (start event_fd ds)
  start-Consistent ds = record {
    exclusive = none_inside ds;
    listed = ap (λ x. event_fd ∷ x) (sym (no_halves ds));
    counted = sym (none_signalled ds);
  }
    where
      no_halves : (ds : List ℕ) → halves (all_waiting ds) ≡ []
      no_halves [] = refl
      no_halves (d ∷ ds) = no_halves ds

      none_signalled : (ds : List ℕ) → signalled_count (all_waiting ds) ≡ 0
      none_signalled [] = refl
      none_signalled (d ∷ ds) = omega (arith, none_signalled ds)

  Step-listed :
      {s t : State}
      → Consistent event_fd s
      → Step s t
      → fds t.shared.poll_fds ≡ event_fd ∷ t.shared.web_socket_connections ++ halves t.threads
  Step-listed c (step before after (lock {fd = fd} {ws = ws})) =
      c.listed
      ∙ ap (λ x. event_fd ∷ ws ++ x) (halves-same before after (waiting fd) (holding fd) refl)
  Step-listed c (step before after (push_poll_fd {fd = fd} {l = l} {ps = ps} {ws = ws})) =
      let one = at_most_one _ l c.exclusive in
      let sums = insiders-append before (holding fd ∷ after) in
      let sums' = insiders-append before (polled fd ∷ after) in
      fds-append ps (new_poll_fd fd ∷ [])
      ∙ ap (λ x. x ++ fd ∷ []) c.listed
      ∙ ap (λ x. event_fd ∷ (ws ++ x) ++ fd ∷ []) (halves-alone before after (holding fd) refl one)
      ∙ ap (λ x. event_fd ∷ x ++ fd ∷ []) (append-nil ws)
      ∙ ap (λ x. event_fd ∷ ws ++ x)
          (sym (halves-alone before after (polled fd) refl (omega (arith, sums, sums', one))))
  Step-listed c (step before after (push_connection {fd = fd} {l = l} {ps = ps} {ws = ws})) =
      let one = at_most_one _ l c.exclusive in
      let sums = insiders-append before (polled fd ∷ after) in
      let sums' = insiders-append before (stored fd ∷ after) in
      c.listed
      ∙ ap (λ x. event_fd ∷ ws ++ x) (halves-alone before after (polled fd) refl one)
      ∙ ap (λ x. event_fd ∷ x) (sym (append-nil (ws ++ fd ∷ [])))
      ∙ ap (λ x. event_fd ∷ (ws ++ fd ∷ []) ++ x)
          (sym (halves-alone before after (stored fd) refl (omega (arith, sums, sums', one))))
  Step-listed c (step before after (write {fd = fd} {ws = ws})) =
      c.listed
      ∙ ap (λ x. event_fd ∷ ws ++ x) (halves-same before after (stored fd) (signalled fd) refl)
  Step-listed c (step before after (unlock {fd = fd} {l = l} {ws = ws})) =
      c.listed
      ∙ ap (λ x. event_fd ∷ ws ++ x) (halves-same before after (signalled fd) (returned fd) refl)

  Step-counted :
      {s t : State}
      → Consistent event_fd s
      → Step s t
      → t.shared.signals ≡ signalled_count t.threads
  Step-counted c (step before after (lock {fd = fd} {ws = ws})) = omega (
    arith,
    signalled_count-append before (waiting fd ∷ after),
    signalled_count-append before (holding fd ∷ after),
    c.counted,
  )
  Step-counted c (step before after (push_poll_fd {fd = fd} {l = l} {ps = ps} {ws = ws})) =
      c.counted
      ∙ omega (
        arith,
        signalled_count-append before (holding fd ∷ after),
        signalled_count-append before (polled fd ∷ after),
      )
  Step-counted c (step before after (push_connection {fd = fd} {l = l} {ps = ps} {ws = ws})) =
      c.counted
      ∙ omega (
        arith,
        signalled_count-append before (polled fd ∷ after),
        signalled_count-append before (stored fd ∷ after),
      )
  Step-counted c (step before after (write {fd = fd} {ws = ws})) = omega (
    arith,
    signalled_count-append before (stored fd ∷ after),
    signalled_count-append before (signalled fd ∷ after),
    c.counted,
  )
  Step-counted c (step before after (unlock {fd = fd} {l = l} {ws = ws})) = omega (
    arith,
    signalled_count-append before (signalled fd ∷ after),
    signalled_count-append before (returned fd ∷ after),
    c.counted,
  )

  Step-Consistent : {s t : State} → Consistent event_fd s → Step s t → Consistent event_fd t
  Step-Consistent c move = record {
    exclusive = Step-exclusive c.exclusive move;
    listed = Step-listed c move;
    counted = Step-counted c move;
  }

  pub Steps-Consistent : {s t : State} → Consistent event_fd s → Steps s t → Consistent event_fd t
  Steps-Consistent c done = c
  Steps-Consistent c (more before last) = Step-Consistent (Steps-Consistent c before) last

  -- As long as the polling thread, which the constructor starts and which erases entries, does not
  -- move, and whatever the order in which the threads that add their connections do: while none of
  -- them holds the mutex, `poll_fds` lists the descriptor of the events, and then those of the
  -- connections, in their order.
  pub add_socket-consistent :
      (ds : List ℕ) (s : State)
      → Steps (start event_fd ds) s
      → s.shared.locked ≡ false
      → fds s.shared.poll_fds ≡ event_fd ∷ s.shared.web_socket_connections
  add_socket-consistent ds s reached free =
      let c = Steps-Consistent (start-Consistent ds) reached in
      c.listed
      ∙ ap (λ x. event_fd ∷ s.shared.web_socket_connections ++ x)
          (halves-outside s.threads (c.exclusive ∙ ap (λ l. if l then 1 else 0) free))
      ∙ ap (λ x. event_fd ∷ x) (append-nil s.shared.web_socket_connections)
