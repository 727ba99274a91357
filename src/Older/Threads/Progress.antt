-- ===== src/Older/Threads/Progress.antt =====
-- The threads of new connections never wait for each other for ever.
use mathlib.Core.Path.{subst}
use simple_server.Prelude.{
  ℕ, zero, suc, ◌+◌, ◌*◌, ◌<◌, ◌≡◌, refl, sym, ap, ◌∙◌, ◌⊎◌, inl, inr, Bool, true, false, List, [],
  ◌∷◌, ◌++◌, append_assoc, length, arith, if◌then◌else◌,
}
use simple_server.Older.Connections.{PollFd}
use simple_server.Older.Threads.{
  Phase, waiting, holding, polled, stored, signalled, returned, Shared, Move, lock, push_poll_fd,
  push_connection, write, unlock, State, Step, step, Steps, done, more, all_waiting, start,
}
use simple_server.Older.Threads.Exclusive.{inside, insiders}
use simple_server.Older.Threads.Invariant.{start-Consistent, Steps-Consistent}

-- How many statements a thread still has to run.
abbrev pub left : Phase → ℕ
left (waiting fd) = 5
left (holding fd) = 4
left (polled fd) = 3
left (stored fd) = 2
left (signalled fd) = 1
left (returned fd) = 0

abbrev pub total_left : List Phase → ℕ
total_left [] = 0
total_left (p ∷ ps) = left p + total_left ps

total_left-append : (ps qs : List Phase) → total_left (ps ++ qs) ≡ total_left ps + total_left qs
total_left-append [] qs = omega arith
total_left-append (p ∷ ps) qs = omega (arith, total_left-append ps qs)

Move-left : {s s' : Shared} {p p' : Phase} → Move s p s' p' → left p ≡ suc (left p')
Move-left lock = refl
Move-left push_poll_fd = refl
Move-left push_connection = refl
Move-left write = refl
Move-left unlock = refl

-- A step runs one statement.
pub Step-total_left : {s t : State} → Step s t → total_left s.threads ≡ suc (total_left t.threads)
Step-total_left (step {p = p} {p' = p'} before after move) = omega (
  arith,
  total_left-append before (p ∷ after),
  total_left-append before (p' ∷ after),
  Move-left move,
)

-- Some thread can move, given the shared variables and the threads.
abbrev Movable : Shared → List Phase → Type 0
Movable s ps = (t : State) × Step (record { shared = s; threads = ps }) t

-- A thread inside can always move.
inside_moves :
    (s : Shared) (p : Phase) → inside p ≡ 1 → (s' : Shared) × (p' : Phase) × Move s p s' p'
inside_moves s (holding fd) h = (_, _, push_poll_fd)
inside_moves s (polled fd) h = (_, _, push_connection)
inside_moves s (stored fd) h = (_, _, write)
inside_moves s (signalled fd) h = (_, _, unlock)
inside_moves s (waiting fd) h = absurd (omega (arith, h))
inside_moves s (returned fd) h = absurd (omega (arith, h))

-- The thread is waiting, inside, or has returned.
phase-cases :
    (p : Phase) → ((fd : ℕ) × (p ≡ waiting fd)) ⊎ ((inside p ≡ 1) ⊎ ((left p ≡ 0) × (inside p ≡ 0)))
phase-cases (waiting fd) = inl (fd, refl)
phase-cases (holding fd) = inr (inl refl)
phase-cases (polled fd) = inr (inl refl)
phase-cases (stored fd) = inr (inl refl)
phase-cases (signalled fd) = inr (inl refl)
phase-cases (returned fd) = inr (inr (refl, refl))

abbrev moved :
    (s : Shared) (p : Phase) (before after : List Phase)
    → (s' : Shared) × (p' : Phase) × Move s p s' p'
    → Movable s (before ++ p ∷ after)
moved s p before after (s', p', move) = (_, step before after move)

skip :
    (s : Shared) (p : Phase) (before after : List Phase)
    → Movable s ((before ++ p ∷ []) ++ after)
    → Movable s (before ++ p ∷ after)
skip s p before after m = subst (Movable s) (append_assoc before (p ∷ []) after) m

-- While the mutex is held, a thread that is inside can move.
held_moves :
    (s : Shared) (before after : List Phase) → insiders after ≡ 1 → Movable s (before ++ after)
held_moves s before [] h = absurd (omega (arith, h))
held_moves s before (p ∷ after) h = elim (phase-cases p) [
  | inl (fd, e) ↦
      skip s p before after (held_moves s (before ++ p ∷ []) after (omega (arith, h, ap inside e)))
  | inr (inl i) ↦ moved s p before after (inside_moves s p i)
  | inr (inr (l, i)) ↦
      skip s p before after (held_moves s (before ++ p ∷ []) after (omega (arith, h, i)))
]

abbrev unlocked : ℕ → List PollFd → List ℕ → Shared
unlocked n ps ws = record {
  locked = false;
  poll_fds = ps;
  web_socket_connections = ws;
  signals = n;
}

-- While nobody is inside, a thread that has not returned waits for the mutex, which is free.
free_moves :
    (n : ℕ) (ps : List PollFd) (ws : List ℕ) (before after : List Phase)
    → insiders after ≡ 0
    → 0 < total_left after
    → Movable (unlocked n ps ws) (before ++ after)
free_moves n ps ws before [] h l = absurd (omega (arith, l))
free_moves n ps ws before (p ∷ after) h l = elim (phase-cases p) [
  | inl (fd, e) ↦
      subst (λ p. Movable (unlocked n ps ws) (before ++ p ∷ after)) (sym e)
        (moved (unlocked n ps ws) (waiting fd) before after (_, _, lock))
  | inr (inl i) ↦ absurd (omega (arith, h, i))
  | inr (inr (z, i)) ↦
      skip (unlocked n ps ws) p before after
        (free_moves n ps ws (before ++ p ∷ []) after (omega (arith, h)) (omega (arith, l, z)))
]

consistent_moves :
    (l : Bool) (n : ℕ) (ps : List PollFd) (ws : List ℕ) (threads : List Phase)
    → insiders threads ≡ (if l then 1 else 0)
    → 0 < total_left threads
    → Movable
        (record { locked = l; poll_fds = ps; web_socket_connections = ws; signals = n })
        threads
consistent_moves true n ps ws threads h l = held_moves _ [] threads h
consistent_moves false n ps ws threads h l = free_moves n ps ws [] threads h l

-- How many statements were run.
abbrev pub run_length : {s t : State} → Steps s t → ℕ
run_length done = 0
run_length (more before last) = suc (run_length before)

Steps-total_left :
    {s t : State} (run : Steps s t) → total_left s.threads ≡ run_length run + total_left t.threads
Steps-total_left done = omega arith
Steps-total_left (more before last) = omega (arith, Steps-total_left before, Step-total_left last)

total_left-all_waiting : (ds : List ℕ) → total_left (all_waiting ds) ≡ 5 * length ds
total_left-all_waiting [] = omega arith
total_left-all_waiting (d ∷ ds) = omega (arith, total_left-all_waiting ds)

-- Without the polling thread, and whatever the order in which the threads that add their connections
-- move: the statements run so far and those left are five for each thread, and as long as some are
-- left, some thread can run its next one. So every order ends, after five statements for each
-- thread, with all calls returned.
pub add_socket-progress :
    (event_fd : ℕ) (ds : List ℕ) (s : State) (run : Steps (start event_fd ds) s)
    → (run_length run + total_left s.threads ≡ 5 * length ds)
      × ((total_left s.threads ≡ 0) ⊎ ((t : State) × Step s t))
add_socket-progress event_fd ds s run = (
  sym (Steps-total_left run) ∙ total_left-all_waiting ds,
  elim (zero_or_more (total_left s.threads)) [
    | inl e ↦ inl e
    | inr l ↦
        let c = Steps-Consistent event_fd (start-Consistent event_fd ds) run in
        inr (
          consistent_moves s.shared.locked s.shared.signals s.shared.poll_fds
            s.shared.web_socket_connections s.threads c.exclusive l)
  ],
)
  where
    zero_or_more : (n : ℕ) → (n ≡ 0) ⊎ (0 < n)
    zero_or_more zero = inl refl
    zero_or_more (suc n) = inr (omega arith)
