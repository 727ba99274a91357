-- ===== src/Older/Threads/Exclusive.antt =====
-- The mutex admits one thread.
use simple_server.Prelude.{
  ℕ, ◌+◌, ◌≡◌, refl, ap, Bool, true, false, List, [], ◌∷◌, ◌++◌, arith, if◌then◌else◌,
}
use simple_server.Older.Threads.{
  Phase, waiting, holding, polled, stored, signalled, returned, lock, push_poll_fd, push_connection,
  write, unlock, State, Step, step, all_waiting,
}

-- 1 for a thread that is between its `lock_guard` and the end of the block.
abbrev pub inside : Phase → ℕ
inside (waiting fd) = 0
inside (returned fd) = 0
inside _ = 1

abbrev pub insiders : List Phase → ℕ
insiders [] = 0
insiders (p ∷ ps) = inside p + insiders ps

pub insiders-append : (ps qs : List Phase) → insiders (ps ++ qs) ≡ insiders ps + insiders qs
insiders-append [] qs = omega arith
insiders-append (p ∷ ps) qs = omega (arith, insiders-append ps qs)

exclusive_after :
    (before after : List Phase) (p q : Phase) (l m : Bool)
    → inside q + (if l then 1 else 0) ≡ inside p + (if m then 1 else 0)
    → insiders (before ++ p ∷ after) ≡ (if l then 1 else 0)
    → insiders (before ++ q ∷ after) ≡ (if m then 1 else 0)
exclusive_after before after p q l m h e =
    omega (arith, h, e, insiders-append before (p ∷ after), insiders-append before (q ∷ after))

-- Only a thread that is inside unlocks, so that the lock was taken.
unlocking :
    (before after : List Phase) (fd : ℕ) (l : Bool)
    → insiders (before ++ signalled fd ∷ after) ≡ (if l then 1 else 0)
    → l ≡ true
unlocking before after fd true e = refl
unlocking before after fd false e =
    absurd (omega (arith, e, insiders-append before (signalled fd ∷ after)))

-- As many threads are inside as hold the mutex, whatever happens to the vectors.
pub Step-exclusive :
    {s t : State}
    → insiders s.threads ≡ (if s.shared.locked then 1 else 0)
    → Step s t
    → insiders t.threads ≡ (if t.shared.locked then 1 else 0)
Step-exclusive e (step before after (lock {fd = fd})) =
    exclusive_after before after (waiting fd) (holding fd) false true refl e
Step-exclusive e (step before after (push_poll_fd {fd = fd} {l = l})) =
    exclusive_after before after (holding fd) (polled fd) l l refl e
Step-exclusive e (step before after (push_connection {fd = fd} {l = l})) =
    exclusive_after before after (polled fd) (stored fd) l l refl e
Step-exclusive e (step before after (write {fd = fd} {l = l})) =
    exclusive_after before after (stored fd) (signalled fd) l l refl e
Step-exclusive e (step before after (unlock {fd = fd} {l = l})) =
    exclusive_after before after (signalled fd) (returned fd) l false
      (ap (λ m. 0 + (if m then 1 else 0)) (unlocking before after fd l e)) e

pub none_inside : (ds : List ℕ) → insiders (all_waiting ds) ≡ 0
none_inside [] = refl
none_inside (d ∷ ds) = omega (arith, none_inside ds)
