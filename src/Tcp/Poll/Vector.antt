-- ===== src/Tcp/Poll/Vector.antt =====
-- The entries that stand behind an index, and what a step of the loop does to them.
use simple_server.Prelude.{
  ℕ, zero, suc, ◌+◌, ◌≤◌, ◌≡◌, some, List, [], ◌∷◌, ◌++◌, length, drop, if◌then◌else◌, arith, ◌==◌,
  Bool-cases, inl, inr,
}
use simple_server.Tcp.Poll.{PollFd, watched, erase, active, entry}

-- What bounds the steps of the loop that are left at an index.
abbrev pub left : ℕ → List PollFd → ℕ
left i ps = length (drop i ps) + active (drop i ps)

pub left-entry :
    (i : ℕ) (ps : List PollFd) (p : PollFd)
    → entry i ps ≡ some p
    → left i ps ≡ (if p.pollin then 2 else 1) + left (suc i) ps
left-entry i [] p h = absurd (ground arith)
left-entry zero (q ∷ ps) p h = ground arith
left-entry (suc i) (q ∷ ps) p h = left-entry i ps p h

left-nil : (i : ℕ) → left i [] ≡ 0
left-nil zero = omega arith
left-nil (suc i) = omega arith

left-suc : (i : ℕ) (ps : List PollFd) → left (suc i) ps ≤ left i ps
left-suc i [] = omega (arith, left-nil i)
left-suc zero (p ∷ ps) = ground arith
left-suc (suc i) (p ∷ ps) = left-suc i ps

pub left-erase : (fd i : ℕ) (ps : List PollFd) → left i (erase fd ps) ≤ left i ps
unfolding erase
left-erase fd zero [] = omega arith
left-erase fd (suc i) [] = omega arith
left-erase fd zero (p ∷ ps) = ground (arith, left-erase fd zero ps)
left-erase fd (suc i) (p ∷ ps) = elim (Bool-cases (p.fd == fd)) [
  | inl e ↦ rw e (left-suc (suc i) (p ∷ ps))
  | inr e ↦ rw e (left-erase fd i ps)
]

pub left-watched : (i fd : ℕ) (ps : List PollFd) → left i (ps ++ watched fd ∷ []) ≤ suc (left i ps)
left-watched zero fd [] = omega arith
left-watched (suc i) fd [] = omega (arith, left-nil i, left-nil (suc i))
left-watched zero fd (p ∷ ps) = ground (arith, left-watched zero fd ps)
left-watched (suc i) fd (p ∷ ps) = left-watched i fd ps
