-- ===== src/Websocket/Manager/Set.antt =====
-- The set of descriptors behind the operations of `std::set`.
use simple_server.Prelude.{ℕ, ◌<◌, ◌≡◌, [], ◌∷◌, All, arith, ◌==◌, ◌||◌}
use simple_server.Websocket.Manager.{Descriptors, has, insert}

-- Strictly ascending, as the container keeps its members.
abbrev pub IsAscending : Descriptors → Type 0
IsAscending [] = Unit
IsAscending (c ∷ cs) = All (λ d. c < d) cs × IsAscending cs

pub has-insert : (fd c : ℕ) (cs : Descriptors) → has c (insert fd cs) ≡ (fd == c) || has c cs
unfolding has insert
has-insert fd c [] = ground arith
has-insert fd c (d ∷ ds) = ground (arith, has-insert fd c ds)

All-weaken : (c d : ℕ) (cs : Descriptors) → c < d → All (λ x. d < x) cs → All (λ x. c < x) cs
All-weaken c d [] l h = tt
All-weaken c d (e ∷ cs) l (h0, h) = (omega arith, All-weaken c d cs l h)

All-insert :
    (c fd : ℕ) (cs : Descriptors) → c < fd → All (λ x. c < x) cs → All (λ x. c < x) (insert fd cs)
unfolding insert
All-insert c fd [] l h = (l, tt)
All-insert c fd (d ∷ cs) l (h0, h) = ground (arith, All-insert c fd cs l h)

pub insert-IsAscending : (fd : ℕ) (cs : Descriptors) → IsAscending cs → IsAscending (insert fd cs)
unfolding insert
insert-IsAscending fd [] h = (tt, tt)
insert-IsAscending fd (d ∷ cs) (h0, h) =
    ground (arith, All-insert d fd cs, insert-IsAscending fd cs h, All-weaken fd d cs)
