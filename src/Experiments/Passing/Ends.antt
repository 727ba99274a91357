-- ===== src/Experiments/Passing/Ends.antt =====
-- How the program that takes descriptors ends, and what it closes.
use simple_server.Prelude.{
  ℕ, ◌^◌, ◌≡◌, ◌⊎◌, refl, ap, ◌∙◌, Option, none, some, List, [], ◌∷◌, ◌++◌, arith, inl, inr, map,
  ltb, if◌then◌else◌, count-append, SameItems, Bool-cases,
}
use simple_server.Socket.{Received}
use simple_server.Experiments.Passing.{
  go_on, Recvmsg, failed, bare, brings, recv_fd, take_over, Backend, Round, close_conn,
  take_clients,
}

-- Some round brings the end of a stream.
pub data HasBare : List Round → Type 0 where
  here :
      (conn : ℕ) (received : Received) (rest : List Round)
      → HasBare (record { conn = conn; message = bare; received = received } ∷ rest)
  there : (round : Round) (rest : List Round) → HasBare rest → HasBare (round ∷ rest)

-- The descriptors that the rounds bring.
unfoldable pub brought : List Round → List ℕ
brought [] = []
brought (round ∷ rest) = first round.message (brought rest)
  where
    first : Recvmsg → List ℕ → List ℕ
    first failed more = more
    first bare more = more
    first (brings fd) more = if ltb fd (2 ^ 31) then fd ∷ more else more

go_on-none : (fd : Option ℕ) (conn : ℕ) (received : Received) → go_on fd conn received none ≡ none
unfolding go_on
go_on-none none conn received = refl
go_on-none (some fd) conn received = refl

-- The program ends by a null pointer if a round brings the end of a stream.
pub take_clients-bare : (rounds : List Round) → HasBare rounds → take_clients rounds ≡ none
unfolding take_clients recv_fd
take_clients-bare [] h = elim h [ ]
take_clients-bare (_ ∷ _) (here conn received rest) = refl
take_clients-bare (_ ∷ _) (there round rest h) =
    ap (go_on (recv_fd round.message) round.conn round.received) (take_clients-bare rest h)
    ∙ go_on-none (recv_fd round.message) round.conn round.received

abbrev conns : List Round → List ℕ
conns rounds = map (λ r. r.conn) rounds

-- What a program that has not ended in that way closed: each descriptor that it got, and each
-- connection, once.
abbrev pub Closes : List Round → Type 0
Closes rounds =
    (b : Backend) × ((take_clients rounds ≡ some b)
      × SameItems b.closed (brought rounds ++ conns rounds))

-- The connection is closed behind the descriptor, and not in front of those of the rounds behind.
move_conn :
    (conn : ℕ) (closed fds others : List ℕ)
    → SameItems closed (fds ++ others)
    → SameItems (conn ∷ closed) (fds ++ conn ∷ others)
move_conn conn closed fds others same x =
    ground (arith, same x, count-append x fds others, count-append x fds (conn ∷ others))

same_behind : (fd : ℕ) (xs ys : List ℕ) → SameItems xs ys → SameItems (fd ∷ xs) (fd ∷ ys)
same_behind fd xs ys same x = ground (arith, same x)

Closes-cons :
    (conn : ℕ) (message : Recvmsg) (received : Received) (rest : List Round)
    → Closes rest
    → let rounds = record { conn = conn; message = message; received = received } ∷ rest in
      HasBare rounds ⊎ Closes rounds
unfolding take_clients brought recv_fd take_over go_on close_conn
Closes-cons conn failed received rest (b, (e, same)) =
    inr (close_conn conn b, (rw e, move_conn conn b.closed (brought rest) (conns rest) same))
Closes-cons conn bare received rest closes = inl (here conn received rest)
Closes-cons conn (brings fd) received rest (b, (e, same)) =
    let moved = move_conn conn b.closed (brought rest) (conns rest) same in
    elim (Bool-cases (ltb fd (2 ^ 31))) [
      | inl t ↦ inr (
        take_over fd received (close_conn conn b),
        (rw e, rw t (same_behind fd (conn ∷ b.closed) (brought rest ++ conn ∷ conns rest) moved)),
      )
      | inr f ↦ inr (take_over fd received (close_conn conn b), (rw e, rw f moved))
    ]

-- Whatever the system calls return, the program ends by a null pointer, or it closes each descriptor
-- that it got, and each connection, once.
pub take_clients-Closes : (rounds : List Round) → HasBare rounds ⊎ Closes rounds
unfolding take_clients brought
take_clients-Closes [] = inr (record { sent = []; closed = [] }, (refl, λ x. refl))
take_clients-Closes (round ∷ rest) = elim (take_clients-Closes rest) [
  | inl h ↦ inl (there round rest h)
  | inr closes ↦ Closes-cons round.conn round.message round.received rest closes
]
