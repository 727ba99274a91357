-- ===== src/Experiments/Passing.antt =====
-- The two programs experiments/pass_client.cpp and experiments/pass_master_server.cpp: the first
-- accepts clients and passes their descriptors through a UNIX socket, the second takes descriptors
-- from such sockets and answers the clients. What the system calls return is an argument; the results
-- of `socket`, `bind`, `listen` and `connect`, which set the sockets up, are not looked at.
mod Ends
use simple_server.Prelude.{
  ℕ, ◌<◌, ◌-◌, ◌^◌, Bool, true, false, Option, none, some, List, [], ◌∷◌, ◌++◌, Bytes, codes,
  length, map, ltb, if◌then◌else◌, arith,
}
use simple_server.Socket.{Received}

-- What `sendmsg` does: it passes the descriptor, it fails, or the other end is closed and a signal
-- ends the program.
pub data Sendmsg : Type 0 where
  passed : Sendmsg
  refused : Sendmsg
  broken_pipe : Sendmsg

-- The descriptors that were passed and those that were closed, in order, and whether the program
-- still runs.
pub record Master : Type 0 where
  pub passed_on : List ℕ
  pub closed : List ℕ
  pub running : Bool

-- `send_fd` and the `close` behind it, in front of the rounds that follow. A failure is only logged.
unfoldable pub send_fd : ℕ → Sendmsg → Master → Master
send_fd client passed more = record more {
  passed_on = client ∷ more.passed_on;
  closed = client ∷ more.closed;
}
send_fd client refused more = record more { closed = client ∷ more.closed }
send_fd client broken_pipe more = record { passed_on = []; closed = []; running = false }

-- The loop of the first program over its rounds, each with the result of `accept` (2^32 - 1 if it
-- failed) and what `sendmsg` does.
unfoldable pub pass_clients : List (ℕ × Sendmsg) → Master
unfolding send_fd
pass_clients [] = record { passed_on = []; closed = []; running = true }
pass_clients ((client, result) ∷ rest) = send_fd client result (pass_clients rest)

-- What `recvmsg` does: it fails, it returns without a control message (the end of the stream), or it
-- brings a descriptor.
pub data Recvmsg : Type 0 where
  failed : Recvmsg
  bare : Recvmsg
  brings : ℕ → Recvmsg

-- `recv_fd`: `none` where CMSG_FIRSTHDR is a null pointer, whose data is read.
unfoldable pub recv_fd : Recvmsg → Option ℕ
recv_fd failed = some (2 ^ 32 - 1)
recv_fd bare = none
recv_fd (brings fd) = some fd

-- What was given to `send`, with its socket, and the descriptors closed, in order.
pub record Backend : Type 0 where
  pub sent : List (ℕ × Bytes)
  pub closed : List ℕ

-- The block for a descriptor: `client_fd >= 0`.
unfoldable pub answer : ℕ → Received → List (ℕ × Bytes)
answer client_fd none = []
answer client_fd (some []) = []
answer client_fd (some (b ∷ bs)) = (client_fd, codes "Handled by Backend\n") ∷ []

unfoldable pub take_over : ℕ → Received → Backend → Backend
unfolding answer
take_over client_fd received more =
    if ltb client_fd (2 ^ 31)
    then record { sent = answer client_fd received ++ more.sent; closed = client_fd ∷ more.closed }
    else more

-- A round of the second program: the result of `accept`, what `recvmsg` does on it, and the result
-- of `read` on the descriptor.
pub record Round : Type 0 where
  pub conn : ℕ
  pub message : Recvmsg
  pub received : Received

unfoldable pub close_conn : ℕ → Backend → Backend
close_conn conn more = record more { closed = conn ∷ more.closed }

-- The rounds behind are reached only with a descriptor.
unfoldable pub go_on : Option ℕ → ℕ → Received → Option Backend → Option Backend
unfolding take_over close_conn
go_on none conn received more = none
go_on (some client_fd) conn received none = none
go_on (some client_fd) conn received (some more) =
    some (take_over client_fd received (close_conn conn more))

-- The loop of the second program; `none` where `recv_fd` reads a null pointer.
unfoldable pub take_clients : List Round → Option Backend
unfolding recv_fd go_on
take_clients [] = some (record { sent = []; closed = [] })
take_clients (round ∷ rest) =
    go_on (recv_fd round.message) round.conn round.received (take_clients rest)
