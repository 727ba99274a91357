-- ===== src/Experiments/Forward.antt =====
-- The forwarding server of experiments/epoll_select.cpp: the loop of a thread that passes bytes on
-- between a client and a backend, and the loop of `main` over the events of its clients. What the
-- system calls return is an argument.
pub mod Streams
pub mod Sockets
use simple_server.Prelude.{
  ℕ, Bool, true, false, Option, none, some, List, [], ◌∷◌, ◌++◌, Bytes, ◌&&◌, ◌==◌, if◌then◌else◌,
}
use simple_server.Socket.{Received}

-- A round of the loop of `forwardData`: `select` failed, or it returned with the sockets that are
-- ready, the client's and the backend's, each with the result of the `read` that follows.
pub data Activity : Type 0 where
  failed : Activity
  ready : Option Received → Option Received → Activity

-- What was given to `send`, with its socket, and the sockets closed, in their order.
pub record Forwarded : Type 0 where
  pub sent : List (ℕ × Bytes)
  pub closed : List ℕ

-- One of the two blocks: what is sent, or `none` where the loop is left.
unfoldable pub pass_on : ℕ → Option Received → Option (List (ℕ × Bytes))
pass_on to none = some []
pass_on to (some none) = none
pass_on to (some (some [])) = none
pass_on to (some (some (b ∷ bs))) = some ((to, b ∷ bs) ∷ [])

-- The two blocks, the sockets that are closed where the loop is left, and the rounds behind.
unfoldable pub forward_round :
    List ℕ → Option (List (ℕ × Bytes)) → Option (List (ℕ × Bytes)) → Forwarded → Forwarded
forward_round both none second more = record { sent = []; closed = both }
forward_round both (some first) none more = record { sent = first; closed = both }
forward_round both (some first) (some second) more = record more {
  sent = first ++ (second ++ more.sent);
}

-- The loop over its rounds; behind the last one it waits.
unfoldable pub forward_data : ℕ → ℕ → List Activity → Forwarded
unfolding pass_on forward_round
forward_data client backend [] = record { sent = []; closed = [] }
forward_data client backend (failed ∷ rest) = forward_data client backend rest
forward_data client backend (ready from_client from_backend ∷ rest) =
    forward_round (client ∷ backend ∷ []) (pass_on backend from_client)
      (pass_on client from_backend) (forward_data client backend rest)

-- The clients that the epoll descriptor watches, the client and the backend of each running thread,
-- and all that was closed.
pub record Router : Type 0 where
  pub clients : List ℕ
  pub threads : List (ℕ × ℕ)
  pub closed : List ℕ

-- What happens: `accept` returns, and `epoll_ctl` adds the new socket or not; a client has input, with the result of the `recv` that peeks at
-- it, the result of `socket` for the backend (2^32 - 1 if it failed), and whether `connect`
-- succeeds; or the loop of a thread is left.
pub data Event : Type 0 where
  incoming : Option ℕ → Bool → Event
  readable : ℕ → Received → ℕ → Bool → Event
  finished : ℕ → ℕ → Event

unfoldable pub unwatch : ℕ → List ℕ → List ℕ
unwatch fd [] = []
unwatch fd (w ∷ ws) = if w == fd then ws else w ∷ unwatch fd ws

unfoldable pub end_thread : ℕ → ℕ → List (ℕ × ℕ) → List (ℕ × ℕ)
end_thread client backend [] = []
end_thread client backend ((c, b) ∷ threads) =
    if c == client && b == backend then threads else (c, b) ∷ end_thread client backend threads

-- A socket that was closed is no longer watched. Where `accept` failed, the calls for its result
-- fail as well. Whether `epoll_ctl` adds the socket is not tested: one that it does not add is left
-- open.
unfoldable pub serve_event : Event → Router → Router
unfolding unwatch end_thread
serve_event (incoming none added) r = r
serve_event (incoming (some fd) true) r = record r { clients = fd ∷ r.clients }
serve_event (incoming (some fd) false) r = r
serve_event (readable fd none backend connected) r = record r {
  clients = unwatch fd r.clients;
  closed = fd ∷ r.closed;
}
serve_event (readable fd (some []) backend connected) r = record r {
  clients = unwatch fd r.clients;
  closed = fd ∷ r.closed;
}
serve_event (readable fd (some (c ∷ cs)) backend true) r = record r {
  clients = unwatch fd r.clients;
  threads = (fd, backend) ∷ r.threads;
}
serve_event (readable fd (some (c ∷ cs)) backend false) r = record r {
  clients = unwatch fd r.clients;
  closed = fd ∷ backend ∷ r.closed;
}
serve_event (finished client backend) r = record r {
  threads = end_thread client backend r.threads;
  closed = client ∷ backend ∷ r.closed;
}
