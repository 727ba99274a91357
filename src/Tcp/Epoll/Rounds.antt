-- ===== src/Tcp/Epoll/Rounds.antt =====
-- Whom a round over the events answers, and with what.
use simple_server.Prelude.{
  ℕ, suc, ◌+◌, ◌≡◌, refl, sym, ap, ◌∙◌, Bool, true, false, Option, none, some, List, [], ◌∷◌, ◌++◌,
  Bytes, length, ◌==◌, if◌then◌else◌, arith, length-append, lt→ltb, ◌<◌, ◌^◌, Bool-cases, inl, inr,
}
use simple_server.Socket.{Received}
use simple_server.Tcp.Epoll.{
  Call, close, set_non_blocking, enable_keep_alive, epoll_ctl_add, epoll_ctl_del, send, Event,
  response, State, max_int, drop_client, go_on, accept_client, read_client, handle_event,
  handle_events, accept_and_process_message,
}

-- The bytes that the calls send, each with its connection.
abbrev pub responses : List Call → List (ℕ × Bytes)
responses [] = []
responses (send fd bytes ∷ calls) = (fd, bytes) ∷ responses calls
responses (close fd ∷ calls) = responses calls
responses (set_non_blocking fd ∷ calls) = responses calls
responses (enable_keep_alive fd ∷ calls) = responses calls
responses (epoll_ctl_add fd ∷ calls) = responses calls
responses (epoll_ctl_del fd ∷ calls) = responses calls

abbrev has_bytes : Received → Bool
has_bytes none = false
has_bytes (some []) = false
has_bytes (some (b ∷ bs)) = true

-- The connections, but for the listening socket, from which something was received.
abbrev pub served : ℕ → List Event → List ℕ
served server_fd [] = []
served server_fd (e ∷ es) =
    if e.fd == server_fd
    then served server_fd es
    else if has_bytes e.received
    then e.fd ∷ served server_fd es
    else served server_fd es

-- Every connection with the response of the next number.
abbrev pub numbered : ℕ → List ℕ → List (ℕ × Bytes)
numbered count [] = []
numbered count (fd ∷ fds) = (fd, response (suc count)) ∷ numbered (suc count) fds

responses-append : (xs ys : List Call) → responses (xs ++ ys) ≡ responses xs ++ responses ys
responses-append [] ys = refl
responses-append (send fd bytes ∷ xs) ys = ap (λ r. (fd, bytes) ∷ r) (responses-append xs ys)
responses-append (close fd ∷ xs) ys = responses-append xs ys
responses-append (set_non_blocking fd ∷ xs) ys = responses-append xs ys
responses-append (enable_keep_alive fd ∷ xs) ys = responses-append xs ys
responses-append (epoll_ctl_add fd ∷ xs) ys = responses-append xs ys
responses-append (epoll_ctl_del fd ∷ xs) ys = responses-append xs ys

accept_client-responses : (e : Event) → responses (accept_client e) ≡ []
unfolding accept_client
accept_client-responses e = go e.accepted e.added
  where
    go :
        (accepted : Option ℕ) (added : Bool)
        → responses (elim accepted [
          | none ↦ []
          | some client_fd ↦
              set_non_blocking client_fd
              ∷ enable_keep_alive client_fd
              ∷ epoll_ctl_add client_fd
              ∷ (if added then [] else close client_fd ∷ [])
        ])
          ≡ []
    go none added = refl
    go (some fd) true = refl
    go (some fd) false = refl

numbered-append :
    (count : ℕ) (xs ys : List ℕ)
    → numbered count (xs ++ ys) ≡ numbered count xs ++ numbered (count + length xs) ys
numbered-append count [] ys = ap (λ k. numbered k ys) (omega arith)
numbered-append count (x ∷ xs) ys =
    ap (λ r. (x, response (suc count)) ∷ r)
      (numbered-append (suc count) xs ys
        ∙ ap (λ k. numbered (suc count) xs ++ numbered k ys) (shift count (length xs)))
  where
    shift : (m n : ℕ) → suc m + n ≡ m + suc n
    shift m n = omega arith

served-cons :
    (server_fd : ℕ) (e : Event) (es : List Event)
    → served server_fd (e ∷ es) ≡ served server_fd (e ∷ []) ++ served server_fd es
served-cons server_fd e es = ground arith

-- The connections are sent the responses with the next numbers, and the counter grows by their
-- number.
abbrev pub Numbers : ℕ → List ℕ → Option State → Type 0
Numbers count fds o =
    (calls : List Call) × (o ≡ some (count + length fds, calls))
    × (responses calls ≡ numbered count fds)

read_client-Numbers :
    (fd : ℕ) (would_block : Bool) (received : Received) (count : ℕ)
    → let fds = if has_bytes received then fd ∷ [] else [] in
      count + length fds < 2 ^ 31 → Numbers count fds (read_client fd would_block received count)
unfolding read_client
read_client-Numbers fd true none count h = ([], ap (λ n. some (n, [])) (omega arith), refl)
read_client-Numbers fd false none count h =
    (drop_client fd, ap (λ n. some (n, drop_client fd)) (omega arith), refl)
read_client-Numbers fd would_block (some []) count h =
    (drop_client fd, ap (λ n. some (n, drop_client fd)) (omega arith), refl)
read_client-Numbers fd would_block (some (b ∷ bs)) count h =
    let calls = send fd (response (suc count)) ∷ drop_client fd in
    (
      calls,
      rw (lt→ltb count max_int (omega (arith, h))) (ap (λ n. some (n, calls)) (omega arith)),
      refl,
    )

handle_event-Numbers :
    (server_fd : ℕ) (e : Event) (count : ℕ)
    → count + length (served server_fd (e ∷ [])) < 2 ^ 31
    → Numbers count (served server_fd (e ∷ [])) (handle_event server_fd e count)
unfolding handle_event
handle_event-Numbers server_fd e count h = elim (Bool-cases (e.fd == server_fd)) [
  | inl s ↦ rw s (
    accept_client e,
    ap (λ n. some (n, accept_client e)) (omega arith),
    accept_client-responses e,
  )
  | inr s ↦ rw s (read_client-Numbers e.fd e.would_block e.received count (rw s at h))
]

Numbers-then :
    (count : ℕ) (xs ys : List ℕ) (o : Option State) (later : ℕ → Option State)
    → Numbers count xs o
    → Numbers (count + length xs) ys (later (count + length xs))
    → Numbers count (xs ++ ys) (go_on o later)
Numbers-then count xs ys o later (calls, e, r) (more, f, s) = (
  calls ++ more,
  rw (e, f) (ap (λ n. some (n, calls ++ more)) (omega (arith, length-append xs ys))),
  responses-append calls more ∙ rw (r, s) (sym (numbered-append count xs ys)),
)

handle_events-Numbers :
    (server_fd : ℕ) (es : List Event) (count : ℕ)
    → count + length (served server_fd es) < 2 ^ 31
    → Numbers count (served server_fd es) (handle_events server_fd es count)
unfolding handle_events
handle_events-Numbers server_fd [] count h = ([], ap (λ n. some (n, [])) (omega arith), refl)
handle_events-Numbers server_fd (e ∷ es) count h =
    let first = served server_fd (e ∷ []) in
    let rest = served server_fd es in
    let small = rw (served-cons server_fd e es) at h in
    rw (served-cons server_fd e es) (
      Numbers-then count first rest (handle_event server_fd e count)
        (λ next. handle_events server_fd es next)
        (handle_event-Numbers server_fd e count (omega (arith, small, length-append first rest)))
        (handle_events-Numbers server_fd es (count + length first)
          (omega (arith, small, length-append first rest))))

-- The events of all rounds up to the first in which `epoll_wait` fails.
abbrev pub events_of : List (Option (List Event)) → List Event
events_of [] = []
events_of (none ∷ rounds) = []
events_of (some events ∷ rounds) = events ++ events_of rounds

served-append :
    (server_fd : ℕ) (xs ys : List Event)
    → served server_fd (xs ++ ys) ≡ served server_fd xs ++ served server_fd ys
served-append server_fd [] ys = refl
served-append server_fd (x ∷ xs) ys = ground (arith, served-append server_fd xs ys)

-- However the events are spread over the rounds, up to the first in which `epoll_wait` fails, if the
-- counter stays below 2^31: the loop has a result, the connections from which something was received
-- are sent the responses with the next numbers, in the order of their events, nobody else is sent
-- anything, and the counter grows by their number.
pub accept_and_process_message-numbered :
    (server_fd : ℕ) (rounds : List (Option (List Event))) (count : ℕ)
    → count + length (served server_fd (events_of rounds)) < 2 ^ 31
    → Numbers count
        (served server_fd (events_of rounds))
        (accept_and_process_message server_fd rounds count)
unfolding accept_and_process_message
accept_and_process_message-numbered server_fd [] count h =
    ([], ap (λ n. some (n, [])) (omega arith), refl)
accept_and_process_message-numbered server_fd (none ∷ rounds) count h =
    ([], ap (λ n. some (n, [])) (omega arith), refl)
accept_and_process_message-numbered server_fd (some events ∷ rounds) count h =
    let first = served server_fd events in
    let rest = served server_fd (events_of rounds) in
    let split = served-append server_fd events (events_of rounds) in
    let small = rw split at h in
    rw split (
      Numbers-then count first rest (handle_events server_fd events count)
        (λ next. accept_and_process_message server_fd rounds next)
        (handle_events-Numbers server_fd events count
          (omega (arith, small, length-append first rest)))
        (accept_and_process_message-numbered server_fd rounds (count + length first)
          (omega (arith, small, length-append first rest))))
