-- ===== src/Tcp/Poll/Rounds.antt =====
-- The steps of a round of the poll handler, and their number.
use simple_server.Prelude.{
  ℕ, zero, suc, ◌+◌, ◌≤◌, ◌<◌, ◌≡◌, ap, Option, none, some, List, [], length, arith, Option-cases,
  inl, inr,
}
use simple_server.Tcp.Poll.{
  PollFd, Call, System, Outcome, remove_socket, calls_first, read_client, accept_client, process,
  entry, with_calls, process_all, active, poll_round,
}
use simple_server.Tcp.Poll.Vector.{left, left-entry, left-erase, left-watched}

read_client-left :
    (server_fd : ℕ) (sys : System) (i j fd : ℕ) (ps : List PollFd)
    → left i (read_client server_fd sys j fd ps).0 ≤ left i ps
unfolding read_client remove_socket
read_client-left server_fd sys i j fd ps = ground (arith, left-erase fd i ps)

pub process-left :
    (server_fd : ℕ) (sys : System) (i : ℕ) (p : PollFd) (ps : List PollFd)
    → entry i ps ≡ some p
    → left (suc i) (process server_fd sys i p ps).0 < left i ps
unfolding process remove_socket accept_client
process-left server_fd sys i p ps h = ground (
  arith,
  left-entry i ps p h,
  left-erase p.fd (suc i) ps,
  left-watched (suc i) (sys.accept i) ps,
  read_client-left server_fd sys (suc i) i p.fd ps,
)

abbrev Ends : Option Outcome → Type 0
Ends o = (outcome : Outcome) × (o ≡ some outcome)

with_calls-Ends : (calls : List Call) (o : Option Outcome) → Ends o → Ends (with_calls calls o)
with_calls-Ends calls o (outcome, e) = (calls_first calls outcome, ap (with_calls calls) e)

pub process_all-none :
    (server_fd : ℕ) (sys : System) (fuel i : ℕ) (ps : List PollFd)
    → entry i ps ≡ none
    → process_all server_fd sys fuel i ps ≡ some (ps, [])
unfolding process_all
process_all-none server_fd sys zero i ps e = rw (e, process_all)
process_all-none server_fd sys (suc fuel) i ps e = rw (e, process_all)

pub process_all_zero :
    (server_fd : ℕ) (sys : System) (i : ℕ) (ps : List PollFd) (p : PollFd)
    → entry i ps ≡ some p
    → process_all server_fd sys 0 i ps ≡ none
unfolding process_all
process_all_zero server_fd sys i ps p e = rw (e, process_all)

pub process_all-some :
    (server_fd : ℕ) (sys : System) (fuel i : ℕ) (ps : List PollFd) (p : PollFd)
    → entry i ps ≡ some p
    → process_all server_fd sys (suc fuel) i ps
      ≡ with_calls
          (process server_fd sys i p ps).1
          (process_all server_fd sys fuel (suc i) (process server_fd sys i p ps).0)
unfolding process_all
process_all-some server_fd sys fuel i ps p e = rw (e, process_all)

pub process_all-Ends :
    (server_fd : ℕ) (sys : System) (fuel i : ℕ) (ps : List PollFd)
    → left i ps ≤ fuel
    → Ends (process_all server_fd sys fuel i ps)
process_all-Ends server_fd sys zero i ps h = elim (Option-cases (entry i ps)) [
  | inl e ↦ ((ps, []), process_all-none server_fd sys 0 i ps e)
  | inr (p, e) ↦ absurd (omega (arith, process-left server_fd sys i p ps e))
]
process_all-Ends server_fd sys (suc fuel) i ps h = elim (Option-cases (entry i ps)) [
  | inl e ↦ ((ps, []), process_all-none server_fd sys (suc fuel) i ps e)
  | inr (p, e) ↦ rw (process_all-some server_fd sys fuel i ps p e) (
      with_calls-Ends _ _ (
        process_all-Ends server_fd sys fuel (suc i) (process server_fd sys i p ps).0
          (omega (arith, process-left server_fd sys i p ps e))))
]

-- The loop over the vector ends, though it adds and removes entries while it runs.
pub poll_round_ends :
    (server_fd : ℕ) (sys : System) (ps : List PollFd)
    → (outcome : Outcome) × (poll_round server_fd sys ps ≡ some outcome)
unfolding poll_round
poll_round_ends server_fd sys ps =
    process_all-Ends server_fd sys (length ps + active ps) 0 ps (omega arith)
