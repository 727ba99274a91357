-- ===== src/Older/Connections/Refine.antt =====
-- The vector of the older library implements the bag of watched descriptors too.
use simple_server.Prelude.{
  ℕ, suc, ◌≡◌, refl, sym, ap, ◌∙◌, Bool, true, false, Option, none, some, List, [], ◌∷◌, ◌++◌,
  append_assoc, ==_refl, arith, bag, bag-eq, take_out-bag, without, count, count-append,
  if◌then◌else◌, Bool-cases, inl, inr,
}
use simple_server.Watching.{
  Happening, served, dropped, watch, watch-served, watch-dropped, Refines, Refines-none,
  Refines-one, Refines-then,
}
use simple_server.Older.Connections.{
  PollFd, Action, close, hung_up, Outcome, Revents, poll, check_and_notify_events,
}
use simple_server.Older.Connections.Rounds.{
  kept, visits, reads_of, visit_of, AllShort, Rounds, kept_by, done_by,
  check_and_notify_events-kept,
}

abbrev pub descriptors : List PollFd → List ℕ
descriptors [] = []
descriptors (p ∷ ps) = p.fd ∷ descriptors ps

-- The actions for each happening; a connection that is served is read once for every place that it
-- has in the other vector.
pub data Emits : Happening → List Action → Type 0 where
  reads :
      (results : ℕ → Option ℕ) (fd : ℕ) (connections : List ℕ)
      → Emits (served fd) (reads_of results fd 0 connections)
  removes : (fd : ℕ) → Emits (dropped fd) (close fd ∷ [])

descriptors-append :
    (ps qs : List PollFd) → descriptors (ps ++ qs) ≡ descriptors ps ++ descriptors qs
descriptors-append [] qs = refl
descriptors-append (p ∷ ps) qs = ap (λ r. p.fd ∷ r) (descriptors-append ps qs)

descriptors-poll :
    (revents : Revents) (ps : List PollFd) → descriptors (poll revents ps) ≡ descriptors ps
descriptors-poll revents [] = refl
descriptors-poll revents (p ∷ ps) = ap (λ r. p.fd ∷ r) (descriptors-poll revents ps)

count-without-middle :
    (x fd : ℕ) (xs ys : List ℕ) → count x (xs ++ ys) ≡ count x (without fd (xs ++ fd ∷ ys))
count-without-middle x fd [] ys = rw (==_refl fd)
count-without-middle x fd (y ∷ xs) ys =
    ground
      (arith, count-without-middle x fd xs ys, count-append x xs ys, count-append x xs (fd ∷ ys))

-- What is left when the entry in the middle is removed.
drop_bag :
    (before after : List PollFd) (p : PollFd)
    → bag (descriptors (before ++ after))
      ≡ watch (dropped p.fd ∷ []) (bag (descriptors (before ++ p ∷ after)))
drop_bag before after p =
    ap bag (descriptors-append before after)
    ∙ bag-eq _ (without p.fd (descriptors before ++ p.fd ∷ descriptors after))
        (λ x. count-without-middle x p.fd (descriptors before) (descriptors after))
    ∙ ap (λ xs. bag (without p.fd xs)) (sym (descriptors-append before (p ∷ after)))
    ∙ sym (take_out-bag p.fd (descriptors (before ++ p ∷ after)))
    ∙ sym (watch-dropped p.fd (bag (descriptors (before ++ p ∷ after))))

module _ (results : ℕ → ℕ → Option ℕ) (connections : List ℕ) where
  -- One entry, which is removed if it hung up.
  abbrev Visited : ℕ → List PollFd → List PollFd → PollFd → Type 0
  Visited i before after p =
      Refines Emits (descriptors (before ++ p ∷ after))
        (descriptors (before ++ (if hung_up p then after else p ∷ after)))
        (visit_of (results i) connections p)

  bits-Refines :
      (i fd : ℕ) (before after : List PollFd) (pollin pollerr pollhup : Bool)
      → Visited i before after
          (record { fd = fd; pollin = pollin; pollerr = pollerr; pollhup = pollhup })
  unfolding hung_up
  bits-Refines i fd before after true pollerr pollhup =
      let p : PollFd = record { fd = fd; pollin = true; pollerr = pollerr; pollhup = pollhup } in
      let all = descriptors (before ++ p ∷ after) in
      Refines-one Emits all all (reads (results i) fd connections) (sym (watch-served fd (bag all)))
  bits-Refines i fd before after false true pollhup = Refines-none Emits _
  bits-Refines i fd before after false false true =
      let p : PollFd = record { fd = fd; pollin = false; pollerr = false; pollhup = true } in
      Refines-one Emits (descriptors (before ++ p ∷ after)) (descriptors (before ++ after))
        (removes fd) (drop_bag before after p)
  bits-Refines i fd before after false false false = Refines-none Emits _

  visit-Refines : (i : ℕ) (before after : List PollFd) (p : PollFd) → Visited i before after p
  visit-Refines i before after p = bits-Refines i p.fd before after p.pollin p.pollerr p.pollhup

  visits-Refines :
      (i : ℕ) (before after : List PollFd)
      → Refines Emits
          (descriptors (before ++ after))
          (descriptors (before ++ kept after))
          (visits results connections i after)
  visits-Refines i before [] = Refines-none Emits (descriptors (before ++ []))
  visits-Refines i before (p ∷ after) = elim (Bool-cases (hung_up p)) [
    | inl h ↦
        let first = rw h at (visit-Refines i before after p) in
        rw h (
          Refines-then Emits _ (descriptors (before ++ after)) _ first
            (visits-Refines i before after))
    | inr h ↦
        let first = rw h at (visit-Refines i before after p) in
        let later =
          rw (append_assoc before (p ∷ []) after, append_assoc before (p ∷ []) (kept after)) at
            (visits-Refines (suc i) (before ++ p ∷ []) after) in
        rw h (Refines-then Emits _ (descriptors (before ++ p ∷ after)) _ first later)
  ]

done_by-Refines :
    (connections : List ℕ) (rounds : Rounds) (ps : List PollFd)
    → Refines Emits
        (descriptors ps)
        (descriptors (kept_by rounds ps))
        (done_by connections rounds ps)
done_by-Refines connections [] ps = Refines-none Emits (descriptors ps)
done_by-Refines connections (none ∷ rounds) ps = Refines-none Emits (descriptors ps)
done_by-Refines connections (some (revents, results) ∷ rounds) ps =
    let polled = poll revents ps in
    let first =
      rw (descriptors-poll revents ps) at (visits-Refines results connections 0 [] polled) in
    Refines-then Emits (descriptors ps) (descriptors (kept polled)) _ first
      (done_by-Refines connections rounds (kept polled))

-- Whatever poll and read give in the rounds, while no connection is added and if no read brings 1023 or
-- more characters: the loop has a result, and it implements a bag of watched descriptors. Some
-- happenings, each with its actions and in the order of the actions, take the bag of the descriptors
-- of the vector to that of the vector behind the loop.
pub check_and_notify_events-Refines :
    (connections : List ℕ) (rounds : Rounds) (ps : List PollFd)
    → AllShort rounds
    → (outcome : Outcome) × (check_and_notify_events connections rounds ps ≡ some outcome)
      × Refines Emits (descriptors ps) (descriptors outcome.0) outcome.1
check_and_notify_events-Refines connections rounds ps short = (
  (kept_by rounds ps, done_by connections rounds ps),
  check_and_notify_events-kept connections rounds ps short,
  done_by-Refines connections rounds ps,
)
