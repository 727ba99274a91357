-- ===== src/Older/Connections/Rounds.antt =====
-- What the rounds over the polled descriptors of the older library keep, read and close.
use simple_server.Prelude.{
  ℕ, zero, suc, ◌<◌, ◌==◌, lt→ltb, ◌≡◌, refl, sym, ap, ◌∙◌, true, false, Option, none, some, List,
  [], ◌∷◌, ◌++◌, length, if◌then◌else◌, append_assoc, append-nil, length-append, arith, Bool-cases,
  inl, inr,
}
use simple_server.Older.Connections.{
  PollFd, entry, erase_at, hung_up, check_events, check_and_notify_events, Action, read, close,
  end_index, read_one, read_connections, Outcome, with_actions, visit, Revents, poll, behind_round,
}

abbrev pub kept : List PollFd → List PollFd
kept [] = []
kept (p ∷ ps) = if hung_up p then kept ps else p ∷ kept ps

entry-middle :
    (before after : List PollFd) (p : PollFd) → entry (length before) (before ++ p ∷ after) ≡ some p
entry-middle [] after p = refl
entry-middle (q ∷ qs) after p = entry-middle qs after p

entry-end : (before : List PollFd) → entry (length before) before ≡ none
entry-end [] = refl
entry-end (q ∷ qs) = entry-end qs

erase_at-middle :
    (before after : List PollFd) (p : PollFd)
    → erase_at (length before) (before ++ p ∷ after) ≡ before ++ after
unfolding erase_at
erase_at-middle [] after p = refl
erase_at-middle (q ∷ qs) after p = ap (λ r. q ∷ r) (erase_at-middle qs after p)

with_actions-some :
    (actions more : List Action) (o : Option Outcome) (ps : List PollFd)
    → o ≡ some (ps, more)
    → with_actions actions o ≡ some (ps, actions ++ more)
with_actions-some actions more o ps e = rw e

-- No `read` brings 1023 or more characters.
abbrev pub IsShort : (ℕ → Option ℕ) → Type 0
IsShort results = (j : ℕ) → end_index (results j) < 1024

-- The reads of the connections with a descriptor.
abbrev pub reads_of : (ℕ → Option ℕ) → ℕ → ℕ → List ℕ → List Action
reads_of results fd j [] = []
reads_of results fd j (c ∷ cs) =
    let later = reads_of results fd (suc j) cs in
    if c == fd then read fd (end_index (results j)) ∷ later else later

-- What an entry is visited with.
abbrev pub visit_of : (ℕ → Option ℕ) → List ℕ → PollFd → List Action
visit_of results connections p =
    if p.pollin
    then reads_of results p.fd 0 connections
    else if p.pollerr
    then []
    else if p.pollhup
    then close p.fd ∷ []
    else []

read_connections-IsShort :
    (results : ℕ → Option ℕ) (fd j : ℕ) (cs : List ℕ)
    → IsShort results
    → read_connections results fd j cs ≡ some (reads_of results fd j cs)
unfolding read_connections read_one
read_connections-IsShort results fd j [] h = refl
read_connections-IsShort results fd j (c ∷ cs) h =
    let later = read_connections-IsShort results fd (suc j) cs h in
    elim (Bool-cases (c == fd)) [
      | inl e ↦ rw (e, later, lt→ltb (end_index (results j)) 1024 (h j)) refl
      | inr e ↦ rw (e, later) refl
    ]

visit-IsShort :
    (results : ℕ → Option ℕ) (cs : List ℕ) (p : PollFd)
    → IsShort results
    → visit results cs p ≡ some (visit_of results cs p)
unfolding visit
visit-IsShort results cs p h = elim (Bool-cases p.pollin) [
  | inl e ↦ rw e (read_connections-IsShort results p.fd 0 cs h)
  | inr e ↦ elim (Bool-cases p.pollerr) [
    | inl f ↦ rw (e, f) refl
    | inr f ↦ elim (Bool-cases p.pollhup) [ inl g ↦ rw (e, f, g) refl | inr g ↦ rw (e, f, g) refl ]
  ]
]

module _ (results : ℕ → ℕ → Option ℕ) (connections : List ℕ) where
  -- What the entries of a round are visited with, from the loop's index i on.
  abbrev pub visits : ℕ → List PollFd → List Action
  visits i [] = []
  visits i (p ∷ ps) =
      visit_of (results i) connections p ++ visits (if hung_up p then i else suc i) ps

  step_end :
      (fuel i : ℕ) (ps : List PollFd)
      → entry i ps ≡ none
      → check_events results connections fuel i ps ≡ some (ps, [])
  unfolding check_events
  step_end zero i ps e = rw (e, check_events)
  step_end (suc fuel) i ps e = rw (e, check_events)

  step_hung_up :
      (fuel i : ℕ) (ps : List PollFd) (p : PollFd)
      → ((i : ℕ) → IsShort (results i))
      → entry i ps ≡ some p
      → hung_up p ≡ true
      → check_events results connections (suc fuel) i ps
        ≡ with_actions
            (visit_of (results i) connections p)
            (check_events results connections fuel i (erase_at i ps))
  unfolding check_events
  step_hung_up fuel i ps p s e h =
      rw (e, check_events) (rw (visit-IsShort (results i) connections p (s i), h))

  step_kept :
      (fuel i : ℕ) (ps : List PollFd) (p : PollFd)
      → ((i : ℕ) → IsShort (results i))
      → entry i ps ≡ some p
      → hung_up p ≡ false
      → check_events results connections (suc fuel) i ps
        ≡ with_actions
            (visit_of (results i) connections p)
            (check_events results connections fuel (suc i) ps)
  unfolding check_events
  step_kept fuel i ps p s e h =
      rw (e, check_events) (rw (visit-IsShort (results i) connections p (s i), h))

  check_events-kept :
      (before after : List PollFd)
      → ((i : ℕ) → IsShort (results i))
      → check_events results connections (length after) (length before) (before ++ after)
        ≡ some (before ++ kept after, visits (length before) after)
  check_events-kept before [] s =
      ap (check_events results connections 0 (length before)) (append-nil before)
      ∙ step_end 0 (length before) before (entry-end before)
      ∙ rw (append-nil before)
  check_events-kept before (p ∷ after) s = elim (Bool-cases (hung_up p)) [
    | inl h ↦
        step_hung_up (length after) (length before) (before ++ p ∷ after) p s
          (entry-middle before after p) h
        ∙ with_actions-some _ (visits (length before) after) _ _ (
            ap (check_events results connections (length after) (length before))
              (erase_at-middle before after p)
            ∙ check_events-kept before after s)
        ∙ rw h
    | inr h ↦
        step_kept (length after) (length before) (before ++ p ∷ after) p s
          (entry-middle before after p) h
        ∙ with_actions-some _ (visits (suc (length before)) after) _
            ((before ++ p ∷ []) ++ kept after)
            (ap (check_events results connections (length after) (suc (length before)))
                (sym (append_assoc before (p ∷ []) after))
              ∙ ap
                  (λ i.
                    check_events results connections (length after) i ((before ++ p ∷ []) ++ after))
                  (sym (snoc_length before p))
              ∙ check_events-kept (before ++ p ∷ []) after s
              ∙ rw (snoc_length before p))
        ∙ rw (h, append_assoc before (p ∷ []) (kept after))
  ]
    where
      snoc_length :
          (before : List PollFd) (p : PollFd) → length (before ++ p ∷ []) ≡ suc (length before)
      snoc_length before p = omega (arith, length-append before (p ∷ []))

-- What the entries are when the rounds are over, and what was done.
abbrev pub Rounds : Type 0
Rounds = List (Option (Revents × (ℕ → ℕ → Option ℕ)))

abbrev pub kept_by : Rounds → List PollFd → List PollFd
kept_by [] ps = ps
kept_by (none ∷ rounds) ps = ps
kept_by (some (revents, results) ∷ rounds) ps = kept_by rounds (kept (poll revents ps))

abbrev pub done_by : List ℕ → Rounds → List PollFd → List Action
done_by connections [] ps = []
done_by connections (none ∷ rounds) ps = []
done_by connections (some (revents, results) ∷ rounds) ps =
    visits results connections 0 (poll revents ps)
    ++ done_by connections rounds (kept (poll revents ps))

-- No `read` of the rounds brings 1023 or more characters.
abbrev pub AllShort : Rounds → Type 0
AllShort [] = Unit
AllShort (none ∷ rounds) = AllShort rounds
AllShort (some (revents, results) ∷ rounds) = ((i : ℕ) → IsShort (results i)) × AllShort rounds

-- The loop, while no connection is added and if no read brings 1023 or more characters, has a result
-- for any number of rounds, up to the first in which poll fails. In each round every entry is visited
-- once, in the order of the entries: the connections with its descriptor are read if it has input, and
-- it is closed and removed if it hung up without input and error. The others are kept, in their order.
pub check_and_notify_events-kept :
    (connections : List ℕ) (rounds : Rounds) (ps : List PollFd)
    → AllShort rounds
    → check_and_notify_events connections rounds ps
      ≡ some (kept_by rounds ps, done_by connections rounds ps)
unfolding check_and_notify_events
check_and_notify_events-kept connections [] ps s = refl
check_and_notify_events-kept connections (none ∷ rounds) ps s = refl
check_and_notify_events-kept connections (some (revents, results) ∷ rounds) ps (s, ss) =
    let polled = poll revents ps in
    ap (behind_round (check_and_notify_events connections rounds))
      (check_events-kept results connections [] polled s)
    ∙ with_actions-some _ _ _ _ (check_and_notify_events-kept connections rounds (kept polled) ss)
