-- ===== src/Experiments/Forward/Sockets.antt =====
-- Where the sockets of experiments/epoll_select.cpp are.
use simple_server.Prelude.{
  ℕ, ◌+◌, ◌≡◌, refl, Bool, true, false, none, some, List, [], ◌∷◌, ◌++◌, ◌&&◌, ◌==◌, if◌then◌else◌,
  arith, count, count-append,
}
use simple_server.Experiments.Forward.{
  Router, Event, incoming, readable, finished, unwatch, end_thread, serve_event,
}

-- The sockets of the threads.
abbrev pub ends_of : List (ℕ × ℕ) → List ℕ
ends_of [] = []
ends_of ((client, backend) ∷ threads) = client ∷ backend ∷ ends_of threads

abbrev pub is_watched : ℕ → List ℕ → Bool
is_watched fd [] = false
is_watched fd (w ∷ ws) = if w == fd then true else is_watched fd ws

abbrev pub is_running : ℕ → ℕ → List (ℕ × ℕ) → Bool
is_running client backend [] = false
is_running client backend ((c, b) ∷ threads) =
    if c == client && b == backend then true else is_running client backend threads

-- epoll_wait reports watched clients, and a thread ends that runs.
abbrev pub IsPossible : Event → Router → Type 0
IsPossible (incoming fd added) r = Unit
IsPossible (readable fd peeked backend connected) r = is_watched fd r.clients ≡ true
IsPossible (finished client backend) r = is_running client backend r.threads ≡ true

-- The sockets that an event opens.
abbrev pub opened : Event → List ℕ
opened (incoming none added) = []
opened (incoming (some fd) added) = fd ∷ []
opened (readable fd none backend connected) = []
opened (readable fd (some []) backend connected) = []
opened (readable fd (some (c ∷ cs)) backend connected) = backend ∷ []
opened (finished client backend) = []

-- The sockets that `epoll_ctl` does not add.
abbrev pub not_added : Event → List ℕ
not_added (incoming none added) = []
not_added (incoming (some fd) true) = []
not_added (incoming (some fd) false) = fd ∷ []
not_added (readable fd peeked backend connected) = []
not_added (finished client backend) = []

-- The states that `main` and its threads reach, with all the sockets that were opened, and those of
-- them that `epoll_ctl` did not add.
pub data Reached : List ℕ → List ℕ → Router → Type 0 where
  start : Reached [] [] (record { clients = []; threads = []; closed = [] })
  step :
      {made left_open : List ℕ} {r : Router} (e : Event)
      → IsPossible e r
      → Reached made left_open r
      → Reached (opened e ++ made) (not_added e ++ left_open) (serve_event e r)

count-unwatch :
    (x fd : ℕ) (ws : List ℕ) → is_watched fd ws ≡ true → count x ws ≡ count x (fd ∷ unwatch fd ws)
unfolding unwatch
count-unwatch x fd [] h = cc
count-unwatch x fd (w ∷ ws) h = ground (arith, count-unwatch x fd ws)

count-end_thread :
    (x c b : ℕ) (threads : List (ℕ × ℕ))
    → is_running c b threads ≡ true
    → count x (ends_of threads) ≡ count x (c ∷ b ∷ ends_of (end_thread c b threads))
unfolding end_thread
count-end_thread x c b [] h = cc
count-end_thread x c b ((k, l) ∷ threads) h = ground (arith, count-end_thread x c b threads)

-- The sockets of a state.
abbrev pub here : ℕ → Router → ℕ
here x r = count x r.clients + (count x (ends_of r.threads) + count x r.closed)

here-serve_event :
    (x : ℕ) (e : Event) (r : Router)
    → IsPossible e r
    → count x (not_added e) + here x (serve_event e r) ≡ count x (opened e) + here x r
unfolding serve_event
here-serve_event x (incoming none added) r h = omega arith
here-serve_event x (incoming (some fd) true) r h = ground arith
here-serve_event x (incoming (some fd) false) r h = ground arith
here-serve_event x (readable fd none backend connected) r h =
    ground (arith, count-unwatch x fd r.clients)
here-serve_event x (readable fd (some []) backend connected) r h =
    ground (arith, count-unwatch x fd r.clients)
here-serve_event x (readable fd (some (c ∷ cs)) backend true) r h =
    ground (arith, count-unwatch x fd r.clients)
here-serve_event x (readable fd (some (c ∷ cs)) backend false) r h =
    ground (arith, count-unwatch x fd r.clients)
here-serve_event x (finished client backend) r h =
    ground (arith, count-end_thread x client backend r.threads)

-- In every state that the program reaches, each socket is in exactly one place, as often as it was
-- opened: it is watched, or it is the client or the backend of one running thread, or it was closed,
-- or it is a client that `epoll_ctl` did not add. So none is closed twice or given to two threads.
-- The result of a `socket` that failed counts as a socket.
pub Reached-count :
    {made left_open : List ℕ} {r : Router}
    → Reached made left_open r
    → (x : ℕ)
    → count x made
      ≡ count x left_open + (count x r.clients + (count x (ends_of r.threads) + count x r.closed))
Reached-count start x = refl
Reached-count (step {made = made} {left_open = left_open} {r = r} e p before) x = omega (
  arith,
  count-append x (opened e) made,
  count-append x (not_added e) left_open,
  Reached-count before x,
  here-serve_event x e r p,
)
