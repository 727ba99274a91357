-- ===== src/Experiments/Forward/Streams.antt =====
-- What a thread of experiments/epoll_select.cpp passes on in each direction.
use simple_server.Prelude.{
  ℕ, ◌≡◌, ◌≢◌, refl, sym, ap, ◌∙◌, Bool, true, false, Option, none, some, List, [], ◌∷◌, ◌++◌,
  Bytes, ◌==◌, ==_refl, ==_ne, if◌then◌else◌,
}
use simple_server.Socket.{Received}
use simple_server.Experiments.Forward.{
  Activity, failed, ready, pass_on, forward_round, forward_data,
}

-- A socket that is ready without bytes has ended or failed.
abbrev pub is_over : Option Received → Bool
is_over none = false
is_over (some none) = true
is_over (some (some [])) = true
is_over (some (some (b ∷ bs))) = false

abbrev pub received : Option Received → Bytes
received none = []
received (some none) = []
received (some (some bs)) = bs

-- All that was read from the client, and from the backend, up to the first socket that is over; the
-- client is read first in a round.
abbrev pub client_stream : List Activity → Bytes
client_stream [] = []
client_stream (failed ∷ rest) = client_stream rest
client_stream (ready c b ∷ rest) =
    received c ++ (if is_over c then [] else if is_over b then [] else client_stream rest)

abbrev pub backend_stream : List Activity → Bytes
backend_stream [] = []
backend_stream (failed ∷ rest) = backend_stream rest
backend_stream (ready c b ∷ rest) =
    if is_over c then [] else received b ++ (if is_over b then [] else backend_stream rest)

-- Whether some round had a socket that is over.
abbrev pub ends : List Activity → Bool
ends [] = false
ends (failed ∷ rest) = ends rest
ends (ready c b ∷ rest) = if is_over c then true else if is_over b then true else ends rest

-- What is sent to one socket.
abbrev pub sent_to : ℕ → List (ℕ × Bytes) → Bytes
sent_to fd [] = []
sent_to fd ((to, bytes) ∷ sent) = if to == fd then bytes ++ sent_to fd sent else sent_to fd sent

sent_to_same :
    (fd : ℕ) (bytes : Bytes) (sent : List (ℕ × Bytes))
    → sent_to fd ((fd, bytes) ∷ sent) ≡ bytes ++ sent_to fd sent
sent_to_same fd bytes sent = rw (==_refl fd)

sent_to_other :
    (fd to : ℕ) (bytes : Bytes) (sent : List (ℕ × Bytes))
    → to ≢ fd
    → sent_to fd ((to, bytes) ∷ sent) ≡ sent_to fd sent
sent_to_other fd to bytes sent h = rw (==_ne to fd h)

module _ (client backend : ℕ) (apart : client ≢ backend) where
  -- The bytes of the client go to the backend.
  to_backend :
      (acts : List Activity)
      → sent_to backend (forward_data client backend acts).sent ≡ client_stream acts
  unfolding forward_data pass_on forward_round
  to_backend [] = refl
  to_backend (failed ∷ rest) = to_backend rest
  to_backend (ready none none ∷ rest) = to_backend rest
  to_backend (ready none (some none) ∷ rest) = refl
  to_backend (ready none (some (some [])) ∷ rest) = refl
  to_backend (ready none (some (some (b ∷ bs))) ∷ rest) =
      sent_to_other backend client (b ∷ bs) _ apart ∙ to_backend rest
  to_backend (ready (some none) b ∷ rest) = refl
  to_backend (ready (some (some [])) b ∷ rest) = refl
  to_backend (ready (some (some (c ∷ cs))) none ∷ rest) =
      sent_to_same backend (c ∷ cs) _ ∙ ap (λ t. c ∷ cs ++ t) (to_backend rest)
  to_backend (ready (some (some (c ∷ cs))) (some none) ∷ rest) = sent_to_same backend (c ∷ cs) []
  to_backend (ready (some (some (c ∷ cs))) (some (some [])) ∷ rest) =
      sent_to_same backend (c ∷ cs) []
  to_backend (ready (some (some (c ∷ cs))) (some (some (b ∷ bs))) ∷ rest) =
      sent_to_same backend (c ∷ cs) ((client, b ∷ bs) ∷ (forward_data client backend rest).sent)
      ∙ ap (λ t. c ∷ cs ++ t) (sent_to_other backend client (b ∷ bs) _ apart ∙ to_backend rest)

  -- The bytes of the backend go to the client.
  to_client :
      (acts : List Activity)
      → sent_to client (forward_data client backend acts).sent ≡ backend_stream acts
  unfolding forward_data pass_on forward_round
  to_client [] = refl
  to_client (failed ∷ rest) = to_client rest
  to_client (ready none none ∷ rest) = to_client rest
  to_client (ready none (some none) ∷ rest) = refl
  to_client (ready none (some (some [])) ∷ rest) = refl
  to_client (ready none (some (some (b ∷ bs))) ∷ rest) =
      sent_to_same client (b ∷ bs) _ ∙ ap (λ t. b ∷ bs ++ t) (to_client rest)
  to_client (ready (some none) b ∷ rest) = refl
  to_client (ready (some (some [])) b ∷ rest) = refl
  to_client (ready (some (some (c ∷ cs))) none ∷ rest) =
      sent_to_other client backend (c ∷ cs) _ (λ e. apart (sym e)) ∙ to_client rest
  to_client (ready (some (some (c ∷ cs))) (some none) ∷ rest) =
      sent_to_other client backend (c ∷ cs) [] (λ e. apart (sym e))
  to_client (ready (some (some (c ∷ cs))) (some (some [])) ∷ rest) =
      sent_to_other client backend (c ∷ cs) [] (λ e. apart (sym e))
  to_client (ready (some (some (c ∷ cs))) (some (some (b ∷ bs))) ∷ rest) =
      sent_to_other client backend (c ∷ cs)
        ((client, b ∷ bs) ∷ (forward_data client backend rest).sent) (λ e. apart (sym e))
      ∙ sent_to_same client (b ∷ bs) _
      ∙ ap (λ t. b ∷ bs ++ t) (to_client rest)

  closed-both :
      (acts : List Activity)
      → (forward_data client backend acts).closed
        ≡ (if ends acts then client ∷ backend ∷ [] else [])
  unfolding forward_data pass_on forward_round
  closed-both [] = refl
  closed-both (failed ∷ rest) = closed-both rest
  closed-both (ready none none ∷ rest) = closed-both rest
  closed-both (ready none (some none) ∷ rest) = refl
  closed-both (ready none (some (some [])) ∷ rest) = refl
  closed-both (ready none (some (some (b ∷ bs))) ∷ rest) = closed-both rest
  closed-both (ready (some none) b ∷ rest) = refl
  closed-both (ready (some (some [])) b ∷ rest) = refl
  closed-both (ready (some (some (c ∷ cs))) none ∷ rest) = closed-both rest
  closed-both (ready (some (some (c ∷ cs))) (some none) ∷ rest) = refl
  closed-both (ready (some (some (c ∷ cs))) (some (some [])) ∷ rest) = refl
  closed-both (ready (some (some (c ∷ cs))) (some (some (b ∷ bs))) ∷ rest) = closed-both rest

  -- For different sockets, and whatever the rounds bring: the backend is sent, in order, all that
  -- was read from the client up to the first socket that is over, the client all that was read from
  -- the backend, and both sockets are closed, each once, exactly if one of them is over.
  pub forward_data-streams :
      (acts : List Activity)
      → (sent_to backend (forward_data client backend acts).sent ≡ client_stream acts)
        × (sent_to client (forward_data client backend acts).sent ≡ backend_stream acts)
        × ((forward_data client backend acts).closed
            ≡ (if ends acts then client ∷ backend ∷ [] else []))
  forward_data-streams acts = (to_backend acts, to_client acts, closed-both acts)
