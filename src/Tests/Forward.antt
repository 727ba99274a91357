-- ===== src/Tests/Forward.antt =====
-- Runs of the forwarding server of the experiments.
use simple_server.Prelude.{
  ◌≡◌, refl, ◌+◌, true, false, none, some, List, [], ◌∷◌, codes, arith, if◌then◌else◌, count,
}
use simple_server.Experiments.Forward.{
  Activity, failed, ready, forward_data, incoming, readable, unwatch, serve_event, Router,
}
use simple_server.Experiments.Forward.Streams.{
  sent_to, client_stream, backend_stream, ends, forward_data-streams,
}
use simple_server.Experiments.Forward.Sockets.{ends_of, Reached, start, step, Reached-count}

-- The client asks in two parts, the backend answers, and then the client is gone.
abbrev talk : List Activity
talk =
    ready (some (some (codes "GE"))) none
    ∷ failed
    ∷ ready (some (some (codes "T"))) (some (some (codes "ok")))
    ∷ ready (some (some [])) none
    ∷ []

forward_data-streams_example :
    (sent_to 9 (forward_data 5 9 talk).sent ≡ client_stream talk)
    × (sent_to 5 (forward_data 5 9 talk).sent ≡ backend_stream talk)
    × ((forward_data 5 9 talk).closed ≡ (if ends talk then 5 ∷ 9 ∷ [] else []))
forward_data-streams_example = forward_data-streams 5 9 (ground arith) talk

client_stream_run : client_stream talk ≡ codes "GET"
client_stream_run = refl

-- Three clients are accepted, the first is passed on, the second is gone, and a third one is not
-- added.
abbrev passed_on : Router
passed_on = record { clients = []; threads = (5, 7) ∷ []; closed = 6 ∷ [] }

passed_on-Reached : Reached (7 ∷ 8 ∷ 6 ∷ 5 ∷ []) (8 ∷ []) passed_on
unfolding serve_event unwatch
passed_on-Reached = step (readable 6 (some []) 0 true) refl (
    step (readable 5 (some (codes "GET")) 7 true) refl (
      step (incoming (some 8) false) tt
        (step (incoming (some 6) true) tt (step (incoming (some 5) true) tt start))))

Reached-count_example :
    count 5 (7 ∷ 8 ∷ 6 ∷ 5 ∷ [])
    ≡ count 5 (8 ∷ [])
      + (count 5 passed_on.clients
          + (count 5 (ends_of passed_on.threads) + count 5 passed_on.closed))
Reached-count_example = Reached-count passed_on-Reached 5
