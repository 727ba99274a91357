-- ===== src/Service/Registered.antt =====
-- The connections that the manager knows, in the program as a whole.
use mathlib.Core.List.Memᴰ
use mathlib.Core.List.{Memᴰ}
use mathlib.Core.Path.{subst}
use simple_server.Prelude.{
  ℕ, suc, ◌≡◌, ◌≢◌, refl, sym, ap, ◌∙◌, inl, inr, true, some, List, [], ◌∷◌, ◌++◌, Bytes, arith,
  ◌==◌, Option-cases, Bool-cases,
}
use simple_server.Text.StringMap.{Map}
use simple_server.Http.Headers.{◌>>=◌}
use simple_server.Http.Route.{Regex}
use simple_server.Http.Server.{Endpoint, Handled, respond, handle_connection_request}
use simple_server.Http.Server.Outcome.{
  Outcome, silent, upgraded, answered, handle_connection_request-outcome,
}
use simple_server.Service.{World, Arrivals, handled, perform, perform_all}
use simple_server.Tcp.Poll.{
  Call, close, set_non_blocking, handle_incomming_connection, notify_message_request,
}
use simple_server.Websocket.Manager.{
  Sha1, Descriptors, Sent, has, insert, handshake, get_accept_key,
}
use simple_server.Websocket.Manager.Set.{has-insert}

some-injective : {x y : World} → some x ≡ some y → x ≡ y
some-injective e = cc

module _ (sha1 : Sha1) where
  -- The connection was sent the answer to a handshake with a key.
  abbrev pub Greeted : ℕ → Sent → Type 0
  Greeted fd log = (key : Bytes) × (key ≢ []) × Memᴰ (fd, handshake (get_accept_key sha1 key)) log

  abbrev pub AllGreeted : Descriptors → Sent → Type 0
  AllGreeted descriptors log = (fd : ℕ) → has fd descriptors ≡ true → Greeted fd log

  -- The set and the log after a call, from those before it: nobody leaves the set, and everybody in
  -- it has been greeted.
  record Grows (w w' : World) : Type 0 where
    kept : (fd : ℕ) → has fd w.descriptors ≡ true → has fd w'.descriptors ≡ true
    greeted : AllGreeted w.descriptors w.sent → AllGreeted w'.descriptors w'.sent

  Greeted-more : (fd : ℕ) (log more : Sent) → Greeted fd log → Greeted fd (log ++ more)
  Greeted-more fd log more (key, k, m) = (key, k, Memᴰ.append_left more m)

  -- A call that only adds to the log.
  same_set :
      (descriptors : Descriptors) (log more : Sent) (closed closed' : List ℕ)
      → Grows
          (record { descriptors = descriptors; sent = log; closed = closed })
          (record { descriptors = descriptors; sent = log ++ more; closed = closed' })
  same_set descriptors log more closed closed' = record {
    kept = λ fd h. h;
    greeted = λ all fd h. Greeted-more fd log more (all fd h);
  }

  upgrade-Grows :
      (con : ℕ) (key : Bytes) (descriptors : Descriptors) (log : Sent) (closed closed' : List ℕ)
      → key ≢ []
      → Grows
          (record { descriptors = descriptors; sent = log; closed = closed })
          (record {
            descriptors = insert con descriptors;
            sent = log ++ (con, handshake (get_accept_key sha1 key)) ∷ [];
            closed = closed';
          })
  upgrade-Grows con key descriptors log closed closed' k = record {
    kept = λ fd h. ground (arith, has-insert con fd descriptors, h);
    greeted = λ all fd h. member all fd h;
  }
    where
      member :
          AllGreeted descriptors log
          → (fd : ℕ) → has fd (insert con descriptors) ≡ true
          → Greeted fd (log ++ (con, handshake (get_accept_key sha1 key)) ∷ [])
      member all fd h = elim (Bool-cases (con == fd)) [
        | inl e ↦
            subst (λ c. Greeted c (log ++ (con, handshake (get_accept_key sha1 key)) ∷ []))
              (ground (arith, e)) (key, k, Memᴰ.append_right log (Memᴰ.head refl))
        | inr e ↦
            Greeted-more fd log _ (all fd (ground (arith, has-insert con fd descriptors, h, e)))
      ]

  outcome-Grows :
      (con : ℕ) (w : World) (h : Handled)
      → Outcome sha1 con w.descriptors h
      → Grows w (record {
        descriptors = h.descriptors;
        sent = w.sent ++ h.sent;
        closed = w.closed ++ h.closed;
      })
  unfolding respond
  outcome-Grows con w h silent = same_set w.descriptors w.sent [] w.closed _
  outcome-Grows con w h (upgraded key k) = upgrade-Grows con key w.descriptors w.sent w.closed _ k
  outcome-Grows con w h (answered a) =
      same_set w.descriptors w.sent ((con, a.response) ∷ []) w.closed _

  same-Grows : (w : World) → Grows w w
  same-Grows w = record { kept = λ fd h. h; greeted = λ all. all }

  both-Grows : {u v w : World} → Grows u v → Grows v w → Grows u w
  both-Grows g h = record {
    kept = λ fd e. h.kept fd (g.kept fd e);
    greeted = λ all. h.greeted (g.greeted all);
  }

  module _ (regex : Regex) (routes : Map Endpoint) (arrivals : Arrivals) where
    perform-Grows :
        (i : ℕ) (c : Call) (w w' : World)
        → perform regex sha1 routes arrivals i c w ≡ some w'
        → Grows w w'
    unfolding perform
    perform-Grows i (close fd) w w' e =
        subst (Grows w) (some-injective e) (record { kept = λ fd h. h; greeted = λ all. all })
    perform-Grows i (set_non_blocking fd) w w' e = subst (Grows w) (some-injective e) (same-Grows w)
    perform-Grows i (notify_message_request fd) w w' e =
        subst (Grows w) (some-injective e) (same_set w.descriptors w.sent _ w.closed w.closed)
    perform-Grows i (handle_incomming_connection fd) w w' e =
        elim (Option-cases
          (handle_connection_request regex sha1 routes fd w.descriptors (arrivals.received i))) [
            | inl n ↦ absurd (ground (arith, sym (ap (λ o. o >>= handled w) n) ∙ e))
            | inr (h, s) ↦
                subst (Grows w) (some-injective (sym (ap (λ o. o >>= handled w) s) ∙ e)) (
                  outcome-Grows fd w h (
                    handle_connection_request-outcome regex sha1 routes fd w.descriptors
                      (arrivals.received i) h s))
          ]

    perform_all-Grows :
        (i : ℕ) (calls : List Call) (w w' : World)
        → perform_all regex sha1 routes arrivals i calls w ≡ some w'
        → Grows w w'
    unfolding perform_all
    perform_all-Grows i [] w w' e = subst (Grows w) (some-injective e) (same-Grows w)
    perform_all-Grows i (c ∷ calls) w w' e =
        elim (Option-cases (perform regex sha1 routes arrivals i c w)) [
          | inl n ↦ absurd (
              ground (
                arith,
                sym (ap (λ o. o >>= perform_all regex sha1 routes arrivals (suc i) calls) n) ∙ e,
              ))
          | inr (v, s) ↦ both-Grows (perform-Grows i c w v s) (
              perform_all-Grows (suc i) calls v w'
                (sym (ap (λ o. o >>= perform_all regex sha1 routes arrivals (suc i) calls) s) ∙ e))
        ]

    -- Whatever calls the loop makes and whatever arrives: every connection in the manager's set was
    -- sent the answer to a handshake with a key.
    pub perform_all-greeted :
        (calls : List Call) (w : World)
        → perform_all regex sha1 routes arrivals 0 calls
            (record { descriptors = []; sent = []; closed = [] })
          ≡ some w
        → (fd : ℕ) → has fd w.descriptors ≡ true
        → (key : Bytes) × (key ≢ []) × Memᴰ (fd, handshake (get_accept_key sha1 key)) w.sent
    unfolding has
    perform_all-greeted calls w e =
        (perform_all-Grows 0 calls (record { descriptors = []; sent = []; closed = [] }) w
            e).greeted
          (λ fd h. absurd (ground (arith, h)))

    -- A connection never leaves the manager's set: also where the loop closes its descriptor, the
    -- set holds it behind the calls.
    pub perform_all-kept :
        (calls : List Call) (w w' : World) (fd : ℕ)
        → perform_all regex sha1 routes arrivals 0 (calls ++ close fd ∷ []) w ≡ some w'
        → has fd w.descriptors ≡ true
        → has fd w'.descriptors ≡ true
    perform_all-kept calls w w' fd e = (perform_all-Grows 0 (calls ++ close fd ∷ []) w w' e).kept fd
