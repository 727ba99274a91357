-- ===== src/Websocket/Manager/History.antt =====
-- The calls of the manager in any order, with all that has been sent.
use simple_server.Prelude.{
  ℕ, ◌≡◌, ◌≢◌, ◌⊎◌, refl, sym, ap, ◌∙◌, false, ◌||◌, Option, none, some, [], ◌∷◌, ◌++◌, Bytes,
  if◌then◌else◌, arith, ◌==◌, Bool-cases, Option-cases, inl, inr,
}
use simple_server.Text.Search.{is_some}
use simple_server.Text.Words.{is_empty}
use simple_server.Text.StringMap.{Map}
use simple_server.Socket.{Script}
use simple_server.Websocket.Frame.{read_frame}
use simple_server.Websocket.Manager.{
  Sha1, Descriptors, has, Sent, handshake, get_accept_key, find_websocket_key,
  add_new_connection_connection, broadcast, message_of, notify_message_request,
}
use simple_server.Websocket.Manager.Handshake.{is_empty-false}
use simple_server.Websocket.Manager.Set.{IsAscending, insert-IsAscending, has-insert}

-- The sets and the logs that sequences of calls lead to.
pub data History (sha1 : Sha1) : Descriptors → Sent → Type 0 where
  start : History sha1 [] []
  connect :
      {descriptors : Descriptors} {log : Sent} (fd : ℕ) (headers : Map Bytes)
      → History sha1 descriptors log
      → History sha1
          (add_new_connection_connection sha1 fd headers descriptors).descriptors
          (log ++ (add_new_connection_connection sha1 fd headers descriptors).sent)
  receive :
      {descriptors : Descriptors} {log : Sent} (fd : ℕ) (script : Script)
      → History sha1 descriptors log
      → History sha1 descriptors (log ++ (notify_message_request fd descriptors script).0)

-- The first bytes that a connection was sent.
abbrev pub first_sent : ℕ → Sent → Option Bytes
first_sent fd [] = none
first_sent fd ((c, bytes) ∷ log) = if c == fd then some bytes else first_sent fd log

-- The members of the set stay in ascending order, so that none stands in it twice.
pub History-IsAscending :
    {sha1 : Sha1} {descriptors : Descriptors} {log : Sent}
    → History sha1 descriptors log
    → IsAscending descriptors
unfolding add_new_connection_connection
History-IsAscending start = tt
History-IsAscending {sha1} (connect {descriptors} fd headers h) =
    elim (Bool-cases (is_empty (find_websocket_key headers))) [
      | inl e ↦ rw e (History-IsAscending h)
      | inr e ↦ rw e (insert-IsAscending fd descriptors (History-IsAscending h))
    ]
History-IsAscending (receive fd script h) = History-IsAscending h

-- The first of two results, where there is one.
abbrev pub or_else {ℓ} : {A : Type ℓ} → Option A → Option A → Option A
or_else none o = o
or_else (some a) o = some a

first_sent-append :
    (fd : ℕ) (xs ys : Sent)
    → first_sent fd (xs ++ ys) ≡ or_else (first_sent fd xs) (first_sent fd ys)
first_sent-append fd [] ys = refl
first_sent-append fd ((c, bytes) ∷ xs) ys = ground (arith, first_sent-append fd xs ys)

first_sent-broadcast :
    (fd : ℕ) (message : Bytes) (descriptors : Descriptors)
    → is_some (first_sent fd (broadcast message descriptors)) ≡ has fd descriptors
unfolding broadcast has
first_sent-broadcast fd message [] = refl
first_sent-broadcast fd message (d ∷ ds) = ground (arith, first_sent-broadcast fd message ds)

or_else-is_some {ℓ} :
    {A : Type ℓ} (o p : Option A) → is_some (or_else o p) ≡ (is_some o || is_some p)
or_else-is_some none p = refl
or_else-is_some (some a) p = refl

is_some-append :
    (fd : ℕ) (xs ys : Sent)
    → is_some (first_sent fd (xs ++ ys))
      ≡ (is_some (first_sent fd xs) || is_some (first_sent fd ys))
is_some-append fd xs ys =
    ap is_some (first_sent-append fd xs ys) ∙ or_else-is_some (first_sent fd xs) (first_sent fd ys)

first_sent-notify :
    (fd sender : ℕ) (descriptors : Descriptors) (script : Script)
    → (has fd descriptors
        || is_some (first_sent fd (notify_message_request sender descriptors script).0))
      ≡ has fd descriptors
unfolding notify_message_request
first_sent-notify fd sender descriptors script =
    ground (arith, first_sent-broadcast fd (message_of sender (read_frame script).0) descriptors)

first_sent-added :
    (sha1 : Sha1) (fd c : ℕ) (headers : Map Bytes) (descriptors : Descriptors)
    → let added = add_new_connection_connection sha1 fd headers descriptors in
      (has c descriptors || is_some (first_sent c added.sent)) ≡ has c added.descriptors
unfolding add_new_connection_connection
first_sent-added sha1 fd c headers descriptors = ground (arith, has-insert fd c descriptors)

-- The connections that anything was sent to are those that are registered.
pub first_sent-has :
    {sha1 : Sha1} {descriptors : Descriptors} {log : Sent} (fd : ℕ)
    → History sha1 descriptors log
    → is_some (first_sent fd log) ≡ has fd descriptors
unfolding has
first_sent-has fd start = refl
first_sent-has {sha1} fd (connect {descriptors} {log} c headers h) =
    is_some-append fd log _
    ∙ rw (first_sent-has fd h) (first_sent-added sha1 c fd headers descriptors)
first_sent-has fd (receive {descriptors} {log} c script h) =
    is_some-append fd log _ ∙ rw (first_sent-has fd h) (first_sent-notify fd c descriptors script)

-- One of the calls connected the descriptor with the headers.
abbrev pub Connected :
    {sha1 : Sha1} {descriptors : Descriptors} {log : Sent}
    → ℕ
    → Map Bytes
    → History sha1 descriptors log
    → Type 0
Connected fd headers start = ⊥
Connected fd headers (connect c given h) = ((c ≡ fd) × (given ≡ headers)) ⊎ Connected fd headers h
Connected fd headers (receive c script h) = Connected fd headers h

-- The answer to the handshake with the key of the headers.
abbrev pub Answers : Sha1 → Map Bytes → Bytes → Type 0
Answers sha1 headers bytes =
    (find_websocket_key headers ≢ [])
    × (bytes ≡ handshake (get_accept_key sha1 (find_websocket_key headers)))

-- The answer to a handshake of the connection that is one of the calls.
abbrev pub IsHandshake :
    {sha1 : Sha1} {descriptors : Descriptors} {log : Sent}
    → History sha1 descriptors log
    → ℕ
    → Bytes
    → Type 0
IsHandshake {sha1} h fd bytes =
    (headers : Map Bytes) × Connected fd headers h × Answers sha1 headers bytes

sent_by_add :
    (sha1 : Sha1) (fd c : ℕ) (headers : Map Bytes) (descriptors : Descriptors) (bytes : Bytes)
    → first_sent c (add_new_connection_connection sha1 fd headers descriptors).sent ≡ some bytes
    → (fd ≡ c) × Answers sha1 headers bytes
unfolding add_new_connection_connection
sent_by_add sha1 fd c headers descriptors bytes h =
    elim (Bool-cases (is_empty (find_websocket_key headers))) [
      | inl e ↦ absurd (ground arith)
      | inr e ↦ (ground arith, (is_empty-false (find_websocket_key headers) e, ground arith))
    ]

-- To a connection that has no entry yet, a message is not sent.
no_first_message :
    (fd sender : ℕ) (descriptors : Descriptors) (script : Script) (bytes : Bytes)
    → has fd descriptors ≡ false
    → first_sent fd (notify_message_request sender descriptors script).0 ≢ some bytes
no_first_message fd sender descriptors script bytes outside h =
    ground (arith, first_sent-notify fd sender descriptors script)

-- Whatever the calls, the first bytes that the manager sends to a connection are the answer to a
-- handshake of that connection: a call gave it headers with a key that is not empty, and the answer is
-- made from that key.
pub first_sent-IsHandshake :
    {sha1 : Sha1} {descriptors : Descriptors} {log : Sent} (fd : ℕ) (bytes : Bytes)
    (h : History sha1 descriptors log)
    → first_sent fd log ≡ some bytes
    → IsHandshake h fd bytes
first_sent-IsHandshake fd bytes start e = absurd (ground arith)
first_sent-IsHandshake {sha1} fd bytes (connect {descriptors} {log} c headers h) e =
    elim (Option-cases (first_sent fd log)) [
      | inl new ↦
          let (same, answer) =
            sent_by_add sha1 c fd headers descriptors bytes
              (sym (first_sent-append fd log _ ∙ rw new) ∙ e) in
          (headers, inl (same, refl), answer)
      | inr (b, old) ↦
          let (given, connected, answer) =
            first_sent-IsHandshake fd bytes h
              (old ∙ (sym (first_sent-append fd log _ ∙ rw old) ∙ e)) in
          (given, inr connected, answer)
    ]
first_sent-IsHandshake fd bytes (receive {descriptors} {log} c script h) e =
    elim (Option-cases (first_sent fd log)) [
      | inl new ↦ absurd (
          no_first_message fd c descriptors script bytes (sym (first_sent-has fd h) ∙ rw new)
            (sym (first_sent-append fd log _ ∙ rw new) ∙ e))
      | inr (b, old) ↦
          let (given, connected, answer) =
            first_sent-IsHandshake fd bytes h
              (old ∙ (sym (first_sent-append fd log _ ∙ rw old) ∙ e)) in
          (given, connected, answer)
    ]
