-- ===== src/Older/Service/Greeted.antt =====
-- Whom the thread that polls reads and closes, in the older server as a whole.
use mathlib.Core.List.Memᴰ
use mathlib.Core.List.{Memᴰ}
use simple_server.Prelude.{ℕ, ◌≡◌, ◌≢◌, ◌⊎◌, List, [], ◌∷◌, Bytes, All}
use simple_server.Older.Connections.{Connections}
use simple_server.Older.Connections.Acts.{ActsOn, Polls}
use simple_server.Older.Server.{Handled}
use simple_server.Older.Server.Outcome.{Outcome}
use simple_server.Older.Service.{Doing, sent, closed, polled, Log}
use simple_server.Websocket.Manager.{Sha1, handshake, get_accept_key}

-- For what holds of the connections, what holds of the polled descriptors, and of what was done.
module _ (event_fd : ℕ) (P : ℕ → Type 0) where
  abbrev pub Watched : ℕ → Type 0
  Watched fd = P fd ⊎ (fd ≡ event_fd)

  abbrev pub Fine : Doing → Type 0
  Fine (sent c bytes) = Unit
  Fine (closed c) = Unit
  Fine (polled a) = ActsOn P Watched a

  abbrev pub Invariant : Connections → Log → Type 0
  Invariant s log = All P s.web_socket_connections × Polls P Watched s.poll_fds × All Fine log

module _ (sha1 : Sha1) where
  -- The connection was sent the answer to a handshake with a key, or this is still to be sent.
  abbrev pub Greeted : Log → ℕ → Type 0
  Greeted log fd =
      (key : Bytes) × (key ≢ []) × Memᴰ (sent fd (handshake (get_accept_key sha1 key))) log

  abbrev pub Due : List Handled → ℕ → Type 0
  Due pending fd =
      (h : Handled) × (key : Bytes) × (key ≢ [])
      × Memᴰ h pending
      × (h.sent ≡ (fd, handshake (get_accept_key sha1 key)) ∷ [])

  abbrev pub Promised : List Handled → Log → ℕ → Type 0
  Promised pending log fd = Greeted log fd ⊎ Due pending fd
