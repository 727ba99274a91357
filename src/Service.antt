-- ===== src/Service.antt =====
-- The parts put together as the program does: the calls that the loop of src/tcp_poll_handler.cpp
-- makes go to `handle_connection_request` of src/http_handler.cpp and to `notify_message_request` of
-- src/websocket_handler.cpp.
pub mod Registered
use simple_server.Prelude.{ℕ, zero, suc, Option, none, some, List, [], ◌∷◌, ◌++◌}
use simple_server.Socket.{Received, Script}
use simple_server.Text.StringMap.{Map}
use simple_server.Http.Headers.{◌>>=◌}
use simple_server.Http.Route.{Regex}
use simple_server.Http.Server.{Endpoint}
use simple_server.Http.Server
use simple_server.Tcp.Poll.{Call, close, set_non_blocking, handle_incomming_connection}
use simple_server.Tcp.Poll
use simple_server.Websocket.Manager.{Sha1, Sent, Descriptors}
use simple_server.Websocket.Manager

-- The set of the manager, all that was sent, and all that was closed, in order.
pub record World : Type 0 where
  pub descriptors : Descriptors
  pub sent : Sent
  pub closed : List ℕ

-- What arrives in the call with a number: the request, or the pieces of a frame.
pub record Arrivals : Type 0 where
  pub received : ℕ → Received
  pub frames : ℕ → Script

-- The world behind a call of `handle_connection_request`.
abbrev pub handled : World → Server.Handled → Option World
handled w h =
    some (record {
      descriptors = h.descriptors;
      sent = w.sent ++ h.sent;
      closed = w.closed ++ h.closed;
    })

module _ (regex : Regex) (sha1 : Sha1) (routes : Map Endpoint) (arrivals : Arrivals) where
  -- The connection's callback is `handle_connection_request`, as in sample/main.cpp.
  unfoldable pub perform : ℕ → Call → World → Option World
  perform i (close fd) w = some (record w { closed = w.closed ++ fd ∷ [] })
  perform i (set_non_blocking fd) w = some w
  perform i (handle_incomming_connection fd) w =
      Server.handle_connection_request regex sha1 routes fd w.descriptors (arrivals.received i)
      >>= handled w
  perform i (Poll.notify_message_request fd) w =
      let (sent, rest) = Manager.notify_message_request fd w.descriptors (arrivals.frames i) in
      some (record w { sent = w.sent ++ sent })

  -- The calls in their order, from the one with number i on.
  unfoldable pub perform_all : ℕ → List Call → World → Option World
  unfolding perform
  perform_all i [] w = some w
  perform_all i (c ∷ calls) w = perform i c w >>= perform_all (suc i) calls
