-- ===== src/Tests/Epoll.antt =====
-- Runs of the epoll handler.
use simple_server.Prelude.{
  arith, ◌^◌, ◌-◌, ◌≡◌, refl, true, false, none, some, List, [], ◌∷◌, codes,
}
use simple_server.Text.Decimal.{to_decimal, decimal_loop}
use simple_server.Tcp.Epoll.{
  error, close, set_non_blocking, enable_keep_alive, epoll_ctl_add, create_server, start_epoll,
  register_server, Event, response, read_client, accept_and_process_message,
}
use simple_server.Tcp.Epoll.Rounds.{Numbers, accept_and_process_message-numbered}

-- `epoll_ctl` fails: both descriptors are closed.
create_server_run :
    create_server (record {
      socket = some 3;
      bind = true;
      listen = true;
      epoll_create = some 4;
      epoll_ctl = false;
    })
    ≡ (error, set_non_blocking 3 ∷ enable_keep_alive 3 ∷ epoll_ctl_add 3 ∷ close 3 ∷ close 4 ∷ [])
unfolding create_server start_epoll register_server
create_server_run = refl

abbrev arrivals : List Event
arrivals =
    record { fd = 3; accepted = some 9; added = true; received = none; would_block = false }
    ∷ record {
      fd = 7;
      accepted = none;
      added = false;
      received = some (codes "GET /");
      would_block = false;
    }
    ∷ record { fd = 8; accepted = none; added = false; received = some []; would_block = false }
    ∷ record {
      fd = 5;
      accepted = none;
      added = false;
      received = some (codes "x");
      would_block = false;
    }
    ∷ []

accept_and_process_message-numbered_example :
    Numbers 41 (7 ∷ 5 ∷ []) (accept_and_process_message 3 (some arrivals ∷ none ∷ []) 41)
accept_and_process_message-numbered_example =
    accept_and_process_message-numbered 3 (some arrivals ∷ none ∷ []) 41 (omega arith)

-- The counter is at its end.
overflow_run : read_client 7 false (some (codes "GET /")) (2 ^ 31 - 1) ≡ none
unfolding read_client
overflow_run = refl

response_run :
    response 42
    ≡ codes
        "HTTP/1.1 200 OK\r\nContent-Type: text/plain\r\nContent-Length: 24\r\nConnection: close\r\n\r\nHola eres el numero==>42"
unfolding response to_decimal decimal_loop
response_run = refl
