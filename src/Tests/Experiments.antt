-- ===== src/Tests/Experiments.antt =====
-- Runs of the echo server and of the Base64 encoder of the experiments.
use simple_server.Experiments.Echo.Headers.{extract_request-print}
use simple_server.Experiments.Echo.Echoes.{feed}
use simple_server.Http.Response.{http_headers_to_response_string}
use simple_server.Prelude.{
  ◌++◌, ◌≡◌, refl, true, false, none, some, ◌-◌, ◌^◌, List, [], ◌∷◌, Bytes, codes, arith,
}
use simple_server.Text.StringMap.{Map}
use simple_server.Text.Search.{find, starts_with}
use simple_server.Websocket.Frame.{read_frame, read_length, read_payload}
use simple_server.Websocket.Base64.{base64_char}
use simple_server.Websocket.Manager.{Sha1}
use simple_server.Experiments.Encoder.{encode_text}
use simple_server.Experiments.Echo.{extract_request, frame_of, Client, echo_main}
use simple_server.Experiments.Echo.Ends.{IsServed, echo_main-IsServed}
use simple_server.Experiments.Echo.Receive.{text_frame, ping_frame, receive_web_socket_frame}
use simple_server.Experiments.Echo.Receive.Agree.{receive_web_socket_frame-text}
use simple_server.Experiments.Passing.{
  bare, brings, Round, recv_fd, take_clients, passed, refused, broken_pipe, pass_clients,
}
use simple_server.Socket.{Script}
use simple_server.Websocket.Frame.RoundTrip.{read_frame-masked}
use simple_server.Experiments.Echo.Echoes.{Message, arriving_all}

abbrev zero_sum : Sha1
zero_sum message = 0 ∷ 0 ∷ 0 ∷ 0 ∷ 0 ∷ []

abbrev sent_lines : List Bytes
sent_lines = codes "GET /chat HTTP/1.1" ∷ codes "Host: here" ∷ codes "Sec-WebSocket-Key: abc" ∷ []

-- "Hello" under the mask, in two chunks, as in RFC 6455.
abbrev hello : Message
hello = record {
  first = 0x81;
  k0 = 0x37;
  k1 = 0xfa;
  k2 = 0x21;
  k3 = 0x3d;
  chunks = (0x7f ∷ 0x9f ∷ []) ∷ (0x4d ∷ 0x51 ∷ 0x58 ∷ []) ∷ [];
  text = codes "Hello";
}

-- The frame of the message, and one with bytes that are never read.
abbrev hello_script : Script
hello_script = arriving_all (hello ∷ []) (some (1 ∷ 2 ∷ 3 ∷ []) ∷ [])

hello_read : read_frame hello_script ≡ (codes "Hello", some (1 ∷ 2 ∷ 3 ∷ []) ∷ [])
hello_read =
    read_frame-masked 0x81 0x37 0xfa 0x21 0x3d hello.chunks (some (1 ∷ 2 ∷ 3 ∷ []) ∷ [])
      (codes "Hello") (omega arith) (tt, (tt, tt)) refl refl

receive_web_socket_frame-text_example :
    receive_web_socket_frame hello_script
    ≡ some (text_frame (codes "Hello"), some (1 ∷ 2 ∷ 3 ∷ []) ∷ [])
receive_web_socket_frame-text_example =
    receive_web_socket_frame-text hello_script (codes "Hello") (some (1 ∷ 2 ∷ 3 ∷ []) ∷ [])
      (ground arith) refl hello_read

receive_ping_run : receive_web_socket_frame (some (0x89 ∷ 0 ∷ []) ∷ []) ≡ some (ping_frame, [])
unfolding receive_web_socket_frame read_length read_payload
receive_ping_run = refl

-- A client without a key, and an `accept` that failed.
abbrev two_clients : List Client
two_clients =
    record { client = 5; sent = true; script = some (codes "x") ∷ [] }
    ∷ record { client = 2 ^ 32 - 1; sent = false; script = none ∷ none ∷ [] }
    ∷ []

echo_main-IsServed_example : IsServed (echo_main true zero_sum 3 3 two_clients) two_clients
echo_main-IsServed_example =
    echo_main-IsServed zero_sum 3 3 two_clients
      ((omega arith, omega arith), ((omega arith, omega arith), tt))

-- A round that brings a client, and one whose connection is at its end.
abbrev one_taken : List Round
one_taken = record { conn = 4; message = brings 6; received = some (codes "hi") } ∷ []

taken_run :
    take_clients one_taken
    ≡ some (record { sent = (6, codes "Handled by Backend\n") ∷ []; closed = 6 ∷ 4 ∷ [] })
unfolding take_clients recv_fd
taken_run = refl

at_end_run : take_clients (record { conn = 4; message = bare; received = none } ∷ one_taken) ≡ none
unfolding take_clients recv_fd
at_end_run = refl

passed_run :
    pass_clients ((7, passed) ∷ (8, refused) ∷ (9, broken_pipe) ∷ (10, passed) ∷ [])
    ≡ record { passed_on = 7 ∷ []; closed = 7 ∷ 8 ∷ []; running = false }
unfolding pass_clients
passed_run = refl

encode_text_run : encode_text (codes "Ma") ≡ codes "TWEA"
unfolding encode_text base64_char
encode_text_run = refl

frame_of_run : frame_of (codes "hi") 1 ≡ 0x81 ∷ 2 ∷ codes "hi"
unfolding frame_of
frame_of_run = refl

abbrev asked : Bytes
asked = codes "GET / HTTP/1.1"

abbrev asked_headers : Map Bytes
asked_headers = (codes "Host", codes "here") ∷ (codes "Accept", codes "all") ∷ []

asked_alone : find (codes ": ") asked ≡ none
unfolding find starts_with
asked_alone = refl

extract_request-print_example :
    extract_request 4 [] (
      feed
        (asked ++ (codes "\r\n" ++ (http_headers_to_response_string asked_headers ++ codes "\r\n")))
        (none ∷ []))
    ≡ some (asked_headers, none ∷ [])
extract_request-print_example =
    extract_request-print asked asked_headers (none ∷ []) (ground arith, refl) asked_alone
      (ground arith) (ground arith)
