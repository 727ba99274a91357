-- ===== src/Experiments/Echo/Ends.antt =====
-- The loops of experiments/cppws/cppws.cpp end.
use simple_server.Prelude.{
  ℕ, zero, suc, ◌≤◌, ◌<◌, ◌≡◌, refl, Bool, true, false, Option, none, some, List, [], ◌∷◌, ◌++◌,
  Bytes, length, arith, codes, Bool-cases, inl, inr, map, All,
}
use simple_server.Socket.{Received, Script}
use simple_server.Text.StringMap.{Map, lookup}
use simple_server.Text.Words.{is_empty}
use simple_server.Http.Route.Total.{Defined, some-Defined}
use simple_server.Websocket.Frame.{read_frame, encode_frame}
use simple_server.Websocket.Frame.Progress.{read_frame-shorter, read_frame-nil}
use simple_server.Websocket.Manager.{Sha1}
use simple_server.Experiments.Echo.{
  read_line, add_line, extract_request, do_ws_handshake, echo_server, serve_headers, serve_client,
  Client, Call, sends, closes, serve_clients, echo_main,
}

-- A line takes at least one result of `recv`.
read_line-shorter :
    (line : Bytes) (received : Received) (s : Script)
    → length (read_line line (received ∷ s)).1 ≤ length s
unfolding read_line
read_line-shorter line none s = omega arith
read_line-shorter line (some []) s = omega arith
read_line-shorter line (some (ch ∷ chs)) [] = ground arith
read_line-shorter line (some (ch ∷ chs)) (r ∷ s) =
    ground (arith, read_line-shorter (line ++ ch ∷ []) r s)

-- The headers of a request, and no more to arrive than there was.
HeadersOf : ℕ → Map Bytes → Script → Type 0
HeadersOf fuel ret s =
    (headers : Map Bytes) × (rest : Script) × (extract_request fuel ret s ≡ some (headers, rest))
    × (length rest ≤ length s)

extract_request-HeadersOf :
    (fuel : ℕ) (ret : Map Bytes) (s : Script) → length s < fuel → HeadersOf fuel ret s
unfolding extract_request HeadersOf
extract_request-HeadersOf zero ret s h = absurd (omega arith)
extract_request-HeadersOf (suc fuel) ret [] h = (ret, [], refl, omega arith)
extract_request-HeadersOf (suc fuel) ret (r ∷ s) h =
    let (line, rest) = read_line [] (r ∷ s) in
    let shorter = read_line-shorter [] r s in
    elim (Bool-cases (is_empty line)) [
      | inl e ↦ (ret, rest, rw e refl, omega (arith, shorter))
      | inr e ↦
          let (headers, left, read, le) =
            extract_request-HeadersOf fuel (add_line line ret) rest (omega (arith, shorter, h)) in
          (headers, left, rw e read, omega (arith, shorter, le))
    ]

echo_server-Defined : (fuel : ℕ) (s : Script) → length s < fuel → Defined (echo_server fuel s)
unfolding echo_server
echo_server-Defined zero s h = absurd (omega arith)
echo_server-Defined (suc fuel) [] h = ([], rw read_frame-nil refl)
echo_server-Defined (suc fuel) (r ∷ s) h =
    let (msg, rest) = read_frame (r ∷ s) in
    let shorter = read_frame-shorter r s in
    elim (Bool-cases (is_empty msg)) [
      | inl e ↦ ([], rw e refl)
      | inr e ↦
          let (frames, more) = echo_server-Defined fuel rest (omega (arith, shorter, h)) in
          (encode_frame msg ∷ frames, rw (e, more) refl)
    ]

serve_headers-Defined :
    (sha1 : Sha1) (sent : Bool) (messages : ℕ) (s : Script) (headers : Map Bytes)
    → length s < messages
    → Defined (serve_headers sha1 sent messages s headers)
unfolding serve_headers do_ws_handshake
serve_headers-Defined sha1 sent messages s headers h =
    let (frames, e) = echo_server-Defined messages s h in
    by_key sent frames e (lookup (codes "Sec-WebSocket-Key") headers) refl
  where
    by_key :
        (sent : Bool) (frames : List Bytes)
        → echo_server messages s ≡ some frames
        → (key : Option Bytes) → lookup (codes "Sec-WebSocket-Key") headers ≡ key
        → Defined (serve_headers sha1 sent messages s headers)
    by_key sent frames e none k = ([], rw k refl)
    by_key sent frames e (some []) k = ([], rw k refl)
    by_key true frames e (some (c ∷ cs)) k = rw (k, e) (some-Defined _)
    by_key false frames e (some (c ∷ cs)) k = rw k (some-Defined _)

-- Whatever a client sends, and whether the handshake is sent: with more rounds for the lines and for
-- the messages than results of `recv`, its connection is served to the end.
serve_client-Defined :
    (sha1 : Sha1) (sent : Bool) (lines messages : ℕ) (s : Script)
    → length s < lines
    → length s < messages
    → Defined (serve_client sha1 sent lines messages s)
unfolding serve_client HeadersOf
serve_client-Defined sha1 sent lines messages s enough_lines enough_messages =
    let (headers, rest, read, le) = extract_request-HeadersOf lines [] s enough_lines in
    let (frames, served) =
      serve_headers-Defined sha1 sent messages rest headers (omega (arith, le, enough_messages)) in
    (frames, rw read served)

-- The descriptors that are closed, in order.
abbrev pub closed_of : List Call → List ℕ
closed_of [] = []
closed_of (sends client bytes ∷ calls) = closed_of calls
closed_of (closes client ∷ calls) = client ∷ closed_of calls

closed_of-sends :
    (client : ℕ) (frames : List Bytes) (calls : List Call)
    → closed_of (map (sends client) frames ++ calls) ≡ closed_of calls
closed_of-sends client [] calls = refl
closed_of-sends client (f ∷ frames) calls = closed_of-sends client frames calls

-- A client is sent nothing before the one ahead of it is closed, and nothing when it is closed itself.
abbrev pub InTurn : List Call → List Client → Type 0
InTurn [] [] = Unit
InTurn [] (c ∷ clients) = ⊥
InTurn (sends client bytes ∷ calls) [] = ⊥
InTurn (sends client bytes ∷ calls) (c ∷ clients) = (client ≡ c.client) × InTurn calls (c ∷ clients)
InTurn (closes client ∷ calls) [] = ⊥
InTurn (closes client ∷ calls) (c ∷ clients) = (client ≡ c.client) × InTurn calls clients

InTurn-sends :
    (c : Client) (frames : List Bytes) (calls : List Call) (clients : List Client)
    → InTurn calls (c ∷ clients)
    → InTurn (map (sends c.client) frames ++ calls) (c ∷ clients)
InTurn-sends c [] calls clients h = h
InTurn-sends c (f ∷ frames) calls clients h = (refl, InTurn-sends c frames calls clients h)

-- There is a result, every client is closed once, in their order, and each one is sent what it is sent
-- in its turn.
abbrev pub IsServed : Option (List Call) → List Client → Type 0
IsServed result clients =
    (calls : List Call) × (result ≡ some calls)
    × (closed_of calls ≡ map (λ c. c.client) clients)
    × InTurn calls clients

-- Whatever the clients of the echo server send, and whichever handshakes can be sent: with more rounds
-- for the lines and for the messages than results of `recv` for any client, the loop of `main` comes
-- to the end of its clients. It closes each accepted client once, in the order of their connections,
-- and between two closes it sends only to the one that it closes next.
pub echo_main-IsServed :
    (sha1 : Sha1) (lines messages : ℕ) (clients : List Client)
    → All (λ c. (length c.script < lines) × (length c.script < messages)) clients
    → IsServed (echo_main true sha1 lines messages clients) clients
unfolding echo_main serve_clients
echo_main-IsServed sha1 lines messages [] h = ([], refl, refl, tt)
echo_main-IsServed sha1 lines messages (c ∷ rest) ((some_lines, some_messages), h) =
    let (sent, e) =
      serve_client-Defined sha1 c.sent lines messages c.script some_lines some_messages in
    let (calls, more, same, turn) = echo_main-IsServed sha1 lines messages rest h in
    (
      map (sends c.client) sent ++ closes c.client ∷ calls,
      rw (e, more) refl,
      rw (closed_of-sends c.client sent (closes c.client ∷ calls), same),
      InTurn-sends c sent (closes c.client ∷ calls) rest (refl, turn),
    )
