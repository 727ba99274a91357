-- ===== src/Experiments/Echo.antt =====
-- The echo server of experiments/cppws/cppws.cpp: a request is read line by line, a connection with a
-- WebSocket key makes the handshake, and its messages are sent back. read_frame, send_frame and the
-- text of the handshake are those of src/websocket_handler.cpp. The program only looks keys up in its
-- std::map, whose order is left out.
pub mod Echoes
pub mod Ends
pub mod Headers
pub mod Receive
use simple_server.Prelude.{
  ℕ, zero, suc, ◌+◌, ◌-◌, ◌*◌, ◌/◌, ◌%◌, ◌^◌, Bool, true, false, Option, none, some, List, [], ◌∷◌,
  ◌++◌, Bytes, bit_or, codes, length, take, drop, map, leb, if◌then◌else◌,
}
use simple_server.Socket.{Script}
use simple_server.Text.Search.{find, contains, text_eq}
use simple_server.Text.StringMap.{Map, lookup, insert}
use simple_server.Text.Words.{is_empty}
use simple_server.Websocket.Frame.{read_frame, push_bytes, encode_frame}
use simple_server.Websocket.Manager.{Sha1, handshake, get_accept_key}

-- The bytes that `sendWebSocketFrame` passes to `send`.
unfoldable pub frame_of : Bytes → ℕ → Bytes
frame_of payload opcode =
    let n = length payload in
    let head =
      if leb n 125
      then n ∷ []
      else if leb n 0xffff
      then 126 ∷ n / 2 ^ 8 % 2 ^ 8 ∷ n % 2 ^ 8 ∷ []
      else 127 ∷ push_bytes 8 n in
    bit_or 0x80 opcode ∷ (head ++ payload)

-- The loop that reads a line, behind the characters in `line`. Each `recv` asks for one character,
-- and so brings no second one. Where nothing more arrives, what was read is the line.
unfoldable pub read_line : Bytes → Script → Bytes × Script
read_line line [] = (line, [])
read_line line (none ∷ s) = (line, s)
read_line line (some [] ∷ s) = (line, s)
read_line line (some (ch ∷ chs) ∷ s) =
    let longer = line ++ ch ∷ [] in
    let more = read_line longer s in
    if contains (codes "\r\n") longer then (take (length longer - 2) longer, s) else more

-- The parts before and behind the first place of `where`.
unfoldable pub split_by : Bytes → Bytes → Bytes × Bytes
split_by line where_ = parts (find where_ line)
  where
    parts : Option ℕ → Bytes × Bytes
    parts none = (codes "NOTHING", [])
    parts (some pos) = (take pos line, drop (pos + length where_) line)

unfoldable pub add_line : Bytes → Map Bytes → Map Bytes
unfolding split_by
add_line line ret =
    let (first, second) = split_by line (codes ": ") in
    if text_eq first (codes "NOTHING") then ret else insert first second ret

-- The loop over the lines up to an empty one, on fuel.
unfoldable pub extract_request : ℕ → Map Bytes → Script → Option (Map Bytes × Script)
unfolding read_line add_line
extract_request zero ret s = none
extract_request (suc fuel) ret s =
    let (line, rest) = read_line [] s in
    let more = extract_request fuel (add_line line ret) rest in
    if is_empty line then some (ret, rest) else more

-- Whether `send` succeeds is an argument; what it is given, and whether the handshake was made.
unfoldable pub do_ws_handshake : Sha1 → Bool → Map Bytes → Bytes × Bool
do_ws_handshake sha1 sent headers = reply_to_key (lookup (codes "Sec-WebSocket-Key") headers)
  where
    reply_to_key : Option Bytes → Bytes × Bool
    reply_to_key none = ([], false)
    reply_to_key (some key) = (handshake (get_accept_key sha1 key), sent)

-- The loop, on fuel: the frames that it sends, until no message arrives.
unfoldable pub echo_server : ℕ → Script → Option (List Bytes)
echo_server zero script = none
echo_server (suc fuel) script =
    let (msg, rest) = read_frame script in
    let more = echo_server fuel rest in if is_empty msg then some [] else reply msg more
  where
    reply : Bytes → Option (List Bytes) → Option (List Bytes)
    reply msg none = none
    reply msg (some frames) = some (encode_frame msg ∷ frames)

-- What is sent to the connection whose headers were read, `s` being what arrives behind them.
unfoldable pub serve_headers : Sha1 → Bool → ℕ → Script → Map Bytes → Option (List Bytes)
unfolding do_ws_handshake
serve_headers sha1 sent messages s headers =
    let (response, made) = do_ws_handshake sha1 sent headers in
    let echoes = echo_server messages s in
    if has_key (lookup (codes "Sec-WebSocket-Key") headers)
    then (if made then behind response echoes else some (response ∷ []))
    else some []
  where
    has_key : Option Bytes → Bool
    has_key none = false
    has_key (some []) = false
    has_key (some (c ∷ cs)) = true

    behind : Bytes → Option (List Bytes) → Option (List Bytes)
    behind response none = none
    behind response (some frames) = some (response ∷ frames)

-- The body of the loop of `main` for an accepted connection: all that is sent to it before it is
-- closed. Fuel is given for the lines and for the messages.
unfoldable pub serve_client : Sha1 → Bool → ℕ → ℕ → Script → Option (List Bytes)
unfolding serve_headers
serve_client sha1 sent lines messages s = with_request (extract_request lines [] s)
  where
    with_request : Option (Map Bytes × Script) → Option (List Bytes)
    with_request none = none
    with_request (some (headers, rest)) = serve_headers sha1 sent messages rest headers

-- A round of the loop of `main`: the result of `accept`, whether the handshake can be sent, and what
-- arrives.
pub record Client : Type 0 where
  pub client : ℕ
  pub sent : Bool
  pub script : Script

-- The calls of `send` and `close`, each with its descriptor.
pub data Call : Type 0 where
  sends : ℕ → Bytes → Call
  closes : ℕ → Call

-- The loop: the calls for each client, the last of which closes it. The next one is accepted when
-- the one before is closed.
unfoldable pub serve_clients : Sha1 → ℕ → ℕ → List Client → Option (List Call)
unfolding serve_client
serve_clients sha1 lines messages [] = some []
serve_clients sha1 lines messages (c ∷ rest) =
    behind_client c.client (serve_client sha1 c.sent lines messages c.script)
      (serve_clients sha1 lines messages rest)
  where
    behind_client : ℕ → Option (List Bytes) → Option (List Call) → Option (List Call)
    behind_client client none more = none
    behind_client client (some sent) none = none
    behind_client client (some sent) (some more) =
        some (map (sends client) sent ++ closes client ∷ more)

-- `main`: it returns where `bind` fails.
unfoldable pub echo_main : Bool → Sha1 → ℕ → ℕ → List Client → Option (List Call)
unfolding serve_clients
echo_main bound sha1 lines messages clients =
    if bound then serve_clients sha1 lines messages clients else some []
