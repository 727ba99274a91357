-- ===== src/Websocket/Manager.antt =====
-- `websocket_manager` of src/websocket_handler.cpp and includes/websocket_handler.h: the opening
-- handshake, the set of the connections that have made it, and the broadcast of their messages.
-- The digest of the SHA1 class is a parameter.
pub mod Set
pub mod Handshake
pub mod Broadcast
pub mod Delivered
pub mod History
pub mod Key
use simple_server.Prelude.{
  ℕ, Bool, true, false, Option, none, some, List, [], ◌∷◌, ◌++◌, Bytes, codes, map, ltb, ◌==◌,
  if◌then◌else◌,
}
use simple_server.Text.Search.{text_eq, is_some}
use simple_server.Text.Words.{to_lower_case, is_empty}
use simple_server.Text.Decimal.{to_decimal}
use simple_server.Text.StringMap.{Map, lookup}
use simple_server.Socket.{Script}
use simple_server.Websocket.Base64.{base64_encode}
use simple_server.Websocket.Frame.{read_frame, push_bytes, encode_frame}

abbrev pub magic_string : Bytes
magic_string = codes "258EAFA5-E914-47DA-95CA-C5AB0DC85B11"

-- What `SHA1::Result` stores for an input: the words of its digest.
abbrev pub Sha1 : Type 0
Sha1 = Bytes → List ℕ

-- The memory of the words after `htonl`: the most significant byte of each word comes first.
unfoldable pub network_bytes : List ℕ → Bytes
network_bytes [] = []
network_bytes (w ∷ ws) = push_bytes 4 w ++ network_bytes ws

unfoldable pub get_accept_key : Sha1 → Bytes → Bytes
get_accept_key sha1 challenge = base64_encode (network_bytes (sha1 (challenge ++ magic_string)))

unfoldable pub find_websocket_key : Map Bytes → Bytes
find_websocket_key [] = []
find_websocket_key ((name, value) ∷ headers) =
    if text_eq (to_lower_case name) (codes "sec-websocket-key")
    then value
    else find_websocket_key headers

-- `is_websocket` of the headers of a request.
unfoldable pub is_upgrade : Map Bytes → Bool
is_upgrade headers = is_some (lookup (codes "Upgrade") headers)

-- `std::set<int>`: the members in ascending order.
abbrev pub Descriptors : Type 0
Descriptors = List ℕ

unfoldable pub has : ℕ → Descriptors → Bool
has fd [] = false
has fd (c ∷ cs) = if c == fd then true else has fd cs

unfoldable pub insert : ℕ → Descriptors → Descriptors
insert fd [] = fd ∷ []
insert fd (c ∷ cs) = if ltb fd c then fd ∷ c ∷ cs else if fd == c then c ∷ cs else c ∷ insert fd cs

-- The bytes that are passed to `send`, each with its connection, in the order of the calls.
abbrev pub Sent : Type 0
Sent = List (ℕ × Bytes)

-- `is_websocket` of a connection.
unfoldable pub is_websocket : ℕ → Descriptors → Bool
is_websocket fd descriptors = has fd descriptors

unfoldable pub handshake : Bytes → Bytes
handshake accept_key =
    codes "HTTP/1.1 101 Switching Protocols\r\n"
    ++ (codes "Upgrade: websocket\r\n"
        ++ (codes "Connection: Upgrade\r\n"
            ++ (codes "Sec-WebSocket-Accept: " ++ (accept_key ++ codes "\r\n\r\n"))))

-- What a call returns, what it sends, and the set behind it.
pub record Added : Type 0 where
  pub accepted : Bool
  pub sent : Sent
  pub descriptors : Descriptors

unfoldable pub add_new_connection_connection : Sha1 → ℕ → Map Bytes → Descriptors → Added
add_new_connection_connection sha1 fd headers descriptors =
    let key = find_websocket_key headers in
    if is_empty key
    then record { accepted = false; sent = []; descriptors = descriptors }
    else record {
      accepted = true;
      sent = (fd, handshake (get_accept_key sha1 key)) ∷ [];
      descriptors = insert fd descriptors;
    }

-- `send_frame(c, message)` for every member of the set.
unfoldable pub broadcast : Bytes → Descriptors → Sent
broadcast message descriptors = map (λ c. (c, encode_frame message)) descriptors

unfoldable pub message_of : ℕ → Bytes → Bytes
message_of fd text = codes "ID[" ++ (to_decimal fd ++ (codes "]=>" ++ text))

unfoldable pub notify_message_request : ℕ → Descriptors → Script → Sent × Script
notify_message_request fd descriptors script =
    if has fd descriptors
    then (let (text, rest) = read_frame script in
        (broadcast (message_of fd text) descriptors, rest))
    else ([], script)
