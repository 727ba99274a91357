-- ===== src/Tests/Manager.antt =====
-- Runs of the WebSocket manager.
use mathlib.Core.List.{Memᴰ}
use simple_server.Prelude.{
  ℕ, List, ◌≡◌, ◌≢◌, bit_and, refl, true, some, [], ◌∷◌, ◌++◌, Bytes, codes, length, arith,
}
use simple_server.Text.Search.{text_eq}
use simple_server.Text.Words.{to_lower_case, to_lower}
use simple_server.Text.StringMap.{Map, lookup}
use simple_server.Socket.{Script}
use simple_server.Websocket.Frame.{push_bytes, read_frame}
use simple_server.Websocket.Frame.RoundTrip.{arriving, pieces}
use simple_server.Websocket.Manager.{
  Sha1, network_bytes, get_accept_key, find_websocket_key, is_upgrade, has, handshake, Added,
  add_new_connection_connection, Sent, broadcast, message_of, notify_message_request,
}
use simple_server.Websocket.Manager.Broadcast.{notify-other}
use simple_server.Websocket.Manager.Delivered.{notify-delivered}
use simple_server.Websocket.Frame.Payload.{join, deliver}
use simple_server.Text.Decimal.{to_decimal}
use simple_server.Websocket.Manager.History.{
  History, start, connect, receive, first_sent, IsHandshake, first_sent-IsHandshake,
}

-- A function of the type of a digest.
abbrev sum_words : Sha1
sum_words input = length input ∷ 0x01020304 ∷ 0 ∷ 0 ∷ 0xffffffff ∷ []

abbrev upgrade_headers : Map Bytes
upgrade_headers =
    (codes "Host", codes "here")
    ∷ (codes "Upgrade", codes "websocket")
    ∷ (codes "sec-webSocket-Key", codes "abc")
    ∷ []

key_run : find_websocket_key upgrade_headers ≡ codes "abc"
unfolding find_websocket_key to_lower_case to_lower text_eq
key_run = refl

upgrade_run : is_upgrade upgrade_headers ≡ true
unfolding is_upgrade lookup text_eq
upgrade_run = refl

network_bytes_run : network_bytes (0x01020304 ∷ []) ≡ 1 ∷ 2 ∷ 3 ∷ 4 ∷ []
unfolding network_bytes push_bytes
network_bytes_run = refl

accepted_run : (add_new_connection_connection sum_words 7 upgrade_headers (5 ∷ [])).accepted ≡ true
unfolding add_new_connection_connection find_websocket_key to_lower_case to_lower text_eq
accepted_run = refl

member_run : has 5 (3 ∷ 5 ∷ []) ≡ true
unfolding has
member_run = refl

abbrev hello_frame : Script
hello_frame =
    arriving 0x81 true (0x37 ∷ 0xfa ∷ 0x21 ∷ 0x3d ∷ [])
      ((0x7f ∷ 0x9f ∷ 0x4d ∷ 0x51 ∷ 0x58 ∷ []) ∷ []) []

abbrev message_cut : List Bytes
message_cut = codes "ID[5]=" ∷ codes ">Hello" ∷ []

message_run : join message_cut ≡ message_of 5 (codes "Hello")
unfolding message_of to_decimal
message_run = refl

other_member_run : has 3 (3 ∷ 5 ∷ []) ≡ true
unfolding has
other_member_run = refl

notify-delivered_example :
    (notify_message_request 5 (3 ∷ 5 ∷ []) hello_frame
      ≡ (broadcast (message_of 5 (codes "Hello")) (3 ∷ 5 ∷ []), []))
    × Memᴰ {A = ℕ × Bytes}
        (3, join (pieces message_cut))
        (broadcast (message_of 5 (codes "Hello")) (3 ∷ 5 ∷ []))
    × (read_frame (deliver (pieces message_cut) []) ≡ (message_of 5 (codes "Hello"), []))
notify-delivered_example =
    notify-delivered 5 (3 ∷ 5 ∷ []) 0x81 0x37 0xfa 0x21 0x3d
      ((0x7f ∷ 0x9f ∷ 0x4d ∷ 0x51 ∷ 0x58 ∷ []) ∷ []) [] (codes "Hello") 3 message_cut [] member_run
      (omega arith) (tt, tt) refl refl other_member_run (omega arith) (tt, (tt, tt)) message_run

-- A ping with two bytes.
abbrev ping_frame : Script
ping_frame = arriving 0x89 true (1 ∷ 2 ∷ 3 ∷ 4 ∷ []) ((0x69 ∷ 0x6b ∷ []) ∷ []) []

no_text : bit_and 0x89 0x0f ≢ 1
no_text = ground arith

notify-other_example :
    notify_message_request 5 (3 ∷ 5 ∷ []) ping_frame
    ≡ (broadcast (message_of 5 []) (3 ∷ 5 ∷ []), [])
notify-other_example =
    notify-other 5 (3 ∷ 5 ∷ []) 0x89 true (1 ∷ 2 ∷ 3 ∷ 4 ∷ []) ((0x69 ∷ 0x6b ∷ []) ∷ []) []
      member_run (omega arith) refl (tt, tt) no_text

abbrev connected : Added
connected = add_new_connection_connection sum_words 7 upgrade_headers []

abbrev told : Sent × Script
told = notify_message_request 7 connected.descriptors hello_frame

calls-History : History sum_words connected.descriptors (([] ++ connected.sent) ++ told.0)
calls-History = receive 7 hello_frame (connect 7 upgrade_headers start)

first_sent_run :
    first_sent 7 (([] ++ connected.sent) ++ told.0)
    ≡ some (handshake (get_accept_key sum_words (codes "abc")))
unfolding add_new_connection_connection find_websocket_key to_lower_case to_lower text_eq
first_sent_run = refl

first_sent-IsHandshake_example :
    IsHandshake calls-History 7 (handshake (get_accept_key sum_words (codes "abc")))
first_sent-IsHandshake_example =
    first_sent-IsHandshake 7 (handshake (get_accept_key sum_words (codes "abc"))) calls-History
      first_sent_run
