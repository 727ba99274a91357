-- ===== src/Experiments/Echo/Receive.antt =====
-- receiveWebSocketFrame of experiments/cppws/cppws.cpp, a second function that reads a frame, which
-- prints it. Its results of `recv` for the longer length are not tested: where bytes are missing, it
-- reads variables that have no value, and the result is `none`.
pub mod Agree
use simple_server.Prelude.{
  ℕ, ◌/◌, ◌^◌, Bool, true, false, not, Option, none, some, List, [], ◌∷◌, ◌++◌, bit_and, Bytes,
  get_or, length, drop, ◌==◌, if◌then◌else◌,
}
use simple_server.Socket.{Received, Script, recv, recv_exactly}
use simple_server.Websocket.Frame.{read_length, read_payload, unmask}

-- What is printed: a failure in the header or in the payload, or the frame of an opcode, a text with
-- its characters, a binary frame with its length, and an unknown one with its opcode.
pub data Shown : Type 0 where
  unread : Shown
  text_frame : Bytes → Shown
  binary_frame : ℕ → Shown
  close_frame : Shown
  ping_frame : Shown
  pong_frame : Shown
  unknown_frame : ℕ → Shown

-- The result of the function.
unfoldable pub succeeded : Shown → Bool
succeeded unread = false
succeeded (text_frame text) = true
succeeded (binary_frame n) = true
succeeded close_frame = true
succeeded ping_frame = true
succeeded pong_frame = true
succeeded (unknown_frame opcode) = false

-- `switch (opcode)`.
unfoldable pub show_frame : ℕ → Bytes → Shown
show_frame opcode payload =
    if opcode == 0x1
    then text_frame payload
    else if opcode == 0x2
    then binary_frame (length payload)
    else if opcode == 0x8
    then close_frame
    else if opcode == 0x9
    then ping_frame
    else if opcode == 0xa
    then pong_frame
    else unknown_frame opcode

-- What a buffer holds behind a `recv` into it.
unfoldable pub overwrite : Bytes → Received → Bytes
overwrite buffer none = buffer
overwrite buffer (some bytes) = bytes ++ drop (length bytes) buffer

-- The masking key, four zeros at first, and what is left to arrive.
unfoldable pub receive_key : Bool → Script → Bytes × Script
unfolding overwrite
receive_key masked s =
    let zeros = 0 ∷ 0 ∷ 0 ∷ 0 ∷ [] in
    let (received, rest) = recv s in if masked then (overwrite zeros received, rest) else (zeros, s)

unfoldable pub show_payload : ℕ → Bool → Bytes → Option Bytes × Script → Shown × Script
unfolding show_frame
show_payload opcode masked key (none, s) = (unread, s)
show_payload opcode masked key (some payload, s) =
    (show_frame opcode (if masked then unmask key 0 payload else payload), s)

unfoldable pub receive_payload : ℕ → Bool → Option ℕ × Script → Option (Shown × Script)
unfolding receive_key show_payload
receive_payload opcode masked (none, s) = none
receive_payload opcode masked (some n, s) =
    let (key, rest) = receive_key masked s in
    some (show_payload opcode masked key (read_payload n [] rest))

unfoldable pub receive_header : Option Bytes × Script → Option (Shown × Script)
unfolding receive_payload
receive_header (none, s) = some (unread, s)
receive_header (some header, s) =
    let opcode = bit_and (get_or header 0 0) 0x0f in
    let masked = not (bit_and (get_or header 1 0) 0x80 == 0) in
    receive_payload opcode masked (read_length (bit_and (get_or header 1 0) 0x7f) s)

unfoldable pub receive_web_socket_frame : Script → Option (Shown × Script)
unfolding receive_header
receive_web_socket_frame s = receive_header (recv_exactly 2 s)
