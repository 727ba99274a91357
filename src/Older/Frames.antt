-- ===== src/Older/Frames.antt =====
-- The frames, the Base64 encoders and the accept key of
-- src/websocket/simple_server_websocket_connection.cpp. Their code is that of
-- src/websocket_handler.cpp, so that each is the definition that models it there.
use simple_server.Prelude.{Option, Bytes}
use simple_server.Socket.{Script}
use simple_server.Text.StringMap.{Map}
use simple_server.Websocket
use simple_server.Websocket.Manager.{Sha1}

abbrev pub magic_string : Bytes
magic_string = Websocket.Manager.magic_string

abbrev pub base64_chars : Bytes
base64_chars = Websocket.Base64.base64_chars

abbrev pub read_frame : Script → Bytes × Script
read_frame = Websocket.Frame.read_frame

-- `read_frame(uint32_t)`
abbrev pub read_frame_bytes : Script → Option Bytes × Script
read_frame_bytes = Websocket.Wrapper.read_frame_bytes

-- The bytes that `send_frame` passes to `send`.
abbrev pub send_frame : Bytes → Bytes
send_frame = Websocket.Frame.encode_frame

abbrev pub base64_encode : Bytes → Bytes
base64_encode = Websocket.Base64.base64_encode

abbrev pub hex_2_bytes : Bytes → Bytes
hex_2_bytes = Websocket.Hex.hex_2_bytes

abbrev pub b64 : Bytes → Bytes
b64 = Websocket.Base64.b64

abbrev pub get_accept_key : Sha1 → Bytes → Bytes
get_accept_key = Websocket.Manager.get_accept_key

abbrev pub find_websocket_key : Map Bytes → Bytes
find_websocket_key = Websocket.Manager.find_websocket_key
