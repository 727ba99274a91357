-- ===== src/Websocket/Wrapper.antt =====
-- `read_frame(uint32_t)` of src/websocket_handler.cpp, which copies a message into a vector. The vector
-- has memory reserved but no elements, so that copying any byte writes behind its end, for which the
-- language defines no behaviour: `none`.
use simple_server.Prelude.{◌≡◌, Option, none, some, [], ◌∷◌, Bytes, arith}
use simple_server.Socket.{Script}
use simple_server.Websocket.Frame.{read_frame}

unfoldable pub copied : Bytes → Option Bytes
copied [] = some []
copied (c ∷ cs) = none

unfoldable pub read_frame_bytes : Script → Option Bytes × Script
unfolding copied
read_frame_bytes s = let (msg, rest) = read_frame s in (copied msg, rest)

copied-some : (msg bytes : Bytes) → copied msg ≡ some bytes → bytes ≡ []
unfolding copied
copied-some [] bytes h = ground arith
copied-some (c ∷ cs) bytes h = absurd (ground arith)

-- Where the wrapper is defined, it gives no bytes.
pub read_frame_bytes_empty :
    (s : Script) (bytes : Bytes) → (read_frame_bytes s).0 ≡ some bytes → bytes ≡ []
unfolding read_frame_bytes
read_frame_bytes_empty s bytes h = copied-some (read_frame s).0 bytes h
