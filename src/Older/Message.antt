-- ===== src/Older/Message.antt =====
-- `websocket_message::toString` of src/websocket/simple_server_websocket_connection.cpp.
use simple_server.Prelude.{◌≤◌, [], ◌∷◌, Bytes, All, ltb, if◌then◌else◌, arith}

unfoldable pub message_to_string : Bytes → Bytes
message_to_string [] = []
message_to_string (b ∷ payload) = (if ltb b 30 then b' ' else b) ∷ message_to_string payload

-- The text holds no byte below 30.
pub message_to_string-All : (payload : Bytes) → All (λ b. 30 ≤ b) (message_to_string payload)
unfolding message_to_string
message_to_string-All [] = tt
message_to_string-All (b ∷ payload) = ground (arith, message_to_string-All payload)
