-- ===== src/Websocket/Frame.antt =====
-- `read_frame` and `send_frame` of src/websocket_handler.cpp: one frame of the WebSocket protocol,
-- read from and written to a connection.
mod Bits
pub mod Payload
pub mod RoundTrip
pub mod Bounds
pub mod Progress
use simple_server.Prelude.{
  ℕ, zero, suc, ◌+◌, ◌*◌, ◌/◌, ◌%◌, ◌^◌, Bool, true, false, Option, none, some, List, [], ◌∷◌, ◌++◌,
  bit_and, bit_or, bit_xor, Bytes, get_or, length, ltb, leb, ◌==◌, if◌then◌else◌,
}
use simple_server.Socket.{Received, Script, recv, Reader, ◌>>=◌, pure, give_up, recv_exactly}

-- `payload_length = (payload_length << 8) | extended_payload[i]` over the bytes, in 64 bits.
unfoldable pub big_endian : ℕ → Bytes → ℕ
big_endian n [] = n
big_endian n (b ∷ bs) = big_endian (bit_or (n * 2 ^ 8 % 2 ^ 64) b) bs

-- The length that the second byte gives, or that of the extension which follows it.
unfoldable pub read_length : ℕ → Reader ℕ
unfolding big_endian
read_length short =
    if short == 126
    then (do
      extended ← recv_exactly 2
      pure (bit_or (get_or extended 0 0 * 2 ^ 8) (get_or extended 1 0)))
    else if short == 127
    then (do extended ← recv_exactly 8; pure (big_endian 0 extended))
    else pure short

-- The masking key is read only if the frame is masked; it is four zeros otherwise.
unfoldable pub read_masking_key : Bool → Reader Bytes
read_masking_key true = recv_exactly 4
read_masking_key false = pure (0 ∷ 0 ∷ 0 ∷ 0 ∷ [])

-- The loop that fills `payload`; `filled` is the part of the vector below `bytes_read`.
unfoldable pub read_payload : ℕ → Bytes → Reader Bytes
read_payload n filled [] = if ltb (length filled) n then (none, []) else (some filled, [])
read_payload n filled (none ∷ s) =
    if ltb (length filled) n then (none, s) else (some filled, none ∷ s)
read_payload n filled (some [] ∷ s) =
    if ltb (length filled) n then (none, s) else (some filled, some [] ∷ s)
read_payload n filled (some (b ∷ bs) ∷ s) =
    let more = read_payload n (filled ++ b ∷ bs) s in
    if ltb (length filled) n then more else (some filled, some (b ∷ bs) ∷ s)

-- `payload[i] ^= masking_key[i % 4]`, from index i on.
unfoldable pub unmask : Bytes → ℕ → Bytes → Bytes
unmask key i [] = []
unmask key i (b ∷ bs) = bit_xor b (get_or key (i % 4) 0) ∷ unmask key (i + 1) bs

-- The text of a frame; only a text frame (opcode 1) has one.
unfoldable pub finish : ℕ → Bool → Bytes → Bytes → Reader Bytes
finish opcode masked key payload =
    let text = if masked then unmask key 0 payload else payload in
    if opcode == 1 then pure text else give_up

unfoldable pub read_frame_steps : Reader Bytes
unfolding finish read_length read_masking_key
read_frame_steps = do
  header ← recv_exactly 2
  let opcode = bit_and (get_or header 0 0) 0x0f
  let masked = bit_and (get_or header 1 0 / 2 ^ 7) 0x01 == 1
  n ← read_length (bit_and (get_or header 1 0) 0x7f)
  key ← read_masking_key masked
  payload ← read_payload n []
  finish opcode masked key payload

abbrev pub or_empty : Option Bytes × Script → Bytes × Script
or_empty (none, s) = ([], s)
or_empty (some text, s) = (text, s)

-- `read_frame(int)`: every failure gives the empty string.
unfoldable pub read_frame : Script → Bytes × Script
unfolding read_frame_steps
read_frame s = or_empty (read_frame_steps s)

-- `for (i = 7; i >= 0; --i) frame.push_back((payload_length >> (i * 8)) & 0xFF)`, k rounds left.
unfoldable pub push_bytes : ℕ → ℕ → Bytes
push_bytes zero n = []
push_bytes (suc k) n = n / 2 ^ (k * 8) % 2 ^ 8 ∷ push_bytes k n

unfoldable pub frame_header : ℕ → Bytes
frame_header n =
    if leb n 125
    then 0x81 ∷ n ∷ []
    else if leb n 0xffff
    then 0x81 ∷ 126 ∷ n / 2 ^ 8 % 2 ^ 8 ∷ n % 2 ^ 8 ∷ []
    else 0x81 ∷ 127 ∷ push_bytes 8 n

-- The bytes that `send_frame` passes to `send`.
unfoldable pub encode_frame : Bytes → Bytes
unfolding frame_header
encode_frame message = frame_header (length message) ++ message
