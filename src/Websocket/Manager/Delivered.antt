-- ===== src/Websocket/Manager/Delivered.antt =====
-- A message on its way from one connection of the manager to another.
use mathlib.Core.List.{Memᴰ}
use simple_server.Prelude.{ℕ, ◌<◌, ◌^◌, ◌≡◌, true, List, [], ◌∷◌, Bytes, All, length, bit_and}
use simple_server.Socket.{Script}
use simple_server.Websocket.Frame.{read_frame}
use simple_server.Websocket.Frame.Payload.{IsChunk, deliver, join, masked_by}
use simple_server.Websocket.Frame.RoundTrip.{arriving, pieces, read_frame-encode_frame}
use simple_server.Websocket.Manager.{
  Descriptors, has, broadcast, message_of, notify_message_request,
}
use simple_server.Websocket.Manager.Broadcast.{broadcast-has, notify-masked}

-- A text frame of a registered connection, masked by a key of four bytes and below 2^64 bytes, of
-- which the first two bytes, the rest of the length and the key each arrive in one piece, and the
-- payload in any chunks that are not empty; and any registered connection, the sender included: its text is sent on
-- to all registered connections and to nobody else, with the number of its sender. What this
-- connection is sent is cut up into the two bytes, the rest of the length, and the message in any
-- chunks that are not empty; a peer that reads these with read_frame gets the message, if it is below
-- 2^64 bytes, and reads nothing behind it.
pub notify-delivered :
    (fd : ℕ) (descriptors : Descriptors) (first k0 k1 k2 k3 : ℕ) (chunks : List Bytes)
    (rest : Script) (text : Bytes) (c : ℕ) (cut : List Bytes) (later : Script)
    → has fd descriptors ≡ true
    → length (join chunks) < 2 ^ 64
    → All IsChunk chunks
    → bit_and first 0x0f ≡ 1
    → join chunks ≡ masked_by k0 k1 k2 k3 text
    → has c descriptors ≡ true
    → length (join cut) < 2 ^ 64
    → All IsChunk cut
    → join cut ≡ message_of fd text
    → (notify_message_request fd descriptors
          (arriving first true (k0 ∷ k1 ∷ k2 ∷ k3 ∷ []) chunks rest)
        ≡ (broadcast (message_of fd text) descriptors, rest))
      × Memᴰ {A = ℕ × Bytes} (c, join (pieces cut)) (broadcast (message_of fd text) descriptors)
      × (read_frame (deliver (pieces cut) later) ≡ (message_of fd text, later))
notify-delivered fd descriptors first k0 k1 k2 k3 chunks rest text c cut later member small full op
      e there short filled same =
    let (written, read) = read_frame-encode_frame cut later short filled in
    (
      notify-masked fd descriptors first k0 k1 k2 k3 chunks rest text member small full op e,
      rw (written, same) ((broadcast-has (message_of fd text) c descriptors).0 there),
      rw (← same) read,
    )
