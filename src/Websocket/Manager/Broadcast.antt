-- ===== src/Websocket/Manager/Broadcast.antt =====
-- Whom a message reaches, and what they read.
use mathlib.Core.List.{Memᴰ}
use mathlib.Core.List.Memᴰ
use simple_server.Prelude.{
  ℕ, ◌<◌, ◌^◌, ◌≡◌, ◌≢◌, ◌↔◌, ap, Bool, true, List, [], ◌∷◌, Bytes, All, length, bit_and, map,
  arith, ◌==◌, ==_refl, ==_iff, Bool-cases, inl, inr,
}
use simple_server.Socket.{Script}
use simple_server.Websocket.Frame.{encode_frame}
use simple_server.Websocket.Frame.Payload.{IsChunk, join, masked_by}
use simple_server.Websocket.Frame.RoundTrip.{arriving, read_frame_other, read_frame-masked}
use simple_server.Websocket.Manager.{
  Descriptors, has, broadcast, message_of, notify_message_request,
}

-- A message is sent to a connection exactly if it is registered.
pub broadcast-has :
    (message : Bytes) (c : ℕ) (descriptors : Descriptors)
    → (has c descriptors ≡ true)
      ↔ Memᴰ {A = ℕ × Bytes} (c, encode_frame message) (broadcast message descriptors)
unfolding broadcast has
broadcast-has message c descriptors = (reaches descriptors, reached descriptors)
  where
    reaches :
        (ds : Descriptors)
        → has c ds ≡ true
        → Memᴰ {A = ℕ × Bytes} (c, encode_frame message) (map (λ d. (d, encode_frame message)) ds)
    reaches [] h = absurd (cc h)
    reaches (d ∷ ds) h = elim (Bool-cases (d == c)) [
      | inl e ↦ Memᴰ.head (rw ((==_iff d c).0 e))
      | inr e ↦ Memᴰ.tail (reaches ds (rw e at h))
    ]

    reached :
        (ds : Descriptors)
        → Memᴰ {A = ℕ × Bytes} (c, encode_frame message) (map (λ d. (d, encode_frame message)) ds)
        → has c ds ≡ true
    reached [] m = absurd (Memᴰ.not-nil m)
    reached (d ∷ ds) (Memᴰ.head e) = rw (← ap (λ p. p.0) e, ==_refl c)
    reached (d ∷ ds) (Memᴰ.tail m) = ground (arith, reached ds m)

-- A text frame of a registered connection, masked by a key of four bytes and below 2^64 bytes, of
-- which the first two bytes, the rest of the length and the key each arrive in one piece, and the
-- payload in any chunks that are not empty: its text is sent on to all registered connections, with
-- the number of its sender.
pub notify-masked :
    (fd : ℕ) (descriptors : Descriptors) (first k0 k1 k2 k3 : ℕ) (chunks : List Bytes)
    (rest : Script) (text : Bytes)
    → has fd descriptors ≡ true
    → length (join chunks) < 2 ^ 64
    → All IsChunk chunks
    → bit_and first 0x0f ≡ 1
    → join chunks ≡ masked_by k0 k1 k2 k3 text
    → notify_message_request fd descriptors
        (arriving first true (k0 ∷ k1 ∷ k2 ∷ k3 ∷ []) chunks rest)
      ≡ (broadcast (message_of fd text) descriptors, rest)
unfolding notify_message_request
notify-masked fd descriptors first k0 k1 k2 k3 chunks rest text member small full op e =
    rw (member, read_frame-masked first k0 k1 k2 k3 chunks rest text small full op e)

-- A frame of a registered connection that is no text frame, below 2^64 bytes, with a key of four
-- bytes if it is masked. Its first two bytes, the rest of its length and its key each arrive in one
-- piece, and its payload in any chunks that are not empty. Then all registered connections are sent a
-- message with the number of its sender and no text, whatever the frame holds.
pub notify-other :
    (fd : ℕ) (descriptors : Descriptors) (first : ℕ) (masked : Bool) (key : Bytes)
    (chunks : List Bytes) (rest : Script)
    → has fd descriptors ≡ true
    → length (join chunks) < 2 ^ 64
    → length key ≡ 4
    → All IsChunk chunks
    → bit_and first 0x0f ≢ 1
    → notify_message_request fd descriptors (arriving first masked key chunks rest)
      ≡ (broadcast (message_of fd []) descriptors, rest)
unfolding notify_message_request
notify-other fd descriptors first masked key chunks rest member small four full op =
    rw (member, read_frame_other first key chunks rest small four full masked op)
