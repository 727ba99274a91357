-- ===== src/Websocket/Manager/Handshake.antt =====
-- What the opening handshake answers and registers.
use mathlib.Core.List.{Memᴰ}
use simple_server.Prelude.{
  ℕ, suc, ◌<◌, ◌^◌, ◌≡◌, ◌≢◌, length, refl, true, false, ◌&&◌, ◌||◌, [], ◌∷◌, ◌++◌, Bytes, codes,
  arith, ◌==◌, Bool-cases, inl, inr,
}
use simple_server.Text.Search.{text_eq, text_eq_sound}
use simple_server.Text.Words.{to_lower_case, is_empty}
use simple_server.Text.StringMap.{Map}
use simple_server.Websocket.Base64.Decode.{decode, decode-base64_encode}
use simple_server.Websocket.Manager.{
  magic_string, Sha1, network_bytes, get_accept_key, find_websocket_key, Descriptors, is_websocket,
  handshake, add_new_connection_connection,
}
use simple_server.Websocket.Manager.Key.{network_bytes-All}
use simple_server.Websocket.Manager.Set.{has-insert}

-- The accept key is Base64 for the bytes of the digest of the challenge and the magic string, of
-- which there are fewer than 2^32.
pub get_accept_key-decode :
    (sha1 : Sha1) (challenge : Bytes)
    → length (network_bytes (sha1 (challenge ++ magic_string))) < 2 ^ 32
    → decode (get_accept_key sha1 challenge) ≡ network_bytes (sha1 (challenge ++ magic_string))
unfolding get_accept_key
get_accept_key-decode sha1 challenge short =
    let words = sha1 (challenge ++ magic_string) in
    (decode-base64_encode (suc (length (network_bytes words))) (network_bytes words)
      (network_bytes-All words) (omega arith) short).1

-- A name that is `Sec-WebSocket-Key` but for the case of its letters.
abbrev pub IsKeyName : Bytes → Type 0
IsKeyName name = to_lower_case name ≡ codes "sec-websocket-key"

pub find_websocket_key_sound :
    (headers : Map Bytes)
    → find_websocket_key headers ≢ []
    → (name : Bytes) × IsKeyName name × Memᴰ (name, find_websocket_key headers) headers
unfolding find_websocket_key
find_websocket_key_sound [] h = absurd (h refl)
find_websocket_key_sound ((name, value) ∷ headers) h =
    elim (Bool-cases (text_eq (to_lower_case name) (codes "sec-websocket-key"))) [
      | inl e ↦ rw e (name, text_eq_sound (to_lower_case name) _ e, Memᴰ.head refl)
      | inr e ↦ rw e (later (find_websocket_key_sound headers (rw e at h)))
    ]
  where
    later :
        (n : Bytes) × IsKeyName n × Memᴰ (n, find_websocket_key headers) headers
        → (n : Bytes) × IsKeyName n × Memᴰ (n, find_websocket_key headers) ((name, value) ∷ headers)
    later (n, k, m) = (n, k, Memᴰ.tail m)

-- A connection is a WebSocket after the call exactly if it was one before it, or the call accepted
-- it; the others are unchanged.
pub add_new_connection-is_websocket :
    (sha1 : Sha1) (fd : ℕ) (headers : Map Bytes) (descriptors : Descriptors) (c : ℕ)
    → let added = add_new_connection_connection sha1 fd headers descriptors in
      is_websocket c added.descriptors ≡ (added.accepted && fd == c) || is_websocket c descriptors
unfolding add_new_connection_connection is_websocket
add_new_connection-is_websocket sha1 fd headers descriptors c =
    ground (arith, has-insert fd c descriptors)

pub is_empty-false : (s : Bytes) → is_empty s ≡ false → s ≢ []
is_empty-false [] h e = cc
is_empty-false (c ∷ cs) h e = cc

-- A connection is accepted only for a header that names the key, in any case of its letters, and it
-- is sent the handshake for the value of that header and nothing else.
pub add_new_connection_sound :
    (sha1 : Sha1) (fd : ℕ) (headers : Map Bytes) (descriptors : Descriptors)
    → let added = add_new_connection_connection sha1 fd headers descriptors in
      added.accepted ≡ true
      → (name : Bytes) × (key : Bytes) × IsKeyName name
        × Memᴰ (name, key) headers
        × (key ≢ [])
        × (added.sent ≡ (fd, handshake (get_accept_key sha1 key)) ∷ [])
unfolding add_new_connection_connection
add_new_connection_sound sha1 fd headers descriptors h =
    elim (Bool-cases (is_empty (find_websocket_key headers))) [
      | inl e ↦ absurd (ground arith)
      | inr e ↦
          let some_key = is_empty-false (find_websocket_key headers) e in
          let (name, named, listed) = find_websocket_key_sound headers some_key in
          rw e (name, find_websocket_key headers, named, listed, some_key, refl)
    ]
