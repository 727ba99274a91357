-- ===== src/Websocket/Manager/Key.antt =====
-- The accept key of the handshake: its length and its characters.
use simple_server.Prelude.{
  ℕ, ◌*◌, ◌≡◌, refl, List, [], ◌∷◌, ◌++◌, Bytes, IsByte, All, All-append, length, length-append,
  arith,
}
use simple_server.Websocket.Base64.Size.{IsBase64, base64_encode-bounds}
use simple_server.Websocket.Frame.{push_bytes}
use simple_server.Websocket.Frame.Bounds.{push_bytes-All, length-push_bytes}
use simple_server.Websocket.Manager.{Sha1, magic_string, network_bytes, get_accept_key}

pub network_bytes-All : (ws : List ℕ) → All IsByte (network_bytes ws)
unfolding network_bytes
network_bytes-All [] = tt
network_bytes-All (w ∷ ws) =
    All-append IsByte (push_bytes 4 w) (network_bytes ws) (push_bytes-All 4 w)
      (network_bytes-All ws)

length-network_bytes : (ws : List ℕ) → length (network_bytes ws) ≡ 4 * length ws
unfolding network_bytes
length-network_bytes [] = refl
length-network_bytes (w ∷ ws) = omega (
  arith,
  length-append (push_bytes 4 w) (network_bytes ws),
  length-push_bytes 4 w,
  length-network_bytes ws,
)

-- Where the digest has five words, the accept key has 28 characters, all of the Base64 alphabet.
pub get_accept_key-bounds :
    (sha1 : Sha1) (challenge : Bytes)
    → length (sha1 (challenge ++ magic_string)) ≡ 5
    → All IsBase64 (get_accept_key sha1 challenge) × (length (get_accept_key sha1 challenge) ≡ 28)
unfolding get_accept_key
get_accept_key-bounds sha1 challenge h =
    let words = sha1 (challenge ++ magic_string) in
    let (all, size) = base64_encode-bounds (network_bytes words) (network_bytes-All words) in
    (all, omega (arith, size, length-network_bytes words, h))
