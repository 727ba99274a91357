-- ===== src/Websocket/Frame/Bounds.antt =====
-- What `send_frame` passes to `send`: its length and its bytes.
use simple_server.Prelude.{
  ℕ, zero, suc, ◌+◌, ◌≡◌, refl, inl, inr, Bytes, IsByte, All, All-append, length, length-append,
  leb, leb→le, if◌then◌else◌, Bool-cases, arith,
}
use simple_server.Websocket.Frame.{push_bytes, frame_header, encode_frame}

pub push_bytes-All : (k n : ℕ) → All IsByte (push_bytes k n)
unfolding push_bytes
push_bytes-All zero n = tt
push_bytes-All (suc k) n = (omega arith, push_bytes-All k n)

pub length-push_bytes : (k n : ℕ) → length (push_bytes k n) ≡ k
unfolding push_bytes
length-push_bytes zero n = refl
length-push_bytes (suc k) n = omega (arith, length-push_bytes k n)

-- What the frame adds to a message of n bytes.
abbrev pub header_length : ℕ → ℕ
header_length n = if leb n 125 then 2 else if leb n 65535 then 4 else 10

header-length : (n : ℕ) → length (frame_header n) ≡ header_length n
unfolding frame_header
header-length n = elim (Bool-cases (leb n 125)) [
  | inl s ↦ rw s refl
  | inr s ↦ elim (Bool-cases (leb n 65535)) [
    | inl m ↦ rw (s, m) refl
    | inr m ↦ rw (s, m) (omega (arith, length-push_bytes 8 n))
  ]
]

frame_header-All : (n : ℕ) → All IsByte (frame_header n)
unfolding frame_header
frame_header-All n = elim (Bool-cases (leb n 125)) [
  | inl s ↦ rw s (omega arith, (omega (arith, leb→le n 125 s), tt))
  | inr s ↦ elim (Bool-cases (leb n 65535)) [
    | inl m ↦ rw (s, m) (omega arith, (omega arith, (omega arith, (omega arith, tt))))
    | inr m ↦ rw (s, m) (omega arith, (omega arith, push_bytes-All 8 n))
  ]
]

-- For a message of bytes the frame holds bytes only, and is longer than the message by two, four or
-- ten bytes, as RFC 6455 says for its length.
pub encode_frame-bounds :
    (message : Bytes)
    → All IsByte message
    → All IsByte (encode_frame message)
      × (length (encode_frame message) ≡ header_length (length message) + length message)
unfolding encode_frame
encode_frame-bounds message h =
    let n = length message in
    (
      All-append IsByte (frame_header n) message (frame_header-All n) h,
      omega (arith, length-append (frame_header n) message, header-length n),
    )
