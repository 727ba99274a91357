-- ===== src/Websocket/Frame/RoundTrip.antt =====
-- What `read_frame` makes of the frames that a peer may send, however the payload arrives.
use simple_server.Prelude.{
  ℕ, ◌+◌, ◌<◌, ◌%◌, ◌/◌, ◌^◌, ◌≡◌, ◌≢◌, refl, sym, ap, ◌∙◌, Bool, true, false, some, List, [], ◌∷◌,
  ◌++◌, append-nil, append_assoc, arith, Bytes, length, leb, Bool-cases, inl, inr, All, bit_and,
  if◌then◌else◌, ◌==◌,
}
use simple_server.Socket.{Script, ◌>>=◌, pure, recv_exactly, bind_some}
use simple_server.Websocket.Frame.{
  big_endian, read_length, read_masking_key, read_payload, finish, read_frame_steps, or_empty,
  read_frame, push_bytes, frame_header, encode_frame,
}
use simple_server.Websocket.Frame.Bounds.{length-push_bytes}
use simple_server.Websocket.Frame.Bits.{
  low_seven, low_seven_masked, mask_bit, mask_bit_masked, two_bytes, big_endian-push_bytes,
}
use simple_server.Websocket.Frame.Payload.{
  IsChunk, deliver, join, read_payload-deliver, masked_by, unmask-mask,
}

-- The second byte of a header without its mask bit, and the extension of the length.
abbrev pub short_length : ℕ → ℕ
short_length n = if leb n 125 then n else if leb n 0xffff then 126 else 127

abbrev pub extension : ℕ → List Bytes
extension n =
    if leb n 125
    then []
    else if leb n 0xffff
    then (n / 2 ^ 8 % 2 ^ 8 ∷ n % 2 ^ 8 ∷ []) ∷ []
    else push_bytes 8 n ∷ []

frame_header-parts : (n : ℕ) → frame_header n ≡ 0x81 ∷ short_length n ∷ join (extension n)
unfolding frame_header
frame_header-parts n = elim (Bool-cases (leb n 125)) [
  | inl small ↦ rw small
  | inr large ↦ elim (Bool-cases (leb n 0xffff)) [
    | inl medium ↦ rw (large, medium)
    | inr huge ↦ rw (large, huge, append-nil)
  ]
]

not_126 : (n : ℕ) → leb n 125 ≡ true → (n == 126) ≡ false
not_126 n h = ground arith

not_127 : (n : ℕ) → leb n 125 ≡ true → (n == 127) ≡ false
not_127 n h = ground arith

recv_exactly-deliver :
    (bytes : Bytes) (n : ℕ) (s : Script)
    → length bytes ≡ n
    → recv_exactly n (some bytes ∷ s) ≡ (some bytes, s)
recv_exactly-deliver bytes n s e = ground arith

extended_eight :
    (bytes : Bytes) (s : Script)
    → length bytes ≡ 8
    → (recv_exactly 8 >>= λ extended. pure (big_endian 0 extended)) (some bytes ∷ s)
      ≡ (some (big_endian 0 bytes), s)
extended_eight bytes s e =
    bind_some (recv_exactly 8) (λ extended. pure (big_endian 0 extended)) (some bytes ∷ s)
      (recv_exactly-deliver bytes 8 s e)

-- The length is read back from the second byte and the extension.
pub read_length-deliver :
    (n : ℕ) (s : Script)
    → n < 2 ^ 64
    → read_length (short_length n) (deliver (extension n) s) ≡ (some n, s)
unfolding read_length
read_length-deliver n s h = elim (Bool-cases (leb n 125)) [
  | inl small ↦ rw (small, not_126 n small, not_127 n small)
  | inr large ↦ elim (Bool-cases (leb n 0xffff)) [
    | inl medium ↦ rw (large, medium, two_bytes n (ground arith))
    | inr huge ↦
        rw (large, huge)
          (extended_eight (push_bytes 8 n) s (length-push_bytes 8 n)
            ∙ rw (big_endian-push_bytes n h))
  ]
]

-- The second byte of a header, and the key that follows the length of a masked frame.
abbrev pub second_byte : Bool → ℕ → ℕ
second_byte true n = short_length n + 128
second_byte false n = short_length n

abbrev pub deliver_key : Bool → Bytes → Script → Script
deliver_key true key s = some key ∷ s
deliver_key false key s = s

abbrev pub key_read : Bool → Bytes → Bytes
key_read true key = key
key_read false key = 0 ∷ 0 ∷ 0 ∷ 0 ∷ []

-- How a frame arrives: its first two bytes, the rest of the length and the key in one piece each,
-- and the payload in any chunks.
abbrev pub arriving : ℕ → Bool → Bytes → List Bytes → Script → Script
arriving first masked key chunks rest =
    let n = length (join chunks) in
    some (first ∷ second_byte masked n ∷ [])
    ∷ deliver (extension n) (deliver_key masked key (deliver chunks rest))

pub short_length-lt : (n : ℕ) → short_length n < 128
short_length-lt n = ground arith

pub second_byte-length :
    (masked : Bool) (n : ℕ) → bit_and (second_byte masked n) 0x7f ≡ short_length n
second_byte-length true n = low_seven_masked (short_length n) (short_length-lt n)
second_byte-length false n = low_seven (short_length n) (short_length-lt n)

pub second_byte-masked :
    (masked : Bool) (n : ℕ) → (bit_and (second_byte masked n / 2 ^ 7) 0x01 == 1) ≡ masked
second_byte-masked true n = rw (mask_bit_masked (short_length n) (short_length-lt n))
second_byte-masked false n = rw (mask_bit (short_length n) (short_length-lt n))

pub read_masking_key-deliver :
    (masked : Bool) (key : Bytes) (s : Script)
    → length key ≡ 4
    → read_masking_key masked (deliver_key masked key s) ≡ (some (key_read masked key), s)
unfolding read_masking_key
read_masking_key-deliver true key s e = recv_exactly-deliver key 4 s e
read_masking_key-deliver false key s e = refl

read_frame_steps-arriving :
    (first : ℕ) (masked : Bool) (key : Bytes) (chunks : List Bytes) (rest : Script)
    → length (join chunks) < 2 ^ 64
    → length key ≡ 4
    → All IsChunk chunks
    → read_frame_steps (arriving first masked key chunks rest)
      ≡ finish (bit_and first 0x0f) masked (key_read masked key) (join chunks) rest
unfolding read_frame_steps
read_frame_steps-arriving first masked key chunks rest small four full =
    let n = length (join chunks) in
    rw (second_byte-length masked n, second_byte-masked masked n)
      (bind_some (read_length (short_length n)) _ _ (read_length-deliver n _ small)
        ∙ bind_some (read_masking_key masked) _ _ (read_masking_key-deliver masked key _ four)
        ∙ bind_some (read_payload n []) _ _
            (read_payload-deliver n [] chunks rest full (omega arith)))

module _ (first : ℕ) (key : Bytes) (chunks : List Bytes) (rest : Script)
    (small : length (join chunks) < 2 ^ 64) (four : length key ≡ 4)
    (full : All IsChunk chunks) where
  -- A text frame that is not masked.
  pub read_frame-plain :
      bit_and first 0x0f ≡ 1
      → read_frame (arriving first false key chunks rest) ≡ (join chunks, rest)
  unfolding read_frame finish
  read_frame-plain op =
      ap or_empty (read_frame_steps-arriving first false key chunks rest small four full) ∙ rw op

  -- A frame of any other kind, below 2^64 bytes, is read to its end and gives the empty string, if its
  -- first two bytes, the rest of its length and its key each arrive in one piece, and its payload in
  -- any chunks that are not empty.
  pub read_frame_other :
      (masked : Bool)
      → bit_and first 0x0f ≢ 1
      → read_frame (arriving first masked key chunks rest) ≡ ([], rest)
  unfolding read_frame finish
  read_frame_other masked op =
      ap or_empty (read_frame_steps-arriving first masked key chunks rest small four full)
      ∙ rw (not_text (bit_and first 0x0f) op)
    where
      not_text : (n : ℕ) → n ≢ 1 → (n == 1) ≡ false
      not_text n h = ground arith

-- A text frame of a client, below 2^64 bytes: its payload is the text under the mask of the four
-- bytes of the key, and arrives in any chunks that are not empty; the first two bytes, the rest of the
-- length and the key each arrive in one piece. The text is read, and nothing behind the frame.
pub read_frame-masked :
    (first k0 k1 k2 k3 : ℕ) (chunks : List Bytes) (rest : Script) (text : Bytes)
    → length (join chunks) < 2 ^ 64
    → All IsChunk chunks
    → bit_and first 0x0f ≡ 1
    → join chunks ≡ masked_by k0 k1 k2 k3 text
    → read_frame (arriving first true (k0 ∷ k1 ∷ k2 ∷ k3 ∷ []) chunks rest) ≡ (text, rest)
unfolding read_frame finish
read_frame-masked first k0 k1 k2 k3 chunks rest text small full op e =
    ap or_empty
      (read_frame_steps-arriving first true (k0 ∷ k1 ∷ k2 ∷ k3 ∷ []) chunks rest small refl full)
    ∙ rw (op, e, unmask-mask k0 k1 k2 k3 text)

-- The pieces in which a frame of `send_frame` arrives: the first two bytes, the rest of the length,
-- and the message in any chunks.
abbrev pub pieces : List Bytes → List Bytes
pieces chunks =
    let n = length (join chunks) in (0x81 ∷ short_length n ∷ []) ∷ (extension n ++ chunks)

join-append : (xs ys : List Bytes) → join (xs ++ ys) ≡ join xs ++ join ys
join-append [] ys = refl
join-append (x ∷ xs) ys = rw (join-append xs ys) (sym (append_assoc x (join xs) (join ys)))

deliver-append :
    (xs ys : List Bytes) (s : Script) → deliver (xs ++ ys) s ≡ deliver xs (deliver ys s)
deliver-append [] ys s = refl
deliver-append (x ∷ xs) ys s = rw (deliver-append xs ys s)

-- For a message below 2^64 bytes in any chunks that are not empty: `pieces` cuts up the bytes that
-- `send_frame` writes for it, and `read_frame` reads the message back from them, and nothing behind
-- the frame.
pub read_frame-encode_frame :
    (chunks : List Bytes) (rest : Script)
    → length (join chunks) < 2 ^ 64
    → All IsChunk chunks
    → (join (pieces chunks) ≡ encode_frame (join chunks))
      × (read_frame (deliver (pieces chunks) rest) ≡ (join chunks, rest))
unfolding encode_frame
read_frame-encode_frame chunks rest small full = (
  rw (
    frame_header-parts (length (join chunks)),
    join-append (extension (length (join chunks))) chunks,
  ),
  rw (deliver-append (extension (length (join chunks))) chunks rest)
      (read_frame-plain 0x81 (0 ∷ 0 ∷ 0 ∷ 0 ∷ []) chunks rest small refl full refl),
)
