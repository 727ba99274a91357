-- ===== src/Experiments/Echo/Receive/Agree.antt =====
-- receiveWebSocketFrame against read_frame.
use simple_server.Prelude.{
  ℕ, zero, suc, ◌/◌, ◌<◌, ◌^◌, ◌≡◌, refl, ap, ◌∙◌, Bool, true, false, not, Option, none, some, List,
  [], ◌∷◌, bit_and, Bytes, get_or, length, ◌==◌, ==_iff, if◌then◌else◌, arith, All, IsByte,
  all_below, agree_below, Bool-cases, inl, inr, append-nil,
}
use simple_server.Text.Words.{is_empty}
use simple_server.Socket.{Script, recv_exactly, bind_result}
use simple_server.Websocket.Frame.{
  read_length, read_masking_key, read_payload, unmask, finish, read_frame_steps, read_frame,
  or_empty,
}
use simple_server.Websocket.Frame.Payload.{IsChunk, join, deliver, read_payload-deliver}
use simple_server.Websocket.Frame.RoundTrip.{
  short_length-lt, second_byte, second_byte-length, second_byte-masked, key_read, deliver_key,
  arriving, read_length-deliver, read_masking_key-deliver,
}
use simple_server.Experiments.Echo.Receive.{
  text_frame, show_frame, overwrite, receive_key, show_payload, receive_payload, receive_header,
  receive_web_socket_frame,
}

-- The first result of `recv` holds bytes.
abbrev pub StartsWithBytes : Script → Type 0
StartsWithBytes [] = Unit
StartsWithBytes (none ∷ s) = Unit
StartsWithBytes (some bytes ∷ s) = All IsByte bytes

-- The mask bit, which the one function shifts and the other compares with zero.
mask_bits : (b : ℕ) → IsByte b → bit_and (b / 2 ^ 7) 0x01 ≡ (if bit_and b 0x80 == 0 then 0 else 1)
unfolding all_below
mask_bits = agree_below 256 _ _ refl

same_mask : (b : ℕ) → IsByte b → not (bit_and b 0x80 == 0) ≡ (bit_and (b / 2 ^ 7) 0x01 == 1)
same_mask b h = elim (Bool-cases (bit_and b 0x80 == 0)) [
  | inl e ↦ rw (mask_bits b h, e)
  | inr e ↦ rw (mask_bits b h, e)
]

-- A result that is given together with what is left.
given :
    {A : Type 0} (a b : A) (s rest : Script)
    → ◌≡◌ {A = Option A × Script} (some a, s) (some b, rest)
    → ◌≡◌ {A = A × Script} (a, s) (b, rest)
given a b s rest h = cc h

whole : (bytes : Bytes) → length bytes ≡ 4 → overwrite (0 ∷ 0 ∷ 0 ∷ 0 ∷ []) (some bytes) ≡ bytes
unfolding overwrite
whole bytes e = rw (e, append-nil)

receive_key-read :
    (masked : Bool) (s rest : Script) (key : Bytes)
    → read_masking_key masked s ≡ (some key, rest)
    → receive_key masked s ≡ (key, rest)
unfolding read_masking_key receive_key
receive_key-read false s rest key h = given _ key s rest h
receive_key-read true [] rest key h = absurd (cc h)
receive_key-read true (none ∷ s) rest key h = absurd (cc h)
receive_key-read true (some bytes ∷ s) rest key h = elim (Bool-cases (length bytes == 4)) [
  | inl e ↦ rw (whole bytes ((==_iff (length bytes) 4).0 e)) (given bytes key s rest (rw e at h))
  | inr e ↦ absurd (cc (rw e at h))
]

finish-text :
    (opcode : ℕ) (masked : Bool) (key payload text : Bytes) (s rest : Script)
    → finish opcode masked key payload s ≡ (some text, rest)
    → show_payload opcode masked key (some payload, s) ≡ (text_frame text, rest)
unfolding finish show_payload show_frame
finish-text opcode masked key payload text s rest h = elim (Bool-cases (opcode == 1)) [
  | inl e ↦ rw e (ap (λ r. (text_frame r.0, r.1)) (given _ text s rest (rw e at h)))
  | inr e ↦ absurd (cc (rw e at h))
]

get_or-IsByte : (bytes : Bytes) (i : ℕ) → All IsByte bytes → IsByte (get_or bytes i 0)
get_or-IsByte [] i h = omega arith
get_or-IsByte (b ∷ bytes) zero (h, hs) = h
get_or-IsByte (b ∷ bytes) (suc i) (h, hs) = get_or-IsByte bytes i hs

header-IsByte :
    (s between : Script) (header : Bytes)
    → StartsWithBytes s
    → recv_exactly 2 s ≡ (some header, between)
    → IsByte (get_or header 1 0)
header-IsByte [] between header b h = absurd (cc h)
header-IsByte (none ∷ s) between header b h = absurd (cc h)
header-IsByte (some bytes ∷ s) between header b h = elim (Bool-cases (length bytes == 2)) [
  | inl e ↦
      let same = given bytes header s between (rw e at h) in
      rw (← ap (λ r. r.0) same) (get_or-IsByte bytes 1 b)
  | inr e ↦ absurd (cc (rw e at h))
]

receive-steps :
    (s : Script) (text : Bytes) (rest : Script)
    → StartsWithBytes s
    → read_frame_steps s ≡ (some text, rest)
    → receive_web_socket_frame s ≡ some (text_frame text, rest)
unfolding read_frame_steps receive_web_socket_frame receive_header receive_payload
receive-steps s text rest b h =
    let (header, s1, e1, h1) = bind_result (recv_exactly 2) _ s h in
    let second = get_or header 1 0 in
    let masked = bit_and (second / 2 ^ 7) 0x01 == 1 in
    let (n, s2, e2, h2) = bind_result (read_length (bit_and second 0x7f)) _ s1 h1 in
    let (key, s3, e3, h3) = bind_result (read_masking_key masked) _ s2 h2 in
    let (payload, s4, e4, h4) = bind_result (read_payload n []) _ s3 h3 in
    rw
      (
        e1,
        same_mask second (header-IsByte s s1 header b e1),
        e2,
        receive_key-read masked s2 s3 key e3,
        e4,
      )
      (ap some (finish-text (bit_and (get_or header 0 0) 0x0f) masked key payload text s4 rest h4))

-- Where read_frame reads a text that is not empty, from bytes, receiveWebSocketFrame prints this
-- text, and reads as far.
pub receive_web_socket_frame-text :
    (s : Script) (text : Bytes) (rest : Script)
    → StartsWithBytes s
    → is_empty text ≡ false
    → read_frame s ≡ (text, rest)
    → receive_web_socket_frame s ≡ some (text_frame text, rest)
unfolding read_frame
receive_web_socket_frame-text s text rest b full h = steps (read_frame_steps s) refl h
  where
    steps :
        (r : Option Bytes × Script)
        → read_frame_steps s ≡ r
        → or_empty r ≡ (text, rest)
        → receive_web_socket_frame s ≡ some (text_frame text, rest)
    steps (none, t) e g = absurd (cc (ap (λ r. is_empty r.0) g ∙ full))
    steps (some found, t) e g = receive-steps s text rest b (e ∙ ap (λ r. (some r.0, r.1)) g)

second_byte-IsByte : (masked : Bool) (n : ℕ) → IsByte (second_byte masked n)
second_byte-IsByte true n = omega (arith, short_length-lt n)
second_byte-IsByte false n = omega (arith, short_length-lt n)

-- A frame of any kind below 2^64 bytes, with a key of four bytes, in any chunks that are not empty:
-- what is printed for its opcode and its payload, which is read under the key if there is one.
pub receive_web_socket_frame-arriving :
    (first : ℕ) (masked : Bool) (key : Bytes) (chunks : List Bytes) (rest : Script)
    → length (join chunks) < 2 ^ 64
    → length key ≡ 4
    → All IsChunk chunks
    → receive_web_socket_frame (arriving first masked key chunks rest)
      ≡ some (
        show_frame
            (bit_and first 0x0f)
            (if masked then unmask (key_read masked key) 0 (join chunks) else join chunks),
        rest,
      )
unfolding receive_web_socket_frame receive_header receive_payload show_payload
receive_web_socket_frame-arriving first masked key chunks rest small four full =
    let n = length (join chunks) in
    let keyed = deliver_key masked key (deliver chunks rest) in
    rw
      (
        second_byte-length masked n,
        same_mask (second_byte masked n) (second_byte-IsByte masked n),
        second_byte-masked masked n,
        read_length-deliver n keyed small,
        receive_key-read masked keyed (deliver chunks rest) (key_read masked key)
            (read_masking_key-deliver masked key (deliver chunks rest) four),
        read_payload-deliver n [] chunks rest full (omega arith),
      )
      refl
