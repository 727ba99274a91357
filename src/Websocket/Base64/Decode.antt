-- ===== src/Websocket/Base64/Decode.antt =====
-- Decoding as RFC 4648 describes it, written independently of the encoders, and the round trip.
use simple_server.Prelude.{
  ℕ, some, suc, ◌+◌, ◌*◌, ◌/◌, ◌%◌, ◌^◌, ◌<◌, ◌≡◌, refl, ap, false, [], ◌∷◌, arith, Bytes, IsByte,
  All, length, ◌==◌, if◌then◌else◌, all_below, agree_below,
}
use simple_server.Websocket.Base64.{base64_chars, base64_char, base64_encode, base64_loop}
use simple_server.Websocket.Base64.Loop.{base64_loop-base64_encode}
use simple_server.Websocket.Base64.Agree.{encode_group-sextets, encode_group_full}

position : ℕ → Bytes → ℕ
position c [] = 0
position c (d ∷ ds) = if c == d then 0 else suc (position c ds)

-- The value of a character of the alphabet.
base64_value : ℕ → ℕ
unfolding position
base64_value c = position c base64_chars

first_byte : ℕ → ℕ → ℕ
first_byte c0 c1 = base64_value c0 * 4 + base64_value c1 / 16

second_byte : ℕ → ℕ → ℕ
second_byte c1 c2 = base64_value c1 % 16 * 16 + base64_value c2 / 4

third_byte : ℕ → ℕ → ℕ
third_byte c2 c3 = base64_value c2 % 4 * 64 + base64_value c3

-- Groups of four characters; `=` ends the text after one or two bytes.
pub decode : Bytes → Bytes
decode (c0 ∷ c1 ∷ c2 ∷ c3 ∷ rest) =
    let later = decode rest in
    if c2 == b'='
    then first_byte c0 c1 ∷ []
    else if c3 == b'='
    then first_byte c0 c1 ∷ second_byte c1 c2 ∷ []
    else first_byte c0 c1 ∷ second_byte c1 c2 ∷ third_byte c2 c3 ∷ later
decode _ = []

base64_value-char : (k : ℕ) → k < 64 → base64_value (base64_char k) ≡ k
unfolding base64_value base64_char all_below
base64_value-char = agree_below 64 (λ k. base64_value (base64_char k)) (λ k. k) refl

char_is_pad : ℕ → ℕ
unfolding base64_char
char_is_pad k = if base64_char k == b'=' then 1 else 0

char_is_pad-zero : (k : ℕ) → k < 64 → char_is_pad k ≡ 0
unfolding char_is_pad all_below
char_is_pad-zero = agree_below 64 char_is_pad (λ k. 0) refl

not_pad : (k : ℕ) → k < 64 → (base64_char k == b'=') ≡ false
unfolding char_is_pad
not_pad k h = ground (arith, char_is_pad-zero k h)

module _ (b0 b1 b2 : ℕ) (h0 : IsByte b0) (h1 : IsByte b1) where
  first_byte_lem : first_byte (base64_char (b0 / 4)) (base64_char (b0 % 4 * 16 + b1 / 16)) ≡ b0
  unfolding first_byte
  first_byte_lem = omega (
    arith,
    base64_value-char (b0 / 4) (omega arith),
    base64_value-char (b0 % 4 * 16 + b1 / 16) (omega arith),
  )

  second_byte_lem :
      IsByte b2
      → second_byte (base64_char (b0 % 4 * 16 + b1 / 16)) (base64_char (b1 % 16 * 4 + b2 / 64)) ≡ b1
  unfolding second_byte
  second_byte_lem h2 = omega (
    arith,
    base64_value-char (b0 % 4 * 16 + b1 / 16) (omega arith),
    base64_value-char (b1 % 16 * 4 + b2 / 64) (omega arith),
  )

third_byte_lem :
    (b1 b2 : ℕ)
    → IsByte b1
    → IsByte b2
    → third_byte (base64_char (b1 % 16 * 4 + b2 / 64)) (base64_char (b2 % 64)) ≡ b2
unfolding third_byte
third_byte_lem b1 b2 h1 h2 = omega (
  arith,
  base64_value-char (b1 % 16 * 4 + b2 / 64) (omega arith),
  base64_value-char (b2 % 64) (omega arith),
)

decode-encoded : (input : Bytes) → All IsByte input → decode (base64_encode input) ≡ input
unfolding decode base64_encode
decode-encoded [] h = refl
decode-encoded (b0 ∷ []) (h0, h) =
    rw (encode_group-sextets b0 0 0 h0 (omega arith) (omega arith) 1)
      (ap (λ b. b ∷ []) (first_byte_lem b0 0 0 h0 (omega arith)))
decode-encoded (b0 ∷ b1 ∷ []) (h0, (h1, h)) =
    rw (encode_group-sextets b0 b1 0 h0 h1 (omega arith) 2) (
      rw (
        not_pad (b1 % 16 * 4 + 0 / 64) (omega arith),
        first_byte_lem b0 b1 0 h0 h1,
        second_byte_lem b0 b1 0 h0 h1 (omega arith),
      ))
decode-encoded (b0 ∷ b1 ∷ b2 ∷ rest) (h0, (h1, (h2, h))) =
    rw (encode_group_full b0 b1 b2 h0 h1 h2 (length rest)) (
      rw (
        not_pad (b1 % 16 * 4 + b2 / 64) (omega arith),
        not_pad (b2 % 64) (omega arith),
        first_byte_lem b0 b1 b2 h0 h1,
        second_byte_lem b0 b1 b2 h0 h1 h2,
        third_byte_lem b1 b2 h1 h2,
        decode-encoded rest h,
      ))

-- For fewer than 2^32 bytes and more rounds than bytes: the loop of the encoder ends, and decoding what
-- it wrote gives the bytes back.
pub decode-base64_encode :
    (fuel : ℕ) (input : Bytes)
    → All IsByte input
    → length input < fuel
    → length input < 2 ^ 32
    → (base64_loop fuel input 0 ≡ some (base64_encode input))
      × (decode (base64_encode input) ≡ input)
decode-base64_encode fuel input h enough short =
    (base64_loop-base64_encode fuel input enough short, decode-encoded input h)
