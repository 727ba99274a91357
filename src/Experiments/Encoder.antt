-- ===== src/Experiments/Encoder.antt =====
-- The Base64 encoder of experiments/cppws/base64.cpp.
use simple_server.Prelude.{
  ℕ, ◌+◌, ◌*◌, ◌/◌, ◌^◌, ◌-◌, ◌≤◌, ◌<◌, ◌≡◌, refl, sym, ap, ◌∙◌, [], ◌∷◌, ◌++◌, bit_and, bit_or,
  Bytes, IsByte, All, length, ltb, true, false, append-nil, if◌then◌else◌, all_below, agree_below,
  arith,
}
use simple_server.Websocket.Base64.{base64_char, encode_group, base64_encode}

-- The four characters of a round, which has left the index at i; n is the length of the input.
unfoldable pub text_group : ℕ → ℕ → ℕ → ℕ → ℕ → Bytes
text_group a b c i n =
    base64_char (bit_and (a / 4) 0x3f)
    ∷ base64_char (bit_or (bit_and (a * 16) 0x30) (bit_and (b / 16) 0x0f))
    ∷ (if ltb (n + 1) i
        then b'='
        else base64_char (bit_or (bit_and (b * 4) 0x3c) (bit_and (c / 64) 0x03)))
    ∷ (if ltb n i then b'=' else base64_char (bit_and c 0x3f))
    ∷ []

-- The loop from index i on, for what is left of the input of length n. Each of the three reads
-- moves the index only where there is a byte. The index is an `int`: this is what the code does for
-- fewer than 2^31 - 3 bytes.
unfoldable pub encode_loop : ℕ → ℕ → Bytes → Bytes
unfolding text_group
encode_loop i n [] = []
encode_loop i n (a ∷ []) = text_group a 0 0 (i + 1) n
encode_loop i n (a ∷ b ∷ []) = text_group a b 0 (i + 2) n
encode_loop i n (a ∷ b ∷ c ∷ rest) = text_group a b c (i + 3) n ++ encode_loop (i + 3) n rest

unfoldable pub encode_text : Bytes → Bytes
unfolding encode_loop
encode_text input = encode_loop 0 (length input) input

-- The input with zeros up to a multiple of three bytes.
abbrev pub with_zeros : Bytes → Bytes
with_zeros [] = []
with_zeros (a ∷ []) = a ∷ 0 ∷ 0 ∷ []
with_zeros (a ∷ b ∷ []) = a ∷ b ∷ 0 ∷ []
with_zeros (a ∷ b ∷ c ∷ rest) = a ∷ b ∷ c ∷ with_zeros rest

top_six : (a : ℕ) → IsByte a → bit_and (a / 4) 0x3f ≡ a / 4
unfolding all_below
top_six = agree_below 256 _ _ refl

low_two : (a : ℕ) → IsByte a → bit_and (a * 16) 0x30 ≡ bit_and a 0x03 * 16
unfolding all_below
low_two = agree_below 256 _ _ refl

top_four : (b : ℕ) → IsByte b → bit_and (b / 16) 0x0f ≡ bit_and b 0xf0 / 16
unfolding all_below
top_four = agree_below 256 _ _ refl

low_four : (b : ℕ) → IsByte b → bit_and (b * 4) 0x3c ≡ bit_and b 0x0f * 4
unfolding all_below
low_four = agree_below 256 _ _ refl

top_two : (c : ℕ) → IsByte c → bit_and (c / 64) 0x03 ≡ bit_and c 0xc0 / 64
unfolding all_below
top_two = agree_below 256 _ _ refl

-- While the index is not behind the end, a round is one of the other encoder with three bytes left.
text_group-encode_group :
    (a b c i n left : ℕ)
    → IsByte a
    → IsByte b
    → IsByte c
    → i ≤ n
    → 3 ≤ left
    → text_group a b c i n ≡ encode_group a b c left
unfolding text_group encode_group
text_group-encode_group a b c i n left ha hb hc h l =
    rw
      (
        top_six a ha,
        low_two a ha,
        top_four b hb,
        low_four b hb,
        top_two c hc,
        not_behind (n + 1) i (omega (arith, h)),
        not_behind n i h,
        ahead 1 left (omega (arith, l)),
        ahead 2 left (omega (arith, l)),
      )
      refl
  where
    not_behind : (n i : ℕ) → i ≤ n → ltb n i ≡ false
    not_behind n i h = ground arith

    ahead : (k left : ℕ) → k + 1 ≤ left → ltb k left ≡ true
    ahead k left h = ground arith

encode_loop-with_zeros :
    (i n : ℕ) (input : Bytes)
    → All IsByte input
    → i + length input ≤ n
    → encode_loop i n input ≡ base64_encode (with_zeros input)
unfolding encode_loop base64_encode
encode_loop-with_zeros i n [] h l = refl
encode_loop-with_zeros i n (a ∷ []) (ha, h) l =
    text_group-encode_group a 0 0 (i + 1) n 3 ha (omega arith) (omega arith) (omega (arith, l))
      (omega arith)
    ∙ sym (append-nil _)
encode_loop-with_zeros i n (a ∷ b ∷ []) (ha, (hb, h)) l =
    text_group-encode_group a b 0 (i + 2) n 3 ha hb (omega arith) (omega (arith, l)) (omega arith)
    ∙ sym (append-nil _)
encode_loop-with_zeros i n (a ∷ b ∷ c ∷ rest) (ha, (hb, (hc, h))) l =
    ap (λ x. x ++ encode_loop (i + 3) n rest)
      (text_group-encode_group a b c (i + 3) n (3 + length (with_zeros rest)) ha hb hc
        (omega (arith, l)) (omega arith))
    ∙ ap (λ x. encode_group a b c (3 + length (with_zeros rest)) ++ x)
        (encode_loop-with_zeros (i + 3) n rest h (omega (arith, l)))

-- The index is never behind the end of the input, so that no padding is written: the encoder gives
-- the Base64 text of the bytes with zeros behind them. There are fewer than 2^31 - 3 bytes, so
-- that the index, an `int`, does not overflow.
pub encode_text-with_zeros :
    (input : Bytes)
    → All IsByte input
    → length input < 2 ^ 31 - 3
    → encode_text input ≡ base64_encode (with_zeros input)
unfolding encode_text
encode_text-with_zeros input h short = encode_loop-with_zeros 0 (length input) input h (omega arith)
