-- ===== src/Websocket/Base64/Agree.antt =====
-- The encoders `b64` and `base64_encode` compared, group by group.
use mathlib.Core.List.{foldl}
use simple_server.Prelude.{
  ℕ, some, suc, ◌+◌, ◌*◌, ◌/◌, ◌%◌, ◌^◌, ◌<◌, ◌≡◌, refl, sym, ap, ◌∙◌, [], ◌∷◌, ◌++◌, append_assoc,
  append-nil, arith, Bytes, IsByte, All, length, length-append, ltb, lt→ltb, if◌then◌else◌,
}
use simple_server.Websocket.Base64.{
  base64_char, encode_group, base64_encode, base64_loop, quad, b64_step, pad, b64_finish, b64,
}
use simple_server.Websocket.Base64.Loop.{base64_loop-base64_encode}
use simple_server.Websocket.Base64.Bits.{
  bit_and_03, bit_and_f0, bit_and_0f, bit_and_c0, bit_and_3f, bit_and_fc, second_sextet,
  third_sextet,
}

-- Both kinds of group, with the masks read as arithmetic.
abbrev pub sextets : ℕ → ℕ → ℕ → Bytes
sextets b0 b1 b2 =
    base64_char (b0 / 4)
    ∷ base64_char (b0 % 4 * 16 + b1 / 16)
    ∷ base64_char (b1 % 16 * 4 + b2 / 64)
    ∷ base64_char (b2 % 64)
    ∷ []

module _ (b0 b1 b2 : ℕ) (h0 : IsByte b0) (h1 : IsByte b1) (h2 : IsByte b2) where
  quad-sextets : quad b0 b1 b2 ≡ sextets b0 b1 b2
  unfolding quad
  quad-sextets = rw (
    bit_and_fc b0 h0,
    bit_and_03 b0 h0,
    bit_and_f0 b1 h1,
    bit_and_0f b1 h1,
    bit_and_c0 b2 h2,
    bit_and_3f b2 h2,
  )

  pub encode_group-sextets :
      (left : ℕ)
      → encode_group b0 b1 b2 left
        ≡ base64_char (b0 / 4)
          ∷ base64_char (b0 % 4 * 16 + b1 / 16)
          ∷ (if ltb 1 left then base64_char (b1 % 16 * 4 + b2 / 64) else b'=')
          ∷ (if ltb 2 left then base64_char (b2 % 64) else b'=')
          ∷ []
  unfolding encode_group
  encode_group-sextets left =
      rw (second_sextet b0 b1 h0 h1, third_sextet b1 b2 h1 h2, bit_and_3f b2 h2)

  pub encode_group_full : (n : ℕ) → encode_group b0 b1 b2 (3 + n) ≡ sextets b0 b1 b2
  encode_group_full n =
      encode_group-sextets (3 + n)
      ∙ rw (lt→ltb 1 (3 + n) (omega arith), lt→ltb 2 (3 + n) (omega arith))

pad_done : (fuel : ℕ) (r : Bytes) → length r % 4 ≡ 0 → pad (suc fuel) r ≡ r
unfolding pad
pad_done fuel r h = rw h

pad_more :
    (fuel n : ℕ) (r : Bytes) → length r % 4 ≡ suc n → pad (suc fuel) r ≡ pad fuel (r ++ b'=' ∷ [])
unfolding pad
pad_more fuel n r h = rw h (ground arith)

length-quad : (b0 b1 b2 : ℕ) → length (quad b0 b1 b2) ≡ 4
unfolding quad
length-quad b0 b1 b2 = refl

pad_two :
    (r : Bytes) (c d : ℕ)
    → length r % 4 ≡ 0
    → pad 4 (r ++ c ∷ d ∷ []) ≡ r ++ c ∷ d ∷ b'=' ∷ b'=' ∷ []
pad_two r c d h =
    pad_more 3 1 (r ++ c ∷ d ∷ []) (omega (arith, length-append r (c ∷ d ∷ [])))
    ∙ ap (pad 3) (append_assoc r (c ∷ d ∷ []) (b'=' ∷ []))
    ∙ pad_more 2 2 (r ++ c ∷ d ∷ b'=' ∷ []) (omega (arith, length-append r (c ∷ d ∷ b'=' ∷ [])))
    ∙ ap (pad 2) (append_assoc r (c ∷ d ∷ b'=' ∷ []) (b'=' ∷ []))
    ∙ pad_done 1 (r ++ c ∷ d ∷ b'=' ∷ b'=' ∷ [])
        (omega (arith, length-append r (c ∷ d ∷ b'=' ∷ b'=' ∷ [])))

pad_one :
    (r : Bytes) (c d e : ℕ)
    → length r % 4 ≡ 0
    → pad 4 (r ++ c ∷ d ∷ e ∷ []) ≡ r ++ c ∷ d ∷ e ∷ b'=' ∷ []
pad_one r c d e h =
    pad_more 3 2 (r ++ c ∷ d ∷ e ∷ []) (omega (arith, length-append r (c ∷ d ∷ e ∷ [])))
    ∙ ap (pad 3) (append_assoc r (c ∷ d ∷ e ∷ []) (b'=' ∷ []))
    ∙ pad_done 2 (r ++ c ∷ d ∷ e ∷ b'=' ∷ [])
        (omega (arith, length-append r (c ∷ d ∷ e ∷ b'=' ∷ [])))

b64_loop :
    (a b c : ℕ) (r input : Bytes)
    → All IsByte input
    → length r % 4 ≡ 0
    → b64_finish
        (foldl b64_step (record { byte0 = a; byte1 = b; byte2 = c; i = 0; result = r }) input)
      ≡ r ++ base64_encode input
unfolding b64_finish b64_step base64_encode
b64_loop a b c r [] h k = sym (append-nil r)
b64_loop a b c r (b0 ∷ []) (h0, h) k =
    rw (quad-sextets b0 0 0 h0 (omega arith) (omega arith))
      (pad_two r _ _ k ∙ rw (encode_group-sextets b0 0 0 h0 (omega arith) (omega arith) 1))
b64_loop a b c r (b0 ∷ b1 ∷ []) (h0, (h1, h)) k =
    rw (quad-sextets b0 b1 0 h0 h1 (omega arith))
      (pad_one r _ _ _ k ∙ rw (encode_group-sextets b0 b1 0 h0 h1 (omega arith) 2))
b64_loop a b c r (b0 ∷ b1 ∷ b2 ∷ rest) (h0, (h1, (h2, h))) k =
    b64_loop b0 b1 b2 (r ++ quad b0 b1 b2) rest h
      (omega (arith, length-append r (quad b0 b1 b2), length-quad b0 b1 b2))
    ∙ append_assoc r (quad b0 b1 b2) (base64_encode rest)
    ∙ ap (λ g. r ++ (g ++ base64_encode rest))
        (quad-sextets b0 b1 b2 h0 h1 h2 ∙ sym (encode_group_full b0 b1 b2 h0 h1 h2 (length rest)))

-- For fewer than 2^32 bytes and more rounds than bytes: the loop of the indexed encoder, whose index
-- has 32 bits, ends, and the buffered encoder returns the same.
pub b64-eq-base64_encode :
    (fuel : ℕ) (input : Bytes)
    → All IsByte input
    → length input < fuel
    → length input < 2 ^ 32
    → (base64_loop fuel input 0 ≡ some (base64_encode input)) × (b64 input ≡ base64_encode input)
unfolding b64
b64-eq-base64_encode fuel input h enough short =
    (base64_loop-base64_encode fuel input enough short, b64_loop 0 0 0 [] input h refl)
