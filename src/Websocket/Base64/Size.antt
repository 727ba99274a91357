-- ===== src/Websocket/Base64/Size.antt =====
-- How long the output of `base64_encode` is, and which characters it holds.
use simple_server.Prelude.{
  ℕ, ◌+◌, ◌*◌, ◌/◌, ◌<◌, ◌≡◌, refl, Bool, true, false, ◌||◌, ◌&&◌, [], ◌∷◌, Bytes, IsByte, All,
  All-append, length, leb, ltb, ◌==◌, if◌then◌else◌, all_below, agree_below, bit_and, bit_or, arith,
}
use simple_server.Websocket.Base64.{base64_char, encode_group, base64_encode}
use simple_server.Websocket.Base64.Bits.{bit_and_3f, second_sextet, third_sextet}

-- The alphabet of RFC 4648 and its padding.
abbrev pub is_base64 : ℕ → Bool
is_base64 c =
    (leb b'A' c && leb c b'Z')
    || (leb b'a' c && leb c b'z')
    || (leb b'0' c && leb c b'9')
    || (c == b'+')
    || (c == b'/')
    || (c == b'=')

abbrev pub IsBase64 : ℕ → Type 0
IsBase64 c = is_base64 c ≡ true

base64_char-IsBase64 : (k : ℕ) → k < 64 → IsBase64 (base64_char k)
unfolding base64_char all_below
base64_char-IsBase64 k l =
    ground
      (arith, agree_below 64 (λ k. if is_base64 (base64_char k) then 0 else 1) (λ k. 0) refl k l)

encode_group-IsBase64 :
    (b0 b1 b2 left : ℕ)
    → IsByte b0
    → IsByte b1
    → IsByte b2
    → All IsBase64 (encode_group b0 b1 b2 left)
unfolding encode_group
encode_group-IsBase64 b0 b1 b2 left h0 h1 h2 =
    let third : IsBase64 (base64_char (bit_or (bit_and b1 0x0f * 4) (bit_and b2 0xc0 / 64))) =
      base64_char-IsBase64 _ (rw (third_sextet b1 b2 h1 h2) (omega arith)) in
    let fourth : IsBase64 (base64_char (bit_and b2 0x3f)) =
      base64_char-IsBase64 _ (rw (bit_and_3f b2 h2) (omega arith)) in
    (
      base64_char-IsBase64 (b0 / 4) (omega arith),
      (
        base64_char-IsBase64 _ (rw (second_sextet b0 b1 h0 h1) (omega arith)),
        (choice (ltb 1 left) _ third, (choice (ltb 2 left) _ fourth, tt)),
      ),
    )
  where
    choice : (b : Bool) (c : ℕ) → IsBase64 c → IsBase64 (if b then c else b'=')
    choice true c h = h
    choice false c h = refl

-- The output holds four characters for every three bytes or part of them, all of the alphabet.
pub base64_encode-bounds :
    (bytes : Bytes)
    → All IsByte bytes
    → All IsBase64 (base64_encode bytes)
      × (length (base64_encode bytes) ≡ 4 * ((length bytes + 2) / 3))
unfolding base64_encode encode_group
base64_encode-bounds [] h = (tt, refl)
base64_encode-bounds (b0 ∷ []) (h0, h) =
    (encode_group-IsBase64 b0 0 0 1 h0 (omega arith) (omega arith), refl)
base64_encode-bounds (b0 ∷ b1 ∷ []) (h0, (h1, h)) =
    (encode_group-IsBase64 b0 b1 0 2 h0 h1 (omega arith), refl)
base64_encode-bounds (b0 ∷ b1 ∷ b2 ∷ rest) (h0, (h1, (h2, h))) =
    let (all, size) = base64_encode-bounds rest h in
    (
      All-append IsBase64 (encode_group b0 b1 b2 (3 + length rest)) (base64_encode rest)
          (encode_group-IsBase64 b0 b1 b2 (3 + length rest) h0 h1 h2) all,
      omega (arith, size),
    )
