-- ===== src/Websocket/Base64/Loop.antt =====
-- The loop of `base64_encode` of src/websocket_handler.cpp, with its index of 32 bits.
use simple_server.Prelude.{
  ℕ, zero, suc, ◌+◌, ◌-◌, ◌%◌, ◌^◌, ◌<◌, ◌≤◌, ◌≡◌, refl, sym, ap, ◌∙◌, true, some, [], ◌∷◌, ◌++◌,
  append_assoc, append-nil, Bytes, get_or, length, length-append, ltb, arith, if◌then◌else◌,
}
use simple_server.Websocket.Base64.{encode_group, base64_encode, base64_group, base64_loop}

get_or-append : (pre xs : Bytes) (k : ℕ) → get_or (pre ++ xs) (length pre + k) 0 ≡ get_or xs k 0
get_or-append [] xs k = ap (λ i. get_or xs i 0) (omega arith)
get_or-append (p ∷ pre) xs k =
    let shift : length (p ∷ pre) + k ≡ suc (length pre + k) = omega arith in
    ap (λ i. get_or (p ∷ pre ++ xs) i 0) shift ∙ get_or-append pre xs k

get_or-at : (pre xs : Bytes) (i k : ℕ) → i ≡ length pre + k → get_or (pre ++ xs) i 0 ≡ get_or xs k 0
get_or-at pre xs i k e = ap (λ i. get_or (pre ++ xs) i 0) e ∙ get_or-append pre xs k

-- Behind a multiple of three bytes, the index does not wrap around within the bytes.
module _ (pre xs : Bytes) (short : length pre + length xs < 2 ^ 32) (three : length pre % 3 ≡ 0)
    (some_left : 0 < length xs) where
  base64_group-append :
      base64_group (pre ++ xs) (length pre)
      ≡ encode_group
          (get_or xs 0 0)
          (if ltb 1 (length xs) then get_or xs 1 0 else 0)
          (if ltb 2 (length xs) then get_or xs 2 0 else 0)
          (length xs)
  unfolding base64_group
  base64_group-append = rw (
    bytes_left,
    get_or-at pre xs (length pre) 0 (omega arith),
    get_or-at pre xs ((length pre + 1) % 2 ^ 32) 1 (omega arith),
    get_or-at pre xs ((length pre + 2) % 2 ^ 32) 2 (omega arith),
  )
    where
      bytes_left : length (pre ++ xs) - length pre ≡ length xs
      bytes_left = omega (arith, length-append pre xs)

  base64_loop-more :
      (fuel : ℕ) (output : Bytes)
      → base64_loop fuel (pre ++ xs) (length pre + 3) ≡ some output
      → base64_loop (suc fuel) (pre ++ xs) (length pre)
        ≡ some (
            encode_group
              (get_or xs 0 0)
              (if ltb 1 (length xs) then get_or xs 1 0 else 0)
              (if ltb 2 (length xs) then get_or xs 2 0 else 0)
              (length xs)
            ++ output)
  unfolding base64_loop
  base64_loop-more fuel output more = rw (ahead, not_wrapped, base64_group-append, more)
    where
      ahead : ltb (length pre) (length (pre ++ xs)) ≡ true
      ahead = ground (arith, length-append pre xs)

      not_wrapped : (length pre + 3) % 2 ^ 32 ≡ length pre + 3
      not_wrapped = omega arith

base64_loop-end :
    (fuel : ℕ) (input : Bytes) (i : ℕ) → length input ≤ i → base64_loop (suc fuel) input i ≡ some []
unfolding base64_loop
base64_loop-end fuel input i l = ground arith

full_group :
    (b0 b1 b2 n : ℕ)
    → encode_group b0
        (if ltb 1 (suc (suc (suc n))) then b1 else 0)
        (if ltb 2 (suc (suc (suc n))) then b2 else 0)
        (suc (suc (suc n)))
      ≡ encode_group b0 b1 b2 (3 + n)
full_group b0 b1 b2 n = ground arith

base64_loop-append :
    (fuel : ℕ) (pre xs : Bytes)
    → length pre + length xs < 2 ^ 32
    → length pre % 3 ≡ 0
    → length xs < fuel
    → base64_loop fuel (pre ++ xs) (length pre) ≡ some (base64_encode xs)
unfolding base64_encode
base64_loop-append zero pre xs short three enough = absurd (omega arith)
base64_loop-append (suc fuel) pre [] short three enough =
    base64_loop-end fuel (pre ++ []) (length pre) (omega (arith, length-append pre []))
base64_loop-append (suc zero) pre (b0 ∷ xs) short three enough = absurd (omega arith)
base64_loop-append (suc (suc fuel)) pre (b0 ∷ []) short three enough =
    base64_loop-more pre (b0 ∷ []) short three (omega arith) (suc fuel) [] (
      base64_loop-end fuel (pre ++ b0 ∷ []) (length pre + 3)
        (omega (arith, length-append pre (b0 ∷ []))))
    ∙ ap some (append-nil _)
base64_loop-append (suc (suc fuel)) pre (b0 ∷ b1 ∷ []) short three enough =
    base64_loop-more pre (b0 ∷ b1 ∷ []) short three (omega arith) (suc fuel) [] (
      base64_loop-end fuel (pre ++ b0 ∷ b1 ∷ []) (length pre + 3)
        (omega (arith, length-append pre (b0 ∷ b1 ∷ []))))
    ∙ ap some (append-nil _)
base64_loop-append (suc (suc fuel)) pre (b0 ∷ b1 ∷ b2 ∷ xs) short three enough =
    base64_loop-more pre (b0 ∷ b1 ∷ b2 ∷ xs) short three (omega arith) (suc fuel) (base64_encode xs)
      (ap (λ d. base64_loop (suc fuel) d (length pre + 3))
          (sym (append_assoc pre (b0 ∷ b1 ∷ b2 ∷ []) xs))
        ∙ ap (base64_loop (suc fuel) ((pre ++ b0 ∷ b1 ∷ b2 ∷ []) ++ xs))
            (sym (length-append pre (b0 ∷ b1 ∷ b2 ∷ [])))
        ∙ base64_loop-append (suc fuel) (pre ++ b0 ∷ b1 ∷ b2 ∷ []) xs
            (omega (arith, length-append pre (b0 ∷ b1 ∷ b2 ∷ [])))
            (omega (arith, length-append pre (b0 ∷ b1 ∷ b2 ∷ []))) (omega arith))
    ∙ ap (λ g. some (g ++ base64_encode xs)) (full_group b0 b1 b2 (length xs))

-- For fewer than 2^32 bytes, and with more rounds than bytes, the loop ends and writes what
-- `base64_encode` returns.
pub base64_loop-base64_encode :
    (fuel : ℕ) (input : Bytes)
    → length input < fuel
    → length input < 2 ^ 32
    → base64_loop fuel input 0 ≡ some (base64_encode input)
base64_loop-base64_encode fuel input enough short =
    base64_loop-append fuel [] input (omega arith) refl enough
