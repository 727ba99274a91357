-- ===== src/Websocket/Frame/Bits.antt =====
-- The fields of a frame's header, as arithmetic.
use native.Mathlib.Nat.{pow-suc, div-div-eq-div-mul, div-le_self}
use simple_server.Prelude.{
  ℕ, zero, suc, ◌+◌, ◌*◌, ◌/◌, ◌%◌, ◌^◌, ◌<◌, ◌≡◌, refl, sym, ap, ◌∙◌, bit_and, bit_or, arith,
  all_below, agree_below, bit_or-shift,
}
use simple_server.Websocket.Frame.{big_endian, push_bytes}

pub low_seven : (n : ℕ) → n < 128 → bit_and n 0x7f ≡ n
unfolding all_below
low_seven = agree_below 128 _ _ refl

pub low_seven_masked : (n : ℕ) → n < 128 → bit_and (n + 128) 0x7f ≡ n
unfolding all_below
low_seven_masked = agree_below 128 _ _ refl

pub mask_bit : (n : ℕ) → n < 128 → bit_and (n / 2 ^ 7) 0x01 ≡ 0
unfolding all_below
mask_bit = agree_below 128 _ _ refl

pub mask_bit_masked : (n : ℕ) → n < 128 → bit_and ((n + 128) / 2 ^ 7) 0x01 ≡ 1
unfolding all_below
mask_bit_masked = agree_below 128 _ _ refl

-- The two-byte extension.
pub two_bytes : (n : ℕ) → n < 2 ^ 16 → bit_or (n / 2 ^ 8 % 2 ^ 8 * 2 ^ 8) (n % 2 ^ 8) ≡ n
two_bytes n h = bit_or-shift 8 (n / 2 ^ 8 % 2 ^ 8) (n % 2 ^ 8) (omega arith) ∙ omega arith

-- One round of the loop over the eight-byte extension.
next_byte : (p q : ℕ) → p ≡ q / 2 ^ 8 → q < 2 ^ 64 → bit_or (p * 2 ^ 8 % 2 ^ 64) (q % 2 ^ 8) ≡ q
next_byte p q e h =
    ap (λ (x : ℕ). bit_or x (q % 2 ^ 8)) (small p q e h)
    ∙ bit_or-shift 8 p (q % 2 ^ 8) (omega arith)
    ∙ omega arith
  where
    small : (p q : ℕ) → p ≡ q / 2 ^ 8 → q < 2 ^ 64 → p * 2 ^ 8 % 2 ^ 64 ≡ p * 2 ^ 8
    small p q e h = omega arith

eight_more : (k : ℕ) → suc k * 8 ≡ suc (suc (suc (suc (suc (suc (suc (suc (k * 8))))))))
eight_more k = omega arith

pow_more : (k : ℕ) → 2 ^ (suc k * 8) ≡ 2 ^ (k * 8) * 2 ^ 8
pow_more k = ap (λ (x : ℕ). 2 ^ x) (eight_more k) ∙ simp pow-suc (omega arith)

shift_more : (k n : ℕ) → n / 2 ^ (suc k * 8) ≡ n / 2 ^ (k * 8) / 2 ^ 8
shift_more k n =
    ap (λ (x : ℕ). n / x) (pow_more k) ∙ sym (div-div-eq-div-mul n (2 ^ (k * 8)) (2 ^ 8))

big_endian-push_bytes_from :
    (k n p : ℕ) → n < 2 ^ 64 → p ≡ n / 2 ^ (k * 8) → big_endian p (push_bytes k n) ≡ n
unfolding big_endian push_bytes
big_endian-push_bytes_from zero n p h e = e ∙ omega arith
big_endian-push_bytes_from (suc k) n p h e = big_endian-push_bytes_from k n _ h (
    next_byte p (n / 2 ^ (k * 8)) (e ∙ shift_more k n) (omega (arith, div-le_self n (2 ^ (k * 8)))))

-- The eight-byte extension gives the length back.
pub big_endian-push_bytes : (n : ℕ) → n < 2 ^ 64 → big_endian 0 (push_bytes 8 n) ≡ n
big_endian-push_bytes n h = big_endian-push_bytes_from 8 n 0 h (omega arith)
