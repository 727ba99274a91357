-- ===== src/Websocket/Base64/Bits.antt =====
-- The masks and shifts of the encoders as arithmetic, each checked over all bytes.
use simple_server.Prelude.{
  ℕ, ◌+◌, ◌*◌, ◌/◌, ◌%◌, ◌≡◌, refl, bit_and, bit_or, all_below, agree_below, bit_or-shift, IsByte,
  arith,
}

pub bit_and_03 : (b : ℕ) → IsByte b → bit_and b 0x03 ≡ b % 4
unfolding all_below
bit_and_03 = agree_below 256 _ _ refl

pub bit_and_f0 : (b : ℕ) → IsByte b → bit_and b 0xf0 / 16 ≡ b / 16
unfolding all_below
bit_and_f0 = agree_below 256 _ _ refl

pub bit_and_0f : (b : ℕ) → IsByte b → bit_and b 0x0f ≡ b % 16
unfolding all_below
bit_and_0f = agree_below 256 _ _ refl

pub bit_and_c0 : (b : ℕ) → IsByte b → bit_and b 0xc0 / 64 ≡ b / 64
unfolding all_below
bit_and_c0 = agree_below 256 _ _ refl

pub bit_and_3f : (b : ℕ) → IsByte b → bit_and b 0x3f ≡ b % 64
unfolding all_below
bit_and_3f = agree_below 256 _ _ refl

pub bit_and_fc : (b : ℕ) → IsByte b → bit_and b 0xfc / 4 ≡ b / 4
unfolding all_below
bit_and_fc = agree_below 256 _ _ refl

-- The second and third sextets of a group.
pub second_sextet :
    (b0 b1 : ℕ)
    → IsByte b0
    → IsByte b1
    → bit_or (bit_and b0 0x03 * 16) (bit_and b1 0xf0 / 16) ≡ b0 % 4 * 16 + b1 / 16
second_sextet b0 b1 h k =
    rw (bit_and_03 b0 h, bit_and_f0 b1 k) (bit_or-shift 4 (b0 % 4) (b1 / 16) (omega arith))

pub third_sextet :
    (b1 b2 : ℕ)
    → IsByte b1
    → IsByte b2
    → bit_or (bit_and b1 0x0f * 4) (bit_and b2 0xc0 / 64) ≡ b1 % 16 * 4 + b2 / 64
third_sextet b1 b2 h k =
    rw (bit_and_0f b1 h, bit_and_c0 b2 k) (bit_or-shift 2 (b1 % 16) (b2 / 64) (omega arith))
