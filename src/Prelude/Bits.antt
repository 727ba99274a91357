-- ===== src/Prelude/Bits.antt =====
-- Laws of the machine's bit operations at variables: each follows from the law for one digit.
use Prim.Native.Nat.{
  ℕ, zero, suc, ◌+◌, ◌*◌, ◌/◌, ◌%◌, ◌^◌, ◌≤◌, ◌<◌, max, bit_or, bit_xor, digits, differ,
  bit_or-bitwise, bit_xor-bitwise,
}
use mathlib.Core.Path.{◌≡◌, refl, ap, ◌∙◌}
use mathlib.Core.Bool.{Bool, true, false}
use native.Mathlib.Omega.{arith}
use native.Mathlib.Nat.{pow-suc}
use simple_server.Prelude.Tests.{◌==◌, ==_iff, leb, leb→le, Bool-cases, if◌then◌else◌}
use mathlib.Core.Logic.{inl, inr}

-- Over a small range, every value is checked by evaluation.
unfoldable pub all_below : (ℕ → Bool) → ℕ → Bool
all_below p zero = true
all_below p (suc n) = let smaller = all_below p n in if p n then smaller else false

all_below_sound : (p : ℕ → Bool) (n x : ℕ) → x < n → all_below p n ≡ true → p x ≡ true
unfolding all_below
all_below_sound p (suc n) x l h = ground (arith, all_below_sound p n x)
all_below_sound p zero x l h = absurd (omega arith)

-- Two functions that agree on every value below a bound.
pub agree_below :
    (n : ℕ) (f g : ℕ → ℕ) → all_below (λ x. f x == g x) n ≡ true → (x : ℕ) → x < n → f x ≡ g x
agree_below n f g h x lt = (==_iff (f x) (g x)).0 (all_below_sound (λ y. f y == g y) n x lt h)

-- Fuel above the first number changes nothing in the recursion on digits.
module _ (z : ℕ → ℕ) (f : ℕ → ℕ → ℕ) where
  digits_more : (n a b : ℕ) → a ≤ n → digits z f (suc n) a b ≡ digits z f n a b
  digits_more (suc n) (suc a) b h = omega (arith, digits_more n (suc a / 2) (b / 2) (omega arith))
  digits_more zero (suc a) b h = absurd (omega arith)
  digits_more (suc n) zero b h = refl
  digits_more zero zero b h = refl

  digits_enough : (n a b : ℕ) → a ≤ n → digits z f n a b ≡ digits z f a a b
  digits_enough zero zero b h = refl
  digits_enough zero (suc a) b h = absurd (omega arith)
  digits_enough (suc n) a b h = elim (Bool-cases (leb a n)) [
    | inl e ↦ digits_more n a b (leb→le a n e) ∙ digits_enough n a b (leb→le a n e)
    | inr e ↦ ap (λ k. digits z f k a b) (exact a n h e)
  ]
    where
      exact : (a n : ℕ) → a ≤ suc n → leb a n ≡ false → suc n ≡ a
      exact a n h e = ground arith

pub bit_or_step : (a b : ℕ) → bit_or a b ≡ bit_or (a / 2) (b / 2) * 2 + max (a % 2) (b % 2)
bit_or_step zero b = omega (arith, bit_or-bitwise 0 b, bit_or-bitwise 0 (b / 2))
bit_or_step (suc a) b = omega (
  arith,
  bit_or-bitwise (suc a) b,
  bit_or-bitwise (suc a / 2) (b / 2),
  digits_enough (λ b. b) max a (suc a / 2) (b / 2) (omega arith),
)

pub bit_xor_step : (a b : ℕ) → bit_xor a b ≡ bit_xor (a / 2) (b / 2) * 2 + differ (a % 2) (b % 2)
bit_xor_step zero b = omega (arith, bit_xor-bitwise 0 b, bit_xor-bitwise 0 (b / 2))
bit_xor_step (suc a) b = omega (
  arith,
  bit_xor-bitwise (suc a) b,
  bit_xor-bitwise (suc a / 2) (b / 2),
  digits_enough (λ b. b) differ a (suc a / 2) (b / 2) (omega arith),
)

bit_or-zero_fuel : (n a : ℕ) → a ≤ n → bit_or a 0 ≡ a
bit_or-zero_fuel n zero h = refl
bit_or-zero_fuel zero (suc a) h = absurd (omega arith)
bit_or-zero_fuel (suc n) (suc a) h =
    omega (arith, bit_or_step (suc a) 0, bit_or-zero_fuel n (suc a / 2) (omega arith))

pub bit_or-zero : (a : ℕ) → bit_or a 0 ≡ a
bit_or-zero a = bit_or-zero_fuel a a (omega arith)

mul-pow-suc : (p k : ℕ) → p * 2 ^ suc k ≡ p * 2 ^ k * 2
mul-pow-suc p k = simp pow-suc (omega arith)

half_of_double : (q r : ℕ) → q ≡ r * 2 → q / 2 ≡ r
half_of_double q r h = omega arith

half-lt-pow : (k e : ℕ) → e < 2 ^ suc k → e / 2 < 2 ^ k
half-lt-pow k e h = omega (arith, mul-pow-suc 1 k)

-- `(p << k) | e` is a sum when `e` fits below the shift.
pub bit_or-shift : (k p e : ℕ) → e < 2 ^ k → bit_or (p * 2 ^ k) e ≡ p * 2 ^ k + e
bit_or-shift zero p zero h = omega (arith, bit_or-zero (p * 2 ^ 0))
bit_or-shift zero p (suc e) h = absurd (omega arith)
bit_or-shift (suc k) p e h = omega (
  arith,
  bit_or_step (p * 2 ^ suc k) e,
  mul-pow-suc p k,
  ap (λ (x : ℕ). bit_or x (e / 2)) (half_of_double (p * 2 ^ suc k) (p * 2 ^ k) (mul-pow-suc p k)),
  bit_or-shift k p (e / 2) (half-lt-pow k e h),
)

differ_twice : (x y : ℕ) → x < 2 → y < 2 → differ (differ x y) y ≡ x
differ_twice zero zero h k = refl
differ_twice zero (suc zero) h k = refl
differ_twice (suc zero) zero h k = refl
differ_twice (suc zero) (suc zero) h k = refl
differ_twice (suc (suc x)) y h k = absurd (omega arith)
differ_twice x (suc (suc y)) h k = absurd (omega arith)

differ-lt : (x y : ℕ) → x < 2 → y < 2 → differ x y < 2
differ-lt zero y h k = k
differ-lt (suc x) zero h k = h
differ-lt (suc zero) (suc y) h k = omega arith
differ-lt (suc (suc x)) (suc y) h k = absurd (omega arith)

bit_xor-half : (a k : ℕ) → bit_xor a k / 2 ≡ bit_xor (a / 2) (k / 2)
bit_xor-half a k =
    omega (arith, bit_xor_step a k, differ-lt (a % 2) (k % 2) (omega arith) (omega arith))

bit_xor-low : (a k : ℕ) → bit_xor a k % 2 ≡ differ (a % 2) (k % 2)
bit_xor-low a k =
    omega (arith, bit_xor_step a k, differ-lt (a % 2) (k % 2) (omega arith) (omega arith))

bit_xor_twice_fuel : (n a k : ℕ) → a + k ≤ n → bit_xor (bit_xor a k) k ≡ a
bit_xor_twice_fuel n zero zero h = refl
bit_xor_twice_fuel zero (suc a) k h = absurd (omega arith)
bit_xor_twice_fuel zero zero (suc k) h = absurd (omega arith)
bit_xor_twice_fuel (suc n) a k h = omega (
  arith,
  bit_xor_step (bit_xor a k) k,
  ap (λ (x : ℕ). bit_xor x (k / 2)) (bit_xor-half a k),
  ap (λ (x : ℕ). differ x (k % 2)) (bit_xor-low a k),
  differ_twice (a % 2) (k % 2) (omega arith) (omega arith),
  bit_xor_twice_fuel n (a / 2) (k / 2) (omega arith),
)

-- A mask that is applied twice is taken off.
pub bit_xor_twice : (a k : ℕ) → bit_xor (bit_xor a k) k ≡ a
bit_xor_twice a k = bit_xor_twice_fuel (a + k) a k (omega arith)
