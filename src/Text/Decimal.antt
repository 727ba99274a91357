-- ===== src/Text/Decimal.antt =====
-- `std::to_string` of a non-negative `int` or `size_t`.
use simple_server.Prelude.{
  ℕ, zero, suc, ◌+◌, ◌*◌, ◌/◌, ◌%◌, ◌-◌, ◌<◌, ◌≤◌, ◌≡◌, refl, ◌∙◌, [], ◌∷◌, ◌++◌, Bytes, All,
  All-append, if◌then◌else◌, arith, ltb, ltb→lt, Bool-cases, inl, inr,
}

-- The digits of n; a number below the fuel has fewer digits than that.
unfoldable pub decimal_loop : ℕ → ℕ → Bytes
decimal_loop zero n = []
decimal_loop (suc fuel) n =
    let front = decimal_loop fuel (n / 10) in
    if ltb n 10 then (48 + n) ∷ [] else front ++ (48 + n % 10) ∷ []

unfoldable pub to_decimal : ℕ → Bytes
unfolding decimal_loop
to_decimal n = decimal_loop (suc n) n

-- The number that a sequence of digits stands for, after the digits of k.
abbrev pub value_from : ℕ → Bytes → ℕ
value_from k [] = k
value_from k (c ∷ cs) = value_from (k * 10 + (c - 48)) cs

abbrev pub IsDigit : ℕ → Type 0
IsDigit c = (48 ≤ c) × (c ≤ 57)

value_from-append :
    (k : ℕ) (xs ys : Bytes) → value_from k (xs ++ ys) ≡ value_from (value_from k xs) ys
value_from-append k [] ys = refl
value_from-append k (c ∷ cs) ys = value_from-append (k * 10 + (c - 48)) cs ys

decimal_loop-value : (fuel n : ℕ) → n < fuel → value_from 0 (decimal_loop fuel n) ≡ n
unfolding decimal_loop
decimal_loop-value zero n h = absurd (omega arith)
decimal_loop-value (suc fuel) n h = elim (Bool-cases (ltb n 10)) [
  | inl small ↦ rw small (omega arith)
  | inr large ↦
      let big : 10 ≤ n = ground arith in
      rw large (
        value_from-append 0 (decimal_loop fuel (n / 10)) ((48 + n % 10) ∷ [])
        ∙ rw (decimal_loop-value fuel (n / 10) (omega arith)) (omega arith))
]

decimal_loop-IsDigit : (fuel n : ℕ) → All IsDigit (decimal_loop fuel n)
unfolding decimal_loop
decimal_loop-IsDigit zero n = tt
decimal_loop-IsDigit (suc fuel) n = elim (Bool-cases (ltb n 10)) [
  | inl small ↦ rw small ((omega arith, omega (arith, ltb→lt n 10 small)), tt)
  | inr large ↦ rw large (
      All-append IsDigit (decimal_loop fuel (n / 10)) ((48 + n % 10) ∷ [])
        (decimal_loop-IsDigit fuel (n / 10)) ((omega arith, omega arith), tt))
]

-- The decimal text of a number consists of digits and stands for the number.
pub to_decimal-value : (n : ℕ) → All IsDigit (to_decimal n) × (value_from 0 (to_decimal n) ≡ n)
unfolding to_decimal
to_decimal-value n = (decimal_loop-IsDigit (suc n) n, decimal_loop-value (suc n) n (omega arith))
