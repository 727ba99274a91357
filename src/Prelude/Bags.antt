-- ===== src/Prelude/Bags.antt =====
-- Lists whose order does not count.
use Prim.Native.Nat.{ℕ, suc, ◌+◌, ◌-◌}
use mathlib.Core.Path.{◌≡◌, refl, sym, ap, ◌∙◌}
use mathlib.Core.List.{List, [], ◌∷◌, ◌++◌}
use mathlib.Core.Quot
use mathlib.Core.Quot.{Quot, Quot-set}
use native.Mathlib.Omega.{arith}
use simple_server.Prelude.Tests.{◌==◌, if◌then◌else◌}

abbrev pub count : ℕ → List ℕ → ℕ
count x [] = 0
count x (y ∷ ys) = if y == x then suc (count x ys) else count x ys

pub count-append : (x : ℕ) (xs ys : List ℕ) → count x (xs ++ ys) ≡ count x xs + count x ys
count-append x [] ys = omega arith
count-append x (y ∷ xs) ys = ground (arith, count-append x xs ys)

-- Two lists hold the same items, as often.
abbrev pub SameItems : List ℕ → List ℕ → Type 0
SameItems xs ys = (x : ℕ) → count x xs ≡ count x ys

abbrev pub Bag : Type 0
Bag = Quot SameItems

pub bag : List ℕ → Bag
bag xs = Quot.mk xs

-- The list without the first place of an item.
abbrev pub without : ℕ → List ℕ → List ℕ
without x [] = []
without x (y ∷ ys) = if y == x then ys else y ∷ without x ys

pub count-without :
    (x y : ℕ) (ys : List ℕ)
    → count x (without y ys) ≡ (if y == x then count x ys - 1 else count x ys)
count-without x y [] = ground arith
count-without x y (z ∷ zs) = ground (arith, count-without x y zs)

SameItems-cons : (x : ℕ) (xs ys : List ℕ) → SameItems xs ys → SameItems (x ∷ xs) (x ∷ ys)
SameItems-cons x xs ys h y = ground (arith, h y)

SameItems-without :
    (x : ℕ) (xs ys : List ℕ) → SameItems xs ys → SameItems (without x xs) (without x ys)
SameItems-without x xs ys h y =
    count-without y x xs ∙ ap (λ n. if x == y then n - 1 else n) (h y) ∙ sym (count-without y x ys)

pub put : ℕ → Bag → Bag
put x =
    Quot.lift Quot-set (λ xs. Quot.mk (x ∷ xs)) (λ xs ys h. Quot.sound (SameItems-cons x xs ys h))

pub take_out : ℕ → Bag → Bag
take_out x =
    Quot.lift Quot-set (λ xs. Quot.mk (without x xs))
      (λ xs ys h. Quot.sound (SameItems-without x xs ys h))

pub bag-eq : (xs ys : List ℕ) → SameItems xs ys → bag xs ≡ bag ys
unfolding bag
bag-eq xs ys h = Quot.sound h

pub put-bag : (x : ℕ) (xs : List ℕ) → put x (bag xs) ≡ bag (x ∷ xs)
unfolding put bag
put-bag x xs = refl

pub take_out-bag : (x : ℕ) (xs : List ℕ) → take_out x (bag xs) ≡ bag (without x xs)
unfolding take_out bag
take_out-bag x xs = refl

pub put-last : (x : ℕ) (xs : List ℕ) → bag (xs ++ x ∷ []) ≡ put x (bag xs)
put-last x xs =
    bag-eq (xs ++ x ∷ []) (x ∷ xs) (λ y. ground (arith, count-append y xs (x ∷ [])))
    ∙ sym (put-bag x xs)
