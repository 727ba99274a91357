-- ===== src/Http/Server/Buffer.antt =====
-- The buffer of 2048 characters whose text is a request.
use simple_server.Prelude.{
  ℕ, suc, ◌≡◌, ◌≢◌, ◌≤◌, ◌⊎◌, refl, false, none, some, [], ◌∷◌, Bytes, length, take, ltb, All,
  arith, inl, inr, Bool-cases, ◌==◌,
}
use simple_server.Text.Search.{find_char, find_char-none}
use simple_server.Http.Route.Total.{Defined}
use simple_server.Http.Server.{max_buffer, from_buffer}

-- The bytes fill the buffer, and none of them is zero.
abbrev pub Overfull : Bytes → Type 0
Overfull bytes = All (λ c. c ≢ 0) bytes × (max_buffer ≤ length bytes)

zero_or_none : (bytes : Bytes) → All (λ c. c ≢ 0) bytes ⊎ ((n : ℕ) × (find_char 0 bytes ≡ some n))
unfolding find_char
zero_or_none [] = inl tt
zero_or_none (c ∷ bytes) = elim (Bool-cases (0 == c)) [
  | inl e ↦ inr (0, rw e refl)
  | inr e ↦ elim (zero_or_none bytes) [
    | inl h ↦ inl ((λ f. absurd (ground (arith, e, f))), h)
    | inr (n, f) ↦ inr (suc n, rw (e, f) refl)
  ]
]

pub from_buffer-Defined : (bytes : Bytes) → Overfull bytes ⊎ Defined (from_buffer bytes)
unfolding from_buffer
from_buffer-Defined bytes = elim (zero_or_none bytes) [
  | inr (n, e) ↦ inr (take n bytes, rw (e, from_buffer) refl)
  | inl h ↦ elim (Bool-cases (ltb (length bytes) max_buffer)) [
    | inl small ↦ inr (bytes, rw (find_char-none 0 bytes h, from_buffer) (rw small refl))
    | inr full ↦ inl (h, ground (arith, full))
  ]
]

pub from_buffer-Overfull : (bytes : Bytes) → Overfull bytes → from_buffer bytes ≡ none
unfolding from_buffer
from_buffer-Overfull bytes (h, l) =
    rw (find_char-none 0 bytes h, from_buffer) (rw (not_less (length bytes) max_buffer l) refl)
  where
    not_less : (n m : ℕ) → m ≤ n → ltb n m ≡ false
    not_less n m h = ground arith
