-- ===== src/Text/Search.antt =====
-- Comparing and searching texts.
use mathlib.Core.Option
use simple_server.Prelude.{
  ℕ, zero, suc, ◌≡◌, refl, sym, ap, ◌≢◌, All, ==_ne, ◌↔◌, Bool, true, false, ◌&&◌, Option, none,
  some, [], ◌∷◌, ◌++◌, Bytes, length, drop, take, ◌==◌, ==_refl, if◌then◌else◌, arith, Bool-cases,
  inl, inr,
}

-- `a == b` for two strings.
unfoldable pub text_eq : Bytes → Bytes → Bool
text_eq [] [] = true
text_eq [] (d ∷ ds) = false
text_eq (c ∷ cs) [] = false
text_eq (c ∷ cs) (d ∷ ds) = c == d && text_eq cs ds

pub text_eq_refl : (s : Bytes) → text_eq s s ≡ true
unfolding text_eq
text_eq_refl [] = refl
text_eq_refl (c ∷ cs) = rw (==_refl c) (text_eq_refl cs)

pub text_eq_sound : (s t : Bytes) → text_eq s t ≡ true → s ≡ t
unfolding text_eq
text_eq_sound [] [] h = refl
text_eq_sound [] (d ∷ ds) h = cc
text_eq_sound (c ∷ cs) [] h = cc
text_eq_sound (c ∷ cs) (d ∷ ds) h = ground (arith, text_eq_sound cs ds)

pub text_eq_iff : (s t : Bytes) → (text_eq s t ≡ true) ↔ (s ≡ t)
text_eq_iff s t = (text_eq_sound s t, λ e. rw e (text_eq_refl t))

pub text_eq_ne : (s t : Bytes) → s ≢ t → text_eq s t ≡ false
text_eq_ne s t h = elim (Bool-cases (text_eq s t)) [
  | inl e ↦ absurd (h (text_eq_sound s t e))
  | inr e ↦ e
]

unfoldable pub starts_with : Bytes → Bytes → Bool
starts_with [] s = true
starts_with (n ∷ ns) [] = false
starts_with (n ∷ ns) (c ∷ cs) = n == c && starts_with ns cs

-- `s.find(needle)`
unfoldable pub find : Bytes → Bytes → Option ℕ
find needle [] = if starts_with needle [] then some 0 else none
find needle (c ∷ cs) =
    if starts_with needle (c ∷ cs) then some 0 else Option.map suc (find needle cs)

abbrev pub is_some {ℓ} : {A : Type ℓ} → Option A → Bool
is_some none = false
is_some (some a) = true

-- `s.find(needle) != npos`
unfoldable pub contains : Bytes → Bytes → Bool
contains needle s = is_some (find needle s)

-- `s.find(c)`, and `s.find_first_of` a single character.
unfoldable pub find_char : ℕ → Bytes → Option ℕ
find_char c [] = none
find_char c (d ∷ ds) = if c == d then some 0 else Option.map suc (find_char c ds)

pub starts_with-append : (needle s : Bytes) → starts_with needle (needle ++ s) ≡ true
unfolding starts_with
starts_with-append [] s = refl
starts_with-append (n ∷ ns) s = rw (==_refl n) (starts_with-append ns s)

pub starts_with_sound :
    (needle s : Bytes) → starts_with needle s ≡ true → s ≡ needle ++ drop (length needle) s
unfolding starts_with
starts_with_sound [] s h = refl
starts_with_sound (n ∷ ns) [] h = cc
starts_with_sound (n ∷ ns) (c ∷ cs) h = ground (arith, starts_with_sound ns cs)

is_some-map : (o : Option ℕ) → is_some o ≡ true → is_some (Option.map suc o) ≡ true
is_some-map none h = h
is_some-map (some n) h = refl

contains_of_starts_with :
    (needle s : Bytes) → starts_with needle s ≡ true → contains needle s ≡ true
unfolding contains find
contains_of_starts_with needle [] h = rw h
contains_of_starts_with needle (c ∷ cs) h = rw h

contains-cons :
    (needle : Bytes) (c : ℕ) (s : Bytes) → contains needle s ≡ true → contains needle (c ∷ s) ≡ true
unfolding contains find
contains-cons needle c s h = ground (arith, is_some-map (find needle s))

-- A text is found wherever it stands.
pub contains-append : (needle pre post : Bytes) → contains needle (pre ++ (needle ++ post)) ≡ true
contains-append needle [] post =
    contains_of_starts_with needle (needle ++ post) (starts_with-append needle post)
contains-append needle (c ∷ cs) post =
    contains-cons needle c (cs ++ (needle ++ post)) (contains-append needle cs post)

-- What is found stands there.
pub find_sound :
    (needle s : Bytes) (i : ℕ)
    → find needle s ≡ some i
    → s ≡ take i s ++ (needle ++ drop (length needle) (drop i s))
unfolding find
find_sound needle [] zero h = starts_with_sound needle [] (ground arith)
find_sound needle [] (suc i) h = absurd (ground arith)
find_sound needle (c ∷ cs) zero h = starts_with_sound needle (c ∷ cs) (ground arith)
find_sound needle (c ∷ cs) (suc i) h = ap (λ s. c ∷ s) (find_sound needle cs i (ground arith))

pub find_char-none : (c : ℕ) (k : Bytes) → All (λ d. d ≢ c) k → find_char c k ≡ none
unfolding find_char
find_char-none c [] h = refl
find_char-none c (d ∷ k) (p, h) = rw (==_ne c d (λ e. p (sym e)), find_char-none c k h)

pub find_char-append :
    (c : ℕ) (k rest : Bytes) → All (λ d. d ≢ c) k → find_char c (k ++ (c ∷ rest)) ≡ some (length k)
unfolding find_char
find_char-append c [] rest h = rw (==_refl c)
find_char-append c (d ∷ k) rest (p, h) =
    rw (==_ne c d (λ e. p (sym e)), find_char-append c k rest h)
