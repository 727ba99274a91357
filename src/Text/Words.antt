-- ===== src/Text/Words.antt =====
-- `split_words` and `to_lower_case` of includes/string_utils.h.
pub mod Parts
use simple_server.Prelude.{
  ℕ, zero, suc, ◌+◌, ◌-◌, ◌<◌, ◌≤◌, ◌≡◌, ◌≢◌, refl, sym, ap, ◌∙◌, Bool, true, false, not, ◌&&◌,
  List, [], ◌∷◌, ◌++◌, Bytes, All, All-append, append_assoc, append-nil, if◌then◌else◌, arith, leb,
  ◌==◌, ==_refl, map, inl, inr, Bool-cases,
}

-- `std::tolower` in the C locale. A `char` that holds a byte from 128 on is negative, and for the value
-- of a negative one but EOF the C standard defines nothing: the model takes such a byte to be
-- unchanged, as the tables of the C libraries have it.
unfoldable pub to_lower : ℕ → ℕ
to_lower c = if leb b'A' c && leb c b'Z' then c + 32 else c

unfoldable pub to_lower_case : Bytes → Bytes
unfolding to_lower
to_lower_case = map to_lower

-- The locals `str` and `ret` of `split_words`.
pub record Split : Type 0 where
  pub str : Bytes
  pub ret : List Bytes

abbrev pub is_empty {ℓ} : {A : Type ℓ} → List A → Bool
is_empty [] = true
is_empty (x ∷ xs) = false

-- `word[iter + 1]`: the terminating zero is behind the last character.
abbrev next_char : Bytes → ℕ
next_char [] = 0
next_char (c ∷ cs) = c

-- One round of the loop, at the character c; `rest` is what follows it.
unfoldable pub split_step : ℕ → ℕ → Bytes → Split → Split
split_step sp c rest s =
    if not (c == sp)
    then record s { str = s.str ++ c ∷ [] }
    else if is_empty s.str
    then s
    else if c == sp
    then record { str = []; ret = s.ret ++ s.str ∷ [] }
    else if next_char rest == sp
    then record { str = []; ret = s.ret ++ (s.str ++ c ∷ []) ∷ [] }
    else s

unfoldable pub split_end : Split → List Bytes
split_end s = if is_empty s.str then s.ret else s.ret ++ s.str ∷ []

-- The loop stops at the first zero.
unfoldable pub split_loop : ℕ → Bytes → Split → List Bytes
split_loop sp [] s = split_end s
split_loop sp (c ∷ cs) s =
    let more = split_loop sp cs (split_step sp c cs s) in if c == 0 then split_end s else more

unfoldable pub split_words : Bytes → ℕ → List Bytes
unfolding split_loop split_step split_end
split_words word sp = split_loop sp word (record { str = []; ret = [] })

-- A word: not empty, and without the separator and the terminating zero.
abbrev pub IsWord : ℕ → Bytes → Type 0
IsWord sp w = (w ≢ []) × All (λ c. (c ≢ sp) × (c ≢ 0)) w

abbrev IsSplit : ℕ → Split → Type 0
IsSplit sp s = All (λ c. (c ≢ sp) × (c ≢ 0)) s.str × All (IsWord sp) s.ret

append-ne-nil : (w : Bytes) (c : ℕ) → w ++ c ∷ [] ≢ []
append-ne-nil [] c h = cc
append-ne-nil (d ∷ w) c h = cc

not_empty : (w : Bytes) → is_empty w ≡ false → w ≢ []
not_empty [] h e = cc
not_empty (c ∷ cs) h e = cc

split_step-IsSplit :
    (sp c : ℕ) (rest : Bytes) (s : Split)
    → (c == 0) ≡ false
    → IsSplit sp s
    → IsSplit sp (split_step sp c rest s)
unfolding split_step
split_step-IsSplit sp c rest s z h = ground (
  arith,
  All-append (λ d. (d ≢ sp) × (d ≢ 0)) s.str (c ∷ []) h.0,
  All-append (IsWord sp) s.ret (s.str ∷ []) h.1,
  not_empty s.str,
)

split_end-IsWord : (sp : ℕ) (s : Split) → IsSplit sp s → All (IsWord sp) (split_end s)
unfolding split_end
split_end-IsWord sp s h =
    ground (arith, All-append (IsWord sp) s.ret (s.str ∷ []) h.1, not_empty s.str)

split_loop-IsWord :
    (sp : ℕ) (word : Bytes) (s : Split) → IsSplit sp s → All (IsWord sp) (split_loop sp word s)
unfolding split_loop
split_loop-IsWord sp [] s h = split_end-IsWord sp s h
split_loop-IsWord sp (c ∷ cs) s h = elim (Bool-cases (c == 0)) [
  | inl e ↦ rw e (split_end-IsWord sp s h)
  | inr e ↦ rw e (split_loop-IsWord sp cs (split_step sp c cs s) (split_step-IsSplit sp c cs s e h))
]

-- Every part is a word.
pub split_words-IsWord : (word : Bytes) (sp : ℕ) → All (IsWord sp) (split_words word sp)
unfolding split_words
split_words-IsWord word sp = split_loop-IsWord sp word (record { str = []; ret = [] }) (tt, tt)
