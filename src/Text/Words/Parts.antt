-- ===== src/Text/Words/Parts.antt =====
-- What the parts of `split_words` are made of.
use simple_server.Prelude.{
  ℕ, ◌≡◌, ◌≢◌, refl, sym, ap, ◌∙◌, true, false, List, [], ◌∷◌, ◌++◌, Bytes, All, append_assoc,
  append-nil, if◌then◌else◌, ◌==◌, ==_refl, ==_ne, inl, inr, Bool-cases,
}
use simple_server.Text.Words.{Split, split_step, split_end, split_loop, split_words, IsWord}

abbrev pub concat : List Bytes → Bytes
concat [] = []
concat (w ∷ ws) = w ++ concat ws

concat-append : (xs ys : List Bytes) → concat (xs ++ ys) ≡ concat xs ++ concat ys
concat-append [] ys = refl
concat-append (x ∷ xs) ys = rw (concat-append xs ys) (sym (append_assoc x (concat xs) (concat ys)))

-- The characters before the first zero that are no separator.
unfoldable pub kept : ℕ → Bytes → Bytes
kept sp [] = []
kept sp (c ∷ cs) =
    let later = kept sp cs in if c == 0 then [] else if c == sp then later else c ∷ later

abbrev so_far : Split → Bytes
so_far s = concat s.ret ++ s.str

concat-snoc : (ret : List Bytes) (str : Bytes) → concat (ret ++ str ∷ []) ≡ concat ret ++ str
concat-snoc ret str = concat-append ret (str ∷ []) ∙ ap (λ t. concat ret ++ t) (append-nil str)

end_at :
    (str : Bytes) (ret : List Bytes)
    → concat (split_end (record { str = str; ret = ret })) ≡ concat ret ++ str
unfolding split_end
end_at [] ret = sym (append-nil (concat ret))
end_at (c ∷ cs) ret = concat-snoc ret (c ∷ cs)

concat-split_end : (s : Split) → concat (split_end s) ≡ so_far s
concat-split_end s = end_at s.str s.ret

separator_at :
    (sp c : ℕ) (rest str : Bytes) (ret : List Bytes)
    → (c == sp) ≡ true
    → split_step sp c rest (record { str = str; ret = ret })
      ≡ record { str = []; ret = split_end (record { str = str; ret = ret }) }
unfolding split_step split_end
separator_at sp c rest [] ret e = rw e
separator_at sp c rest (d ∷ ds) ret e = rw e

-- A separator ends the current part, if there is one.
split_step_separator :
    (sp c : ℕ) (rest : Bytes) (s : Split)
    → (c == sp) ≡ true
    → split_step sp c rest s ≡ record { str = []; ret = split_end s }
split_step_separator sp c rest s e = separator_at sp c rest s.str s.ret e

split_step_other :
    (sp c : ℕ) (rest : Bytes) (s : Split)
    → (c == sp) ≡ false
    → split_step sp c rest s ≡ record s { str = s.str ++ c ∷ [] }
unfolding split_step
split_step_other sp c rest s e = rw e

kept-nil : (sp : ℕ) → [] ≡ kept sp []
unfolding kept
kept-nil sp = refl

kept_stop : (sp c : ℕ) (cs : Bytes) → (c == 0) ≡ true → [] ≡ kept sp (c ∷ cs)
unfolding kept
kept_stop sp c cs e = rw e

split_step-kept :
    (sp c : ℕ) (rest : Bytes) (s : Split)
    → (c == 0) ≡ false
    → so_far (split_step sp c rest s) ++ kept sp rest ≡ so_far s ++ kept sp (c ∷ rest)
unfolding kept
split_step-kept sp c rest s z = elim (Bool-cases (c == sp)) [
  | inl e ↦
      ap (λ t. so_far t ++ kept sp rest) (split_step_separator sp c rest s e)
      ∙ rw (z, e, append-nil) (ap (λ t. t ++ kept sp rest) (concat-split_end s))
  | inr e ↦
      ap (λ t. so_far t ++ kept sp rest) (split_step_other sp c rest s e)
      ∙ rw (z, e) (simp append_assoc)
]

split_loop-kept :
    (sp : ℕ) (word : Bytes) (s : Split) → concat (split_loop sp word s) ≡ so_far s ++ kept sp word
unfolding split_loop
split_loop-kept sp [] s =
    concat-split_end s ∙ sym (append-nil (so_far s)) ∙ ap (λ t. so_far s ++ t) (kept-nil sp)
split_loop-kept sp (c ∷ cs) s = elim (Bool-cases (c == 0)) [
  | inl e ↦ rw e (
      concat-split_end s
      ∙ sym (append-nil (so_far s))
      ∙ ap (λ t. so_far s ++ t) (kept_stop sp c cs e))
  | inr e ↦ rw e (split_loop-kept sp cs (split_step sp c cs s) ∙ split_step-kept sp c cs s e)
]

-- No character is lost: the parts hold the kept characters, in their order.
pub concat-split_words : (word : Bytes) (sp : ℕ) → concat (split_words word sp) ≡ kept sp word
unfolding split_words
concat-split_words word sp = split_loop-kept sp word (record { str = []; ret = [] })

-- A path: every word behind a separator.
abbrev pub path : ℕ → List Bytes → Bytes
path sp [] = []
path sp (w ∷ ws) = sp ∷ w ++ path sp ws

split_end_word :
    (w : Bytes) (ret : List Bytes)
    → w ≢ []
    → split_end (record { str = w; ret = ret }) ≡ ret ++ w ∷ []
unfolding split_end
split_end_word [] ret h = absurd (h refl)
split_end_word (c ∷ cs) ret h = refl

split_loop-word :
    (sp : ℕ) (w tail str : Bytes) (ret : List Bytes)
    → All (λ c. (c ≢ sp) × (c ≢ 0)) w
    → split_loop sp (w ++ tail) (record { str = str; ret = ret })
      ≡ split_loop sp tail (record { str = str ++ w; ret = ret })
unfolding split_loop
split_loop-word sp [] tail str ret h = rw (append-nil str)
split_loop-word sp (c ∷ w) tail str ret (p, h) =
    rw
      (
        ==_ne c 0 p.1,
        split_step_other sp c (w ++ tail) (record { str = str; ret = ret }) (==_ne c sp p.0),
      )
      (split_loop-word sp w tail (str ++ c ∷ []) ret h ∙ rw (append_assoc str (c ∷ []) w))

split_loop-path :
    (sp : ℕ) (ws : List Bytes) (str : Bytes) (ret : List Bytes)
    → sp ≢ 0
    → All (IsWord sp) ws
    → split_loop sp (path sp ws) (record { str = str; ret = ret })
      ≡ split_end (record { str = str; ret = ret }) ++ ws
unfolding split_loop
split_loop-path sp [] str ret n h = sym (append-nil _)
split_loop-path sp (w ∷ ws) str ret n ((ne, ok), h) =
    rw
      (
        ==_ne sp 0 n,
        split_step_separator sp sp (w ++ path sp ws) (record { str = str; ret = ret }) (==_refl sp),
      )
      (split_loop-word sp w (path sp ws) [] _ ok
        ∙ split_loop-path sp ws w _ n h
        ∙ rw (split_end_word w _ ne) (append_assoc _ (w ∷ []) ws))

-- Words with a separator between them are split into the words.
pub split_words-words :
    (sp : ℕ) (w : Bytes) (ws : List Bytes)
    → sp ≢ 0
    → All (IsWord sp) (w ∷ ws)
    → split_words (w ++ path sp ws) sp ≡ w ∷ ws
unfolding split_words
split_words-words sp w ws n ((ne, ok), h) =
    split_loop-word sp w (path sp ws) [] [] ok
    ∙ split_loop-path sp ws w [] n h
    ∙ ap (λ r. r ++ ws) (split_end_word w [] ne)

-- For a separator that is not zero: splitting a path of words gives the words back. A word is not
-- empty and holds neither the separator nor a zero.
pub split_words-path :
    (sp : ℕ) (ws : List Bytes) → sp ≢ 0 → All (IsWord sp) ws → split_words (path sp ws) sp ≡ ws
unfolding split_words
split_words-path sp ws n h = split_loop-path sp ws [] [] n h
