-- ===== src/Text/Replace.antt =====
-- `replace_all` of includes/string_utils.h.
use mathlib.Core.Option
use simple_server.Prelude.{
  ℕ, zero, suc, ◌+◌, ◌-◌, ◌<◌, ◌≤◌, ◌≡◌, refl, sym, ap, ◌∙◌, Option, none, some, [], ◌∷◌, ◌++◌,
  Bytes, length, drop, take, length-append, length-take, drop-length, drop-drop, take-length-add,
  drop-length-add, if◌then◌else◌, arith, append_assoc, leb, le→leb, Option-cases, inl, inr,
}
use simple_server.Text.Search.{find, starts_with, find_sound}

-- `s.find(needle, start)`
unfoldable pub find_from : Bytes → ℕ → Bytes → Option ℕ
find_from needle start s =
    if leb start (length s) then Option.map (λ i. start + i) (find needle (drop start s)) else none

-- `s.replace(pos, len, with)`
abbrev pub replace_at : Bytes → ℕ → ℕ → Bytes → Bytes
replace_at s pos len with = take pos s ++ (with ++ drop (pos + len) s)

-- The `while` loop, on fuel; `none` is that the fuel ran out.
unfoldable pub replace_loop : ℕ → Bytes → Bytes → ℕ → Bytes → Option Bytes
replace_loop zero from to start str = none
replace_loop (suc fuel) from to start str = elim (find_from from start str) [
  | none ↦ some str
  | some pos ↦ replace_loop fuel from to (pos + length to) (replace_at str pos (length from) to)
]

unfoldable pub replace_all : ℕ → Bytes → Bytes → Bytes → Option Bytes
replace_all fuel str from to = replace_loop fuel from to 0 str

-- Every occurrence from left to right is replaced, and the search goes on behind it: `skip` is the
-- number of characters of an occurrence that are still to be passed over.
unfoldable pub replaced : Bytes → Bytes → ℕ → Bytes → Bytes
replaced from to skip [] = []
replaced from to (suc skip) (c ∷ cs) = replaced from to skip cs
replaced from to zero (c ∷ cs) =
    if starts_with from (c ∷ cs)
    then to ++ replaced from to (length from - 1) cs
    else c ∷ replaced from to 0 cs

module _ (fuel : ℕ) (from to : Bytes) (start : ℕ) (str : Bytes) where
  replace_loop-none :
      find_from from start str ≡ none → replace_loop (suc fuel) from to start str ≡ some str
  unfolding replace_loop
  replace_loop-none e = rw (e, replace_loop)

  replace_loop-some :
      (pos : ℕ)
      → find_from from start str ≡ some pos
      → replace_loop (suc fuel) from to start str
        ≡ replace_loop fuel from to (pos + length to) (replace_at str pos (length from) to)
  unfolding replace_loop
  replace_loop-some pos e = rw (e, replace_loop)

replaced_skip :
    (from to : Bytes) (k : ℕ) (s : Bytes) → replaced from to k s ≡ replaced from to 0 (drop k s)
unfolding replaced
replaced_skip from to zero s = refl
replaced_skip from to (suc k) [] = refl
replaced_skip from to (suc k) (c ∷ cs) = replaced_skip from to k cs

module _ (f : ℕ) (fs to : Bytes) where
  -- A text without an occurrence is its own replacement.
  replaced-none : (s : Bytes) → find (f ∷ fs) s ≡ none → replaced (f ∷ fs) to 0 s ≡ s
  unfolding replaced find
  replaced-none [] h = refl
  replaced-none (c ∷ cs) h = ground (arith, replaced-none cs)

  skip_rest :
      (cs : Bytes)
      → replaced (f ∷ fs) to (suc (length fs) - 1) cs ≡ replaced (f ∷ fs) to 0 (drop (length fs) cs)
  skip_rest cs =
      ap (λ k. replaced (f ∷ fs) to k cs) (sub_one (length fs))
      ∙ replaced_skip (f ∷ fs) to (length fs) cs
    where
      sub_one : (n : ℕ) → suc n - 1 ≡ n
      sub_one n = omega arith

  -- The first occurrence splits the replacement.
  replaced-some :
      (s : Bytes) (i : ℕ)
      → find (f ∷ fs) s ≡ some i
      → replaced (f ∷ fs) to 0 s
        ≡ take i s ++ (to ++ replaced (f ∷ fs) to 0 (drop (suc (length fs)) (drop i s)))
  unfolding replaced find starts_with
  replaced-some [] i h = absurd (ground arith)
  replaced-some (c ∷ cs) zero h = ground (arith, skip_rest cs)
  replaced-some (c ∷ cs) (suc i) h = ground (arith, replaced-some cs i)

  -- What is left behind an occurrence is shorter.
  rest_shorter :
      (s : Bytes) (i fuel : ℕ)
      → find (f ∷ fs) s ≡ some i
      → length s < suc fuel
      → (i ≤ length s) × (length (drop (suc (length fs)) (drop i s)) < fuel)
  rest_shorter s i fuel h lt =
      let parts : length s
          ≡ length (take i s) + (length (f ∷ fs) + length (drop (suc (length fs)) (drop i s))) =
        ap length (find_sound (f ∷ fs) s i h)
        ∙ length-append (take i s) _
        ∙ ap (λ n. length (take i s) + n) (length-append (f ∷ fs) _) in
      (omega (arith, length-take i s), omega arith)

  front_length :
      (front s : Bytes) (i : ℕ)
      → i ≤ length s
      → length (front ++ (take i s ++ to)) ≡ length front + i + length to
  front_length front s i h =
      omega
        (arith, length-append front (take i s ++ to), length-append (take i s) to, length-take i s)

  -- One round that finds an occurrence in what is left.
  replace_at-append :
      (front s : Bytes) (i : ℕ)
      → i ≤ length s
      → replace_at (front ++ s) (length front + i) (suc (length fs)) to
        ≡ (front ++ (take i s ++ to)) ++ drop (suc (length fs)) (drop i s)
  replace_at-append front s i h =
      rw
        (
          take-length-add front s i,
          ← drop-drop (length front + i) (suc (length fs)) (front ++ s),
          drop-length-add front s i,
        )
        (simp append_assoc)

  find_from-append :
      (front s : Bytes)
      → find_from (f ∷ fs) (length front) (front ++ s)
        ≡ Option.map (λ i. length front + i) (find (f ∷ fs) s)
  unfolding find_from
  find_from-append front s =
      rw (le→leb (length front) (length (front ++ s)) (omega (arith, length-append front s)))
        (rw (drop-length front s))

  replace_loop-replaced :
      (fuel : ℕ) (front s : Bytes)
      → length s < fuel
      → replace_loop fuel (f ∷ fs) to (length front) (front ++ s)
        ≡ some (front ++ replaced (f ∷ fs) to 0 s)
  unfolding replace_loop
  replace_loop-replaced zero front s h = absurd (omega arith)
  replace_loop-replaced (suc fuel) front s h = elim (Option-cases (find (f ∷ fs) s)) [
    | inl missing ↦
        replace_loop-none fuel (f ∷ fs) to (length front) (front ++ s)
          (find_from-append front s ∙ rw missing)
        ∙ ap (λ t. some (front ++ t)) (sym (replaced-none s missing))
    | inr (i, found) ↦
        let (le, shorter) = rest_shorter s i fuel found h in
        replace_loop-some fuel (f ∷ fs) to (length front) (front ++ s) (length front + i)
          (find_from-append front s ∙ rw found)
        ∙ rw (replace_at-append front s i le, ← front_length front s i le)
            (replace_loop-replaced fuel (front ++ (take i s ++ to))
                (drop (suc (length fs)) (drop i s)) shorter
              ∙ rw (replaced-some s i found) (simp append_assoc))
  ]

  -- For a pattern that is not empty: the loop ends with fuel above the length of the text, and what it
  -- returns has every occurrence replaced from left to right.
  pub replace_all-replaced :
      (fuel : ℕ) (str : Bytes)
      → length str < fuel
      → replace_all fuel str (f ∷ fs) to ≡ some (replaced (f ∷ fs) to 0 str)
  unfolding replace_all
  replace_all-replaced fuel str h = replace_loop-replaced fuel [] str h

find_nil : (s : Bytes) → find [] s ≡ some 0
unfolding find starts_with
find_nil [] = refl
find_nil (c ∷ cs) = refl

empty_find : (start : ℕ) (str : Bytes) → start ≤ length str → find_from [] start str ≡ some start
unfolding find_from
empty_find start str h =
    rw (le→leb start (length str) h, find_nil (drop start str)) (ap some (omega arith))

replace_loop_empty :
    (fuel : ℕ) (to : Bytes) (start : ℕ) (str : Bytes)
    → start ≤ length str
    → replace_loop fuel [] to start str ≡ none
unfolding replace_loop
replace_loop_empty zero to start str h = refl
replace_loop_empty (suc fuel) to start str h =
    replace_loop-some fuel [] to start str start (empty_find start str h)
    ∙ replace_loop_empty fuel to (start + length to) (replace_at str start 0 to) (
        omega (
          arith,
          length-append (take start str) (to ++ drop (start + 0) str),
          length-append to (drop (start + 0) str),
          length-take start str,
        ))

-- With an empty pattern the loop never ends: whatever the fuel, it runs out.
pub replace_all_empty : (fuel : ℕ) (str to : Bytes) → replace_all fuel str [] to ≡ none
unfolding replace_all
replace_all_empty fuel str to = replace_loop_empty fuel to 0 str (omega arith)
