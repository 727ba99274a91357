-- ===== src/Http/Request/Lone.antt =====
-- The parameters on which `parse_url_params` reads behind the end of a vector.
use simple_server.Prelude.{
  ℕ, ◌+◌, ◌≡◌, ◌⊎◌, refl, Option, none, some, List, [], ◌∷◌, Bytes, drop, inl, inr, Option-cases,
}
use simple_server.Text.Search.{find_char}
use simple_server.Text.Words.{split_words}
use simple_server.Text.StringMap.{insert}
use simple_server.Http.Response.{StringMap}
use simple_server.Http.Request.{assign_pair, assign_pairs, parse_url_params}

-- A parameter with one part, or with none, between its equals signs.
pub data IsLone : Bytes → Type 0 where
  empty_handed : {var : Bytes} → split_words var b'=' ≡ [] → IsLone var
  alone : {var : Bytes} (key : Bytes) → split_words var b'=' ≡ key ∷ [] → IsLone var

pub data HasLone : List Bytes → Type 0 where
  this : {var : Bytes} {vars : List Bytes} → IsLone var → HasLone (var ∷ vars)
  later : {var : Bytes} {vars : List Bytes} → HasLone vars → HasLone (var ∷ vars)

-- The words between the semicolons behind the first question mark.
abbrev pub params_of : Bytes → List Bytes
params_of url = behind (find_char b'?' url)
  where
    behind : Option ℕ → List Bytes
    behind none = []
    behind (some pos) = split_words (drop (pos + 1) url) b';'

pair_defined :
    (var : Bytes) (m : StringMap)
    → IsLone var ⊎ ((m' : StringMap) × (assign_pair (split_words var b'=') m ≡ some m'))
unfolding assign_pair
pair_defined var m = by (split_words var b'=') refl
  where
    by :
        (parts : List Bytes)
        → split_words var b'=' ≡ parts
        → IsLone var ⊎ ((m' : StringMap) × (assign_pair parts m ≡ some m'))
    by [] e = inl (empty_handed e)
    by (key ∷ []) e = inl (alone key e)
    by (key ∷ value ∷ more) e = inr (insert key value m, refl)

pair-lone : (var : Bytes) (m : StringMap) → IsLone var → assign_pair (split_words var b'=') m ≡ none
unfolding assign_pair
pair-lone var m (empty_handed e) = rw e refl
pair-lone var m (alone key e) = rw e refl

pairs-lone : (vars : List Bytes) (m : StringMap) → HasLone vars → assign_pairs vars m ≡ none
unfolding assign_pairs
pairs-lone [] m h = elim h [ ]
pairs-lone (var ∷ vars) m (this h) = rw (pair-lone var m h) refl
pairs-lone (var ∷ vars) m (later h) = elim (pair_defined var m) [
  | inl l ↦ rw (pair-lone var m l) refl
  | inr (m', e) ↦ rw e (pairs-lone vars m' h)
]

pairs_defined :
    (vars : List Bytes) (m : StringMap)
    → HasLone vars ⊎ ((m' : StringMap) × (assign_pairs vars m ≡ some m'))
unfolding assign_pairs
pairs_defined [] m = inr (m, refl)
pairs_defined (var ∷ vars) m = elim (pair_defined var m) [
  | inl l ↦ inl (this l)
  | inr (m', e) ↦ elim (pairs_defined vars m') [
    | inl h ↦ inl (later h)
    | inr (m'', f) ↦ inr (m'', rw e f)
  ]
]

-- Either the parameters of a URL are read, or one of them has fewer than two parts.
pub parse_url_params_defined :
    (url : Bytes) → HasLone (params_of url) ⊎ ((m : StringMap) × (parse_url_params url ≡ some m))
unfolding parse_url_params
parse_url_params_defined url = elim (Option-cases (find_char b'?' url)) [
  | inl e ↦ inr ([], rw (e, parse_url_params) refl)
  | inr (pos, e) ↦
      rw (e, parse_url_params) (pairs_defined (split_words (drop (pos + 1) url) b';') [])
]

pub parse_url_params-lone : (url : Bytes) → HasLone (params_of url) → parse_url_params url ≡ none
unfolding parse_url_params
parse_url_params-lone url h = elim (Option-cases (find_char b'?' url)) [
  | inl e ↦ absurd (nothing (rw e at h))
  | inr (pos, e) ↦
      rw (e, parse_url_params) (pairs-lone (split_words (drop (pos + 1) url) b';') [] (rw e at h))
]
  where
    nothing : HasLone [] → ⊥
    nothing h = elim h [ ]
