-- ===== src/Text/StringMap.antt =====
-- `std::unordered_map<std::string, V>`: the list of its entries, in the order in which the container
-- iterates. That order is the library's choice; a new key is put last here.
use mathlib.Core.List.{Memᴰ}
use simple_server.Prelude.{
  ◌≡◌, refl, true, Option, none, some, List, [], ◌∷◌, Bytes, if◌then◌else◌, arith, Bool-cases, inl,
  inr,
}
use simple_server.Text.Search.{text_eq, text_eq_iff, text_eq_sound}

abbrev pub Map {ℓ} : Type ℓ → Type ℓ
Map V = List (Bytes × V)

module _ {ℓ} {V : Type ℓ} where
  -- `m.find(key)`
  unfoldable pub lookup : Bytes → Map V → Option V
  lookup key [] = none
  lookup key ((k, v) ∷ m) = if text_eq k key then some v else lookup key m

  -- `m[key] = value`
  unfoldable pub insert : Bytes → V → Map V → Map V
  insert key value [] = (key, value) ∷ []
  insert key value ((k, v) ∷ m) =
      if text_eq k key then (k, value) ∷ m else (k, v) ∷ insert key value m

  pub lookup-insert :
      (key j : Bytes) (value : V) (m : Map V)
      → lookup j (insert key value m) ≡ (if text_eq key j then some value else lookup j m)
  unfolding lookup insert
  lookup-insert key j value [] = refl
  lookup-insert key j value ((k, v) ∷ m) =
      ground
        (arith, text_eq_iff k key, text_eq_iff k j, text_eq_iff key j, lookup-insert key j value m)

  -- `m.find(key) == m.end()` says that no entry has the key.
  pub lookup_found : (key : Bytes) (m : Map V) (v : V) → lookup key m ≡ some v → Memᴰ (key, v) m
  unfolding lookup
  lookup_found key [] v h = cc
  lookup_found key ((k, w) ∷ m) v h = elim (Bool-cases (text_eq k key)) [
    | inl same ↦ Memᴰ.head (here same (text_eq_sound k key same) (rw same at h))
    | inr other ↦ Memᴰ.tail (lookup_found key m v (rw other at h))
  ]
    where
      here : text_eq k key ≡ true → k ≡ key → some w ≡ some v → ◌≡◌ {A = Bytes × V} (key, v) (k, w)
      here same e h = cc
