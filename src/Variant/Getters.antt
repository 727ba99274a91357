-- ===== src/Variant/Getters.antt =====
-- What the getters of a variant give, and what `is` says of it.
use mathlib.Core.Path.{subst}
use simple_server.Prelude.{◌≡◌, refl, sym, ◌∙◌, Bool, true, false, Option, none, some}
use simple_server.Variant.{
  Variant, destroy, Access, value, bad_access, undefined, empty, of_t1, of_t2, of_t3, copy, assign,
  get_as_t1, get_as_t2, get_as_t3, is_type,
}
use simple_server.Variant.Lifetime.{WellFormed, nothing, first, second, third, assign-WellFormed}

-- The variants that a program has: it constructs them, copies them, and assigns them to others and
-- to themselves.
pub data Built {A B C : Type 0} : Variant A B C → Type 0 where
  default : Built empty
  from_t1 : (a : A) → Built (of_t1 a)
  from_t2 : (b : B) → Built (of_t2 b)
  from_t3 : (c : C) → Built (of_t3 c)
  copy_of : {other w : Variant A B C} → Built other → copy other ≡ some w → Built w
  assignment :
      {v other w : Variant A B C} → Built v → Built other → assign false other v ≡ some w → Built w
  kept : {v w : Variant A B C} → Built v → assign true v v ≡ some w → Built w

-- Whether a getter gives a reference or throws; it must do one of them.
abbrev pub outcome : {A : Type 0} → Access A → Option Bool
outcome (value a) = some true
outcome bad_access = some false
outcome undefined = none

module _ {A B C : Type 0} where
  some-injective : {v w : Variant A B C} → some v ≡ some w → v ≡ w
  some-injective e = cc

  WellFormed-same :
      {v w : Variant A B C} {o : Option (Variant A B C)}
      → WellFormed v
      → o ≡ some v
      → o ≡ some w
      → WellFormed w
  WellFormed-same {v = v} {w = w} h e f = subst WellFormed (some-injective (sym e ∙ f)) h

  Built-WellFormed : {v : Variant A B C} → Built v → WellFormed v
  Built-WellFormed default = nothing
  Built-WellFormed (from_t1 a) = first a
  Built-WellFormed (from_t2 b) = second b
  Built-WellFormed (from_t3 c) = third c
  Built-WellFormed (copy_of {other = other} before e) =
      let h = Built-WellFormed before in WellFormed-same h (assign-WellFormed other other h h).2 e
  Built-WellFormed (assignment {v = v} {other = other} one two e) =
      let h = Built-WellFormed one in
      let k = Built-WellFormed two in WellFormed-same k (assign-WellFormed v other h k).0 e
  Built-WellFormed (kept {v = v} before e) =
      let h = Built-WellFormed before in WellFormed-same h (assign-WellFormed v v h h).1 e

  getters :
      {v : Variant A B C}
      → WellFormed v
      → (outcome (get_as_t1 v) ≡ some (is_type true false false v))
        × (outcome (get_as_t2 v) ≡ some (is_type false true false v))
        × (outcome (get_as_t3 v) ≡ some (is_type false false true v))
  unfolding get_as_t1 get_as_t2 get_as_t3 is_type
  getters nothing = (refl, refl, refl)
  getters (first a) = (refl, refl, refl)
  getters (second b) = (refl, refl, refl)
  getters (third c) = (refl, refl, refl)

  -- Variants that are constructed, copied and assigned in any way, and whose three types differ:
  -- each getter gives a reference to an object of its type if `is` for this type is true, and throws
  -- otherwise; none reads a member that is not active. A variant can be copied, assigned to any
  -- other one and to itself, and destroyed: no object is destroyed that is not there, or built over
  -- one that lives.
  pub Built-getters :
      {v other : Variant A B C}
      → Built v
      → Built other
      → (outcome (get_as_t1 v) ≡ some (is_type true false false v))
        × (outcome (get_as_t2 v) ≡ some (is_type false true false v))
        × (outcome (get_as_t3 v) ≡ some (is_type false false true v))
        × (copy v ≡ some v)
        × (assign false v other ≡ some v)
        × (assign true v v ≡ some v)
        × (destroy v ≡ some empty)
  Built-getters {v = v} {other = other} b c =
      let h = Built-WellFormed b in
      let (one, two, three) = getters h in
      let (other_assigned, _, other_copied, _) = assign-WellFormed other v (Built-WellFormed c) h in
      let (_, itself, _, destroyed) = assign-WellFormed v v h h in
      (one, two, three, other_copied, other_assigned, itself, destroyed)
