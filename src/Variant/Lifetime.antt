-- ===== src/Variant/Lifetime.antt =====
-- The lifetimes of the objects in a variant.
use simple_server.Prelude.{◌≡◌, refl, true, false, some, ◌≢◌}
use simple_server.Variant.{
  Variant, destroy, empty, copy, copy_value, construct, assign, undefined, get_as_t1, get_as_t2,
  get_as_t3, of_t1, of_t2, of_t3,
}

-- The variants whose tag is that of the object in their memory.
pub data WellFormed {A B C : Type 0} : Variant A B C → Type 0 where
  nothing : WellFormed empty
  first : (a : A) → WellFormed (of_t1 a)
  second : (b : B) → WellFormed (of_t2 b)
  third : (c : C) → WellFormed (of_t3 c)

module _ {A B C : Type 0} where
  destroy_lem : (v : Variant A B C) → WellFormed v → destroy v ≡ some empty
  unfolding destroy
  destroy_lem v nothing = refl
  destroy_lem v (first a) = refl
  destroy_lem v (second b) = refl
  destroy_lem v (third c) = refl

  copy_lem : (v : Variant A B C) → WellFormed v → copy v ≡ some v
  unfolding copy copy_value construct
  copy_lem v nothing = refl
  copy_lem v (first a) = refl
  copy_lem v (second b) = refl
  copy_lem v (third c) = refl

  -- Assigning a variant to another one destroys what it held and leaves an equal variant; no object
  -- is destroyed that is not there, or built over one that lives. A variant that is assigned to
  -- itself keeps its object.
  pub assign-WellFormed :
      (v other : Variant A B C)
      → WellFormed v
      → WellFormed other
      → (assign false other v ≡ some other)
        × (assign true v v ≡ some v)
        × (copy other ≡ some other)
        × (destroy v ≡ some empty)
  unfolding assign copy
  assign-WellFormed v other h k =
      (rw (destroy_lem v h) (copy_lem other k), refl, copy_lem other k, destroy_lem v h)

  -- On a variant whose tag agrees with its object no getter reads a member that is not active.
  pub get_as_defined :
      (v : Variant A B C)
      → WellFormed v
      → (get_as_t1 v ≢ undefined) × (get_as_t2 v ≢ undefined) × (get_as_t3 v ≢ undefined)
  unfolding get_as_t1 get_as_t2 get_as_t3
  get_as_defined v nothing = ((λ e. cc), (λ e. cc), (λ e. cc))
  get_as_defined v (first a) = ((λ e. cc), (λ e. cc), (λ e. cc))
  get_as_defined v (second b) = ((λ e. cc), (λ e. cc), (λ e. cc))
  get_as_defined v (third c) = ((λ e. cc), (λ e. cc), (λ e. cc))
