-- ===== src/Variant.antt =====
-- `Variant` of includes/variant.h: a union of three types with its tag. The objects in the memory of
-- the union are explicit, so that a destructor for an object that is not there, a new object over one
-- that lives, and a read of a member that is not active are all the result `none` or `undefined`. The
-- template `get<T>` is left out.
pub mod Lifetime
pub mod Getters
use simple_server.Prelude.{Bool, true, false, Option, none, some, if◌then◌else◌}

-- `currentType`
pub data Tag : Type 0 where
  type_none type_t1 type_t2 type_t3 : Tag

-- The object that lives in the union.
pub data Storage (A B C : Type 0) : Type 0 where
  vacant : Storage A B C
  value1 : A → Storage A B C
  value2 : B → Storage A B C
  value3 : C → Storage A B C

-- The result of a getter: `bad_access` is the exception.
pub data Access (A : Type 0) : Type 0 where
  value : A → Access A
  bad_access undefined : Access A

abbrev pub Variant : Type 0 → Type 0 → Type 0 → Type 0
Variant A B C = Tag × Storage A B C

infixl 5 ◌>>=◌
abbrev pub ◌>>=◌ : {A B : Type 0} → Option A → (A → Option B) → Option B
none >>= f = none
some a >>= f = f a

module _ {A B C : Type 0} where
  unfoldable pub destroy : Variant A B C → Option (Variant A B C)
  destroy (type_none, s) = some (type_none, s)
  destroy (type_t1, value1 a) = some (type_none, vacant)
  destroy (type_t2, value2 b) = some (type_none, vacant)
  destroy (type_t3, value3 c) = some (type_none, vacant)
  destroy (_, _) = none

  -- `Variant()`, and the constructors for a value.
  abbrev pub empty : Variant A B C
  empty = (type_none, vacant)

  abbrev pub of_t1 : A → Variant A B C
  of_t1 a = (type_t1, value1 a)

  abbrev pub of_t2 : B → Variant A B C
  of_t2 b = (type_t2, value2 b)

  abbrev pub of_t3 : C → Variant A B C
  of_t3 c = (type_t3, value3 c)

  -- `new (&value) T(val); currentType = tag;`
  unfoldable pub construct : Tag → Storage A B C → Variant A B C → Option (Variant A B C)
  construct tag object (old, vacant) = some (tag, object)
  construct tag object (old, _) = none

  -- The `switch` over the tag of the other variant.
  unfoldable pub copy_value : Variant A B C → Variant A B C → Option (Variant A B C)
  unfolding construct
  copy_value (type_none, s) v = some v
  copy_value (type_t1, value1 a) v = construct type_t1 (value1 a) v
  copy_value (type_t2, value2 b) v = construct type_t2 (value2 b) v
  copy_value (type_t3, value3 c) v = construct type_t3 (value3 c) v
  copy_value (_, _) v = none

  unfoldable pub copy : Variant A B C → Option (Variant A B C)
  unfolding copy_value
  copy other = copy_value other empty

  -- `is_this` is whether both are one object.
  unfoldable pub assign : Bool → Variant A B C → Variant A B C → Option (Variant A B C)
  unfolding destroy copy_value
  assign is_this other v = if is_this then some v else destroy v >>= copy_value other

  unfoldable pub get_as_t1 : Variant A B C → Access A
  get_as_t1 (type_t1, value1 a) = value a
  get_as_t1 (type_t1, s) = undefined
  get_as_t1 (_, s) = bad_access

  unfoldable pub get_as_t2 : Variant A B C → Access B
  get_as_t2 (type_t2, value2 b) = value b
  get_as_t2 (type_t2, s) = undefined
  get_as_t2 (_, s) = bad_access

  unfoldable pub get_as_t3 : Variant A B C → Access C
  get_as_t3 (type_t3, value3 c) = value c
  get_as_t3 (type_t3, s) = undefined
  get_as_t3 (_, s) = bad_access

-- `==` of two tags.
abbrev pub same_tag : Tag → Tag → Bool
same_tag type_none type_none = true
same_tag type_t1 type_t1 = true
same_tag type_t2 type_t2 = true
same_tag type_t3 type_t3 = true
same_tag _ _ = false

-- `is<T>()`: the arguments say which of the three types T is.
unfoldable pub is_type : {A B C : Type 0} → Bool → Bool → Bool → Variant A B C → Bool
is_type is_t1 is_t2 is_t3 (tag, s) =
    if is_t1
    then same_tag tag type_t1
    else if is_t2
    then same_tag tag type_t2
    else if is_t3
    then same_tag tag type_t3
    else false
