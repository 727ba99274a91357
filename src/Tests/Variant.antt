-- ===== src/Tests/Variant.antt =====
-- Runs of the variant of includes/variant.h.
use simple_server.Prelude.{ℕ, ◌≡◌, refl, Bool, true, false, none, some, Bytes, codes}
use simple_server.Variant.{
  Variant, type_t1, vacant, of_t1, of_t2, empty, assign, copy, copy_value, construct, destroy,
  value, bad_access, is_type, get_as_t1, get_as_t2, get_as_t3,
}
use simple_server.Variant.Getters.{Built, from_t1, from_t2, assignment, outcome, Built-getters}

abbrev number : Variant ℕ Bytes Bool
number = of_t1 7

abbrev text : Variant ℕ Bytes Bool
text = of_t2 (codes "seven")

-- The text, after it was assigned to the variant with the number.
text-Built : Built text
unfolding assign destroy copy_value construct
text-Built = assignment (from_t1 7) (from_t2 (codes "seven")) refl

Built-getters_example :
    (outcome (get_as_t1 text) ≡ some (is_type true false false text))
    × (outcome (get_as_t2 text) ≡ some (is_type false true false text))
    × (outcome (get_as_t3 text) ≡ some (is_type false false true text))
    × (copy text ≡ some text)
    × (assign false text number ≡ some text)
    × (assign true text text ≡ some text)
    × (destroy text ≡ some empty)
Built-getters_example = Built-getters text-Built (from_t1 7)

get_run :
    (get_as_t1 number ≡ value 7) × (get_as_t2 number ≡ bad_access) × (get_as_t3 number ≡ bad_access)
unfolding get_as_t1 get_as_t2 get_as_t3
get_run = (refl, refl, refl)

-- A tag without its object.
damaged_run : destroy {A = ℕ} {B = Bytes} {C = Bool} (type_t1, vacant) ≡ none
unfolding destroy
damaged_run = refl

over_run : copy_value text number ≡ none
unfolding copy_value construct
over_run = refl

is_run : is_type false true false text ≡ true
unfolding is_type
is_run = refl

-- Where the second type is the first, the second is never reported.
same_types_run : is_type {A = ℕ} {B = ℕ} {C = Bool} true true false (of_t2 7) ≡ false
unfolding is_type
same_types_run = refl
