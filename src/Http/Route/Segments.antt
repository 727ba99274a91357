-- ===== src/Http/Route/Segments.antt =====
-- When a URL fits a route pattern, as a relation.
use simple_server.Prelude.{
  ◌≡◌, ◌≢◌, refl, ◌↔◌, true, none, some, List, [], ◌∷◌, Bytes, All, length, arith, inl, inr, ◌⊎◌,
  Bool-cases,
}
use simple_server.Text.Decimal.{IsDigit}
use simple_server.Text.Search.{text_eq, text_eq_iff}
use simple_server.Http.Codes.{UrlDataType, invalid_url_datatype}
use simple_server.Http.Route.{
  get_node_data_type_by_pattern, get_data_type_by_value, is_integer, same_type, first_char,
  segment_matches, validate_pattern_by_url,
}

-- A segment fits a node that is equal to it, and a node `<name:type>` of its own type.
abbrev pub Fits : Bytes → Bytes → Type 0
Fits value node =
    (value ≡ node)
    ⊎ ((first_char node ≡ b'<')
        × (get_node_data_type_by_pattern node ≡ get_data_type_by_value value))

pub data Matches : List Bytes → List Bytes → Type 0 where
  end : Matches [] []
  segment :
      {u p : Bytes} {uri pattern : List Bytes}
      → Fits u p
      → Matches uri pattern
      → Matches (u ∷ uri) (p ∷ pattern)

same_type_iff : (a b : UrlDataType) → (same_type a b ≡ true) ↔ (a ≡ b)
same_type_iff a b = ground arith

pub segment_matches_iff :
    (value node : Bytes) → (segment_matches value node ≡ true) ↔ Fits value node
unfolding segment_matches
segment_matches_iff value node = ground (
  arith,
  text_eq_iff value node,
  same_type_iff (get_node_data_type_by_pattern node) (get_data_type_by_value value),
)

validate_sound :
    (uri pattern : List Bytes)
    → length pattern ≡ length uri
    → validate_pattern_by_url uri pattern ≡ some true
    → Matches uri pattern
unfolding validate_pattern_by_url
validate_sound [] [] e h = end
validate_sound [] (p ∷ pattern) e h = absurd (omega arith)
validate_sound (u ∷ uri) [] e h = absurd (omega arith)
validate_sound (u ∷ uri) (p ∷ pattern) e h = elim (Bool-cases (segment_matches u p)) [
  | inl fits ↦
      segment ((segment_matches_iff u p).0 fits)
        (validate_sound uri pattern (omega arith) (rw fits at h))
  | inr other ↦ absurd (ground arith)
]

validate_complete :
    {uri pattern : List Bytes}
    → Matches uri pattern
    → validate_pattern_by_url uri pattern ≡ some true
unfolding validate_pattern_by_url
validate_complete end = refl
validate_complete (segment {u} {p} fits rest) =
    rw ((segment_matches_iff u p).1 fits) (validate_complete rest)

-- For a URL and a pattern of one length, the code accepts exactly the URLs that fit the pattern.
pub validate_pattern_by_url_iff :
    (uri pattern : List Bytes)
    → length pattern ≡ length uri
    → (validate_pattern_by_url uri pattern ≡ some true) ↔ Matches uri pattern
validate_pattern_by_url_iff uri pattern e = (validate_sound uri pattern e, validate_complete)

-- A URL of the pattern's length is never compared behind the pattern's end.
pub validate_defined :
    (uri pattern : List Bytes)
    → length pattern ≡ length uri
    → validate_pattern_by_url uri pattern ≢ none
unfolding validate_pattern_by_url
validate_defined [] pattern e h = cc
validate_defined (u ∷ uri) [] e h = absurd (omega arith)
validate_defined (u ∷ uri) (p ∷ pattern) e h =
    ground (arith, validate_defined uri pattern (omega arith))

-- A value is an integer exactly when it consists of digits, so that the empty text is one.
pub is_integer_iff : (s : Bytes) → (is_integer s ≡ true) ↔ All IsDigit s
unfolding is_integer
is_integer_iff [] = ((λ h. tt), (λ h. refl))
is_integer_iff (c ∷ cs) = ground (arith, is_integer_iff cs)

-- No value has the type of a node whose type name is unknown: such a node fits only its own text.
pub unknown_node :
    (value node : Bytes)
    → get_node_data_type_by_pattern node ≡ invalid_url_datatype
    → segment_matches value node ≡ text_eq value node
unfolding segment_matches get_data_type_by_value
unknown_node value node e = ground arith
