-- ===== src/Vocabulary/Attribute.antt =====
-- The closed set Attribute of internal/vocabulary/attributes.go.
use semmachina.Prelude.{
  String, Bool, true, false, if◌then◌else◌, ◌≡◌, arith, str_eq, eq_iff, Result,
}
use semmachina.Vocabulary.Kinds.{Kind, UnknownValue, parse as parse_enum}

pub data Attribute : Type 0 where
  health stamina resolve quantity tension : Attribute
  foreign : String → Attribute

-- The conversion of a text.
unfoldable pub of_string : String → Attribute
of_string s =
    if str_eq s "health"
    then health
    else if str_eq s "stamina"
    then stamina
    else if str_eq s "resolve"
    then resolve
    else if str_eq s "quantity"
    then quantity
    else if str_eq s "tension"
    then tension
    else foreign s

abbrev pub to_string : Attribute → String
to_string health = "health"
to_string stamina = "stamina"
to_string resolve = "resolve"
to_string quantity = "quantity"
to_string tension = "tension"
to_string (foreign s) = s

-- Membership in the set of the declared constants.
abbrev pub valid : Attribute → Bool
valid (foreign s) = false
valid p = true

unfoldable pub parse : String → Result UnknownValue Attribute
unfolding of_string
parse s = parse_enum Kind.attribute of_string valid s

pub to_string-of_string : (s : String) → to_string (of_string s) ≡ s
unfolding of_string
to_string-of_string s = ground (
  arith,
  eq_iff s "health",
  eq_iff s "stamina",
  eq_iff s "resolve",
  eq_iff s "quantity",
  eq_iff s "tension",
)
