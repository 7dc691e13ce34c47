-- ===== src/Vocabulary/ModifierSource.antt =====
-- The closed set ModifierSource of internal/vocabulary/classes.go.
use semmachina.Prelude.{
  String, Bool, true, false, if◌then◌else◌, ◌≡◌, arith, str_eq, eq_iff, Result,
}
use semmachina.Vocabulary.Kinds.{Kind, UnknownValue, parse as parse_enum}

pub data ModifierSource : Type 0 where
  trait equipment position assistance condition : ModifierSource
  foreign : String → ModifierSource

-- The conversion of a text.
unfoldable pub of_string : String → ModifierSource
of_string s =
    if str_eq s "trait"
    then trait
    else if str_eq s "equipment"
    then equipment
    else if str_eq s "position"
    then position
    else if str_eq s "assistance"
    then assistance
    else if str_eq s "condition"
    then condition
    else foreign s

abbrev pub to_string : ModifierSource → String
to_string trait = "trait"
to_string equipment = "equipment"
to_string position = "position"
to_string assistance = "assistance"
to_string condition = "condition"
to_string (foreign s) = s

-- Membership in the set of the declared constants.
abbrev pub valid : ModifierSource → Bool
valid (foreign s) = false
valid p = true

unfoldable pub parse : String → Result UnknownValue ModifierSource
unfolding of_string
parse s = parse_enum Kind.modifier_source of_string valid s

pub to_string-of_string : (s : String) → to_string (of_string s) ≡ s
unfolding of_string
to_string-of_string s = ground (
  arith,
  eq_iff s "trait",
  eq_iff s "equipment",
  eq_iff s "position",
  eq_iff s "assistance",
  eq_iff s "condition",
)
