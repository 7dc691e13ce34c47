-- ===== src/Vocabulary/EffectType.antt =====
-- The closed set EffectType of internal/vocabulary/classes.go.
use semmachina.Prelude.{
  String, Bool, true, false, if◌then◌else◌, ◌≡◌, arith, str_eq, eq_iff, Result,
}
use semmachina.Vocabulary.Kinds.{Kind, UnknownValue, parse as parse_enum}

pub data EffectType : Type 0 where
  set_attribute move_entity add_relationship remove_relationship set_status : EffectType
  foreign : String → EffectType

-- The conversion of a text.
unfoldable pub of_string : String → EffectType
of_string s =
    if str_eq s "set_attribute"
    then set_attribute
    else if str_eq s "move_entity"
    then move_entity
    else if str_eq s "add_relationship"
    then add_relationship
    else if str_eq s "remove_relationship"
    then remove_relationship
    else if str_eq s "set_status"
    then set_status
    else foreign s

abbrev pub to_string : EffectType → String
to_string set_attribute = "set_attribute"
to_string move_entity = "move_entity"
to_string add_relationship = "add_relationship"
to_string remove_relationship = "remove_relationship"
to_string set_status = "set_status"
to_string (foreign s) = s

-- Membership in the set of the declared constants.
abbrev pub valid : EffectType → Bool
valid (foreign s) = false
valid p = true

unfoldable pub parse : String → Result UnknownValue EffectType
unfolding of_string
parse s = parse_enum Kind.effect_type of_string valid s

pub to_string-of_string : (s : String) → to_string (of_string s) ≡ s
unfolding of_string
to_string-of_string s = ground (
  arith,
  eq_iff s "set_attribute",
  eq_iff s "move_entity",
  eq_iff s "add_relationship",
  eq_iff s "remove_relationship",
  eq_iff s "set_status",
)
