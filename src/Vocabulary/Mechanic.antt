-- ===== src/Vocabulary/Mechanic.antt =====
-- The closed set Mechanic of internal/vocabulary/classes.go.
use semmachina.Prelude.{
  String, Bool, true, false, if◌then◌else◌, ◌≡◌, arith, str_eq, eq_iff, Result,
}
use semmachina.Vocabulary.Kinds.{Kind, UnknownValue, parse as parse_enum}

pub data Mechanic : Type 0 where
  two_d6_pbta_v1 : Mechanic
  foreign : String → Mechanic

-- The conversion of a text.
unfoldable pub of_string : String → Mechanic
of_string s = if str_eq s "2d6-pbta/v1" then two_d6_pbta_v1 else foreign s

abbrev pub to_string : Mechanic → String
to_string two_d6_pbta_v1 = "2d6-pbta/v1"
to_string (foreign s) = s

-- Membership in the set of the declared constants.
abbrev pub valid : Mechanic → Bool
valid (foreign s) = false
valid p = true

unfoldable pub parse : String → Result UnknownValue Mechanic
unfolding of_string
parse s = parse_enum Kind.mechanic of_string valid s

pub to_string-of_string : (s : String) → to_string (of_string s) ≡ s
unfolding of_string
to_string-of_string s = ground (arith, eq_iff s "2d6-pbta/v1")
