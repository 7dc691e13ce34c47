-- ===== src/Vocabulary/BeliefStance.antt =====
-- The closed set BeliefStance of internal/vocabulary/mystery.go.
use semmachina.Prelude.{
  String, Bool, true, false, if◌then◌else◌, ◌≡◌, arith, str_eq, eq_iff, Result,
}
use semmachina.Vocabulary.Kinds.{Kind, UnknownValue, parse as parse_enum}

pub data BeliefStance : Type 0 where
  affirms denies uncertain : BeliefStance
  foreign : String → BeliefStance

-- The conversion of a text.
unfoldable pub of_string : String → BeliefStance
of_string s =
    if str_eq s "affirms"
    then affirms
    else if str_eq s "denies"
    then denies
    else if str_eq s "uncertain"
    then uncertain
    else foreign s

abbrev pub to_string : BeliefStance → String
to_string affirms = "affirms"
to_string denies = "denies"
to_string uncertain = "uncertain"
to_string (foreign s) = s

-- Membership in the set of the declared constants.
abbrev pub valid : BeliefStance → Bool
valid (foreign s) = false
valid p = true

unfoldable pub parse : String → Result UnknownValue BeliefStance
unfolding of_string
parse s = parse_enum Kind.belief_stance of_string valid s

pub to_string-of_string : (s : String) → to_string (of_string s) ≡ s
unfolding of_string
to_string-of_string s = ground (arith, eq_iff s "affirms", eq_iff s "denies", eq_iff s "uncertain")
