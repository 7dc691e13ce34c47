-- ===== src/Vocabulary/Status.antt =====
-- The closed set Status of internal/vocabulary/classes.go.
use semmachina.Prelude.{
  String, Bool, true, false, if◌then◌else◌, ◌≡◌, arith, str_eq, eq_iff, Result,
}
use semmachina.Vocabulary.Kinds.{Kind, UnknownValue, parse as parse_enum}

pub data Status : Type 0 where
  healthy wounded exhausted frightened hidden restrained unconscious dead : Status
  foreign : String → Status

-- The conversion of a text.
unfoldable pub of_string : String → Status
of_string s =
    if str_eq s "healthy"
    then healthy
    else if str_eq s "wounded"
    then wounded
    else if str_eq s "exhausted"
    then exhausted
    else if str_eq s "frightened"
    then frightened
    else if str_eq s "hidden"
    then hidden
    else if str_eq s "restrained"
    then restrained
    else if str_eq s "unconscious"
    then unconscious
    else if str_eq s "dead"
    then dead
    else foreign s

abbrev pub to_string : Status → String
to_string healthy = "healthy"
to_string wounded = "wounded"
to_string exhausted = "exhausted"
to_string frightened = "frightened"
to_string hidden = "hidden"
to_string restrained = "restrained"
to_string unconscious = "unconscious"
to_string dead = "dead"
to_string (foreign s) = s

-- Membership in the set of the declared constants.
abbrev pub valid : Status → Bool
valid (foreign s) = false
valid p = true

unfoldable pub parse : String → Result UnknownValue Status
unfolding of_string
parse s = parse_enum Kind.status of_string valid s

pub to_string-of_string : (s : String) → to_string (of_string s) ≡ s
unfolding of_string
to_string-of_string s = ground (
  arith,
  eq_iff s "healthy",
  eq_iff s "wounded",
  eq_iff s "exhausted",
  eq_iff s "frightened",
  eq_iff s "hidden",
  eq_iff s "restrained",
  eq_iff s "unconscious",
  eq_iff s "dead",
)
