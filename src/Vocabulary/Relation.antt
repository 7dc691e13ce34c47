-- ===== src/Vocabulary/Relation.antt =====
-- The closed set Relation of internal/vocabulary/attributes.go.
use semmachina.Prelude.{
  String, Bool, true, false, if◌then◌else◌, ◌≡◌, arith, str_eq, eq_iff, Result,
}
use semmachina.Vocabulary.Kinds.{Kind, UnknownValue, parse as parse_enum}

pub data Relation : Type 0 where
  allied_with hostile_to knows carries owes_debt : Relation
  foreign : String → Relation

-- The conversion of a text.
unfoldable pub of_string : String → Relation
of_string s =
    if str_eq s "allied-with"
    then allied_with
    else if str_eq s "hostile-to"
    then hostile_to
    else if str_eq s "knows"
    then knows
    else if str_eq s "carries"
    then carries
    else if str_eq s "owes-debt"
    then owes_debt
    else foreign s

abbrev pub to_string : Relation → String
to_string allied_with = "allied-with"
to_string hostile_to = "hostile-to"
to_string knows = "knows"
to_string carries = "carries"
to_string owes_debt = "owes-debt"
to_string (foreign s) = s

-- Membership in the set of the declared constants.
abbrev pub valid : Relation → Bool
valid (foreign s) = false
valid p = true

unfoldable pub parse : String → Result UnknownValue Relation
unfolding of_string
parse s = parse_enum Kind.relation of_string valid s

pub to_string-of_string : (s : String) → to_string (of_string s) ≡ s
unfolding of_string
to_string-of_string s = ground (
  arith,
  eq_iff s "allied-with",
  eq_iff s "hostile-to",
  eq_iff s "knows",
  eq_iff s "carries",
  eq_iff s "owes-debt",
)
