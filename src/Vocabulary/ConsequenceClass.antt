-- ===== src/Vocabulary/ConsequenceClass.antt =====
-- The closed set ConsequenceClass of internal/vocabulary/classes.go.
use semmachina.Prelude.{
  String, Bool, true, false, if◌then◌else◌, ◌≡◌, arith, str_eq, eq_iff, Result,
}
use semmachina.Vocabulary.Kinds.{Kind, UnknownValue, parse as parse_enum}

pub data ConsequenceClass : Type 0 where
  no_consequence setback harm cost complication escalation : ConsequenceClass
  foreign : String → ConsequenceClass

-- The conversion of a text.
unfoldable pub of_string : String → ConsequenceClass
of_string s =
    if str_eq s "none"
    then no_consequence
    else if str_eq s "setback"
    then setback
    else if str_eq s "harm"
    then harm
    else if str_eq s "cost"
    then cost
    else if str_eq s "complication"
    then complication
    else if str_eq s "escalation"
    then escalation
    else foreign s

abbrev pub to_string : ConsequenceClass → String
to_string no_consequence = "none"
to_string setback = "setback"
to_string harm = "harm"
to_string cost = "cost"
to_string complication = "complication"
to_string escalation = "escalation"
to_string (foreign s) = s

-- Membership in the set of the declared constants.
abbrev pub valid : ConsequenceClass → Bool
valid (foreign s) = false
valid p = true

unfoldable pub parse : String → Result UnknownValue ConsequenceClass
unfolding of_string
parse s = parse_enum Kind.consequence of_string valid s

pub to_string-of_string : (s : String) → to_string (of_string s) ≡ s
unfolding of_string
to_string-of_string s = ground (
  arith,
  eq_iff s "none",
  eq_iff s "setback",
  eq_iff s "harm",
  eq_iff s "cost",
  eq_iff s "complication",
  eq_iff s "escalation",
)
