-- ===== src/Vocabulary/RollGateMapping.antt =====
-- The closed set RollGateMapping of internal/vocabulary/resolution.go.
use semmachina.Prelude.{
  String, Bool, true, false, if◌then◌else◌, ◌≡◌, arith, str_eq, eq_iff, Result,
}
use semmachina.Vocabulary.Kinds.{Kind, UnknownValue, parse as parse_enum}

pub data RollGateMapping : Type 0 where
  roll_gate_v1 : RollGateMapping
  foreign : String → RollGateMapping

-- The conversion of a text.
unfoldable pub of_string : String → RollGateMapping
of_string s = if str_eq s "roll-gate/v1" then roll_gate_v1 else foreign s

abbrev pub to_string : RollGateMapping → String
to_string roll_gate_v1 = "roll-gate/v1"
to_string (foreign s) = s

-- Membership in the set of the declared constants.
abbrev pub valid : RollGateMapping → Bool
valid (foreign s) = false
valid p = true

unfoldable pub parse : String → Result UnknownValue RollGateMapping
unfolding of_string
parse s = parse_enum Kind.roll_gate_mapping of_string valid s

pub to_string-of_string : (s : String) → to_string (of_string s) ≡ s
unfolding of_string
to_string-of_string s = ground (arith, eq_iff s "roll-gate/v1")
