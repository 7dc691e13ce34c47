-- ===== src/Vocabulary/Rng.antt =====
-- The closed set Rng of internal/vocabulary/classes.go.
use semmachina.Prelude.{
  String, Bool, true, false, if◌then◌else◌, ◌≡◌, arith, str_eq, eq_iff, Result,
}
use semmachina.Vocabulary.Kinds.{Kind, UnknownValue, parse as parse_enum}

pub data Rng : Type 0 where
  pcg_v1 : Rng
  foreign : String → Rng

-- The conversion of a text.
unfoldable pub of_string : String → Rng
of_string s = if str_eq s "pcg/v1" then pcg_v1 else foreign s

abbrev pub to_string : Rng → String
to_string pcg_v1 = "pcg/v1"
to_string (foreign s) = s

-- Membership in the set of the declared constants.
abbrev pub valid : Rng → Bool
valid (foreign s) = false
valid p = true

unfoldable pub parse : String → Result UnknownValue Rng
unfolding of_string
parse s = parse_enum Kind.rng of_string valid s

pub to_string-of_string : (s : String) → to_string (of_string s) ≡ s
unfolding of_string
to_string-of_string s = ground (arith, eq_iff s "pcg/v1")
