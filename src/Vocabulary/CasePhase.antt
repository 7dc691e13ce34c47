-- ===== src/Vocabulary/CasePhase.antt =====
-- The closed set CasePhase of internal/vocabulary/caseflow.go.
use semmachina.Prelude.{
  String, Bool, true, false, if◌then◌else◌, ◌≡◌, arith, str_eq, eq_iff, Result, ℕ, ◌&&◌, ◌==◌, List,
  [], ◌∷◌, ◌||◌,
}
use semmachina.Vocabulary.Kinds.{Kind, UnknownValue, parse as parse_enum}

pub data CasePhase : Type 0 where
  cold_open discovery investigation accusation denouement : CasePhase
  foreign : String → CasePhase

-- The conversion of a text.
unfoldable pub of_string : String → CasePhase
of_string s =
    if str_eq s "cold_open"
    then cold_open
    else if str_eq s "discovery"
    then discovery
    else if str_eq s "investigation"
    then investigation
    else if str_eq s "accusation"
    then accusation
    else if str_eq s "denouement"
    then denouement
    else foreign s

abbrev pub to_string : CasePhase → String
to_string cold_open = "cold_open"
to_string discovery = "discovery"
to_string investigation = "investigation"
to_string accusation = "accusation"
to_string denouement = "denouement"
to_string (foreign s) = s

-- Membership in the set of the declared constants.
abbrev pub valid : CasePhase → Bool
valid (foreign s) = false
valid p = true

unfoldable pub parse : String → Result UnknownValue CasePhase
unfolding of_string
parse s = parse_enum Kind.case_phase of_string valid s

abbrev pub tag : CasePhase → ℕ
tag cold_open = 0
tag discovery = 1
tag investigation = 2
tag accusation = 3
tag denouement = 4
tag (foreign s) = 5

abbrev pub foreign_text : CasePhase → String
foreign_text (foreign s) = s
foreign_text p = ""

-- `==` on the values.
abbrev pub same : CasePhase → CasePhase → Bool
same p q = tag p == tag q && str_eq (foreign_text p) (foreign_text q)

-- `slices.Contains`.
abbrev pub member : List CasePhase → CasePhase → Bool
member [] p = false
member (q ∷ qs) p = same q p || member qs p

pub to_string-of_string : (s : String) → to_string (of_string s) ≡ s
unfolding of_string
to_string-of_string s = ground (
  arith,
  eq_iff s "cold_open",
  eq_iff s "discovery",
  eq_iff s "investigation",
  eq_iff s "accusation",
  eq_iff s "denouement",
)
