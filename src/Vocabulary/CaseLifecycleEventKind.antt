-- ===== src/Vocabulary/CaseLifecycleEventKind.antt =====
-- The closed set CaseLifecycleEventKind of internal/vocabulary/caseflow.go.
use semmachina.Prelude.{
  String, Bool, true, false, if◌then◌else◌, ◌≡◌, arith, str_eq, eq_iff, Result,
}
use semmachina.Vocabulary.Kinds.{Kind, UnknownValue, parse as parse_enum}

pub data CaseLifecycleEventKind : Type 0 where
  body_observed investigation_started accusation_submitted accusation_correct :
      CaseLifecycleEventKind
  foreign : String → CaseLifecycleEventKind

-- The conversion of a text.
unfoldable pub of_string : String → CaseLifecycleEventKind
of_string s =
    if str_eq s "body-observed"
    then body_observed
    else if str_eq s "investigation-started"
    then investigation_started
    else if str_eq s "accusation-submitted"
    then accusation_submitted
    else if str_eq s "accusation-correct"
    then accusation_correct
    else foreign s

abbrev pub to_string : CaseLifecycleEventKind → String
to_string body_observed = "body-observed"
to_string investigation_started = "investigation-started"
to_string accusation_submitted = "accusation-submitted"
to_string accusation_correct = "accusation-correct"
to_string (foreign s) = s

-- Membership in the set of the declared constants.
abbrev pub valid : CaseLifecycleEventKind → Bool
valid (foreign s) = false
valid p = true

unfoldable pub parse : String → Result UnknownValue CaseLifecycleEventKind
unfolding of_string
parse s = parse_enum Kind.case_lifecycle_event_kind of_string valid s

pub to_string-of_string : (s : String) → to_string (of_string s) ≡ s
unfolding of_string
to_string-of_string s = ground (
  arith,
  eq_iff s "body-observed",
  eq_iff s "investigation-started",
  eq_iff s "accusation-submitted",
  eq_iff s "accusation-correct",
)
