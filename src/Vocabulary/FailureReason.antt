-- ===== src/Vocabulary/FailureReason.antt =====
-- The closed set FailureReason of internal/vocabulary/failures.go.
use semmachina.Prelude.{
  String, Bool, true, false, if◌then◌else◌, ◌≡◌, arith, str_eq, eq_iff, Result,
}
use semmachina.Vocabulary.Kinds.{Kind, UnknownValue, parse as parse_enum}

pub data FailureReason : Type 0 where
  effect_invalid effect_entity_missing effect_entity_kind effect_commit_incomplete
        persona_cap_exhausted persona_loop_failed turn_stranded knowledge_unauthorized
        accusation_invalid case_progress_invalid :
      FailureReason
  foreign : String → FailureReason

-- The conversion of a text.
unfoldable pub of_string : String → FailureReason
of_string s =
    if str_eq s "effect-invalid"
    then effect_invalid
    else if str_eq s "effect-entity-missing"
    then effect_entity_missing
    else if str_eq s "effect-entity-kind"
    then effect_entity_kind
    else if str_eq s "effect-commit-incomplete"
    then effect_commit_incomplete
    else if str_eq s "persona-cap-exhausted"
    then persona_cap_exhausted
    else if str_eq s "persona-loop-failed"
    then persona_loop_failed
    else if str_eq s "turn-stranded"
    then turn_stranded
    else if str_eq s "knowledge-unauthorized"
    then knowledge_unauthorized
    else if str_eq s "accusation-invalid"
    then accusation_invalid
    else if str_eq s "case-progress-invalid"
    then case_progress_invalid
    else foreign s

abbrev pub to_string : FailureReason → String
to_string effect_invalid = "effect-invalid"
to_string effect_entity_missing = "effect-entity-missing"
to_string effect_entity_kind = "effect-entity-kind"
to_string effect_commit_incomplete = "effect-commit-incomplete"
to_string persona_cap_exhausted = "persona-cap-exhausted"
to_string persona_loop_failed = "persona-loop-failed"
to_string turn_stranded = "turn-stranded"
to_string knowledge_unauthorized = "knowledge-unauthorized"
to_string accusation_invalid = "accusation-invalid"
to_string case_progress_invalid = "case-progress-invalid"
to_string (foreign s) = s

-- Membership in the set of the declared constants.
abbrev pub valid : FailureReason → Bool
valid (foreign s) = false
valid p = true

unfoldable pub parse : String → Result UnknownValue FailureReason
unfolding of_string
parse s = parse_enum Kind.failure_reason of_string valid s

pub to_string-of_string : (s : String) → to_string (of_string s) ≡ s
unfolding of_string
to_string-of_string s = ground (
  arith,
  eq_iff s "effect-invalid",
  eq_iff s "effect-entity-missing",
  eq_iff s "effect-entity-kind",
  eq_iff s "effect-commit-incomplete",
  eq_iff s "persona-cap-exhausted",
  eq_iff s "persona-loop-failed",
  eq_iff s "turn-stranded",
  eq_iff s "knowledge-unauthorized",
  eq_iff s "accusation-invalid",
  eq_iff s "case-progress-invalid",
)
