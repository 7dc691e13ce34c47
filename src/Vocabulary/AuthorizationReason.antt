-- ===== src/Vocabulary/AuthorizationReason.antt =====
-- The closed set AuthorizationReason of internal/vocabulary/authorization.go.
use semmachina.Prelude.{
  String, Bool, true, false, if◌then◌else◌, ◌≡◌, arith, str_eq, eq_iff, Result,
}
use semmachina.Vocabulary.Kinds.{Kind, UnknownValue, parse as parse_enum}

pub data AuthorizationReason : Type 0 where
  wrong_turn wrong_case wrong_actor invalid_target ineligible_reveal ineligible_phase
        solution_locked question_target_mismatch share_source_unknown share_target_unauthorized
        witness_unauthorized unsupported_kind :
      AuthorizationReason
  foreign : String → AuthorizationReason

-- The conversion of a text.
unfoldable pub of_string : String → AuthorizationReason
of_string s =
    if str_eq s "wrong-turn"
    then wrong_turn
    else if str_eq s "wrong-case"
    then wrong_case
    else if str_eq s "wrong-actor"
    then wrong_actor
    else if str_eq s "invalid-target"
    then invalid_target
    else if str_eq s "ineligible-reveal"
    then ineligible_reveal
    else if str_eq s "ineligible-phase"
    then ineligible_phase
    else if str_eq s "solution-locked"
    then solution_locked
    else if str_eq s "question-target-mismatch"
    then question_target_mismatch
    else if str_eq s "share-source-unknown"
    then share_source_unknown
    else if str_eq s "share-target-unauthorized"
    then share_target_unauthorized
    else if str_eq s "witness-unauthorized"
    then witness_unauthorized
    else if str_eq s "unsupported-kind"
    then unsupported_kind
    else foreign s

abbrev pub to_string : AuthorizationReason → String
to_string wrong_turn = "wrong-turn"
to_string wrong_case = "wrong-case"
to_string wrong_actor = "wrong-actor"
to_string invalid_target = "invalid-target"
to_string ineligible_reveal = "ineligible-reveal"
to_string ineligible_phase = "ineligible-phase"
to_string solution_locked = "solution-locked"
to_string question_target_mismatch = "question-target-mismatch"
to_string share_source_unknown = "share-source-unknown"
to_string share_target_unauthorized = "share-target-unauthorized"
to_string witness_unauthorized = "witness-unauthorized"
to_string unsupported_kind = "unsupported-kind"
to_string (foreign s) = s

-- Membership in the set of the declared constants.
abbrev pub valid : AuthorizationReason → Bool
valid (foreign s) = false
valid p = true

unfoldable pub parse : String → Result UnknownValue AuthorizationReason
unfolding of_string
parse s = parse_enum Kind.authorization_reason of_string valid s

pub to_string-of_string : (s : String) → to_string (of_string s) ≡ s
unfolding of_string
to_string-of_string s = ground (
  arith,
  eq_iff s "wrong-turn",
  eq_iff s "wrong-case",
  eq_iff s "wrong-actor",
  eq_iff s "invalid-target",
  eq_iff s "ineligible-reveal",
  eq_iff s "ineligible-phase",
  eq_iff s "solution-locked",
  eq_iff s "question-target-mismatch",
  eq_iff s "share-source-unknown",
  eq_iff s "share-target-unauthorized",
  eq_iff s "witness-unauthorized",
  eq_iff s "unsupported-kind",
)
