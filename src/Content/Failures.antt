-- ===== src/Content/Failures.antt =====
-- internal/content/failure.go: the stored explanation of a turn's failure and its validation.
use semmachina.Prelude.{
  ℕ, suc, ◌*◌, String, ◌&&◌, not, if◌then◌else◌, List, [], ◌∷◌, ltb, len, str_eq, contains, Result,
  ok, ◌>>=◌, ◌>>◌, guard, wrap,
}
use semmachina.Vocabulary.Kinds.{UnknownValue}
use semmachina.Vocabulary.FailureReason
use semmachina.Vocabulary.AuthorizationReason
use semmachina.Graph.Ids.{IdRules, IdError, validate_id_segment}

abbrev pub max_failure_message_bytes : ℕ
max_failure_message_bytes = 4 * 1024

abbrev pub deterministic : String
deterministic = "deterministic"

abbrev failure_classes : List String
failure_classes =
    "provider-model" ∷ "model-output-limit" ∷ "agent-runtime" ∷ "agent-limit" ∷ deterministic
    ∷ "unknown" ∷ []

-- An absent field is the empty text.
pub record FailureDetail : Type 0 where
  pub turn_id : String
  pub reason : String
  pub failure_class : String
  pub authorization_reason : String
  pub message : String
  pub target : String
  pub committed : List String

pub data DetailError : Type 0 where
  bad_turn_id : IdError → DetailError
  unknown : UnknownValue → DetailError
  class_unknown : String → DetailError
  no_authorization stray_authorization authorization_class no_message message_too_long bad_target :
      DetailError
  bad_committed : ℕ → DetailError

abbrev knowledge_unauthorized : String
knowledge_unauthorized = "knowledge-unauthorized"

unfoldable pub parse_failure_class : String → Result DetailError String
parse_failure_class value = guard (contains failure_classes value) (class_unknown value) >> ok value

check_authorization : FailureDetail → Result DetailError (Unit {0})
check_authorization d = if str_eq d.authorization_reason "" then ok tt else (do
  guard (str_eq d.reason knowledge_unauthorized) stray_authorization
  guard (str_eq d.failure_class deterministic) authorization_class
  reason ← wrap unknown (AuthorizationReason.parse d.authorization_reason)
  ok tt)

check_committed : IdRules → ℕ → List String → Result DetailError (Unit {0})
check_committed ids i [] = ok tt
check_committed ids i (id ∷ rest) =
    guard (ids.valid_entity_id id) (bad_committed i) >> check_committed ids (suc i) rest

-- `FailureDetail.Validate`.
unfoldable pub validate_detail : IdRules → FailureDetail → Result DetailError (Unit {0})
unfolding parse_failure_class check_authorization check_committed
validate_detail ids d = do
  wrap bad_turn_id (validate_id_segment ids d.turn_id)
  reason ← wrap unknown (FailureReason.parse d.reason)
  (if str_eq d.failure_class ""
      then ok tt
      else (parse_failure_class d.failure_class >>= λ c. ok tt))
  guard
      (not (
        str_eq d.reason knowledge_unauthorized
        && not (str_eq d.failure_class "")
        && str_eq d.authorization_reason ""))
      no_authorization
  check_authorization d
  guard (not (str_eq d.message "")) no_message
  guard (not (ltb max_failure_message_bytes (len d.message))) message_too_long
  (if str_eq d.target "" then ok tt else guard (ids.valid_entity_id d.target) bad_target)
  check_committed ids 0 d.committed
