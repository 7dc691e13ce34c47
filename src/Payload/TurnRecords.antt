-- ===== src/Payload/TurnRecords.antt =====
-- internal/payload/turnstate.go, playerturn.go and playerresolvedturn.go: the facts that the turn
-- recorder writes, their validation and their triples.
use semmachina.Prelude.{
  ℕ, String, true, false, ◌&&◌, not, if◌then◌else◌, List, [], ◌∷◌, str_eq, Result, ok, ◌>>=◌, ◌>>◌,
  guard, wrap,
}
use semmachina.Vocabulary.Kinds.{UnknownValue}
use semmachina.Vocabulary.TurnPhase
use semmachina.Vocabulary.TurnPhase.{TurnPhase, accepted, failed}
use semmachina.Vocabulary.FailureReason
use semmachina.Vocabulary.Predicates.{
  turn_phase_current, turn_action_player, turn_action_scene, turn_action_ref, turn_failure_reason,
  turn_failure_ref, player_turn_current, player_turn_resolved,
}
use semmachina.Graph.{text, Triple}
use semmachina.Graph.Ids.{
  IdRules, IdError, validate_id_segment, require_entity_id, require_turn_entity_id,
}
use semmachina.Payload.Projection.{TripleProjection, ProjectionError, build}

pub record TurnState : Type 0 where
  pub turn_id : String
  pub phase : TurnPhase
  pub player_id : String
  pub scene_id : String
  pub action_ref : String
  pub reason : String
  pub detail_ref : String

pub data TurnStateError : Type 0 where
  state_id : IdError → TurnStateError
  state_value : UnknownValue → TurnStateError
  no_action_ref late_reference late_action_ref stray_reason stray_detail : TurnStateError

abbrev accepts : {A : Type 0} → Result UnknownValue A → Result TurnStateError (Unit {0})
accepts r = wrap state_value r >>= λ _. ok tt

module _ (ids : IdRules) (s : TurnState) where
  check_references : Result TurnStateError (Unit {0})
  check_references =
      if TurnPhase.same s.phase accepted
      then (do
        wrap state_id (require_entity_id ids s.player_id)
        wrap state_id (require_entity_id ids s.scene_id)
        guard (not (str_eq s.action_ref "")) no_action_ref)
      else (do
        guard (str_eq s.player_id "" && str_eq s.scene_id "") late_reference
        guard (str_eq s.action_ref "") late_action_ref)

  check_failure : Result TurnStateError (Unit {0})
  check_failure =
      if TurnPhase.same s.phase failed
      then accepts (FailureReason.parse s.reason)
      else (do guard (str_eq s.reason "") stray_reason; guard (str_eq s.detail_ref "") stray_detail)

  -- `TurnState.Validate`.
  unfoldable pub validate_turn_state : Result TurnStateError (Unit {0})
  unfolding check_references check_failure
  validate_turn_state = do
    wrap state_id (validate_id_segment ids s.turn_id)
    accepts (TurnPhase.parse (TurnPhase.to_string s.phase))
    check_references
    check_failure

-- The projection of one payload, before the fields that differ.
abbrev projection_of : String → String → String → ℕ → TripleProjection
projection_of subject turn_id source at = record {
  subject = subject;
  turn_id = turn_id;
  player_subject = "";
  source = source;
  at = at;
  registered = [];
  objects = [];
  ref_predicate = "";
  ref_name = "";
  ref = "";
  refless = true;
  scalarless = false;
}

-- The switch of `TurnState.Triples`.
unfoldable pub turn_state_projection : TurnState → String → String → ℕ → TripleProjection
turn_state_projection s turn_entity_id source at =
    let base = projection_of turn_entity_id s.turn_id source at in
    let phase_object = text (TurnPhase.to_string s.phase) in
    if TurnPhase.same s.phase accepted
    then record base {
      registered = turn_phase_current ∷ turn_action_player ∷ turn_action_scene ∷ [];
      objects =
          (turn_phase_current, phase_object)
          ∷ (turn_action_player, text s.player_id)
          ∷ (turn_action_scene, text s.scene_id)
          ∷ [];
      ref_predicate = turn_action_ref;
      ref_name = "action ref";
      ref = s.action_ref;
      refless = false;
    }
    else if TurnPhase.same s.phase failed
    then record base {
      registered = turn_phase_current ∷ turn_failure_reason ∷ [];
      objects = (turn_phase_current, phase_object) ∷ (turn_failure_reason, text s.reason) ∷ [];
      ref_predicate = if str_eq s.detail_ref "" then "" else turn_failure_ref;
      ref_name = if str_eq s.detail_ref "" then "" else "failure detail ref";
      ref = s.detail_ref;
      refless = str_eq s.detail_ref "";
    }
    else record base {
      registered = turn_phase_current ∷ [];
      objects = (turn_phase_current, phase_object) ∷ [];
    }

unfoldable pub turn_state_triples :
    IdRules
    → TurnState
    → String
    → String
    → ℕ
    → Result (ProjectionError TurnStateError) (List Triple)
unfolding turn_state_projection
turn_state_triples ids s turn_entity_id source at =
    build ids (turn_state_projection s turn_entity_id source at) (validate_turn_state ids s)

-- `PlayerTurn` and `PlayerResolvedTurn` have the same fields.
pub record PlayerPointer : Type 0 where
  pub player_id : String
  pub turn_id : String
  pub turn_entity_id : String

unfoldable pub validate_player_pointer : IdRules → PlayerPointer → Result IdError (Unit {0})
validate_player_pointer ids p = do
  require_entity_id ids p.player_id
  require_turn_entity_id ids p.turn_id p.turn_entity_id

pointer_projection : String → PlayerPointer → String → String → ℕ → TripleProjection
pointer_projection predicate p player_entity_id source at =
    let base = projection_of player_entity_id p.turn_id source at in
    record base {
      player_subject = p.player_id;
      registered = predicate ∷ [];
      objects = (predicate, text p.turn_entity_id) ∷ [];
    }

unfoldable pub player_turn_triples :
    IdRules → PlayerPointer → String → String → ℕ → Result (ProjectionError IdError) (List Triple)
unfolding pointer_projection
player_turn_triples ids p player_entity_id source at =
    build ids (pointer_projection player_turn_current p player_entity_id source at)
      (validate_player_pointer ids p)

unfoldable pub player_resolved_turn_triples :
    IdRules → PlayerPointer → String → String → ℕ → Result (ProjectionError IdError) (List Triple)
unfolding pointer_projection
player_resolved_turn_triples ids p player_entity_id source at =
    build ids (pointer_projection player_turn_resolved p player_entity_id source at)
      (validate_player_pointer ids p)
