-- ===== src/Graph/Targets.antt =====
-- internal/projectioncontract/contracts.go: the reconcile targets and the predicates of each group.
use semmachina.Prelude.{String, Bool, ◌&&◌, if◌then◌else◌, List, [], ◌∷◌, str_eq}
use semmachina.Vocabulary.Predicates.{
  turn_phase_current, turn_failure_reason, turn_failure_ref, turn_accusation_ref,
  turn_case_progress_ref, turn_knowledge_ref, turn_narration_ref, turn_resume_attempts,
  turn_case_decision_ref, turn_case_decision_kind, turn_verdict_plausibility, turn_verdict_risk,
  turn_verdict_consequence, turn_verdict_requires_roll, turn_verdict_ref, turn_roll_band,
  turn_roll_total, turn_roll_ref, turn_effects_batch, turn_effects_ref, player_turn_current,
  player_turn_resolved, case_lifecycle_event_id, case_lifecycle_event_kind_predicate,
  case_lifecycle_from_phase, case_lifecycle_to_phase, character_status_current,
  world_location_current, character_attribute_health, character_attribute_stamina,
  character_attribute_resolve, item_attribute_quantity, scene_attribute_tension,
  world_relation_allied_with, world_relation_hostile_to, world_relation_knows,
  world_relation_carries, world_relation_owes_debt, turn_companion_trigger_kind,
  turn_companion_trigger_source,
}
use semmachina.Graph.{Target}

abbrev pub turn_birth_contract : String
turn_birth_contract = "turn-birth"

abbrev pub player_current_turn : Target
player_current_turn = record { contract = "player-state"; group = "current-turn" }

abbrev pub player_resolved_turn : Target
player_resolved_turn = record { contract = "player-state"; group = "resolved-turn" }

abbrev pub turn_phase_state : Target
turn_phase_state = record { contract = "turn-state"; group = "phase-state" }

abbrev pub turn_accusation : Target
turn_accusation = record { contract = "turn-state"; group = "accusation" }

abbrev pub turn_case_progress : Target
turn_case_progress = record { contract = "turn-state"; group = "case-progress" }

abbrev pub turn_knowledge : Target
turn_knowledge = record { contract = "turn-state"; group = "knowledge" }

abbrev pub turn_narration : Target
turn_narration = record { contract = "turn-state"; group = "narration" }

abbrev pub turn_resume : Target
turn_resume = record { contract = "turn-state"; group = "resume" }

abbrev pub turn_case_decision : Target
turn_case_decision = record { contract = "turn-state"; group = "case-decision" }

abbrev pub turn_verdict : Target
turn_verdict = record { contract = "turn-state"; group = "verdict" }

abbrev pub turn_roll : Target
turn_roll = record { contract = "turn-state"; group = "roll" }

abbrev pub turn_effect_marker : Target
turn_effect_marker = record { contract = "turn-state"; group = "effect-marker" }

abbrev pub turn_companion_trigger : Target
turn_companion_trigger = record { contract = "turn-companion-trigger"; group = "trigger" }

abbrev pub case_lifecycle_receipt : Target
case_lifecycle_receipt = record { contract = "case-lifecycle"; group = "lifecycle-receipt" }

abbrev pub effect_target_attributes : Target
effect_target_attributes = record { contract = "effect-target-state"; group = "attributes" }

abbrev pub effect_target_status : Target
effect_target_status = record { contract = "effect-target-state"; group = "status" }

abbrev pub effect_target_location : Target
effect_target_location = record { contract = "effect-target-state"; group = "location" }

abbrev pub effect_target_relationships : Target
effect_target_relationships = record { contract = "effect-target-state"; group = "relationships" }

-- `==` on targets.
abbrev pub same_target : Target → Target → Bool
same_target a b = str_eq a.contract b.contract && str_eq a.group b.group

-- The groups of `Contracts`, of the contracts that the modelled components reconcile.
abbrev groups : List (Target × List String)
groups =
    (player_current_turn, player_turn_current ∷ [])
    ∷ (player_resolved_turn, player_turn_resolved ∷ [])
    ∷ (turn_phase_state, turn_phase_current ∷ turn_failure_reason ∷ turn_failure_ref ∷ [])
    ∷ (turn_accusation, turn_accusation_ref ∷ [])
    ∷ (turn_case_progress, turn_case_progress_ref ∷ [])
    ∷ (turn_knowledge, turn_knowledge_ref ∷ [])
    ∷ (turn_narration, turn_narration_ref ∷ [])
    ∷ (turn_resume, turn_resume_attempts ∷ [])
    ∷ (turn_case_decision, turn_case_decision_ref ∷ turn_case_decision_kind ∷ [])
    ∷ (
      turn_verdict,
      turn_verdict_plausibility ∷ turn_verdict_risk ∷ turn_verdict_consequence
          ∷ turn_verdict_requires_roll ∷ turn_verdict_ref ∷ [],
    )
    ∷ (turn_roll, turn_roll_band ∷ turn_roll_total ∷ turn_roll_ref ∷ [])
    ∷ (turn_effect_marker, turn_effects_batch ∷ turn_effects_ref ∷ [])
    ∷ (turn_companion_trigger, turn_companion_trigger_kind ∷ turn_companion_trigger_source ∷ [])
    ∷ (
      case_lifecycle_receipt,
      case_lifecycle_event_id ∷ case_lifecycle_event_kind_predicate ∷ case_lifecycle_from_phase
          ∷ case_lifecycle_to_phase ∷ [],
    )
    ∷ (
      effect_target_attributes,
      character_attribute_health ∷ character_attribute_stamina ∷ character_attribute_resolve
          ∷ item_attribute_quantity ∷ scene_attribute_tension ∷ [],
    )
    ∷ (effect_target_status, character_status_current ∷ [])
    ∷ (effect_target_location, world_location_current ∷ [])
    ∷ (
      effect_target_relationships,
      world_relation_allied_with ∷ world_relation_hostile_to ∷ world_relation_knows
          ∷ world_relation_carries ∷ world_relation_owes_debt ∷ [],
    )
    ∷ []

find_group : Target → List (Target × List String) → List String
find_group target [] = []
find_group target ((t, ps) ∷ rest) = if same_target t target then ps else find_group target rest

-- `Predicates`: the predicates of a target's group, none if there is no such group.
unfoldable pub predicates_of : Target → List String
unfolding find_group
predicates_of target = find_group target groups
