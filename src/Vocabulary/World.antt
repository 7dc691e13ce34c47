-- ===== src/Vocabulary/World.antt =====
-- internal/vocabulary/world.go and registration.go: the kinds of entity that may carry a fact or be
-- named by one, the facts that hold several values, and the facts that no effect may write.
use semmachina.Prelude.{
  String, Bool, true, false, ◌||◌, if◌then◌else◌, Option, none, some, List, [], ◌∷◌, str_eq,
  contains,
}
use semmachina.Vocabulary.EntityKind
use semmachina.Vocabulary.EntityKind.{
  EntityKind, belief, case, character, companion_bond, event, evidence, item, knowledge, location,
  player, revelation, scene,
}
use semmachina.Vocabulary.Attribute.{Attribute}
use semmachina.Vocabulary.Relation.{Relation, allied_with, hostile_to, knows, carries, owes_debt}
use semmachina.Vocabulary.Attributes.{attributes, attribute_predicate, relation_predicate}
use semmachina.Vocabulary.Predicates.{
  belief_actor_holder, belief_evidence_ref, belief_stance_current, case_lifecycle_event_i_d,
  case_lifecycle_event_kind_predicate, case_lifecycle_from_phase, case_lifecycle_phase,
  case_lifecycle_to_phase, case_member_evidence, case_member_suspect, case_member_timeline,
  case_member_victim, case_requirement_evidence, case_requirement_suspects, case_solution_culprit,
  case_solution_method, case_solution_motive, case_timeline_order, case_transition_at,
  case_transition_from, case_transition_source, character_attribute_health,
  character_attribute_resolve, character_attribute_stamina, character_status_current,
  companion_bond_character, companion_bond_hint_level, companion_bond_player, companion_bond_policy,
  companion_candidate_policy, evidence_reveal_kind_predicate, evidence_reveal_phase,
  evidence_reveal_target, evidence_truth_status_current, geo_location_latitude,
  geo_location_longitude, item_attribute_quantity, knowledge_actor_holder, knowledge_evidence_ref,
  location_relation_connects_to, player_character_current, revelation_actor_holder,
  revelation_evidence_ref, revelation_source_actor, revelation_testimony_ref, revelation_turn_i_d,
  scene_attribute_tension, scene_location_current, world_entity_description, world_entity_kind,
  world_entity_name, world_location_current, world_relation_allied_with, world_relation_carries,
  world_relation_hostile_to, world_relation_knows, world_relation_owes_debt,
}

-- `worldFactSubjectKinds`.
abbrev pub world_fact_subject_kinds : List (String × List EntityKind)
world_fact_subject_kinds =
    (world_entity_name, character ∷ item ∷ scene ∷ location ∷ player ∷ case ∷ evidence ∷ event ∷ [])
    ∷ (
      world_entity_kind,
      character ∷ item ∷ scene ∷ location ∷ player ∷ case ∷ evidence ∷ event ∷ belief ∷ knowledge
          ∷ revelation ∷ companion_bond ∷ [],
    )
    ∷ (
      world_entity_description,
      character ∷ item ∷ scene ∷ location ∷ player ∷ case ∷ evidence ∷ event ∷ belief ∷ [],
    )
    ∷ (player_character_current, player ∷ [])
    ∷ (character_attribute_health, character ∷ [])
    ∷ (character_attribute_stamina, character ∷ [])
    ∷ (character_attribute_resolve, character ∷ [])
    ∷ (character_status_current, character ∷ [])
    ∷ (item_attribute_quantity, item ∷ [])
    ∷ (scene_attribute_tension, scene ∷ [])
    ∷ (world_location_current, character ∷ item ∷ [])
    ∷ (scene_location_current, scene ∷ [])
    ∷ (location_relation_connects_to, location ∷ [])
    ∷ (geo_location_latitude, location ∷ [])
    ∷ (geo_location_longitude, location ∷ [])
    ∷ (world_relation_allied_with, character ∷ [])
    ∷ (world_relation_hostile_to, character ∷ [])
    ∷ (world_relation_knows, character ∷ [])
    ∷ (world_relation_carries, character ∷ [])
    ∷ (world_relation_owes_debt, character ∷ [])
    ∷ (case_solution_culprit, case ∷ [])
    ∷ (case_solution_method, case ∷ [])
    ∷ (case_solution_motive, case ∷ [])
    ∷ (case_requirement_suspects, case ∷ [])
    ∷ (case_requirement_evidence, case ∷ [])
    ∷ (case_member_suspect, case ∷ [])
    ∷ (case_member_evidence, case ∷ [])
    ∷ (case_member_timeline, case ∷ [])
    ∷ (case_member_victim, case ∷ [])
    ∷ (case_lifecycle_phase, case ∷ [])
    ∷ (case_lifecycle_event_i_d, case ∷ [])
    ∷ (case_lifecycle_event_kind_predicate, case ∷ [])
    ∷ (case_lifecycle_from_phase, case ∷ [])
    ∷ (case_lifecycle_to_phase, case ∷ [])
    ∷ (case_transition_source, case ∷ [])
    ∷ (case_transition_at, case ∷ [])
    ∷ (case_transition_from, case ∷ [])
    ∷ (case_timeline_order, event ∷ [])
    ∷ (evidence_truth_status_current, evidence ∷ [])
    ∷ (evidence_reveal_phase, evidence ∷ [])
    ∷ (evidence_reveal_kind_predicate, evidence ∷ [])
    ∷ (evidence_reveal_target, evidence ∷ [])
    ∷ (belief_actor_holder, belief ∷ [])
    ∷ (belief_evidence_ref, belief ∷ [])
    ∷ (belief_stance_current, belief ∷ [])
    ∷ (knowledge_actor_holder, knowledge ∷ [])
    ∷ (knowledge_evidence_ref, knowledge ∷ [])
    ∷ (revelation_evidence_ref, revelation ∷ [])
    ∷ (revelation_actor_holder, revelation ∷ [])
    ∷ (revelation_turn_i_d, revelation ∷ [])
    ∷ (revelation_source_actor, revelation ∷ [])
    ∷ (revelation_testimony_ref, revelation ∷ [])
    ∷ (companion_candidate_policy, character ∷ [])
    ∷ (companion_bond_player, companion_bond ∷ [])
    ∷ (companion_bond_character, companion_bond ∷ [])
    ∷ (companion_bond_policy, companion_bond ∷ [])
    ∷ (companion_bond_hint_level, companion_bond ∷ [])
    ∷ []

-- `referenceObjectKinds`.
abbrev pub reference_object_kinds : List (String × List EntityKind)
reference_object_kinds =
    (world_location_current, location ∷ [])
    ∷ (scene_location_current, location ∷ [])
    ∷ (location_relation_connects_to, location ∷ [])
    ∷ (player_character_current, character ∷ [])
    ∷ (world_relation_allied_with, character ∷ [])
    ∷ (world_relation_hostile_to, character ∷ [])
    ∷ (world_relation_knows, character ∷ [])
    ∷ (world_relation_carries, item ∷ [])
    ∷ (world_relation_owes_debt, character ∷ [])
    ∷ (case_solution_culprit, character ∷ [])
    ∷ (case_solution_method, item ∷ [])
    ∷ (case_solution_motive, evidence ∷ [])
    ∷ (case_member_suspect, character ∷ [])
    ∷ (case_member_evidence, evidence ∷ [])
    ∷ (case_member_timeline, event ∷ [])
    ∷ (case_member_victim, character ∷ [])
    ∷ (belief_actor_holder, character ∷ [])
    ∷ (evidence_reveal_target, character ∷ item ∷ scene ∷ evidence ∷ [])
    ∷ (belief_evidence_ref, evidence ∷ [])
    ∷ (knowledge_actor_holder, character ∷ [])
    ∷ (knowledge_evidence_ref, evidence ∷ [])
    ∷ (revelation_evidence_ref, evidence ∷ [])
    ∷ (revelation_actor_holder, character ∷ [])
    ∷ (revelation_source_actor, character ∷ [])
    ∷ (companion_bond_player, player ∷ [])
    ∷ (companion_bond_character, character ∷ [])
    ∷ []

unfoldable pub kinds_for : List (String × List EntityKind) → String → Option (List EntityKind)
kinds_for [] p = none
kinds_for ((q, kinds) ∷ rest) p = if str_eq q p then some kinds else kinds_for rest p

unfoldable pub subject_kinds_for : String → Option (List EntityKind)
unfolding kinds_for
subject_kinds_for p = kinds_for world_fact_subject_kinds p

unfoldable pub object_kinds_for : String → Option (List EntityKind)
unfolding kinds_for
object_kinds_for p = kinds_for reference_object_kinds p

-- A missing key reads as the empty list.
unfoldable pub allows_subject_kind : String → EntityKind → Bool
unfolding subject_kinds_for
allows_subject_kind p k = elim (subject_kinds_for p) [
  | none ↦ false
  | some kinds ↦ EntityKind.member kinds k
]

unfoldable pub allows_object_kind : String → EntityKind → Bool
unfolding object_kinds_for
allows_object_kind p k = elim (object_kinds_for p) [
  | none ↦ false
  | some kinds ↦ EntityKind.member kinds k
]

unfoldable pub is_entity_reference : String → Bool
unfolding object_kinds_for
is_entity_reference p = elim (object_kinds_for p) [ none ↦ false | some kinds ↦ true ]

find_attribute : String → List Attribute → Option Attribute
unfolding attribute_predicate
find_attribute p [] = none
find_attribute p (a ∷ rest) =
    if str_eq (attribute_predicate a) p then some a else find_attribute p rest

-- The predicates of the attributes differ, so the order of the Go map does not matter.
unfoldable pub attribute_for_predicate : String → Option Attribute
unfolding find_attribute
attribute_for_predicate p = find_attribute p attributes

abbrev pub relations : List Relation
relations = allied_with ∷ hostile_to ∷ knows ∷ carries ∷ owes_debt ∷ []

names_relation : String → Option String → Bool
names_relation p none = false
names_relation p (some q) = str_eq q p

find_relation : String → List Relation → Option Relation
unfolding relation_predicate names_relation
find_relation p [] = none
find_relation p (r ∷ rest) =
    if names_relation p (relation_predicate r) then some r else find_relation p rest

unfoldable pub relation_for_predicate : String → Option Relation
unfolding find_relation
relation_for_predicate p = find_relation p relations

unfoldable pub is_multi_valued : String → Bool
unfolding relation_for_predicate
is_multi_valued p =
    contains
      (case_member_suspect ∷ case_member_evidence ∷ case_member_timeline
        ∷ evidence_reveal_kind_predicate ∷ evidence_reveal_target ∷ location_relation_connects_to
        ∷ [])
      p
    || elim (relation_for_predicate p) [ none ↦ false | some r ↦ true ]

-- `immutablePredicates`.
abbrev pub immutable_predicates : List String
immutable_predicates =
    case_solution_culprit ∷ case_solution_method ∷ case_solution_motive
    ∷ evidence_truth_status_current ∷ []

unfoldable pub is_protected_predicate : String → Bool
is_protected_predicate p = contains immutable_predicates p
