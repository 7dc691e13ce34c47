-- ===== src/Vocabulary/Predicates.antt =====
-- internal/vocabulary/predicates.go: the predicates that the modelled components read and write.
use semmachina.Prelude.{String}

abbrev pub turn_phase_current : String
turn_phase_current = "turn.phase.current"

abbrev pub turn_action_ref : String
turn_action_ref = "turn.action.ref"

abbrev pub turn_action_player : String
turn_action_player = "turn.action.player"

abbrev pub turn_action_scene : String
turn_action_scene = "turn.action.scene"

abbrev pub turn_case_decision_ref : String
turn_case_decision_ref = "turn.case-decision.ref"

abbrev pub turn_case_decision_kind : String
turn_case_decision_kind = "turn.case-decision.kind"

abbrev pub turn_companion_trigger_kind : String
turn_companion_trigger_kind = "turn.companion.trigger-kind"

abbrev pub turn_companion_trigger_source : String
turn_companion_trigger_source = "turn.companion.trigger-source"

abbrev pub turn_knowledge_ref : String
turn_knowledge_ref = "turn.knowledge.ref"

abbrev pub turn_accusation_ref : String
turn_accusation_ref = "turn.accusation.ref"

abbrev pub turn_case_progress_ref : String
turn_case_progress_ref = "turn.case-progress.ref"

abbrev pub turn_verdict_plausibility : String
turn_verdict_plausibility = "turn.verdict.plausibility"

abbrev pub turn_verdict_risk : String
turn_verdict_risk = "turn.verdict.risk"

abbrev pub turn_verdict_consequence : String
turn_verdict_consequence = "turn.verdict.consequence"

abbrev pub turn_verdict_requires_roll : String
turn_verdict_requires_roll = "turn.verdict.requires-roll"

abbrev pub turn_verdict_ref : String
turn_verdict_ref = "turn.verdict.ref"

abbrev pub turn_roll_band : String
turn_roll_band = "turn.roll.band"

abbrev pub turn_roll_total : String
turn_roll_total = "turn.roll.total"

abbrev pub turn_roll_ref : String
turn_roll_ref = "turn.roll.ref"

abbrev pub turn_effects_batch : String
turn_effects_batch = "turn.effects.batch"

abbrev pub turn_effects_ref : String
turn_effects_ref = "turn.effects.ref"

abbrev pub turn_narration_ref : String
turn_narration_ref = "turn.narration.ref"

abbrev pub turn_resume_attempts : String
turn_resume_attempts = "turn.resume.attempts"

abbrev pub turn_failure_reason : String
turn_failure_reason = "turn.failure.reason"

abbrev pub turn_failure_ref : String
turn_failure_ref = "turn.failure.ref"

abbrev pub world_entity_name : String
world_entity_name = "world.entity.name"

abbrev pub world_entity_kind : String
world_entity_kind = "world.entity.kind"

abbrev pub world_entity_description : String
world_entity_description = "world.entity.description"

abbrev pub player_character_current : String
player_character_current = "player.character.current"

abbrev pub player_turn_current : String
player_turn_current = "player.turn.current"

abbrev pub player_turn_resolved : String
player_turn_resolved = "player.turn.resolved"

abbrev pub character_status_current : String
character_status_current = "character.status.current"

abbrev pub world_location_current : String
world_location_current = "world.location.current"

abbrev pub scene_location_current : String
scene_location_current = "scene.location.current"

abbrev pub character_attribute_health : String
character_attribute_health = "character.attribute.health"

abbrev pub character_attribute_stamina : String
character_attribute_stamina = "character.attribute.stamina"

abbrev pub character_attribute_resolve : String
character_attribute_resolve = "character.attribute.resolve"

abbrev pub item_attribute_quantity : String
item_attribute_quantity = "item.attribute.quantity"

abbrev pub scene_attribute_tension : String
scene_attribute_tension = "scene.attribute.tension"

abbrev pub world_relation_allied_with : String
world_relation_allied_with = "world.relation.allied-with"

abbrev pub world_relation_hostile_to : String
world_relation_hostile_to = "world.relation.hostile-to"

abbrev pub world_relation_knows : String
world_relation_knows = "world.relation.knows"

abbrev pub world_relation_carries : String
world_relation_carries = "world.relation.carries"

abbrev pub world_relation_owes_debt : String
world_relation_owes_debt = "world.relation.owes-debt"

abbrev pub case_member_victim : String
case_member_victim = "case.member.victim"

abbrev pub case_lifecycle_phase : String
case_lifecycle_phase = "case.lifecycle.phase"

abbrev pub case_lifecycle_event_id : String
case_lifecycle_event_id = "case.lifecycle.event-id"

abbrev pub case_lifecycle_event_kind_predicate : String
case_lifecycle_event_kind_predicate = "case.lifecycle.event-kind"

abbrev pub case_lifecycle_from_phase : String
case_lifecycle_from_phase = "case.lifecycle.from-phase"

abbrev pub case_lifecycle_to_phase : String
case_lifecycle_to_phase = "case.lifecycle.to-phase"

abbrev pub case_solution_culprit : String
case_solution_culprit = "case.solution.culprit"

abbrev pub case_solution_method : String
case_solution_method = "case.solution.method"

abbrev pub case_solution_motive : String
case_solution_motive = "case.solution.motive"

abbrev pub evidence_truth_status_current : String
evidence_truth_status_current = "evidence.truth.status"

abbrev pub turn_companion_decision_ref : String
turn_companion_decision_ref = "turn.companion-decision.ref"

abbrev pub turn_companion_stage_ref : String
turn_companion_stage_ref = "turn.companion-stage.ref"

abbrev pub campaign_seed_value : String
campaign_seed_value = "campaign.seed.value"

abbrev pub campaign_experience_persona_pack : String
campaign_experience_persona_pack = "campaign.experience.persona-pack"

abbrev pub campaign_experience_mechanics_pack : String
campaign_experience_mechanics_pack = "campaign.experience.mechanics-pack"

abbrev pub campaign_import_completed : String
campaign_import_completed = "campaign.import.completed"

abbrev pub location_relation_connects_to : String
location_relation_connects_to = "location.relation.connects-to"

abbrev pub geo_location_latitude : String
geo_location_latitude = "geo.location.latitude"

abbrev pub geo_location_longitude : String
geo_location_longitude = "geo.location.longitude"

abbrev pub case_requirement_suspects : String
case_requirement_suspects = "case.requirement.suspects"

abbrev pub case_requirement_evidence : String
case_requirement_evidence = "case.requirement.evidence"

abbrev pub case_member_suspect : String
case_member_suspect = "case.member.suspect"

abbrev pub case_member_evidence : String
case_member_evidence = "case.member.evidence"

abbrev pub case_member_timeline : String
case_member_timeline = "case.member.timeline"

abbrev pub case_timeline_order : String
case_timeline_order = "case.timeline.order"

abbrev pub case_lifecycle_event_i_d : String
case_lifecycle_event_i_d = "case.lifecycle.event-id"

abbrev pub case_transition_source : String
case_transition_source = "case.transition.source"

abbrev pub case_transition_at : String
case_transition_at = "case.transition.at"

abbrev pub case_transition_from : String
case_transition_from = "case.transition.from"

abbrev pub evidence_reveal_phase : String
evidence_reveal_phase = "evidence.reveal.phase"

abbrev pub evidence_reveal_kind_predicate : String
evidence_reveal_kind_predicate = "evidence.reveal.kind"

abbrev pub evidence_reveal_target : String
evidence_reveal_target = "evidence.reveal.target"

abbrev pub belief_actor_holder : String
belief_actor_holder = "belief.actor.holder"

abbrev pub belief_evidence_ref : String
belief_evidence_ref = "belief.evidence.target"

abbrev pub belief_stance_current : String
belief_stance_current = "belief.stance.current"

abbrev pub knowledge_actor_holder : String
knowledge_actor_holder = "knowledge.actor.holder"

abbrev pub knowledge_evidence_ref : String
knowledge_evidence_ref = "knowledge.evidence.target"

abbrev pub revelation_evidence_ref : String
revelation_evidence_ref = "revelation.evidence.target"

abbrev pub revelation_actor_holder : String
revelation_actor_holder = "revelation.actor.holder"

abbrev pub revelation_turn_i_d : String
revelation_turn_i_d = "revelation.turn.id"

abbrev pub revelation_source_actor : String
revelation_source_actor = "revelation.source.actor"

abbrev pub revelation_testimony_ref : String
revelation_testimony_ref = "revelation.testimony.ref"

abbrev pub companion_candidate_policy : String
companion_candidate_policy = "companion.candidate.policy"

abbrev pub companion_bond_player : String
companion_bond_player = "companion.bond.player"

abbrev pub companion_bond_character : String
companion_bond_character = "companion.bond.character"

abbrev pub companion_bond_policy : String
companion_bond_policy = "companion.bond.policy"

abbrev pub companion_bond_hint_level : String
companion_bond_hint_level = "companion.bond.hint-level"
