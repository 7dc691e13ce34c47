-- ===== src/Examples/Payloads.antt =====
-- References, action ids, projections and effect intents.
use semmachina.Prelude.{String, true, false, some, List, [], ◌∷◌, ◌++◌, ◌≡◌, refl, ok, All}
use semmachina.Prelude.Int.{pos}
use semmachina.Vocabulary.EffectType.{set_attribute}
use semmachina.Vocabulary.Attribute
use semmachina.Vocabulary.Status
use semmachina.Vocabulary.Relation
use semmachina.Vocabulary.TurnPhase.{interpreting}
use semmachina.Vocabulary.Predicates.{turn_phase_current}
use semmachina.Graph.{Object, Triple, objects_for}
use semmachina.Content.Ref
use semmachina.Content.Ref.{Ref, parse_ref, parse_ref-to_string}
use semmachina.Payload.PlayerAction.{
  turn_id_for_action, action_id_for_turn, action_id_for_turn-turn_id_for_action,
}
use semmachina.Payload.TurnRecords.{TurnState, validate_turn_state}
use semmachina.Payload.Projection.{TripleProjection, build}
use semmachina.Payload.Written.{IsOf, scalar_objects, ref_objects, build-objects, build-IsOf}
use semmachina.Payload.Effects.{EffectIntent, validate_intent, mutation}
use semmachina.Payload.Mutations.{Fits, validated_intent_mutates}
use semmachina.Examples.World.{ids, turn_1, player}

abbrev stored : Ref
stored = record { instance_name = "actions"; key = "a/1" }

stored_validates : Ref.validate ids stored ≡ ok tt
unfolding Ref.validate semmachina.Payload.Text.contains_char
stored_validates = refl

parse_ref-to_string_example : parse_ref ids (Ref.to_string stored) ≡ ok stored
parse_ref-to_string_example = parse_ref-to_string ids stored stored_validates

action_id_fits : semmachina.Graph.Ids.require_action_id ids "a1" ≡ ok tt
unfolding semmachina.Graph.Ids.require_action_id
action_id_fits = refl

turn_id_fits : semmachina.Graph.Ids.validate_id_segment ids (turn_id_for_action "a1") ≡ ok tt
unfolding semmachina.Graph.Ids.validate_id_segment turn_id_for_action
turn_id_fits = refl

action_id_for_turn-turn_id_for_action_example :
    action_id_for_turn ids (turn_id_for_action "a1") ≡ ok "a1"
action_id_for_turn-turn_id_for_action_example =
    action_id_for_turn-turn_id_for_action ids "a1" action_id_fits turn_id_fits

abbrev state : TurnState
state = record {
  turn_id = "turn-a1";
  phase = interpreting;
  player_id = "";
  scene_id = "";
  action_ref = "";
  reason = "";
  detail_ref = "";
}

abbrev projection : TripleProjection
projection = record {
  subject = turn_1;
  turn_id = "turn-a1";
  player_subject = "";
  source = "turn-recorder";
  at = 7;
  registered = turn_phase_current ∷ [];
  objects = (turn_phase_current, Object.text "interpreting") ∷ [];
  ref_predicate = "";
  ref_name = "";
  ref = "";
  refless = true;
  scalarless = false;
}

abbrev interpreting_triples : List Triple
interpreting_triples =
    record {
      subject = turn_1;
      predicate = turn_phase_current;
      object = Object.text "interpreting";
      source = "turn-recorder";
      timestamp = 7;
      confidence = semmachina.Graph.full_confidence;
      context = "turn-a1";
      datatype = "";
    }
    ∷ []

builds : build ids projection (validate_turn_state ids state) ≡ ok interpreting_triples
unfolding build validate_turn_state semmachina.Graph.Ids.validate_id_segment
    semmachina.Vocabulary.TurnPhase.parse semmachina.Graph.Ids.require_turn_entity_id
builds = refl

build-objects_example :
    objects_for interpreting_triples turn_phase_current
    ≡ scalar_objects projection.objects projection.registered turn_phase_current
      ++ ref_objects projection turn_phase_current
build-objects_example =
    build-objects ids projection (validate_turn_state ids state) interpreting_triples
      turn_phase_current builds

build-IsOf_example : All (IsOf projection) interpreting_triples
build-IsOf_example =
    build-IsOf ids projection (validate_turn_state ids state) interpreting_triples builds

abbrev wound : EffectIntent
wound = record {
  kind = set_attribute;
  target = player;
  attribute = Attribute.health;
  value = some (pos 3);
  status = Status.foreign "";
  location = "";
  relation = Relation.foreign "";
  object = "";
}

wound_validates : validate_intent ids wound ≡ ok tt
unfolding validate_intent semmachina.Vocabulary.EffectType.parse
    semmachina.Graph.Ids.require_entity_id semmachina.Vocabulary.Attributes.spec_of
    semmachina.Vocabulary.Attributes.bounds_of
wound_validates = refl

validated_intent_mutates_example :
    (p : String) × (o : Object) × (mutation ids wound ≡ ok (p, o)) × Fits ids wound p o
validated_intent_mutates_example = validated_intent_mutates ids wound wound_validates
