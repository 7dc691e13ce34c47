-- ===== src/Examples/Effects.antt =====
-- A batch that wounds a hero, and one that names nobody.
use semmachina.Prelude.{
  String, true, false, none, some, [], ◌∷◌, ◌≡◌, refl, ap, ◌⊎◌, inl, ok, err, All,
}
use semmachina.Vocabulary.OutcomeBand.{auto}
use semmachina.Vocabulary.Status
use semmachina.Vocabulary.EffectType.{set_status}
use semmachina.Vocabulary.Attributes.{engine_specs}
use semmachina.Vocabulary.Predicates.{
  world_entity_kind, character_status_current, turn_phase_current,
}
use semmachina.Graph.{Object, text, Triple, objects_for}
use semmachina.Graph.Laws.{objects_at}
use semmachina.Graph.Memory.{Memory, memory, memory-IsLawful}
use semmachina.Payload.Effects.{EffectIntent}
use semmachina.Payload.EffectBatches.{EffectBatch, new_effect_batch}
use semmachina.Effect.Fold.{TargetWrite}
use semmachina.Effect.Plan.{Plan, Rejection, build_plan}
use semmachina.Effect.Applier.{Applied, ApplyError, rejected, apply}
use semmachina.Effect.Views.{entity_missing}
use semmachina.Effect.Rejected.{IsIncomplete, rejection_writes_nothing}
use semmachina.Effect.Marker.{apply_again}
use semmachina.Effect.Frame.{apply_keeps_others, apply_keeps_facts}
use semmachina.Stage.Committing.{phase-Outside}
use semmachina.Effect.Sanctioned.{AreSanctioned, plan_is_sanctioned}
use semmachina.Examples.World.{ids, clock, turn_1, player, fact, hero, stage_world, wound, sprint}

abbrev batch : EffectBatch
batch = record {
  batch_id = "batch-turn-a1";
  turn_id = "turn-a1";
  band = auto;
  intents = wound hero ∷ [];
}

abbrev idle_batch : EffectBatch
idle_batch = record {
  batch_id = "batch-turn-a1";
  turn_id = "turn-a1";
  band = auto;
  intents = wound "nobody" ∷ [];
}

abbrev ref : String
ref = "obj://store/turn/turn-a1/effects"

abbrev wounded : Memory
wounded = (apply ids memory clock "entity" sprint engine_specs batch turn_1 ref stage_world).0

abbrev done : Applied
done = record { batch_id = "batch-turn-a1"; applied = true; targets = hero ∷ [] }

applies :
    (apply ids memory clock "entity" sprint engine_specs batch turn_1 ref stage_world).1 ≡ ok done
unfolding apply engine_specs semmachina.Payload.EffectBatches.validate_batch
    semmachina.Graph.Ids.validate_id_segment semmachina.Vocabulary.OutcomeBand.parse
    semmachina.Payload.Effects.validate_intent semmachina.Vocabulary.EffectType.parse
    semmachina.Graph.Ids.require_entity_id Status.parse semmachina.Graph.Ids.require_turn_entity_id
    semmachina.Effect.Applier.already_applied objects_for build_plan
    semmachina.Payload.Effects.mutation semmachina.Vocabulary.World.is_protected_predicate
    semmachina.Vocabulary.World.attribute_for_predicate semmachina.Effect.Views.view
    semmachina.Vocabulary.World.allows_subject_kind semmachina.Vocabulary.World.is_entity_reference
    semmachina.Vocabulary.World.is_multi_valued semmachina.Vocabulary.World.relation_for_predicate
    semmachina.Effect.Writes.projections semmachina.Payload.EffectBatches.batch_triples
    semmachina.Payload.Projection.build semmachina.Graph.Targets.predicates_of
    semmachina.Effect.Fold.fold_value semmachina.Effect.Writes.effect_target_for_predicate
applies = refl

is_wounded : objects_at memory wounded hero character_status_current ≡ text "wounded" ∷ []
unfolding apply engine_specs semmachina.Payload.EffectBatches.validate_batch
    semmachina.Graph.Ids.validate_id_segment semmachina.Vocabulary.OutcomeBand.parse
    semmachina.Payload.Effects.validate_intent semmachina.Vocabulary.EffectType.parse
    semmachina.Graph.Ids.require_entity_id Status.parse semmachina.Graph.Ids.require_turn_entity_id
    semmachina.Effect.Applier.already_applied objects_for build_plan
    semmachina.Payload.Effects.mutation semmachina.Vocabulary.World.is_protected_predicate
    semmachina.Vocabulary.World.attribute_for_predicate semmachina.Effect.Views.view
    semmachina.Vocabulary.World.allows_subject_kind semmachina.Vocabulary.World.is_entity_reference
    semmachina.Vocabulary.World.is_multi_valued semmachina.Vocabulary.World.relation_for_predicate
    semmachina.Effect.Writes.projections semmachina.Payload.EffectBatches.batch_triples
    semmachina.Payload.Projection.build semmachina.Graph.Targets.predicates_of
    semmachina.Effect.Fold.fold_value semmachina.Effect.Writes.effect_target_for_predicate
is_wounded = refl

apply_again_example :
    apply ids memory clock "entity" sprint engine_specs batch turn_1 ref wounded
    ≡ (wounded, ok (record { batch_id = "batch-turn-a1"; applied = false; targets = [] }))
apply_again_example =
    apply_again ids memory clock memory-IsLawful "entity" sprint engine_specs batch turn_1 ref
      stage_world wounded done (ap (λ r. (wounded, r)) applies)

apply_keeps_others_example :
    objects_at memory wounded player turn_phase_current
    ≡ objects_at memory stage_world player turn_phase_current
apply_keeps_others_example =
    apply_keeps_others ids memory clock memory-IsLawful "entity" sprint engine_specs batch turn_1
      ref stage_world wounded done player turn_phase_current (ap (λ r. (wounded, r)) applies) refl
      (inl refl)

abbrev nobody : Rejection
nobody = record {
  index = 0;
  kind = set_status;
  target = "nobody";
  violation = entity_missing "nobody";
}

refuses :
    apply ids memory clock "entity" sprint engine_specs idle_batch turn_1 ref stage_world
    ≡ (stage_world, err (rejected nobody))
unfolding apply engine_specs semmachina.Payload.EffectBatches.validate_batch
    semmachina.Graph.Ids.validate_id_segment semmachina.Vocabulary.OutcomeBand.parse
    semmachina.Payload.Effects.validate_intent semmachina.Vocabulary.EffectType.parse
    semmachina.Graph.Ids.require_entity_id Status.parse semmachina.Graph.Ids.require_turn_entity_id
    semmachina.Effect.Applier.already_applied objects_for build_plan
    semmachina.Payload.Effects.mutation semmachina.Vocabulary.World.is_protected_predicate
    semmachina.Vocabulary.World.attribute_for_predicate semmachina.Effect.Views.view
    semmachina.Vocabulary.World.allows_subject_kind semmachina.Vocabulary.World.is_entity_reference
    semmachina.Vocabulary.World.is_multi_valued semmachina.Vocabulary.World.relation_for_predicate
    semmachina.Effect.Writes.projections semmachina.Payload.EffectBatches.batch_triples
    semmachina.Payload.Projection.build semmachina.Graph.Targets.predicates_of
    semmachina.Effect.Fold.fold_value semmachina.Effect.Writes.effect_target_for_predicate
refuses = refl

rejection_writes_nothing_example : (stage_world ≡ stage_world) ⊎ IsIncomplete (rejected nobody)
rejection_writes_nothing_example =
    rejection_writes_nothing ids memory clock "entity" sprint engine_specs idle_batch turn_1 ref
      stage_world stage_world (rejected nobody) refuses

abbrev planned : Plan
planned =
    record {
      entity_id = hero;
      resident =
          some
            (record { id = hero; triples = fact hero world_entity_kind (text "character") ∷ [] });
      writes =
          record {
            predicate = character_status_current;
            objects = record { object = text "wounded"; resident = none } ∷ [];
            reference = false;
            multi = false;
            named = "wounded" ∷ [];
          }
          ∷ [];
    }
    ∷ []

plans : build_plan ids memory sprint engine_specs stage_world (wound hero ∷ []) ≡ ok planned
unfolding engine_specs semmachina.Graph.Ids.validate_id_segment
    semmachina.Payload.Effects.validate_intent semmachina.Vocabulary.EffectType.parse
    semmachina.Graph.Ids.require_entity_id Status.parse objects_for build_plan
    semmachina.Payload.Effects.mutation semmachina.Vocabulary.World.is_protected_predicate
    semmachina.Vocabulary.World.attribute_for_predicate semmachina.Effect.Views.view
    semmachina.Vocabulary.World.allows_subject_kind semmachina.Vocabulary.World.is_entity_reference
    semmachina.Vocabulary.World.is_multi_valued semmachina.Effect.Fold.fold_value
plans = refl

plan_is_sanctioned_example : All (AreSanctioned ids memory sprint engine_specs stage_world) planned
plan_is_sanctioned_example =
    plan_is_sanctioned ids memory sprint engine_specs stage_world (wound hero ∷ []) planned plans

apply_keeps_facts_example :
    objects_at memory wounded turn_1 turn_phase_current
    ≡ objects_at memory stage_world turn_1 turn_phase_current
apply_keeps_facts_example =
    apply_keeps_facts ids memory clock memory-IsLawful "entity" sprint engine_specs batch turn_1 ref
      stage_world wounded done turn_1 turn_phase_current (ap (λ r. (wounded, r)) applies)
      phase-Outside
