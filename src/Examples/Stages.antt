-- ===== src/Examples/Stages.antt =====
-- A turn whose dice are rolled, and one whose effects are applied without them; each trigger twice.
use semmachina.Prelude.{
  String, Bool, true, false, [], ◌∷◌, ◌≡◌, refl, sym, ap, ◌∙◌, ok-injective, ok,
}
use semmachina.Prelude.Int.{◌+ℤ◌}
use semmachina.Vocabulary.OutcomeBand.{OutcomeBand, auto, miss, partial, full}
use semmachina.Vocabulary.Rng.{pcg_v1}
use semmachina.Vocabulary.Plausibility.{plausible}
use semmachina.Vocabulary.Risk.{low}
use semmachina.Vocabulary.ConsequenceClass.{harm}
use semmachina.Vocabulary.Attributes.{engine_specs}
use semmachina.Vocabulary.Resolution.{two_d6}
use semmachina.Graph.{Object, text, int, Triple, full_confidence, EntityState, objects_for}
use semmachina.Graph.Memory.{Memory, memory, memory-IsLawful}
use semmachina.Graph.Targets.{turn_roll}
use semmachina.Payload.Verdicts.{Verdict, EffectBands}
use semmachina.Payload.RollResults.{RollResult, roll_triples}
use semmachina.Content.Ref.{Ref}
use semmachina.Content.Artifacts.{Artifacts}
use semmachina.Dice.Resolver.{Resolver, Resolution, resolve}
use semmachina.Stage.Entering.{Trigger}
use semmachina.Stage.Resolving.{run_resolving}
use semmachina.Stage.Applying.{committed_band, run_applying}
use semmachina.Stage.Apart.{IsApart}
use semmachina.Stage.Rerolled.{resolving_again}
use semmachina.Stage.Reapplied.{applying_again}
use semmachina.Examples.World.{ids, clock, turn_1, hero, stage_world, wound, sprint}
use semmachina.Examples.Rolls.{seed, random, campaign, strong}

abbrev verdict : Bool → EffectBands → Verdict
verdict gate bands = record {
  turn_id = "turn-a1";
  action_id = "a1";
  scene_id = "c.semmachina.w.t.scene.s1";
  scalars = record {
    plausibility = plausible;
    risk = low;
    consequence = harm;
    requires_roll = gate;
  };
  modifiers = strong;
  bands = bands;
  rationale = "a strong blow";
}

abbrev pub diced : Verdict
diced = verdict true ((miss, []) ∷ (partial, []) ∷ (full, []) ∷ [])

abbrev undiced : Verdict
undiced = verdict false ((auto, wound hero ∷ []) ∷ [])

-- Artifacts beside the graph: one verdict is read, and what is stored has a reference by its kind.
abbrev artifacts : Verdict → Artifacts Memory
artifacts v = record {
  get_verdict = λ q w. ok v;
  put_roll = λ id r w. (w, ok (record { instance_name = "store"; key = "turn/turn-a1/roll" }));
  put_effect_batch =
      λ id b w. (w, ok (record { instance_name = "store"; key = "turn/turn-a1/effects" }));
  put_failure_detail =
      λ id d w. (w, ok (record { instance_name = "store"; key = "turn/turn-a1/failure" }));
}

same_world :
    {A : Type 0} {w w' : Memory} {a b : A}
    → ◌≡◌ {A = Memory × A} (w, a) (w', b)
    → (j : String) → memory.get_entity w' j ≡ memory.get_entity w j
same_world h j = ap (λ r. memory.get_entity r.0 j) (sym h)

artifacts-IsApart : (v : Verdict) → IsApart memory (artifacts v)
artifacts-IsApart v = record {
  roll_graph = λ id r w w' ref h j. same_world h j;
  roll_verdicts = λ id r w w' ref h q. refl;
  batch_graph = λ id b w w' r h j. same_world h j;
  batch_verdicts = λ id b w w' r h q. refl;
  batch_named =
      λ id b w w' v v' ref again h k. ok-injective (ap (λ r. r.1) (sym k) ∙ ap (λ r. r.1) h);
  graph_verdicts = λ target id ts w w' h q. refl;
}

abbrev trigger : Trigger
trigger = record { turn_entity_id = turn_1; turn_id = "turn-a1"; subject = "stage" }

abbrev pub resolver : Resolver
resolver = record { roller = two_d6; campaign_id = campaign; seed = seed }

abbrev after_roll : Memory
after_roll =
    (run_resolving ids memory clock (artifacts diced) random resolver trigger stage_world).0

resolves :
    (run_resolving ids memory clock (artifacts diced) random resolver trigger stage_world).1 ≡ ok tt
unfolding run_resolving semmachina.Turn.Recorder.advance semmachina.Turn.Transition.advance_target
    semmachina.Turn.Recorder.transition semmachina.Turn.Transition.classify
    semmachina.Turn.Reads.phase_of semmachina.Vocabulary.TurnPhase.parse
    semmachina.Payload.TurnRecords.turn_state_triples
    semmachina.Payload.TurnRecords.validate_turn_state semmachina.Content.Ref.is_zero
    semmachina.Content.Ref.zero_ref semmachina.Content.Ref.to_string
    semmachina.Content.Ref.parse_ref semmachina.Content.Ref.validate
    semmachina.Payload.Projection.require_storage_ref semmachina.Payload.Text.cut_prefix
    semmachina.Payload.Text.cut_at semmachina.Payload.Text.contains_char
    semmachina.Stage.Entering.enter semmachina.Stage.Entering.read_turn engine_specs
    semmachina.Graph.Ids.validate_id_segment semmachina.Graph.Ids.require_entity_id
    semmachina.Graph.Ids.require_action_id semmachina.Graph.Ids.require_turn_entity_id objects_for
    semmachina.Payload.Projection.build semmachina.Graph.Targets.predicates_of resolve
    semmachina.Payload.Verdicts.validate_verdict semmachina.Vocabulary.Plausibility.parse
    semmachina.Vocabulary.Risk.parse semmachina.Vocabulary.ConsequenceClass.parse
    semmachina.Payload.Modifiers.validate_modifiers semmachina.Vocabulary.ModifierSource.parse ◌+ℤ◌
    semmachina.Vocabulary.OutcomeBand.parse semmachina.Vocabulary.Resolution.is_roll_band
    semmachina.Dice.Roller.roll semmachina.Payload.RollResults.validate_roll
    semmachina.Vocabulary.Resolution.mechanic_spec_for semmachina.Vocabulary.Rng.parse
    semmachina.Dice.Resolver.recorded_roll roll_triples
resolves = refl

resolving_again_example :
    run_resolving ids memory clock (artifacts diced) random resolver trigger after_roll
    ≡ (after_roll, ok tt)
resolving_again_example =
    resolving_again ids memory clock (artifacts diced) random resolver trigger stage_world
      after_roll memory-IsLawful (artifacts-IsApart diced) (ap (λ r. (after_roll, r)) resolves)

abbrev applied : Memory
applied =
    (run_applying ids memory clock (artifacts undiced) (λ c. true) (λ e. "refused") "entity" sprint
      engine_specs trigger stage_world).0

applies_turn :
    (run_applying ids memory clock
      (artifacts undiced)
      (λ c. true)
      (λ e. "refused")
      "entity"
      sprint
      engine_specs
      trigger
      stage_world).1
    ≡ ok tt
unfolding run_applying semmachina.Turn.Recorder.advance semmachina.Turn.Transition.advance_target
    semmachina.Turn.Recorder.transition semmachina.Turn.Transition.classify
    semmachina.Turn.Reads.phase_of semmachina.Vocabulary.TurnPhase.parse
    semmachina.Payload.TurnRecords.turn_state_triples
    semmachina.Payload.TurnRecords.validate_turn_state semmachina.Content.Ref.is_zero
    semmachina.Content.Ref.zero_ref semmachina.Content.Ref.to_string
    semmachina.Content.Ref.parse_ref semmachina.Content.Ref.validate
    semmachina.Payload.Projection.require_storage_ref semmachina.Payload.Text.cut_prefix
    semmachina.Payload.Text.cut_at semmachina.Payload.Text.contains_char
    semmachina.Stage.Entering.enter semmachina.Stage.Entering.read_turn engine_specs
    semmachina.Graph.Ids.validate_id_segment semmachina.Graph.Ids.require_entity_id
    semmachina.Graph.Ids.require_action_id semmachina.Graph.Ids.require_turn_entity_id objects_for
    semmachina.Payload.Projection.build semmachina.Graph.Targets.predicates_of
    semmachina.Stage.Applying.committed_band semmachina.Payload.Verdicts.for_band
    semmachina.Payload.EffectBatches.new_effect_batch semmachina.Effect.Applier.apply
    semmachina.Payload.EffectBatches.validate_batch semmachina.Vocabulary.OutcomeBand.parse
    semmachina.Payload.Effects.validate_intent semmachina.Vocabulary.EffectType.parse
    semmachina.Vocabulary.Status.parse semmachina.Effect.Applier.already_applied
    semmachina.Effect.Plan.build_plan semmachina.Payload.Effects.mutation
    semmachina.Vocabulary.World.is_protected_predicate
    semmachina.Vocabulary.World.attribute_for_predicate semmachina.Effect.Views.view
    semmachina.Vocabulary.World.allows_subject_kind semmachina.Vocabulary.World.is_entity_reference
    semmachina.Vocabulary.World.is_multi_valued semmachina.Vocabulary.World.relation_for_predicate
    semmachina.Effect.Writes.projections semmachina.Payload.EffectBatches.batch_triples
    semmachina.Effect.Fold.fold_value semmachina.Effect.Writes.effect_target_for_predicate
    semmachina.Stage.Resolving.verdict_of
applies_turn = refl

applying_again_example :
    memory.get_entity
      (run_applying ids memory clock
        (artifacts undiced)
        (λ c. true)
        (λ e. "refused")
        "entity"
        sprint
        engine_specs
        trigger
        applied).0
      hero
    ≡ memory.get_entity applied hero
applying_again_example =
    applying_again ids memory clock (artifacts undiced) (λ c. true) (λ e. "refused") "entity" sprint
      engine_specs trigger memory-IsLawful (artifacts-IsApart undiced) stage_world applied
      (ap (λ r. (applied, r)) applies_turn) hero
