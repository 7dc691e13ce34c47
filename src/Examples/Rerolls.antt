-- ===== src/Examples/Rerolls.antt =====
-- The band that a rolled turn commits, and a turn that is asked for its roll again.
use semmachina.Prelude.{
  String, true, false, if◌then◌else◌, none, some, List, [], ◌∷◌, ◌≡◌, refl, ◌↔◌, ok, str_eq,
}
use semmachina.Prelude.Int.{pos, ◌+ℤ◌}
use semmachina.Vocabulary.OutcomeBand.{OutcomeBand, auto, miss, partial, full}
use semmachina.Vocabulary.Mechanic.{two_d6_pbta_v1}
use semmachina.Vocabulary.Rng.{pcg_v1}
use semmachina.Vocabulary.Plausibility.{plausible}
use semmachina.Vocabulary.Risk.{low}
use semmachina.Vocabulary.ConsequenceClass.{harm}
use semmachina.Vocabulary.Resolution.{two_d6}
use semmachina.Vocabulary.Predicates.{turn_roll_band, turn_roll_total, turn_roll_ref}
use semmachina.Graph.{Object, text, int, Triple, full_confidence, EntityState, objects_for}
use semmachina.Graph.Memory.{Memory, memory, memory-IsLawful}
use semmachina.Graph.Targets.{turn_roll}
use semmachina.Payload.Verdicts.{Verdict, EffectBands}
use semmachina.Payload.RollResults.{RollResult, roll_triples}
use semmachina.Dice.Resolver.{Resolver, Resolution, resolve}
use semmachina.Dice.OneRoll.{one_roll_per_turn}
use semmachina.Stage.Applying.{committed_band}
use semmachina.Stage.Bands.{Selects, committed_band_iff}
use semmachina.Examples.World.{ids, turn_1, fact}
use semmachina.Examples.Rolls.{random, campaign, strong}
use semmachina.Examples.Stages.{diced, resolver}

abbrev rolled_state : EntityState
rolled_state = record { id = turn_1; triples = fact turn_1 turn_roll_band (text "partial") ∷ [] }

committed_band_iff_example :
    (committed_band rolled_state diced ≡ ok partial)
    ↔ Selects true (objects_for rolled_state.triples turn_roll_band) partial
committed_band_iff_example = committed_band_iff rolled_state diced partial

abbrev bare : Memory
bare id = if str_eq id turn_1 then some [] else none

-- The roll of the turn: four and six, and one.
abbrev first_roll : RollResult
first_roll = record {
  turn_id = "turn-a1";
  mechanic = two_d6_pbta_v1;
  rng_version = pcg_v1;
  seed = record { campaign_id = campaign; turn_id = "turn-a1" };
  dice = pos 4 ∷ pos 6 ∷ [];
  modifiers = strong;
  modifier_total = pos 1;
  total = pos 11;
  band = full;
}

abbrev roll_fact : String → Object → Triple
roll_fact p object = record {
  subject = turn_1;
  predicate = p;
  object = object;
  source = "turn-stage";
  timestamp = 7;
  confidence = full_confidence;
  context = "turn-a1";
  datatype = "";
}

abbrev resolution : Resolution
resolution = record { roll = first_roll; rolled = true }

answers : resolve ids random memory resolver diced turn_1 bare ≡ ok resolution
unfolding resolve semmachina.Payload.Verdicts.validate_verdict
    semmachina.Vocabulary.Plausibility.parse semmachina.Vocabulary.Risk.parse
    semmachina.Vocabulary.ConsequenceClass.parse semmachina.Payload.Modifiers.validate_modifiers
    semmachina.Vocabulary.ModifierSource.parse ◌+ℤ◌ semmachina.Vocabulary.OutcomeBand.parse
    semmachina.Vocabulary.Resolution.is_roll_band semmachina.Dice.Roller.roll
    semmachina.Payload.RollResults.validate_roll semmachina.Vocabulary.Resolution.mechanic_spec_for
    semmachina.Vocabulary.Rng.parse semmachina.Dice.Resolver.recorded_roll
    semmachina.Graph.Ids.validate_id_segment semmachina.Graph.Ids.require_entity_id
    semmachina.Graph.Ids.require_action_id semmachina.Graph.Ids.require_turn_entity_id objects_for
answers = refl

abbrev roll_facts : List Triple
roll_facts =
    roll_fact turn_roll_band (text "full")
    ∷ roll_fact turn_roll_total (int (pos 11))
    ∷ roll_fact turn_roll_ref (text "obj://store/turn/turn-a1/roll")
    ∷ []

projects :
    roll_triples ids first_roll turn_1 "obj://store/turn/turn-a1/roll" "turn-stage" 7
    ≡ ok roll_facts
unfolding roll_triples semmachina.Payload.Projection.build
    semmachina.Payload.Projection.require_storage_ref semmachina.Payload.Text.cut_prefix
    semmachina.Payload.Text.cut_at semmachina.Payload.Modifiers.validate_modifiers
    semmachina.Vocabulary.ModifierSource.parse ◌+ℤ◌ semmachina.Vocabulary.OutcomeBand.parse
    semmachina.Vocabulary.Resolution.is_roll_band semmachina.Payload.RollResults.validate_roll
    semmachina.Vocabulary.Resolution.mechanic_spec_for semmachina.Vocabulary.Rng.parse
    semmachina.Graph.Ids.validate_id_segment semmachina.Graph.Ids.require_entity_id
    semmachina.Graph.Ids.require_turn_entity_id
projects = refl

one_roll_per_turn_example :
    resolve ids random memory resolver diced turn_1
      (memory.reconcile bare turn_roll turn_1 roll_facts).0
    ≡ ok (record { roll = first_roll; rolled = false })
one_roll_per_turn_example =
    one_roll_per_turn ids random memory resolver diced turn_1 memory-IsLawful bare bare
      (memory.reconcile bare turn_roll turn_1 roll_facts).0 resolution "turn-stage"
      "obj://store/turn/turn-a1/roll" 7 roll_facts answers projects refl refl
