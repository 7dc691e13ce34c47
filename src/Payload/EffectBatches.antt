-- ===== src/Payload/EffectBatches.antt =====
-- internal/payload/effectbatch.go: the effects of one turn, their validation and the marker that
-- records that they were applied.
use Prim.Native.String.{◌++◌ as ◌+++◌}
use semmachina.Prelude.{
  ℕ, suc, String, false, if◌then◌else◌, List, [], ◌∷◌, str_eq, Result, ok, ◌>>=◌, ◌>>◌, guard, wrap,
}
use semmachina.Vocabulary.Kinds.{UnknownValue}
use semmachina.Vocabulary.OutcomeBand
use semmachina.Vocabulary.Predicates.{turn_effects_batch, turn_effects_ref}
use semmachina.Graph.{text, Triple}
use semmachina.Graph.Ids.{IdRules, IdError, validate_id_segment}
use semmachina.Payload.Projection.{ProjectionError, TripleProjection, build}
use semmachina.Payload.Effects.{EffectIntent, EffectError, validate_intent}

pub record EffectBatch : Type 0 where
  pub batch_id : String
  pub turn_id : String
  pub band : OutcomeBand.OutcomeBand
  pub intents : List EffectIntent

pub data BatchError : Type 0 where
  batch_turn : IdError → BatchError
  id_not_derived : BatchError
  band_unknown : UnknownValue → BatchError
  intent_invalid : ℕ → EffectError → BatchError

unfoldable pub batch_id_for_turn : String → String
batch_id_for_turn turn_id = if str_eq turn_id "" then "" else "batch-" +++ turn_id

unfoldable pub new_effect_batch : String → OutcomeBand.OutcomeBand → List EffectIntent → EffectBatch
unfolding batch_id_for_turn
new_effect_batch turn_id band intents = record {
  batch_id = batch_id_for_turn turn_id;
  turn_id = turn_id;
  band = band;
  intents = intents;
}

-- The loop over the intents, from an index.
validate_intents : IdRules → ℕ → List EffectIntent → Result BatchError (Unit {0})
validate_intents ids i [] = ok tt
validate_intents ids i (intent ∷ rest) =
    wrap (intent_invalid i) (validate_intent ids intent) >> validate_intents ids (suc i) rest

unfoldable pub validate_batch : IdRules → EffectBatch → Result BatchError (Unit {0})
unfolding validate_intents batch_id_for_turn
validate_batch ids b = do
  wrap batch_turn (validate_id_segment ids b.turn_id)
  guard (str_eq b.batch_id (batch_id_for_turn b.turn_id)) id_not_derived
  band ← wrap band_unknown (OutcomeBand.parse (OutcomeBand.to_string b.band))
  validate_intents ids 0 b.intents

unfoldable pub batch_projection : EffectBatch → String → String → String → ℕ → TripleProjection
batch_projection b turn_entity_id batch_ref source at = record {
  subject = turn_entity_id;
  turn_id = b.turn_id;
  player_subject = "";
  source = source;
  at = at;
  registered = turn_effects_batch ∷ [];
  objects = (turn_effects_batch, text b.batch_id) ∷ [];
  ref_predicate = turn_effects_ref;
  ref_name = "effect batch ref";
  ref = batch_ref;
  refless = false;
  scalarless = false;
}

-- `EffectBatch.Triples`.
unfoldable pub batch_triples :
    IdRules
    → EffectBatch
    → String
    → String
    → String
    → ℕ
    → Result (ProjectionError BatchError) (List Triple)
unfolding batch_projection
batch_triples ids b turn_entity_id batch_ref source at =
    build ids (batch_projection b turn_entity_id batch_ref source at) (validate_batch ids b)
