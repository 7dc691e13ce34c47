-- ===== src/Payload/Verdicts.antt =====
-- internal/payload/verdict.go: the adjudicator's verdict on one turn, its validation, its bands of
-- effect intents and its triples.
use semmachina.Prelude.{
  ℕ, suc, ◌*◌, String, Bool, false, not, if◌then◌else◌, Option, none, some, List, [], ◌∷◌, length,
  ltb, len, ◌==◌, Result, ok, err, ◌>>=◌, ◌>>◌, guard, wrap,
}
use semmachina.Vocabulary.Kinds.{UnknownValue}
use semmachina.Vocabulary.Plausibility
use semmachina.Vocabulary.Risk
use semmachina.Vocabulary.ConsequenceClass
use semmachina.Vocabulary.OutcomeBand
use semmachina.Vocabulary.OutcomeBand.{OutcomeBand}
use semmachina.Vocabulary.RollGateMapping.{RollGateMapping, roll_gate_v1}
use semmachina.Vocabulary.Resolution.{advise_roll_gate, requires_roll, bands_for_verdict}
use semmachina.Vocabulary.Predicates.{
  turn_verdict_plausibility, turn_verdict_risk, turn_verdict_consequence,
  turn_verdict_requires_roll, turn_verdict_ref,
}
use semmachina.Graph.{text, boolean, Triple}
use semmachina.Graph.Ids.{
  IdRules, IdError, validate_id_segment, require_action_id, require_entity_id,
}
use semmachina.Payload.Projection.{ProjectionError, TripleProjection, build}
use semmachina.Payload.Modifiers.{Modifier, ModifierError, validate_modifiers}
use semmachina.Payload.Effects.{EffectIntent, EffectError, validate_intent}

abbrev pub max_rationale_bytes : ℕ
max_rationale_bytes = 2 * 1024

pub record VerdictScalars : Type 0 where
  pub plausibility : Plausibility.Plausibility
  pub risk : Risk.Risk
  pub consequence : ConsequenceClass.ConsequenceClass
  pub requires_roll : Bool

pub record RollGateExpectation : Type 0 where
  pub plausibility : Plausibility.Plausibility
  pub risk : Risk.Risk
  pub reported : Bool
  pub advised : Bool
  pub mapping : RollGateMapping

-- The map from bands, as the list of its entries; its keys are distinct.
abbrev pub EffectBands : Type 0
EffectBands = List (OutcomeBand × List EffectIntent)

pub record Verdict : Type 0 where
  pub turn_id : String
  pub action_id : String
  pub scene_id : String
  pub scalars : VerdictScalars
  pub modifiers : List Modifier
  pub bands : EffectBands
  pub rationale : String

pub data VerdictError : Type 0 where
  bad_id : IdError → VerdictError
  unknown : UnknownValue → VerdictError
  bad_modifiers : ModifierError → VerdictError
  rationale_too_long advice_differs : VerdictError
  band_count : ℕ → VerdictError
  band_missing : OutcomeBand → VerdictError
  band_intent : OutcomeBand → ℕ → EffectError → VerdictError

unfoldable pub validate_scalars : VerdictScalars → Result VerdictError (Unit {0})
validate_scalars s = do
  p ← wrap unknown (Plausibility.parse (Plausibility.to_string s.plausibility))
  r ← wrap unknown (Risk.parse (Risk.to_string s.risk))
  c ← wrap unknown (ConsequenceClass.parse (ConsequenceClass.to_string s.consequence))
  ok tt

abbrev same_bool : Bool → Bool → Bool
same_bool a b = if a then b else not b

abbrev pub agrees : RollGateExpectation → Bool
agrees e = same_bool e.reported e.advised

unfoldable pub validate_expectation : RollGateExpectation → Result VerdictError (Unit {0})
validate_expectation e = do
  advised ← wrap unknown (advise_roll_gate e.mapping e.plausibility e.risk)
  guard (same_bool advised e.advised) advice_differs

unfoldable pub roll_gate : VerdictScalars → Result VerdictError RollGateExpectation
roll_gate s = do
  advised ← wrap unknown (requires_roll s.plausibility s.risk)
  ok (record {
    plausibility = s.plausibility;
    risk = s.risk;
    reported = s.requires_roll;
    advised = advised;
    mapping = roll_gate_v1;
  })

unfoldable pub intents_of : EffectBands → OutcomeBand → Option (List EffectIntent)
intents_of [] band = none
intents_of ((b, intents) ∷ rest) band =
    if OutcomeBand.same b band then some intents else intents_of rest band

-- `EffectBands.For`.
unfoldable pub for_band : EffectBands → OutcomeBand → Result VerdictError (List EffectIntent)
unfolding intents_of
for_band bands band = elim (intents_of bands band) [
  | none ↦ err (band_missing band)
  | some intents ↦ ok intents
]

-- The loop over the required bands that looks for each.
unfoldable pub check_declared : EffectBands → List OutcomeBand → Result VerdictError (Unit {0})
unfolding intents_of
check_declared bands [] = ok tt
check_declared bands (b ∷ bs) =
    let rest = check_declared bands bs in
    elim (intents_of bands b) [ none ↦ err (band_missing b) | some intents ↦ rest ]

check_intents : IdRules → OutcomeBand → ℕ → List EffectIntent → Result VerdictError (Unit {0})
check_intents ids band i [] = ok tt
check_intents ids band i (intent ∷ rest) =
    wrap (band_intent band i) (validate_intent ids intent) >> check_intents ids band (suc i) rest

-- The loop over the required bands that validates the intents of each; a missing key reads as none.
unfoldable pub check_bands :
    IdRules → EffectBands → List OutcomeBand → Result VerdictError (Unit {0})
unfolding intents_of check_intents
check_bands ids bands [] = ok tt
check_bands ids bands (b ∷ bs) =
    let rest = check_bands ids bands bs in
    elim (intents_of bands b) [ none ↦ rest | some intents ↦ check_intents ids b 0 intents >> rest ]

unfoldable pub validate_bands : IdRules → EffectBands → Bool → Result VerdictError (Unit {0})
unfolding check_declared check_bands bands_for_verdict
validate_bands ids bands needs_roll = do
  guard (length bands == length (bands_for_verdict needs_roll)) (band_count (length bands))
  check_declared bands (bands_for_verdict needs_roll)
  check_bands ids bands (bands_for_verdict needs_roll)

-- `Verdict.Validate`.
unfoldable pub validate_verdict : IdRules → Verdict → Result VerdictError (Unit {0})
unfolding validate_scalars validate_bands
validate_verdict ids v = do
  wrap bad_id (validate_id_segment ids v.turn_id)
  wrap bad_id (require_action_id ids v.action_id)
  wrap bad_id (require_entity_id ids v.scene_id)
  validate_scalars v.scalars
  wrap bad_modifiers (validate_modifiers v.modifiers)
  guard (not (ltb max_rationale_bytes (len v.rationale))) rationale_too_long
  validate_bands ids v.bands v.scalars.requires_roll

unfoldable pub verdict_projection : Verdict → String → String → String → ℕ → TripleProjection
verdict_projection v turn_entity_id verdict_ref source at = record {
  subject = turn_entity_id;
  turn_id = v.turn_id;
  player_subject = "";
  source = source;
  at = at;
  registered =
      turn_verdict_plausibility ∷ turn_verdict_risk ∷ turn_verdict_consequence
      ∷ turn_verdict_requires_roll ∷ [];
  objects =
      (turn_verdict_plausibility, text (Plausibility.to_string v.scalars.plausibility))
      ∷ (turn_verdict_risk, text (Risk.to_string v.scalars.risk))
      ∷ (turn_verdict_consequence, text (ConsequenceClass.to_string v.scalars.consequence))
      ∷ (turn_verdict_requires_roll, boolean v.scalars.requires_roll)
      ∷ [];
  ref_predicate = turn_verdict_ref;
  ref_name = "verdict ref";
  ref = verdict_ref;
  refless = false;
  scalarless = false;
}

-- `Verdict.Triples`.
unfoldable pub verdict_triples :
    IdRules
    → Verdict
    → String
    → String
    → String
    → ℕ
    → Result (ProjectionError VerdictError) (List Triple)
unfolding verdict_projection
verdict_triples ids v turn_entity_id verdict_ref source at =
    build ids (verdict_projection v turn_entity_id verdict_ref source at) (validate_verdict ids v)
