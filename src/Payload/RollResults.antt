-- ===== src/Payload/RollResults.antt =====
-- internal/payload/rollresult.go: the record of a roll and its validation.
use semmachina.Prelude.{
  ℕ, ◌+◌, String, Bool, false, if◌then◌else◌, List, [], ◌∷◌, length, ◌==◌, str_eq, Result, ok, err,
  ◌>>=◌, ◌>>◌, guard, wrap,
}
use semmachina.Prelude.Int.{ℤ, pos, ◌+ℤ◌, pos_part, neg_part}
use semmachina.Vocabulary.Kinds.{UnknownValue}
use semmachina.Vocabulary.Mechanic
use semmachina.Vocabulary.Rng
use semmachina.Vocabulary.OutcomeBand
use semmachina.Vocabulary.OutcomeBand.{OutcomeBand}
use semmachina.Vocabulary.Resolution.{
  MechanicSpec, mechanic_spec_for, valid_die, band_for_total, is_roll_band,
}
use semmachina.Graph.Ids.{IdRules, IdError, validate_id_segment, require_entity_id}
use semmachina.Vocabulary.Predicates.{turn_roll_band, turn_roll_total, turn_roll_ref}
use semmachina.Graph.{text, int, Triple}
use semmachina.Payload.Projection.{ProjectionError, TripleProjection, build}
use semmachina.Payload.Modifiers.{Modifier, ModifierError, validate_modifiers, sum_modifiers}

pub record SeedSource : Type 0 where
  pub campaign_id : String
  pub turn_id : String

pub record RollResult : Type 0 where
  pub turn_id : String
  pub mechanic : Mechanic.Mechanic
  pub rng_version : Rng.Rng
  pub seed : SeedSource
  pub dice : List ℤ
  pub modifiers : List Modifier
  pub modifier_total : ℤ
  pub total : ℤ
  pub band : OutcomeBand

pub data RollError : Type 0 where
  bad_id : IdError → RollError
  unknown : UnknownValue → RollError
  foreign_seed : RollError
  dice_count : ℕ → RollError
  die_outside : ℤ → RollError
  bad_modifiers : ModifierError → RollError
  modifier_total_differs total_differs : ℤ → RollError
  band_not_rolled band_differs : OutcomeBand → RollError

abbrev pub eq_ℤ : ℤ → ℤ → Bool
eq_ℤ a b = pos_part a + neg_part b == pos_part b + neg_part a

-- The loop over the dice: their sum, if each is on a face.
unfoldable pub dice_from : MechanicSpec → ℤ → List ℤ → Result RollError ℤ
unfolding valid_die
dice_from spec total [] = ok total
dice_from spec total (die ∷ rest) =
    let later = dice_from spec (total +ℤ die) rest in
    if valid_die spec die then later else err (die_outside die)

unfoldable pub validate_roll_arithmetic :
    MechanicSpec → List ℤ → List Modifier → ℤ → ℤ → Result RollError (Unit {0})
unfolding dice_from
validate_roll_arithmetic spec dice modifiers modifier_total total = do
  guard (length dice == spec.dice) (dice_count (length dice))
  dice_total ← dice_from spec (pos 0) dice
  wrap bad_modifiers (validate_modifiers modifiers)
  guard (eq_ℤ (sum_modifiers modifiers) modifier_total) (modifier_total_differs modifier_total)
  guard (eq_ℤ (dice_total +ℤ modifier_total) total) (total_differs total)

unfoldable pub require_band_for_total : MechanicSpec → ℤ → OutcomeBand → Result RollError (Unit {0})
unfolding band_for_total
require_band_for_total spec total band =
    guard (OutcomeBand.same (band_for_total spec total) band) (band_differs band)

unfoldable pub validate_roll : IdRules → RollResult → Result RollError (Unit {0})
unfolding validate_roll_arithmetic require_band_for_total
validate_roll ids r = do
  wrap bad_id (validate_id_segment ids r.turn_id)
  spec ← wrap unknown (mechanic_spec_for r.mechanic)
  rng ← wrap unknown (Rng.parse (Rng.to_string r.rng_version))
  wrap bad_id (require_entity_id ids r.seed.campaign_id)
  guard (str_eq r.seed.turn_id r.turn_id) foreign_seed
  validate_roll_arithmetic spec r.dice r.modifiers r.modifier_total r.total
  band ← wrap unknown (OutcomeBand.parse (OutcomeBand.to_string r.band))
  guard (is_roll_band r.band) (band_not_rolled r.band)
  require_band_for_total spec r.total r.band

unfoldable pub roll_projection : RollResult → String → String → String → ℕ → TripleProjection
roll_projection r turn_entity_id roll_ref source at = record {
  subject = turn_entity_id;
  turn_id = r.turn_id;
  player_subject = "";
  source = source;
  at = at;
  registered = turn_roll_band ∷ turn_roll_total ∷ [];
  objects =
      (turn_roll_band, text (OutcomeBand.to_string r.band)) ∷ (turn_roll_total, int r.total) ∷ [];
  ref_predicate = turn_roll_ref;
  ref_name = "roll ref";
  ref = roll_ref;
  refless = false;
  scalarless = false;
}

-- `RollResult.Triples`.
unfoldable pub roll_triples :
    IdRules
    → RollResult
    → String
    → String
    → String
    → ℕ
    → Result (ProjectionError RollError) (List Triple)
unfolding roll_projection
roll_triples ids r turn_entity_id roll_ref source at =
    build ids (roll_projection r turn_entity_id roll_ref source at) (validate_roll ids r)
