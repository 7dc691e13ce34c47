-- ===== src/Examples/Rolls.antt =====
-- A roll of two dice with one modifier.
use semmachina.Prelude.{
  ◌+◌, ◌*◌, String, true, false, List, [], ◌∷◌, ◌≡◌, refl, ◌↔◌, ok, length, All,
}
use semmachina.Prelude.Int.{◌≤ℤ◌, ℤ, pos, ◌+ℤ◌}
use semmachina.Vocabulary.Mechanic.{two_d6_pbta_v1}
use semmachina.Vocabulary.Rng.{pcg_v1}
use semmachina.Vocabulary.OutcomeBand.{OutcomeBand, partial}
use semmachina.Vocabulary.ModifierSource.{trait}
use semmachina.Vocabulary.Resolution.{
  MechanicSpec, mechanic_spec_for, two_d6, band_for_total, valid_die, is_roll_band,
}
use semmachina.Payload.Modifiers.{Modifier, validate_modifiers, sum_modifiers, check_modifier_total}
use semmachina.Payload.RollResults.{RollResult, validate_roll}
use semmachina.Dice.Roller.{Seed, Randomness, roll, total_from}
use semmachina.Dice.Rolled.{roll_succeeds}
use semmachina.Dice.Totals.{validate_roll-bounds}
use semmachina.Dice.Recorded.{validate_roll-ok}
use semmachina.Dice.Bands.{check_modifier_total_iff}
use semmachina.Examples.World.{ids}

abbrev pub seed : Seed
seed = 1 ∷ 2 ∷ 3 ∷ []

-- A generator that counts.
abbrev pub random : Randomness
random = record { sha256 = λ s t. s; pcg_word = λ hi lo n. n * 2 + 3 }

abbrev pub campaign : String
campaign = "c.semmachina.w.t.campaign.c1"

abbrev pub strong : List Modifier
strong = record { source = trait; value = pos 1; note = "strong" } ∷ []

abbrev seven : RollResult
seven = record {
  turn_id = "turn-a1";
  mechanic = two_d6_pbta_v1;
  rng_version = pcg_v1;
  seed = record { campaign_id = campaign; turn_id = "turn-a1" };
  dice = pos 4 ∷ pos 2 ∷ [];
  modifiers = strong;
  modifier_total = pos 1;
  total = pos 7;
  band = partial;
}

strong_validates : validate_modifiers strong ≡ ok tt
unfolding validate_modifiers semmachina.Vocabulary.ModifierSource.parse ◌+ℤ◌
strong_validates = refl

seven_validates : validate_roll ids seven ≡ ok tt
unfolding validate_roll semmachina.Graph.Ids.validate_id_segment mechanic_spec_for
    semmachina.Vocabulary.Rng.parse semmachina.Graph.Ids.require_entity_id validate_modifiers
    semmachina.Vocabulary.ModifierSource.parse ◌+ℤ◌ semmachina.Vocabulary.OutcomeBand.parse
    is_roll_band
seven_validates = refl

nonzero : semmachina.Dice.Roller.is_zero seed ≡ false
unfolding semmachina.Dice.Roller.is_zero
nonzero = refl

turn_named : semmachina.Graph.Ids.validate_id_segment ids "turn-a1" ≡ ok tt
unfolding semmachina.Graph.Ids.validate_id_segment
turn_named = refl

campaign_named : semmachina.Graph.Ids.require_entity_id ids campaign ≡ ok tt
unfolding semmachina.Graph.Ids.require_entity_id
campaign_named = refl

roll_succeeds_example :
    (r : RollResult) × (roll ids random two_d6 seed campaign "turn-a1" strong ≡ ok r)
    × (validate_roll ids r ≡ ok tt)
    × (r.turn_id ≡ "turn-a1")
    × (r.modifiers ≡ strong)
roll_succeeds_example =
    roll_succeeds ids campaign "turn-a1" strong random seed nonzero turn_named campaign_named
      strong_validates

validate_roll-ok_example :
    (spec : MechanicSpec) × (mechanic_spec_for two_d6_pbta_v1 ≡ ok spec)
    × (length seven.dice ≡ spec.dice)
    × All (λ d. valid_die spec d ≡ true) seven.dice
    × (validate_modifiers strong ≡ ok tt)
    × (seven.total ≡ total_from (pos 0) seven.dice +ℤ sum_modifiers strong)
    × (partial ≡ band_for_total spec seven.total)
validate_roll-ok_example = validate_roll-ok ids seven seven_validates

validate_roll-bounds_example : (pos 0 ≤ℤ seven.total) × (seven.total ≤ℤ pos 16)
validate_roll-bounds_example = validate_roll-bounds ids seven seven_validates

check_modifier_total_iff_example : (check_modifier_total (pos 1) ≡ ok tt) ↔ (
    (b : OutcomeBand)
    → is_roll_band b ≡ true
    → (d : ℤ) × (e : ℤ) × (valid_die two_d6 d ≡ true)
      × (valid_die two_d6 e ≡ true)
      × (band_for_total two_d6 (d +ℤ e +ℤ pos 1) ≡ b))
check_modifier_total_iff_example = check_modifier_total_iff (pos 1)
