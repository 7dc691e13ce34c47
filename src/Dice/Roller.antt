-- ===== src/Dice/Roller.antt =====
-- internal/dice/roller.go: a roll from the campaign's seed. SHA-256 and the generator of
-- math/rand/v2 are parameters.
use semmachina.Prelude.{
  ℕ, zero, suc, ◌+◌, ◌*◌, ◌%◌, String, Bool, true, ◌&&◌, not, List, [], ◌∷◌, ◌==◌, Result, ok,
  ◌>>=◌, ◌>>◌, guard, wrap,
}
use semmachina.Prelude.Int.{ℤ, pos, ◌+ℤ◌}
use semmachina.Vocabulary.Kinds.{UnknownValue}
use semmachina.Vocabulary.Mechanic.{Mechanic}
use semmachina.Vocabulary.Rng.{pcg_v1}
use semmachina.Vocabulary.Resolution.{MechanicSpec, mechanic_spec_for, band_for_total}
use semmachina.Graph.Ids.{IdRules, IdError, validate_id_segment}
use semmachina.Payload.Modifiers.{Modifier, sum_modifiers}
use semmachina.Payload.RollResults.{RollResult, RollError, validate_roll}

-- `campaign.Seed`: its bytes.
abbrev pub Seed : Type 0
Seed = List ℕ

unfoldable pub is_zero : Seed → Bool
is_zero [] = true
is_zero (b ∷ rest) = (b == 0) && is_zero rest

-- The digest of a seed's bytes and then a turn id, and the n-th number of the generator that the two
-- first words of a digest start. A digest is its bytes.
pub record Randomness : Type 0 where
  pub sha256 : List ℕ → String → List ℕ
  pub pcg_word : ℕ → ℕ → ℕ → ℕ

pub data RollerError : Type 0 where
  zero_seed : RollerError
  turn_id_rejected : IdError → RollerError
  fails_own_contract : RollError → RollerError

-- `binary.BigEndian.Uint64` on the bytes from an index.
abbrev pub big_endian : ℕ → ℕ → ℕ → List ℕ → ℕ
big_endian skip (zero) acc bytes = acc
big_endian skip (suc n) acc [] = acc
big_endian zero (suc n) acc (b ∷ rest) = big_endian zero n (acc * 256 + b) rest
big_endian (suc k) (suc n) acc (b ∷ rest) = big_endian k (suc n) acc rest

unfoldable pub seed_for : IdRules → Randomness → Seed → String → Result RollerError (List ℕ)
unfolding is_zero
seed_for ids random seed turn_id = do
  guard (not (is_zero seed)) zero_seed
  wrap turn_id_rejected (validate_id_segment ids turn_id)
  ok (random.sha256 seed turn_id)

-- The loop of `roll`, with the index of the next number of the generator.
unfoldable pub roll_dice : (ℕ → ℕ) → ℕ → ℕ → ℕ → List ℤ
roll_dice word faces i (zero) = []
roll_dice word faces i (suc n) = pos (word i % faces + 1) ∷ roll_dice word faces (suc i) n

unfoldable pub total_from : ℤ → List ℤ → ℤ
total_from total [] = total
total_from total (d ∷ ds) = total_from (total +ℤ d) ds

unfoldable pub roll_digest : Randomness → MechanicSpec → List ℕ → List ℤ × ℤ
unfolding roll_dice total_from
roll_digest random spec digest =
    let dice =
      roll_dice (random.pcg_word (big_endian 0 8 0 digest) (big_endian 8 8 0 digest)) spec.faces 0
        spec.dice in
    (dice, total_from (pos 0) dice)

-- The record that `Roll` validates.
unfoldable pub rolled : MechanicSpec → String → String → List Modifier → List ℤ × ℤ → RollResult
rolled spec campaign_id turn_id modifiers (dice, dice_total) = record {
  turn_id = turn_id;
  mechanic = spec.mechanic;
  rng_version = pcg_v1;
  seed = record { campaign_id = campaign_id; turn_id = turn_id };
  dice = dice;
  modifiers = modifiers;
  modifier_total = sum_modifiers modifiers;
  total = dice_total +ℤ sum_modifiers modifiers;
  band = band_for_total spec (dice_total +ℤ sum_modifiers modifiers);
}

unfoldable pub new_roller : Mechanic → Result UnknownValue MechanicSpec
unfolding mechanic_spec_for
new_roller mechanic = mechanic_spec_for mechanic

unfoldable pub roll :
    IdRules
    → Randomness
    → MechanicSpec
    → Seed
    → String
    → String
    → List Modifier
    → Result RollerError RollResult
unfolding seed_for roll_digest rolled
roll ids random spec seed campaign_id turn_id modifiers = do
  digest ← seed_for ids random seed turn_id
  let record_made : RollResult =
      rolled spec campaign_id turn_id modifiers (roll_digest random spec digest)
  wrap fails_own_contract (validate_roll ids record_made)
  ok record_made
