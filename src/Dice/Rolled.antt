-- ===== src/Dice/Rolled.antt =====
-- internal/dice/roller.go `Roll` against internal/payload/rollresult.go `Validate`.

use semmachina.Prelude.{
  ℕ, zero, suc, ◌+◌, ◌%◌, String, true, false, List, length, ◌≡◌, refl, ap, arith, eq_iff, eq_refl,
  ok,
}
use semmachina.Prelude.Int.{ℤ, pos, ◌+ℤ◌}
use semmachina.Vocabulary.Rng
use semmachina.Vocabulary.OutcomeBand
use semmachina.Vocabulary.OutcomeBand.{OutcomeBand}
use semmachina.Vocabulary.Resolution.{
  two_d6, mechanic_spec_for, band_for_total, valid_die, is_roll_band,
}
use semmachina.Graph.Ids.{IdRules, validate_id_segment, require_entity_id}
use semmachina.Payload.Modifiers.{Modifier, validate_modifiers, sum_modifiers}
use semmachina.Payload.RollResults.{
  RollResult, validate_roll, validate_roll_arithmetic, dice_from, eq_ℤ, require_band_for_total,
}
use semmachina.Dice.Roller.{
  Seed, big_endian, is_zero, Randomness, seed_for, roll_dice, total_from, roll_digest, rolled, roll,
}

eq_ℤ_refl : (a : ℤ) → eq_ℤ a a ≡ true
eq_ℤ_refl a = ground arith

face_valid : (n : ℕ) → valid_die two_d6 (pos (n % 6 + 1)) ≡ true
unfolding valid_die
face_valid n = ground arith

length-roll_dice : (word : ℕ → ℕ) (faces i n : ℕ) → length (roll_dice word faces i n) ≡ n
unfolding roll_dice
length-roll_dice word faces i zero = refl
length-roll_dice word faces i (suc n) = ap suc (length-roll_dice word faces (suc i) n)

-- The dice are on faces, and the validation adds them up as the roller does.
dice_from-roll_dice :
    (word : ℕ → ℕ) (i n : ℕ) (t : ℤ)
    → dice_from two_d6 t (roll_dice word 6 i n) ≡ ok (total_from t (roll_dice word 6 i n))
unfolding dice_from roll_dice total_from
dice_from-roll_dice word i zero t = refl
dice_from-roll_dice word i (suc n) t =
    rw (face_valid (word i)) (dice_from-roll_dice word (suc i) n (t +ℤ pos (word i % 6 + 1)))

band_selectable : (x : ℤ) → is_roll_band (band_for_total two_d6 x) ≡ true
unfolding is_roll_band band_for_total
band_selectable x = ground arith

band_parses :
    (b : OutcomeBand) → is_roll_band b ≡ true → OutcomeBand.parse (OutcomeBand.to_string b) ≡ ok b
unfolding OutcomeBand.parse is_roll_band
band_parses OutcomeBand.miss h = refl
band_parses OutcomeBand.partial h = refl
band_parses OutcomeBand.full h = refl
band_parses OutcomeBand.auto h = absurd (cc h)
band_parses (OutcomeBand.foreign s) h = absurd (cc h)

same_refl : (b : OutcomeBand) → OutcomeBand.same b b ≡ true
same_refl OutcomeBand.auto = refl
same_refl OutcomeBand.miss = refl
same_refl OutcomeBand.partial = refl
same_refl OutcomeBand.full = refl
same_refl (OutcomeBand.foreign s) = ground (arith, eq_iff s s)

arithmetic :
    (dice : List ℤ) (t : ℤ) (modifiers : List Modifier)
    → length dice ≡ 2
    → dice_from two_d6 (pos 0) dice ≡ ok t
    → validate_modifiers modifiers ≡ ok tt
    → validate_roll_arithmetic two_d6 dice modifiers
        (sum_modifiers modifiers)
        (t +ℤ sum_modifiers modifiers)
      ≡ ok tt
unfolding validate_roll_arithmetic
arithmetic dice t modifiers l d m = rw l (
    rw d (
      rw m (
        rw (eq_ℤ_refl (sum_modifiers modifiers))
          (rw (eq_ℤ_refl (t +ℤ sum_modifiers modifiers)) refl))))

banded : (x : ℤ) → require_band_for_total two_d6 x (band_for_total two_d6 x) ≡ ok tt
unfolding require_band_for_total
banded x = rw (same_refl (band_for_total two_d6 x)) refl

module _ (ids : IdRules) (campaign_id turn_id : String) (modifiers : List Modifier) where
  record_validates :
      (dice : List ℤ) (t : ℤ)
      → validate_id_segment ids turn_id ≡ ok tt
      → require_entity_id ids campaign_id ≡ ok tt
      → validate_modifiers modifiers ≡ ok tt
      → length dice ≡ 2
      → dice_from two_d6 (pos 0) dice ≡ ok t
      → validate_roll ids (rolled two_d6 campaign_id turn_id modifiers (dice, t)) ≡ ok tt
  unfolding validate_roll rolled mechanic_spec_for Rng.parse
  record_validates dice t named campaign m l d =
      let x = t +ℤ sum_modifiers modifiers in
      rw named (
        rw campaign (
          rw (eq_refl turn_id) (
            rw (arithmetic dice t modifiers l d m) (
              rw (band_parses (band_for_total two_d6 x) (band_selectable x))
                (rw (band_selectable x) (banded x))))))

  made :
      (random : Randomness) (digest : List ℕ)
      → validate_id_segment ids turn_id ≡ ok tt
      → require_entity_id ids campaign_id ≡ ok tt
      → validate_modifiers modifiers ≡ ok tt
      → validate_roll ids
          (rolled two_d6 campaign_id turn_id modifiers (roll_digest random two_d6 digest))
        ≡ ok tt
  unfolding roll_digest
  made random digest named campaign m =
      let word = random.pcg_word (big_endian 0 8 0 digest) (big_endian 8 8 0 digest) in
      record_validates (roll_dice word 6 0 2) (total_from (pos 0) (roll_dice word 6 0 2)) named
        campaign m (length-roll_dice word 6 0 2) (dice_from-roll_dice word 0 2 (pos 0))

  -- A roll of the registered mechanic never fails on what a turn can bring to it: with a seed that is not zero, a turn id that
  -- is a segment, a campaign's entity id and modifiers that validate, `Roll` gives a record for that
  -- turn with those modifiers, and the record validates.
  pub roll_succeeds :
      (random : Randomness) (seed : Seed)
      → is_zero seed ≡ false
      → validate_id_segment ids turn_id ≡ ok tt
      → require_entity_id ids campaign_id ≡ ok tt
      → validate_modifiers modifiers ≡ ok tt
      → (r : RollResult) × (roll ids random two_d6 seed campaign_id turn_id modifiers ≡ ok r)
        × (validate_roll ids r ≡ ok tt)
        × (r.turn_id ≡ turn_id)
        × (r.modifiers ≡ modifiers)
  unfolding roll seed_for rolled
  roll_succeeds random seed z named campaign m =
      let digest = random.sha256 seed turn_id in
      let r = rolled two_d6 campaign_id turn_id modifiers (roll_digest random two_d6 digest) in
      let v : validate_roll ids r ≡ ok tt = made random digest named campaign m in
      (r, rw z (rw named (rw v refl)), v, refl, refl)
