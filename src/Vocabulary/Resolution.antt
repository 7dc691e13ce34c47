-- ===== src/Vocabulary/Resolution.antt =====
-- internal/vocabulary/resolution.go, and the bands that a roll can select (classes.go): the rules of
-- a mechanic and the advice on whether a verdict needs a roll.
use semmachina.Prelude.{
  ℕ, Bool, true, false, ◌&&◌, ◌||◌, not, if◌then◌else◌, List, [], ◌∷◌, Result, ok, err,
}
use semmachina.Prelude.Int.{ℤ, pos, ltb_ℤ}
use semmachina.Vocabulary.Kinds.{Kind, UnknownValue}
use semmachina.Vocabulary.Mechanic
use semmachina.Vocabulary.Mechanic.{Mechanic, two_d6_pbta_v1}
use semmachina.Vocabulary.OutcomeBand.{OutcomeBand, auto, miss, partial, full}
use semmachina.Vocabulary.Plausibility
use semmachina.Vocabulary.Plausibility.{Plausibility, unlikely, plausible}
use semmachina.Vocabulary.Risk
use semmachina.Vocabulary.Risk.{Risk, no_risk}
use semmachina.Vocabulary.RollGateMapping
use semmachina.Vocabulary.RollGateMapping.{RollGateMapping, roll_gate_v1}

pub record MechanicSpec : Type 0 where
  pub mechanic : Mechanic
  pub dice : ℕ
  pub faces : ℕ
  pub max_miss_total : ℤ
  pub max_partial_total : ℤ

-- `a <= b`.
abbrev pub leb_ℤ : ℤ → ℤ → Bool
leb_ℤ a b = not (ltb_ℤ b a)

unfoldable pub band_for_total : MechanicSpec → ℤ → OutcomeBand
band_for_total spec total =
    if leb_ℤ total spec.max_miss_total
    then miss
    else if leb_ℤ total spec.max_partial_total
    then partial
    else full

unfoldable pub valid_die : MechanicSpec → ℤ → Bool
valid_die spec v = leb_ℤ (pos 1) v && leb_ℤ v (pos spec.faces)

-- The registered spec.
abbrev pub two_d6 : MechanicSpec
two_d6 = record {
  mechanic = two_d6_pbta_v1;
  dice = 2;
  faces = 6;
  max_miss_total = pos 6;
  max_partial_total = pos 9;
}

unfoldable pub mechanic_spec_for : Mechanic → Result UnknownValue MechanicSpec
mechanic_spec_for two_d6_pbta_v1 = ok two_d6
mechanic_spec_for m = err (record { kind = Kind.mechanic; value = Mechanic.to_string m })

abbrev pub roll_bands : List OutcomeBand
roll_bands = miss ∷ partial ∷ full ∷ []

unfoldable pub is_roll_band : OutcomeBand → Bool
is_roll_band miss = true
is_roll_band partial = true
is_roll_band full = true
is_roll_band b = false

-- The mapping roll-gate/v1.
unfoldable pub advise_v1 : Plausibility → Risk → Bool
advise_v1 p r =
    (Plausibility.same p unlikely || Plausibility.same p plausible) && not (Risk.same r no_risk)

unfoldable pub advise_roll_gate : RollGateMapping → Plausibility → Risk → Result UnknownValue Bool
unfolding advise_v1
advise_roll_gate roll_gate_v1 p r =
    if not (Plausibility.valid p)
    then err (record { kind = Kind.plausibility; value = Plausibility.to_string p })
    else if not (Risk.valid r)
    then err (record { kind = Kind.risk; value = Risk.to_string r })
    else ok (advise_v1 p r)
advise_roll_gate m p r =
    err (record { kind = Kind.roll_gate_mapping; value = RollGateMapping.to_string m })

unfoldable pub requires_roll : Plausibility → Risk → Result UnknownValue Bool
unfolding advise_roll_gate
requires_roll p r = advise_roll_gate roll_gate_v1 p r

unfoldable pub bands_for_verdict : Bool → List OutcomeBand
bands_for_verdict needs_roll = if needs_roll then roll_bands else auto ∷ []
