-- ===== src/Dice/Bands.antt =====
-- internal/payload/modifier.go and internal/vocabulary/resolution.go: what the bounds on a modifier
-- total have to do with the bands, and the advice on a roll with the bands of a verdict.
use semmachina.Prelude.{suc, zero, true, ◌≡◌, refl, ◌↔◌, arith, ok}
use semmachina.Prelude.Int.{ℤ, pos, negsuc, ◌+ℤ◌, ◌≤ℤ◌, int_laws}
use semmachina.Vocabulary.OutcomeBand.{OutcomeBand, auto, miss, partial, full, foreign}
use semmachina.Vocabulary.Resolution.{band_for_total, valid_die, two_d6, is_roll_band}
use semmachina.Payload.Modifiers.{check_modifier_total}

-- Two dice of the mechanic that give the band with a modifier total.
Reaches : ℤ → OutcomeBand → Type 0
Reaches t b =
    (d : ℤ) × (e : ℤ) × (valid_die two_d6 d ≡ true)
    × (valid_die two_d6 e ≡ true)
    × (band_for_total two_d6 (d +ℤ e +ℤ t) ≡ b)

pub total_bounds : (t : ℤ) → check_modifier_total t ≡ ok tt → (negsuc 1 ≤ℤ t) × (t ≤ℤ pos 4)
unfolding check_modifier_total
total_bounds t h = ground arith

in_bounds : (t : ℤ) → negsuc 1 ≤ℤ t → t ≤ℤ pos 4 → check_modifier_total t ≡ ok tt
unfolding check_modifier_total
in_bounds t l u = ground arith

miss_at : (x : ℤ) → x ≤ℤ pos 6 → band_for_total two_d6 x ≡ miss
unfolding band_for_total
miss_at x h = ground arith

partial_at : (x : ℤ) → pos 7 ≤ℤ x → x ≤ℤ pos 9 → band_for_total two_d6 x ≡ partial
unfolding band_for_total
partial_at x l u = ground arith

full_at : (x : ℤ) → pos 10 ≤ℤ x → band_for_total two_d6 x ≡ full
unfolding band_for_total
full_at x h = ground arith

partial_within : (t : ℤ) → negsuc 1 ≤ℤ t → t ≤ℤ pos 4 → Reaches t partial
unfolding Reaches valid_die
partial_within (negsuc zero) l u =
    (pos 5, pos 4, refl, refl, partial_at _ (omega int_laws) (omega int_laws))
partial_within (negsuc (suc zero)) l u =
    (pos 5, pos 4, refl, refl, partial_at _ (omega int_laws) (omega int_laws))
partial_within (negsuc (suc (suc n))) l u = absurd (omega arith)
partial_within (pos zero) l u =
    (pos 4, pos 3, refl, refl, partial_at _ (omega int_laws) (omega int_laws))
partial_within (pos (suc zero)) l u =
    (pos 4, pos 3, refl, refl, partial_at _ (omega int_laws) (omega int_laws))
partial_within (pos (suc (suc zero))) l u =
    (pos 4, pos 3, refl, refl, partial_at _ (omega int_laws) (omega int_laws))
partial_within (pos (suc (suc (suc n)))) l u =
    (pos 2, pos 2, refl, refl, partial_at _ (omega int_laws) (omega int_laws))

reaches :
    (t : ℤ) → negsuc 1 ≤ℤ t → t ≤ℤ pos 4 → (b : OutcomeBand) → is_roll_band b ≡ true → Reaches t b
unfolding Reaches is_roll_band valid_die
reaches t l u miss h = (pos 1, pos 1, refl, refl, miss_at _ (omega int_laws))
reaches t l u partial h = partial_within t l u
reaches t l u full h = (pos 6, pos 6, refl, refl, full_at _ (omega int_laws))
reaches t l u auto h = absurd (cc h)
reaches t l u (foreign s) h = absurd (cc h)

pub die_bounds : (d : ℤ) → valid_die two_d6 d ≡ true → (pos 1 ≤ℤ d) × (d ≤ℤ pos 6)
unfolding valid_die
die_bounds d h = ground arith

of_miss : (x : ℤ) → band_for_total two_d6 x ≡ miss → x ≤ℤ pos 6
unfolding band_for_total
of_miss x h = ground arith

of_full : (x : ℤ) → band_for_total two_d6 x ≡ full → pos 10 ≤ℤ x
unfolding band_for_total
of_full x h = ground arith

-- The bounds on the summed modifiers are exact: they are kept just when every band that a roll can
-- select is still reached by some two dice.
pub check_modifier_total_iff :
    (t : ℤ)
    → (check_modifier_total t ≡ ok tt) ↔ (
        (b : OutcomeBand)
        → is_roll_band b ≡ true
        → (d : ℤ) × (e : ℤ) × (valid_die two_d6 d ≡ true)
          × (valid_die two_d6 e ≡ true)
          × (band_for_total two_d6 (d +ℤ e +ℤ t) ≡ b))
unfolding Reaches is_roll_band
check_modifier_total_iff t = (
  λ h. let (l, u) = total_bounds t h in reaches t l u,
  λ all.
      let (d, e, vd, ve, low) = all miss refl in
      let (f, g, vf, vg, high) = all full refl in
      in_bounds t (omega (int_laws, of_full (f +ℤ g +ℤ t) high, die_bounds f vf, die_bounds g vg))
        (omega (int_laws, of_miss (d +ℤ e +ℤ t) low, die_bounds d vd, die_bounds e ve)),
)
