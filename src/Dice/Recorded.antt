-- ===== src/Dice/Recorded.antt =====
-- internal/payload/rollresult.go `Validate`: what a recorded roll that validates says.
use semmachina.Prelude.{
  Bool, true, false, List, [], ◌∷◌, ◌==◌, ==_iff, str_eq, length, ◌≡◌, refl, sym, ap, ◌∙◌, inl, inr,
  arith, eq_iff, then-ok, >>=-eq-ok, wrap-eq-ok, ok, guard, wrap, All, Result-cases, Bool-cases,
}
use semmachina.Prelude.Int.{ℤ, pos, ◌+ℤ◌, eq_of_parts}
use semmachina.Vocabulary.Rng
use semmachina.Vocabulary.OutcomeBand
use semmachina.Vocabulary.OutcomeBand.{OutcomeBand}
use semmachina.Vocabulary.Resolution.{
  MechanicSpec, mechanic_spec_for, band_for_total, valid_die, is_roll_band,
}
use semmachina.Graph.Ids.{IdRules, validate_id_segment, require_entity_id}
use semmachina.Payload.Modifiers.{validate_modifiers, sum_modifiers}
use semmachina.Payload.RollResults.{
  RollResult, RollError, bad_id, unknown, foreign_seed, band_not_rolled, band_differs,
  validate_roll, validate_roll_arithmetic, dice_from, eq_ℤ, require_band_for_total,
}
use semmachina.Dice.Roller.{total_from}

eq_ℤ_sound : (a b : ℤ) → eq_ℤ a b ≡ true → a ≡ b
eq_ℤ_sound a b h = eq_of_parts a b ((==_iff _ _).0 h)

same_sound : (a b : OutcomeBand) → OutcomeBand.same a b ≡ true → a ≡ b
same_sound a b h = ground (arith, eq_iff (OutcomeBand.foreign_text a) (OutcomeBand.foreign_text b))

dice_from-ok :
    (spec : MechanicSpec) (t u : ℤ) (dice : List ℤ)
    → dice_from spec t dice ≡ ok u
    → All (λ d. valid_die spec d ≡ true) dice × (u ≡ total_from t dice)
unfolding dice_from total_from
dice_from-ok spec t u [] = λ h. (tt, cc h)
dice_from-ok spec t u (d ∷ dice) = elim (Bool-cases (valid_die spec d)) [
  | inr f ↦ rw (f, dice_from) (λ h. absurd (cc h))
  | inl v ↦
      rw (v, dice_from)
        (λ h. let (all, e) = dice_from-ok spec (t +ℤ d) u dice h in ((refl, all), e))
]

-- The numbers and the band of a recorded roll agree under a mechanic.
Agrees : MechanicSpec → RollResult → Type 0
Agrees spec r =
    (length r.dice ≡ spec.dice)
    × All (λ d. valid_die spec d ≡ true) r.dice
    × (validate_modifiers r.modifiers ≡ ok tt)
    × (r.total ≡ total_from (pos 0) r.dice +ℤ sum_modifiers r.modifiers)

arithmetic-ok :
    (spec : MechanicSpec) (r : RollResult)
    → validate_roll_arithmetic spec r.dice r.modifiers r.modifier_total r.total ≡ ok tt
    → Agrees spec r
unfolding validate_roll_arithmetic Agrees
arithmetic-ok spec r = elim (Bool-cases (length r.dice == spec.dice)) [
  | inr f ↦ rw (f, validate_roll_arithmetic) (λ h. absurd (cc h))
  | inl l ↦
      rw (l, validate_roll_arithmetic)
        (elim (Result-cases (dice_from spec (pos 0) r.dice)) [
          | inr (e, f) ↦ rw f (λ h. absurd (cc h))
          | inl (t, d) ↦ rw d (elim (Result-cases (validate_modifiers r.modifiers)) [
            | inr (e, f) ↦ rw f (λ h. absurd (cc h))
            | inl (u, m) ↦
                rw m (elim (Bool-cases (eq_ℤ (sum_modifiers r.modifiers) r.modifier_total)) [
                  | inr f ↦ rw f (λ h. absurd (cc h))
                  | inl s ↦ rw s (elim (Bool-cases (eq_ℤ (t +ℤ r.modifier_total) r.total)) [
                    | inr f ↦ rw f (λ h. absurd (cc h))
                    | inl w ↦ rw w (λ h.
                        let (faces, sum) = dice_from-ok spec (pos 0) t r.dice d in
                        (
                          (==_iff _ _).0 l,
                          faces,
                          refl,
                          sym (eq_ℤ_sound _ _ w)
                              ∙ ap (λ x. x +ℤ r.modifier_total) sum
                              ∙ ap (λ x. total_from (pos 0) r.dice +ℤ x) (sym (eq_ℤ_sound _ _ s)),
                        ))
                  ])
                ])
          ])
        ])
]

guard-ok : (t : Bool) (e : RollError) → guard t e ≡ ok tt → t ≡ true
guard-ok true e h = refl
guard-ok false e h = absurd (cc h)

-- A recorded roll that validates says what its dice say: under the spec of its mechanic it has the
-- mechanic's number of dice, each on a face, its total is the sum of the dice and of modifiers that
-- validate, and its band is the one of that total.
pub validate_roll-ok :
    (ids : IdRules) (r : RollResult)
    → validate_roll ids r ≡ ok tt
    → (spec : MechanicSpec) × (mechanic_spec_for r.mechanic ≡ ok spec)
      × (length r.dice ≡ spec.dice)
      × All (λ d. valid_die spec d ≡ true) r.dice
      × (validate_modifiers r.modifiers ≡ ok tt)
      × (r.total ≡ total_from (pos 0) r.dice +ℤ sum_modifiers r.modifiers)
      × (r.band ≡ band_for_total spec r.total)
unfolding validate_roll require_band_for_total Agrees
validate_roll-ok ids r h =
    let h1 = then-ok (wrap bad_id (validate_id_segment ids r.turn_id)) _ h in
    let (spec, known, h2) = >>=-eq-ok (wrap unknown (mechanic_spec_for r.mechanic)) _ h1 in
    let (rng, _, h3) = >>=-eq-ok (wrap unknown (Rng.parse (Rng.to_string r.rng_version))) _ h2 in
    let h4 = then-ok (wrap bad_id (require_entity_id ids r.seed.campaign_id)) _ h3 in
    let h5 = then-ok (guard (str_eq r.seed.turn_id r.turn_id) foreign_seed) _ h4 in
    let (u, sums, h6) =
      >>=-eq-ok (validate_roll_arithmetic spec r.dice r.modifiers r.modifier_total r.total) _ h5 in
    let (band, _, h7) =
      >>=-eq-ok (wrap unknown (OutcomeBand.parse (OutcomeBand.to_string r.band))) _ h6 in
    let h8 = then-ok (guard (is_roll_band r.band) (band_not_rolled r.band)) _ h7 in
    let (count, faces, mods, total) = arithmetic-ok spec r sums in
    (
      spec,
      wrap-eq-ok unknown (mechanic_spec_for r.mechanic) known,
      count,
      faces,
      mods,
      total,
      sym (same_sound (band_for_total spec r.total) r.band (guard-ok _ (band_differs r.band) h8)),
    )
