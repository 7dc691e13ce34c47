-- ===== src/Dice/Totals.antt =====
-- internal/payload/rollresult.go `Validate` and `Triples`: the totals that are recorded.
use semmachina.Prelude.{
  ℕ, String, true, List, [], ◌∷◌, length, All, ◌≡◌, sym, ap, ◌∙◌, arith, ok, then-ok, wrap-eq-ok,
  >>=-eq-ok, wrap,
}
use mathlib.Core.Path.{subst}
use semmachina.Prelude.Int.{ℤ, pos, negsuc, ◌≤ℤ◌, int_laws}
use semmachina.Vocabulary.Mechanic
use semmachina.Vocabulary.Resolution.{MechanicSpec, two_d6, mechanic_spec_for, valid_die}
use semmachina.Graph.{Triple}
use semmachina.Graph.Ids.{IdRules}
use semmachina.Graph.Laws.{IsExact}
use semmachina.Payload.Projection.{invalid_payload, build, check_projection}
use semmachina.Payload.Modifiers.{Modifier, validate_modifiers, sum_modifiers}
use semmachina.Payload.RollResults.{RollResult, validate_roll, roll_projection, roll_triples}
use semmachina.Dice.Roller.{total_from}
use semmachina.Dice.Bands.{total_bounds, die_bounds}
use semmachina.Dice.Recorded.{validate_roll-ok}

Between : ℤ → ℤ → ℤ → Type 0
Between a b x = (a ≤ℤ x) × (x ≤ℤ b)

only_spec :
    (m : Mechanic.Mechanic) (spec : MechanicSpec) → mechanic_spec_for m ≡ ok spec → two_d6 ≡ spec
unfolding mechanic_spec_for
only_spec Mechanic.two_d6_pbta_v1 spec h = cc
only_spec (Mechanic.foreign s) spec h = absurd (cc h)

modifiers-Between :
    (ms : List Modifier)
    → validate_modifiers ms ≡ ok tt
    → Between (negsuc 1) (pos 4) (sum_modifiers ms)
unfolding validate_modifiers Between
modifiers-Between ms h = total_bounds _ (then-ok _ _ (then-ok _ _ h))

dice-Between :
    (dice : List ℤ)
    → length dice ≡ 2
    → All (λ d. valid_die two_d6 d ≡ true) dice
    → Between (pos 2) (pos 12) (total_from (pos 0) dice)
unfolding total_from Between
dice-Between [] l v = absurd (omega (arith, l))
dice-Between (d ∷ []) l v = absurd (omega (arith, l))
dice-Between (d ∷ e ∷ f ∷ rest) l v = absurd (omega (arith, l))
dice-Between (d ∷ e ∷ []) l (v, u) = (
  omega (int_laws, die_bounds d v, die_bounds e u.0),
  omega (int_laws, die_bounds d v, die_bounds e u.0),
)

-- The total of a roll that validates lies between 0 and 16: two dice and modifiers from -2 to 4.
pub validate_roll-bounds :
    (ids : IdRules) (r : RollResult)
    → validate_roll ids r ≡ ok tt
    → (pos 0 ≤ℤ r.total) × (r.total ≤ℤ pos 16)
unfolding Between
validate_roll-bounds ids r h =
    let (spec, known, count, faces, mods, total, band) = validate_roll-ok ids r h in
    let same = sym (only_spec r.mechanic spec known) in
    let (least, most) =
      dice-Between r.dice (count ∙ ap (λ x. x.dice) same)
        (subst (λ x. All (λ d. valid_die x d ≡ true) r.dice) same faces) in
    let (low, high) = modifiers-Between r.modifiers mods in
    rw total (omega int_laws, omega int_laws)

-- A total that is written to the graph is read back as the same number.
pub roll_triples-IsExact :
    (ids : IdRules) (r : RollResult) (id ref source : String) (at : ℕ) (ts : List Triple)
    → roll_triples ids r id ref source at ≡ ok ts
    → IsExact r.total
unfolding roll_triples build check_projection
roll_triples-IsExact ids r id ref source at ts h =
    let (u, checked, rest) =
      >>=-eq-ok (check_projection ids (roll_projection r id ref source at) (validate_roll ids r)) _
        h in
    let (v, first, others) = >>=-eq-ok (wrap invalid_payload (validate_roll ids r)) _ checked in
    let (low, high) =
      validate_roll-bounds ids r (wrap-eq-ok invalid_payload (validate_roll ids r) first) in
    (omega arith, omega arith)
