-- ===== src/Dice/OneRoll.antt =====
-- internal/dice/resolver.go `Resolve`: the roll that a turn has recorded, and the one that is made.
use semmachina.Prelude.{
  ℕ, String, true, false, Option, none, some, List, ◌≡◌, refl, sym, ap, ◌∙◌, inl, inr, ok,
  Bool-cases, Result-cases, eq_refl, arith, ok-injective,
}
use mathlib.Core.Path.{subst}
use semmachina.Prelude.Int.{ℤ}
use semmachina.Vocabulary.OutcomeBand
use semmachina.Vocabulary.Predicates.{turn_roll_band, turn_roll_total, turn_roll_ref}
use semmachina.Graph.{Triple, EntityState, Store}
use semmachina.Graph.Laws.{is_present, objects_read, was_read, IsLawful, reads_text, reads_number}
use semmachina.Graph.Targets.{turn_roll, predicates_of}
use semmachina.Graph.Ids.{IdRules, require_turn_entity_id}
use semmachina.Payload.Projection.{object_of}
use semmachina.Payload.Written.{build-objects, scalar_objects, ref_objects}
use semmachina.Payload.Verdicts.{Verdict, validate_verdict}
use semmachina.Payload.RollResults.{RollResult, eq_ℤ, validate_roll, roll_projection, roll_triples}
use semmachina.Dice.Totals.{roll_triples-IsExact}
use semmachina.Dice.Roller.{Randomness, roll}
use semmachina.Dice.Resolver.{
  Resolver, Resolution, RecordedRoll, as_int, count_present, read_roll, recorded_from,
  recorded_roll, agrees_with, resolution_of, resolve,
}

eq_ℤ_refl : (a : ℤ) → eq_ℤ a a ≡ true
eq_ℤ_refl a = ground arith

resolution-roll :
    (made : RollResult) (recorded : Option RecordedRoll) (o : Resolution)
    → resolution_of made recorded ≡ ok o
    → made ≡ o.roll
unfolding resolution_of
resolution-roll made none o = λ k. ap (λ x. x.roll) (ok-injective k)
resolution-roll made (some r) o = elim (Result-cases (agrees_with r made)) [
  | inr (e, a) ↦ rw (a, resolution_of) (λ k. absurd (cc k))
  | inl (u, a) ↦ rw (a, resolution_of) (λ k. ap (λ x. x.roll) (ok-injective k))
]

module _ {W : Type 0} (ids : IdRules) (random : Randomness) (store : Store W) (resolver : Resolver)
    (v : Verdict) (id : String) where
  -- The checks before the recorded roll passed, and the roll of the turn is made.
  pub record HasRoll (w : W) (r : RollResult) : Type 0 where
    pub valid : validate_verdict ids v ≡ ok tt
    pub named : require_turn_entity_id ids v.turn_id id ≡ ok tt
    pub gated : v.scalars.requires_roll ≡ true
    pub made :
        roll ids random resolver.roller resolver.seed resolver.campaign_id v.turn_id v.modifiers
        ≡ ok r

  -- What an answer says of the roll that the turn's entity records.
  Answers : EntityState → Resolution → Type 0
  Answers s o =
      (recorded : Option RecordedRoll) × (recorded_roll s ≡ ok recorded)
      × (resolution_of o.roll recorded ≡ ok o)

  resolve-parts :
      (w : W) (o : Resolution)
      → resolve ids random store resolver v id w ≡ ok o
      → (s : EntityState) × (store.get_entity w id ≡ ok s) × HasRoll w o.roll × Answers s o
  unfolding resolve Answers
  resolve-parts w o k = elim (Result-cases (validate_verdict ids v)) [
    | inr (e, h) ↦ absurd (cc (rw (h, resolve) at k))
    | inl (u, h) ↦ elim (Result-cases (require_turn_entity_id ids v.turn_id id)) [
      | inr (e, n) ↦ absurd (cc (rw (h, n, resolve) at k))
      | inl (u, n) ↦ elim (Bool-cases v.scalars.requires_roll) [
        | inr g ↦ absurd (cc (rw (h, n, g, resolve) at k))
        | inl g ↦ elim (Result-cases (store.get_entity w id)) [
          | inr (e, r) ↦ absurd (cc (rw (h, n, g, r, resolve) at k))
          | inl (s, r) ↦
              elim (Result-cases (
                roll ids random resolver.roller resolver.seed resolver.campaign_id v.turn_id
                  v.modifiers)) [
                    | inr (e, m) ↦ absurd (cc (rw (h, n, g, r, m, resolve) at k))
                    | inl (made, m) ↦ elim (Result-cases (recorded_roll s)) [
                      | inr (e, c) ↦ absurd (cc (rw (h, n, g, r, m, c, resolve) at k))
                      | inl (recorded, c) ↦
                          let last = rw (h, n, g, r, m, c, resolve) at k in
                          let same = resolution-roll made recorded o last in
                          (
                            s,
                            r,
                            record { valid = h; named = n; gated = g; made = m ∙ ap ok same },
                            (recorded, c, subst (λ x. resolution_of x recorded ≡ ok o) same last),
                          )
                    ]
                  ]
        ]
      ]
    ]
  ]

  module _ (lawful : IsLawful store) where
    roll-recorded :
        (r : RollResult) (source ref : String) (at : ℕ) (ts : List Triple) (w w' : W)
        (s : EntityState)
        → roll_triples ids r id ref source at ≡ ok ts
        → store.reconcile w turn_roll id ts ≡ (w', none)
        → store.get_entity w' id ≡ ok s
        → recorded_roll s
          ≡ ok (some (record { band = OutcomeBand.to_string r.band; total = r.total }))
    unfolding roll_triples roll_projection scalar_objects ref_objects object_of predicates_of
        recorded_roll recorded_from count_present read_roll as_int
    roll-recorded r source ref at ts w w' s t h g =
        let wrote = λ (q : String).
          build-objects ids (roll_projection r id ref source at) (validate_roll ids r) ts q t in
        let at_turn = λ (q : String). ap (λ x. objects_read x q) (sym g) in
        rw
          (
            at_turn turn_roll_band
                ∙ reads_text store lawful w w' turn_roll id ts turn_roll_band _ h refl
                    (wrote turn_roll_band),
            at_turn turn_roll_total
                ∙ reads_number store lawful w w' turn_roll id ts turn_roll_total _ h refl
                    (roll_triples-IsExact ids r id ref source at ts t) (wrote turn_roll_total),
            at_turn turn_roll_ref
                ∙ reads_text store lawful w w' turn_roll id ts turn_roll_ref _ h refl
                    (wrote turn_roll_ref),
          )
          refl

    -- Over a lawful store, once the roll that was answered is written to the turn, which can be read,
    -- the same verdict is answered with the same roll as one that was there: there is one roll for a turn.
    pub one_roll_per_turn :
        (w v₁ w' : W) (o : Resolution) (source ref : String) (at : ℕ) (ts : List Triple)
        → resolve ids random store resolver v id w ≡ ok o
        → roll_triples ids o.roll id ref source at ≡ ok ts
        → is_present store v₁ id ≡ true
        → store.reconcile v₁ turn_roll id ts ≡ (w', none)
        → resolve ids random store resolver v id w' ≡ ok (record { roll = o.roll; rolled = false })
    unfolding resolve resolution_of agrees_with
    one_roll_per_turn w v₁ w' o source ref at ts h t there k =
        let (s, g, r, answers) = resolve-parts w o h in
        elim (Result-cases (store.get_entity w' id)) [
          | inr (e, l) ↦ absurd (
              cc
                (ap was_read (sym l) ∙ lawful.reconcile_present v₁ w' turn_roll id ts id k ∙ there))
          | inl (s', l) ↦
              rw
                (
                  r.valid,
                  r.named,
                  r.gated,
                  l,
                  r.made,
                  roll-recorded o.roll source ref at ts v₁ w' s' t k l,
                  eq_refl (OutcomeBand.to_string o.roll.band),
                  eq_ℤ_refl o.roll.total,
                )
                refl
        ]
