-- ===== src/Effect/Cases.antt =====
-- internal/effect/applier.go `Apply`: how far an application goes before it plans.
use semmachina.Prelude.{
  ℕ, String, true, false, List, [], str_eq, ◌≡◌, refl, ap, ◌⊎◌, inl, inr, ok, err, Bool-cases,
  Result-cases,
}
use semmachina.Vocabulary.Attributes.{AttributeSpec}
use semmachina.Vocabulary.Predicates.{turn_effects_batch, turn_effects_ref}
use semmachina.Graph.{Object, EntityState, Store, objects_for}
use semmachina.Graph.Laws.{is_present, was_read}
use semmachina.Graph.Ids.{IdRules, require_turn_entity_id}
use semmachina.Payload.EffectBatches.{EffectBatch, validate_batch}
use semmachina.Effect.Applier.{
  Applied, ApplyError, already_applied, read_turn, plan_and_commit, apply,
}

module _ {W : Type 0} (ids : IdRules) (store : Store W) (now : W → ℕ) (datatype : String)
    (sprint : Object → String) (specs : List AttributeSpec) (b : EffectBatch)
    (id ref : String) where
  abbrev pub skipped : Applied
  skipped = record { batch_id = b.batch_id; applied = false; targets = [] }

  -- The checks before the turn's marker passed, and the turn can be read.
  pub record IsAdmitted (w : W) : Type 0 where
    pub valid : validate_batch ids b ≡ ok tt
    pub named : require_turn_entity_id ids b.turn_id id ≡ ok tt
    pub held : str_eq ref "" ≡ false
    pub present : is_present store w id ≡ true

  -- The turn's facts name this batch and its reference.
  pub record IsFound (w : W) : Type 0 where
    pub state : EntityState
    pub stored : store.get_entity w id ≡ ok state
    pub found :
        already_applied b.batch_id ref
          (objects_for state.triples turn_effects_batch)
          (objects_for state.triples turn_effects_ref)
        ≡ ok true

  pub apply-cases :
      (w : W)
      → ((e : ApplyError) × (apply ids store now datatype sprint specs b id ref w ≡ (w, err e)))
        ⊎ (IsAdmitted w
            × ((IsFound w
                  × (apply ids store now datatype sprint specs b id ref w ≡ (w, ok skipped)))
                ⊎ (apply ids store now datatype sprint specs b id ref w
                    ≡ plan_and_commit ids store now datatype sprint specs b id ref w)))
  unfolding apply read_turn
  apply-cases w = elim (Result-cases (validate_batch ids b)) [
    | inr (e, h) ↦ inl (ApplyError.batch_invalid e, rw h refl)
    | inl (u, h) ↦ elim (Result-cases (require_turn_entity_id ids b.turn_id id)) [
      | inr (e, n) ↦ inl (ApplyError.turn_rejected e, rw (h, n) refl)
      | inl (v, n) ↦ elim (Bool-cases (str_eq ref "")) [
        | inl z ↦ inl (ApplyError.no_batch_ref, rw (h, n, z) refl)
        | inr z ↦ elim (Result-cases (store.get_entity w id)) [
          | inr (e, g) ↦ inl (ApplyError.turn_unreadable e, rw (h, n, z, g) refl)
          | inl (s, g) ↦
              let found =
                already_applied b.batch_id ref (objects_for s.triples turn_effects_batch)
                  (objects_for s.triples turn_effects_ref) in
              let admitted : IsAdmitted w = record {
                valid = h;
                named = n;
                held = z;
                present = ap was_read g;
              } in
              elim (Result-cases found) [
                | inr (e, a) ↦ inl (e, rw (h, n, z, g, a) refl)
                | inl (true, a) ↦ inr (
                  admitted,
                  inl (record { state = s; stored = g; found = a }, rw (h, n, z, g, a) refl),
                )
                | inl (false, a) ↦ inr (admitted, inr (rw (h, n, z, g, a) refl))
              ]
        ]
      ]
    ]
  ]

  -- A batch that the turn's facts name is not applied.
  pub found-skips :
      (v w : W)
      → IsAdmitted v
      → IsFound w
      → apply ids store now datatype sprint specs b id ref w ≡ (w, ok skipped)
  unfolding apply read_turn
  found-skips v w a f = rw (a.valid, a.named, a.held, f.stored, f.found) refl
