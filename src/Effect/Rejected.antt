-- ===== src/Effect/Rejected.antt =====
-- internal/effect/applier.go: an application that fails before the commit.
use semmachina.Prelude.{
  ℕ, String, List, [], ◌∷◌, ◌++◌, ◌≡◌, refl, sym, ap, ◌∙◌, ◌⊎◌, inl, inr, err, Result-cases,
  Option-cases,
}
use semmachina.Exec.{Fails, Fails-err, Exec-cases}
use semmachina.Vocabulary.Attributes.{AttributeSpec}
use semmachina.Graph.{Object, Store}
use semmachina.Graph.Targets.{turn_effect_marker}
use semmachina.Graph.Ids.{IdRules}
use semmachina.Payload.EffectBatches.{EffectBatch, batch_triples}
use semmachina.Effect.Plan.{Plan, build_plan}
use semmachina.Effect.Writes.{ProjectionWrite, projections}
use semmachina.Effect.Cases.{apply-cases}
use semmachina.Effect.Applier.{
  ApplyError, commit_incomplete, CommitCause, source, write_all, write_target, write_plan,
  write_marker, commit, plan_and_commit, apply,
}

-- The commit had begun.
pub data IsIncomplete : ApplyError → Type 0 where
  incomplete :
      (id : String) (written : List String) (c : CommitCause)
      → IsIncomplete (commit_incomplete id written c)

module _ {W : Type 0} (ids : IdRules) (store : Store W) (now : W → ℕ) where
  write_target-Fails :
      (id : String) (written : List String) (ps : List ProjectionWrite) (w : W)
      → Fails (write_target ids store now id written ps w) (λ w' e. IsIncomplete e)
  unfolding write_target
  write_target-Fails id written ps w = elim (Option-cases (write_all ids store now id ps w).1) [
    | inl h ↦ rw h tt
    | inr (e, h) ↦ rw h (incomplete id written (CommitCause.write_failed e))
  ]

  write_plan-Fails :
      (datatype turn_id : String) (at : ℕ) (written : List String) (plan : Plan) (w : W)
      → Fails (write_plan ids store now datatype turn_id at written plan w) (λ w' e. IsIncomplete e)
  unfolding write_plan
  write_plan-Fails datatype turn_id at written [] w = tt
  write_plan-Fails datatype turn_id at written (t ∷ rest) w =
      let ps = projections datatype source t turn_id at in
      elim (Exec-cases (write_target ids store now t.entity_id written ps w)) [
        | inl (v, u, k) ↦
            rw k (write_plan-Fails datatype turn_id at (written ++ t.entity_id ∷ []) rest v)
        | inr (v, e, k) ↦
            rw k
              (Fails-err (λ w' e. IsIncomplete e) _ (write_target-Fails t.entity_id written ps w) k)
      ]

  write_marker-Fails :
      (b : EffectBatch) (id ref : String) (at : ℕ) (written : List String) (w : W)
      → Fails (write_marker ids store now b id ref at written w) (λ w' e. IsIncomplete e)
  unfolding write_marker
  write_marker-Fails b id ref at written w =
      elim (Result-cases (batch_triples ids b id ref source at)) [
        | inr (e, h) ↦ rw h (incomplete id written (CommitCause.marker_refused e))
        | inl (ts, h) ↦ rw h (elim (Option-cases (store.reconcile w turn_effect_marker id ts).1) [
          | inl k ↦ rw k tt
          | inr (e, k) ↦ rw k (incomplete id written (CommitCause.write_failed e))
        ])
      ]

  commit-Fails :
      (datatype : String) (b : EffectBatch) (id ref : String) (plan : Plan) (w : W)
      → Fails (commit ids store now datatype b id ref plan w) (λ w' e. IsIncomplete e)
  unfolding commit
  commit-Fails datatype b id ref plan w =
      elim (Exec-cases (write_plan ids store now datatype b.turn_id (now w) [] plan w)) [
        | inr (v, e, k) ↦ rw k (
            Fails-err (λ w' e. IsIncomplete e) _
              (write_plan-Fails datatype b.turn_id (now w) [] plan w) k)
        | inl (v, written, k) ↦
            rw k (elim (Exec-cases (write_marker ids store now b id ref (now w) written v)) [
              | inr (v', e, l) ↦ rw l (
                  Fails-err (λ w' e. IsIncomplete e) _
                    (write_marker-Fails b id ref (now w) written v) l)
              | inl (v', u, l) ↦ rw l tt
            ])
      ]

  module _ (datatype : String) (sprint : Object → String) (specs : List AttributeSpec)
      (b : EffectBatch) (id ref : String) where
    -- The world is the one before, or the commit had begun.
    Untouched : W → W → ApplyError → Type 0
    Untouched w w' e = (w' ≡ w) ⊎ IsIncomplete e

    plan_and_commit-Fails :
        (w : W)
        → Fails (plan_and_commit ids store now datatype sprint specs b id ref w) (Untouched w)
    unfolding plan_and_commit Untouched
    plan_and_commit-Fails w = elim (Result-cases (build_plan ids store sprint specs w b.intents)) [
      | inr (e, h) ↦ rw h (inl refl)
      | inl (plan, h) ↦ rw h (elim (Exec-cases (commit ids store now datatype b id ref plan w)) [
        | inl (v, o, k) ↦ rw k tt
        | inr (v, e, k) ↦
            rw k
              (inr (Fails-err (λ w' e. IsIncomplete e) _ (commit-Fails datatype b id ref plan w) k))
      ])
    ]

    -- A batch that is refused writes nothing: unless the error is that of a commit that had begun, the
    -- world afterwards is the one before.
    pub rejection_writes_nothing :
        (w w' : W) (e : ApplyError)
        → apply ids store now datatype sprint specs b id ref w ≡ (w', err e)
        → (w' ≡ w) ⊎ IsIncomplete e
    unfolding Untouched
    rejection_writes_nothing w w' e h =
        elim (apply-cases ids store now datatype sprint specs b id ref w) [
          | inl (f, k) ↦ inl (ap (λ r. r.0) (sym h ∙ k))
          | inr (a, inl (f, k)) ↦ inl (ap (λ r. r.0) (sym h ∙ k))
          | inr (a, inr k) ↦ Fails-err (Untouched w) _ (plan_and_commit-Fails w) (sym k ∙ h)
        ]
