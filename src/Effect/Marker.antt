-- ===== src/Effect/Marker.antt =====
-- internal/effect/applier.go over a lawful store: the marker that an application leaves on the turn,
-- and a batch that is delivered again.
use mathlib.Core.Path.{subst}
use semmachina.Prelude.{
  ℕ, String, true, false, List, [], ◌∷◌, ◌≡◌, refl, sym, ap, ◌∙◌, inl, inr, ok, Result-cases,
  Option-cases, eq_refl,
}
use semmachina.Exec.{Post, Post-ok, Exec-cases}
use semmachina.Vocabulary.Attributes.{AttributeSpec}
use semmachina.Vocabulary.Predicates.{turn_effects_batch, turn_effects_ref}
use semmachina.Graph.{Object, text, Triple, Store, objects_for}
use semmachina.Graph.Laws.{is_present, objects_at, objects_read, was_read, IsLawful, reads_text}
use semmachina.Graph.Targets.{turn_effect_marker, predicates_of}
use semmachina.Graph.Ids.{IdRules}
use semmachina.Payload.Projection.{object_of}
use semmachina.Payload.Written.{build-objects, scalar_objects, ref_objects}
use semmachina.Payload.EffectBatches.{EffectBatch, validate_batch, batch_projection, batch_triples}
use semmachina.Effect.Plan.{Plan, build_plan}
use semmachina.Effect.Cases.{apply-cases, IsAdmitted, IsFound, found-skips}
use semmachina.Effect.Steps.{IsKept, write_plan-kept}
use semmachina.Effect.Applier.{
  Applied, source, marker_matches, marker_lists, already_applied, write_plan, write_marker, commit,
  plan_and_commit, apply,
}

-- The turn's entity is there and carries the marker of one batch.
module _ {W : Type 0} (store : Store W) where
  pub record IsMarked (w : W) (id batch_id batch_ref : String) : Type 0 where
    pub present : is_present store w id ≡ true
    pub batch : objects_at store w id turn_effects_batch ≡ text batch_id ∷ []
    pub reference : objects_at store w id turn_effects_ref ≡ text batch_ref ∷ []

module _ {W : Type 0} (ids : IdRules) (store : Store W) (now : W → ℕ) where
  KeepsPresent : W → W → Type 0
  KeepsPresent w w' = (id : String) → is_present store w' id ≡ is_present store w id

  module _ (lawful : IsLawful store) where
    present-IsKept : IsKept store KeepsPresent
    unfolding KeepsPresent
    present-IsKept = record {
      same = λ w j. refl;
      next = λ u v w h k j. k j ∙ h j;
      step = λ target id ts w w' t h j. lawful.reconcile_present w w' target id ts j h;
    }

    module _ (b : EffectBatch) (id ref : String) where
      marker-batch :
          (at : ℕ) (ts : List Triple)
          → batch_triples ids b id ref source at ≡ ok ts
          → objects_for ts turn_effects_batch ≡ text b.batch_id ∷ []
      unfolding batch_triples batch_projection scalar_objects ref_objects object_of
      marker-batch at ts h =
          build-objects ids (batch_projection b id ref source at) (validate_batch ids b) ts
            turn_effects_batch h

      marker-ref :
          (at : ℕ) (ts : List Triple)
          → batch_triples ids b id ref source at ≡ ok ts
          → objects_for ts turn_effects_ref ≡ text ref ∷ []
      unfolding batch_triples batch_projection scalar_objects ref_objects object_of
      marker-ref at ts h =
          build-objects ids (batch_projection b id ref source at) (validate_batch ids b) ts
            turn_effects_ref h

      write_marker-Post :
          (at : ℕ) (written : List String) (w : W)
          → is_present store w id ≡ true
          → Post
              (write_marker ids store now b id ref at written w)
              (λ w' _. IsMarked store w' id b.batch_id ref)
      unfolding write_marker predicates_of
      write_marker-Post at written w there =
          elim (Result-cases (batch_triples ids b id ref source at)) [
            | inr (e, h) ↦ rw h tt
            | inl (ts, h) ↦
                rw h (elim (Option-cases (store.reconcile w turn_effect_marker id ts).1) [
                  | inr (e, k) ↦ rw k tt
                  | inl k ↦
                      let v = (store.reconcile w turn_effect_marker id ts).0 in
                      let done = ap (λ e. (v, e)) k in
                      rw k (record {
                        present =
                            lawful.reconcile_present w v turn_effect_marker id ts id done ∙ there;
                        batch =
                            reads_text store lawful w v turn_effect_marker id ts turn_effects_batch
                              _ done refl (marker-batch at ts h);
                        reference =
                            reads_text store lawful w v turn_effect_marker id ts turn_effects_ref _
                              done refl (marker-ref at ts h);
                      })
                ])
          ]

    module _ (datatype : String) (sprint : Object → String) (specs : List AttributeSpec)
        (b : EffectBatch) (id ref : String) where
      commit-Post :
          (plan : Plan) (w : W)
          → is_present store w id ≡ true
          → Post
              (commit ids store now datatype b id ref plan w)
              (λ w' _. IsMarked store w' id b.batch_id ref)
      unfolding commit KeepsPresent
      commit-Post plan w there =
          elim (Exec-cases (write_plan ids store now datatype b.turn_id (now w) [] plan w)) [
            | inr (v, e, k) ↦ rw k tt
            | inl (v, written, k) ↦
                let kept =
                  Post-ok (λ w' _. KeepsPresent w w') _
                    (write_plan-kept ids store now KeepsPresent present-IsKept datatype b.turn_id
                      (now w) [] plan w)
                    k in
                rw k (elim (Exec-cases (write_marker ids store now b id ref (now w) written v)) [
                  | inr (v', e, l) ↦ rw l tt
                  | inl (v', u, l) ↦ rw l (
                      Post-ok (λ w' _. IsMarked store w' id b.batch_id ref) _
                        (write_marker-Post b id ref (now w) written v (kept id ∙ there)) l)
                ])
          ]

      plan_and_commit-Post :
          (w : W)
          → is_present store w id ≡ true
          → Post
              (plan_and_commit ids store now datatype sprint specs b id ref w)
              (λ w' _. IsMarked store w' id b.batch_id ref)
      unfolding plan_and_commit
      plan_and_commit-Post w there =
          elim (Result-cases (build_plan ids store sprint specs w b.intents)) [
            | inr (e, h) ↦ rw h tt
            | inl (plan, h) ↦ rw h (commit-Post plan w there)
          ]

      -- A turn that carries the marker of the batch names it.
      pub marked-IsFound :
          (w : W)
          → IsMarked store w id b.batch_id ref
          → IsFound ids store now datatype sprint specs b id ref w
      unfolding already_applied marker_lists marker_matches
      marked-IsFound w m = elim (Result-cases (store.get_entity w id)) [
        | inr (e, h) ↦ absurd (cc (ap was_read (sym h) ∙ m.present))
        | inl (s, h) ↦
            let batch = ap (λ r. objects_read r turn_effects_batch) (sym h) ∙ m.batch in
            let reference = ap (λ r. objects_read r turn_effects_ref) (sym h) ∙ m.reference in
            record {
              state = s;
              stored = h;
              found = rw (batch, reference, eq_refl b.batch_id, eq_refl ref) refl;
            }
      ]

      -- After an application, or when none was needed, the turn names the batch.
      pub applied-IsFound :
          (w w' : W) (o : Applied)
          → apply ids store now datatype sprint specs b id ref w ≡ (w', ok o)
          → IsAdmitted ids store now datatype sprint specs b id ref w
            × IsFound ids store now datatype sprint specs b id ref w'
      applied-IsFound w w' o h = elim (apply-cases ids store now datatype sprint specs b id ref w) [
        | inl (e, k) ↦ absurd (cc (ap (λ r. r.1) (sym h ∙ k)))
        | inr (a, inl (f, k)) ↦ (
          a,
          subst (IsFound ids store now datatype sprint specs b id ref) (ap (λ r. r.0) (sym k ∙ h))
              f,
        )
        | inr (a, inr k) ↦ (
          a,
          marked-IsFound w' (
              Post-ok (λ w' _. IsMarked store w' id b.batch_id ref) _
                (plan_and_commit-Post w a.present) (sym k ∙ h)),
        )
      ]

      -- Over a lawful store, a batch that was applied, or found applied, and is delivered again for the
      -- same turn and under the same reference changes nothing: the world stays, and the answer is that
      -- nothing was applied and no target written.
      pub apply_again :
          (w w' : W) (o : Applied)
          → apply ids store now datatype sprint specs b id ref w ≡ (w', ok o)
          → apply ids store now datatype sprint specs b id ref w'
            ≡ (w', ok (record { batch_id = b.batch_id; applied = false; targets = [] }))
      apply_again w w' o h =
          let (admitted, found) = applied-IsFound w w' o h in
          found-skips ids store now datatype sprint specs b id ref w w' admitted found
