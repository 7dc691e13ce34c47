-- ===== src/Effect/Steps.antt =====
-- internal/effect/applier.go: what every successful write of an application respects, the application
-- respects.
use semmachina.Prelude.{
  ℕ, String, none, some, List, [], ◌∷◌, ◌++◌, ◌≡◌, sym, ap, ◌∙◌, inl, inr, ok, All, All-append,
  Result-cases, Option-cases, Bool-cases, str_eq,
}
use mathlib.Core.Path.{subst}
use semmachina.Exec.{Post, Post-ok, Post-mono, Exec-cases}
use semmachina.Vocabulary.Attributes.{AttributeSpec}
use semmachina.Vocabulary.World.{attribute_for_predicate, relation_for_predicate}
use semmachina.Vocabulary.Predicates.{character_status_current, world_location_current}
use semmachina.Graph.{Object, Triple, Store, Target}
use semmachina.Graph.Targets.{
  turn_effect_marker, effect_target_attributes, effect_target_relationships, effect_target_status,
  effect_target_location,
}
use semmachina.Graph.Ids.{IdRules}
use semmachina.Payload.EffectBatches.{EffectBatch, batch_triples}
use semmachina.Effect.Fold.{PredicateWrite, TargetWrite}
use semmachina.Effect.Plan.{Plan, build_plan}
use semmachina.Effect.Writes.{
  ProjectionWrite, effect_target_for_predicate, has_target, targets_from, projection, project_all,
  projections,
}
use semmachina.Effect.Cases.{apply-cases}
use semmachina.Effect.Applier.{
  Applied, source, write_all, write_target, write_plan, write_marker, commit, plan_and_commit,
  apply,
}

-- The targets that an application writes.
pub data IsWritten : Target → Type 0 where
  attributes : IsWritten effect_target_attributes
  relationships : IsWritten effect_target_relationships
  status : IsWritten effect_target_status
  location : IsWritten effect_target_location
  marker : IsWritten turn_effect_marker

effect_target-IsWritten :
    (p : String) (t : Target) → effect_target_for_predicate p ≡ some t → IsWritten t
unfolding effect_target_for_predicate
effect_target-IsWritten p t = elim (Option-cases (attribute_for_predicate p)) [
  | inr (a, e) ↦ rw (e, effect_target_for_predicate) (λ h. subst IsWritten (cc h) attributes)
  | inl e ↦ elim (Option-cases (relation_for_predicate p)) [
    | inr (r, f) ↦
        rw (e, f, effect_target_for_predicate) (λ h. subst IsWritten (cc h) relationships)
    | inl f ↦ elim (Bool-cases (str_eq p character_status_current)) [
      | inl s ↦ rw (e, f, s, effect_target_for_predicate) (λ h. subst IsWritten (cc h) status)
      | inr s ↦ elim (Bool-cases (str_eq p world_location_current)) [
        | inl l ↦
            rw (e, f, s, l, effect_target_for_predicate) (λ h. subst IsWritten (cc h) location)
        | inr l ↦ rw (e, f, s, l, effect_target_for_predicate) (λ h. absurd (cc h))
      ]
    ]
  ]
]

targets_from-IsWritten :
    (found : List Target) (xs : List PredicateWrite)
    → All IsWritten found
    → All IsWritten (targets_from found xs)
unfolding targets_from
targets_from-IsWritten found [] h = h
targets_from-IsWritten found (x ∷ xs) h =
    elim (Option-cases (effect_target_for_predicate x.predicate)) [
      | inl e ↦ rw (e, targets_from) (targets_from-IsWritten found xs h)
      | inr (t, e) ↦ elim (Bool-cases (has_target found t)) [
        | inl b ↦ rw (e, b, targets_from) (targets_from-IsWritten found xs h)
        | inr b ↦
            rw (e, b, targets_from)
              (targets_from-IsWritten (found ++ t ∷ []) xs (
                All-append IsWritten found (t ∷ []) h
                  (effect_target-IsWritten x.predicate t e, tt)))
      ]
    ]

project_all-IsWritten :
    (datatype src : String) (t : TargetWrite) (context : String) (at : ℕ) (targets : List Target)
    → All IsWritten targets
    → All (λ p. IsWritten p.target) (project_all datatype src t context at targets)
unfolding project_all projection
project_all-IsWritten datatype src t context at [] h = tt
project_all-IsWritten datatype src t context at (x ∷ xs) h =
    (h.0, project_all-IsWritten datatype src t context at xs h.1)

projections-IsWritten :
    (datatype src : String) (t : TargetWrite) (context : String) (at : ℕ)
    → All (λ p. IsWritten p.target) (projections datatype src t context at)
unfolding projections
projections-IsWritten datatype src t context at =
    project_all-IsWritten datatype src t context at (targets_from [] t.writes)
      (targets_from-IsWritten [] t.writes tt)

-- A relation that holds from every world to itself, that composes, and that a successful write of one of
-- the targets respects.
pub record IsKept {W : Type 0} (store : Store W) (R : W → W → Type 0) : Type 0 where
  pub same : (w : W) → R w w
  pub next : (u v w : W) → R u v → R v w → R u w
  pub step :
      (target : Target) (id : String) (ts : List Triple) (w w' : W)
      → IsWritten target
      → store.reconcile w target id ts ≡ (w', none)
      → R w w'

module _ {W : Type 0} (ids : IdRules) (store : Store W) (now : W → ℕ) (R : W → W → Type 0)
    (kept : IsKept store R) where
  write_all-kept :
      (id : String) (ps : List ProjectionWrite) (w : W)
      → All (λ p. IsWritten p.target) ps
      → (write_all ids store now id ps w).1 ≡ none
      → R w (write_all ids store now id ps w).0
  unfolding write_all
  write_all-kept id [] w all = λ h. kept.same w
  write_all-kept id (p ∷ ps) w all =
      elim (Option-cases (store.reconcile w p.target id p.triples).1) [
        | inr (e, k) ↦ rw (k, write_all) (λ h. absurd (cc h))
        | inl k ↦
            rw (k, write_all)
              (λ h.
                let v = (store.reconcile w p.target id p.triples).0 in
                kept.next w v _ (kept.step p.target id p.triples w v all.0 (ap (λ e. (v, e)) k))
                  (write_all-kept id ps v all.1 h))
      ]

  write_target-kept :
      (id : String) (written : List String) (ps : List ProjectionWrite) (w : W)
      → All (λ p. IsWritten p.target) ps
      → Post (write_target ids store now id written ps w) (λ w' _. R w w')
  unfolding write_target
  write_target-kept id written ps w all = elim (Option-cases (write_all ids store now id ps w).1) [
    | inr (e, h) ↦ rw h tt
    | inl h ↦ rw h (write_all-kept id ps w all h)
  ]

  pub write_plan-kept :
      (datatype turn_id : String) (at : ℕ) (written : List String) (plan : Plan) (w : W)
      → Post (write_plan ids store now datatype turn_id at written plan w) (λ w' _. R w w')
  unfolding write_plan
  write_plan-kept datatype turn_id at written [] w = kept.same w
  write_plan-kept datatype turn_id at written (t ∷ rest) w =
      let ps = projections datatype source t turn_id at in
      elim (Exec-cases (write_target ids store now t.entity_id written ps w)) [
        | inr (v, e, k) ↦ rw k tt
        | inl (v, u, k) ↦ rw k (
            Post-mono (λ w' _. R v w') (λ w' _. R w w') _
              (write_plan-kept datatype turn_id at (written ++ t.entity_id ∷ []) rest v)
              (λ w' _ later.
                kept.next w v w'
                  (Post-ok (λ w' _. R w w') _
                    (write_target-kept t.entity_id written ps w
                      (projections-IsWritten datatype source t turn_id at))
                    k)
                  later))
      ]

  write_marker-kept :
      (b : EffectBatch) (id ref : String) (at : ℕ) (written : List String) (w : W)
      → Post (write_marker ids store now b id ref at written w) (λ w' _. R w w')
  unfolding write_marker
  write_marker-kept b id ref at written w =
      elim (Result-cases (batch_triples ids b id ref source at)) [
        | inr (e, h) ↦ rw h tt
        | inl (ts, h) ↦ rw h (elim (Option-cases (store.reconcile w turn_effect_marker id ts).1) [
          | inr (e, k) ↦ rw k tt
          | inl k ↦ rw k (
              kept.step turn_effect_marker id ts w _ marker
                (ap (λ e. ((store.reconcile w turn_effect_marker id ts).0, e)) k))
        ])
      ]

  module _ (datatype : String) (sprint : Object → String) (specs : List AttributeSpec)
      (b : EffectBatch) (id ref : String) where
    commit-kept :
        (plan : Plan) (w : W)
        → Post (commit ids store now datatype b id ref plan w) (λ w' _. R w w')
    unfolding commit
    commit-kept plan w =
        elim (Exec-cases (write_plan ids store now datatype b.turn_id (now w) [] plan w)) [
          | inr (v, e, k) ↦ rw k tt
          | inl (v, written, k) ↦
              rw k (elim (Exec-cases (write_marker ids store now b id ref (now w) written v)) [
                | inr (v', e, l) ↦ rw l tt
                | inl (v', u, l) ↦ rw l (
                    kept.next w v v'
                      (Post-ok (λ w' _. R w w') _
                        (write_plan-kept datatype b.turn_id (now w) [] plan w) k)
                      (Post-ok (λ w' _. R v w') _ (write_marker-kept b id ref (now w) written v) l))
              ])
        ]

    plan_and_commit-kept :
        (w : W)
        → Post (plan_and_commit ids store now datatype sprint specs b id ref w) (λ w' _. R w w')
    unfolding plan_and_commit
    plan_and_commit-kept w = elim (Result-cases (build_plan ids store sprint specs w b.intents)) [
      | inr (e, h) ↦ rw h tt
      | inl (plan, h) ↦ rw h (commit-kept plan w)
    ]

    pub apply-kept :
        (w w' : W) (o : Applied)
        → apply ids store now datatype sprint specs b id ref w ≡ (w', ok o)
        → R w w'
    apply-kept w w' o h = elim (apply-cases ids store now datatype sprint specs b id ref w) [
      | inl (e, k) ↦ absurd (cc (ap (λ r. r.1) (sym h ∙ k)))
      | inr (a, inl (f, k)) ↦ subst (R w) (ap (λ r. r.0) (sym k ∙ h)) (kept.same w)
      | inr (a, inr k) ↦ Post-ok (λ w' _. R w w') _ (plan_and_commit-kept w) (sym k ∙ h)
    ]
