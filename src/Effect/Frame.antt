-- ===== src/Effect/Frame.antt =====
-- internal/effect/applier.go over a lawful store: what an application leaves alone.
use semmachina.Prelude.{
  ℕ, String, false, ◌||◌, none, List, [], ◌∷◌, ◌++◌, str_eq, contains, arith, ◌≡◌, refl, sym, ap,
  ◌∙◌, ◌⊎◌, inl, inr, ok, Result-cases, Option-cases, str_eq_comm,
}
use semmachina.Exec.{Post, Post-ok, Post-mono, Exec-cases}
use semmachina.Vocabulary.Attributes.{AttributeSpec}
use semmachina.Graph.{Object, Store, Target}
use semmachina.Graph.Laws.{objects_at, IsLawful}
use semmachina.Graph.Targets.{turn_effect_marker, predicates_of}
use semmachina.Graph.Ids.{IdRules}
use semmachina.Payload.EffectBatches.{EffectBatch, batch_triples}
use semmachina.Effect.Plan.{Plan, build_plan}
use semmachina.Effect.Writes.{ProjectionWrite, projections}
use semmachina.Effect.Steps.{IsWritten, apply-kept}
use semmachina.Effect.Cases.{apply-cases}
use semmachina.Effect.Applier.{
  Applied, source, write_all, write_target, write_plan, write_marker, commit, plan_and_commit,
  apply,
}

contains-append :
    (xs ys : List String) (s : String) → contains (xs ++ ys) s ≡ contains xs s || contains ys s
contains-append [] ys s = refl
contains-append (x ∷ xs) ys s = ground (arith, contains-append xs ys s)

module _ {W : Type 0} (ids : IdRules) (store : Store W) (now : W → ℕ)
    (lawful : IsLawful store) where
  abbrev Keeps : W → W → String → Type 0
  Keeps w w' j = (p : String) → objects_at store w' j p ≡ objects_at store w j p

  write_all-Keeps :
      (id : String) (ps : List ProjectionWrite) (w : W) (j : String)
      → str_eq j id ≡ false
      → (write_all ids store now id ps w).1 ≡ none
      → Keeps w (write_all ids store now id ps w).0 j
  unfolding write_all
  write_all-Keeps id [] w j n = λ h p. refl
  write_all-Keeps id (p ∷ ps) w j n =
      elim (Option-cases (store.reconcile w p.target id p.triples).1) [
        | inr (e, k) ↦ rw (k, write_all) (λ h. absurd (cc h))
        | inl k ↦
            rw (k, write_all)
              (λ h q.
                let v = (store.reconcile w p.target id p.triples).0 in
                write_all-Keeps id ps v j n h q
                ∙ lawful.reconcile_keeps_others w v p.target id p.triples j q (ap (λ e. (v, e)) k)
                    n)
      ]

  write_target-Keeps :
      (id : String) (written : List String) (ps : List ProjectionWrite) (w : W)
      → Post
          (write_target ids store now id written ps w)
          (λ w' _. (j : String) → str_eq j id ≡ false → Keeps w w' j)
  unfolding write_target
  write_target-Keeps id written ps w = elim (Option-cases (write_all ids store now id ps w).1) [
    | inr (e, h) ↦ rw h tt
    | inl h ↦ rw h (λ j n. write_all-Keeps id ps w j n h)
  ]

  -- An entity that is not among those written was not among the earlier ones, and is as it was.
  abbrev Elsewhere : List String → W → W → List String → Type 0
  Elsewhere written w w' all =
      (j : String) → contains all j ≡ false → (contains written j ≡ false) × Keeps w w' j

  apart :
      (written : List String) (id j : String)
      → contains (written ++ id ∷ []) j ≡ false
      → (contains written j ≡ false) × (str_eq j id ≡ false)
  apart written id j h = ground (arith, contains-append written (id ∷ []) j, str_eq_comm j id)

  write_plan-keeps :
      (datatype turn_id : String) (at : ℕ) (written : List String) (plan : Plan) (w : W)
      → Post (write_plan ids store now datatype turn_id at written plan w) (Elsewhere written w)
  unfolding write_plan
  write_plan-keeps datatype turn_id at written [] w = λ j h. (h, λ p. refl)
  write_plan-keeps datatype turn_id at written (t ∷ rest) w =
      let ps = projections datatype source t turn_id at in
      elim (Exec-cases (write_target ids store now t.entity_id written ps w)) [
        | inr (v, e, k) ↦ rw k tt
        | inl (v, u, k) ↦ rw k (
            Post-mono (Elsewhere (written ++ t.entity_id ∷ []) v) (Elsewhere written w) _
              (write_plan-keeps datatype turn_id at (written ++ t.entity_id ∷ []) rest v)
              (λ w' all later j h.
                let (out, kept) = later j h in
                let (earlier, other) = apart written t.entity_id j out in
                (
                  earlier,
                  λ p.
                      kept p
                      ∙ Post-ok (λ w' _. (j : String) → str_eq j t.entity_id ≡ false → Keeps w w' j)
                          _ (write_target-Keeps t.entity_id written ps w) k j other p,
                )))
      ]

  module _ (datatype : String) (sprint : Object → String) (specs : List AttributeSpec)
      (b : EffectBatch) (id ref : String) where
    -- A fact of another entity, or one that is not in the marker's group.
    abbrev Unmarked : String → String → Type 0
    Unmarked j p = (str_eq j id ≡ false) ⊎ (contains (predicates_of turn_effect_marker) p ≡ false)

    write_marker-keeps :
        (at : ℕ) (written : List String) (w : W)
        → Post (write_marker ids store now b id ref at written w) (λ w' _.
          (j p : String) → Unmarked j p → objects_at store w' j p ≡ objects_at store w j p)
    unfolding write_marker
    write_marker-keeps at written w = elim (Result-cases (batch_triples ids b id ref source at)) [
      | inr (e, h) ↦ rw h tt
      | inl (ts, h) ↦ rw h (elim (Option-cases (store.reconcile w turn_effect_marker id ts).1) [
        | inr (e, k) ↦ rw k tt
        | inl k ↦
            let v = (store.reconcile w turn_effect_marker id ts).0 in
            let done = ap (λ e. (v, e)) k in
            rw k (λ j p away. elim away [
              | inl other ↦
                  lawful.reconcile_keeps_others w v turn_effect_marker id ts j p done other
              | inr outside ↦ lawful.reconcile_keeps w v turn_effect_marker id ts j p done outside
            ])
      ])
    ]

    abbrev Frame : W → W → Applied → Type 0
    Frame w w' o =
        (j p : String)
        → contains o.targets j ≡ false
        → Unmarked j p
        → objects_at store w' j p ≡ objects_at store w j p

    commit-Frame :
        (plan : Plan) (w : W) → Post (commit ids store now datatype b id ref plan w) (Frame w)
    unfolding commit
    commit-Frame plan w =
        elim (Exec-cases (write_plan ids store now datatype b.turn_id (now w) [] plan w)) [
          | inr (v, e, k) ↦ rw k tt
          | inl (v, written, k) ↦
              let kept =
                Post-ok (Elsewhere [] w) _ (write_plan-keeps datatype b.turn_id (now w) [] plan w)
                  k in
              rw k (elim (Exec-cases (write_marker ids store now b id ref (now w) written v)) [
                | inr (v', e, l) ↦ rw l tt
                | inl (v', u, l) ↦ rw l (λ j p out away.
                    Post-ok
                      (λ w' _.
                        (j p : String)
                        → Unmarked j p
                        → objects_at store w' j p ≡ objects_at store v j p)
                      _ (write_marker-keeps (now w) written v) l j p away
                    ∙ (kept j out).1 p)
              ])
        ]

    plan_and_commit-Frame :
        (w : W) → Post (plan_and_commit ids store now datatype sprint specs b id ref w) (Frame w)
    unfolding plan_and_commit
    plan_and_commit-Frame w = elim (Result-cases (build_plan ids store sprint specs w b.intents)) [
      | inr (e, h) ↦ rw h tt
      | inl (plan, h) ↦ rw h (commit-Frame plan w)
    ]

    -- Over a lawful store, a successful application changes only what it answers that it wrote: every
    -- fact of an entity that is not among the answered targets is as it was, except that the marker's
    -- group on the turn's entity may have changed.
    pub apply_keeps_others :
        (w w' : W) (o : Applied) (j p : String)
        → apply ids store now datatype sprint specs b id ref w ≡ (w', ok o)
        → contains o.targets j ≡ false
        → (str_eq j id ≡ false) ⊎ (contains (predicates_of turn_effect_marker) p ≡ false)
        → objects_at store w' j p ≡ objects_at store w j p
    apply_keeps_others w w' o j p h out away =
        elim (apply-cases ids store now datatype sprint specs b id ref w) [
          | inl (e, k) ↦ absurd (cc (ap (λ r. r.1) (sym h ∙ k)))
          | inr (a, inl (f, k)) ↦ ap (λ r. objects_at store r.0 j p) (sym h ∙ k)
          | inr (a, inr k) ↦ Post-ok (Frame w) _ (plan_and_commit-Frame w) (sym k ∙ h) j p out away
        ]

    -- Over a lawful store, a successful application changes only the groups of effects and the marker: a
    -- fact whose predicate is in none of the groups that applications write is as it was, of any entity.
    pub apply_keeps_facts :
        (w w' : W) (o : Applied) (j p : String)
        → apply ids store now datatype sprint specs b id ref w ≡ (w', ok o)
        → ((t : Target) → IsWritten t → contains (predicates_of t) p ≡ false)
        → objects_at store w' j p ≡ objects_at store w j p
    apply_keeps_facts w w' o j p h out =
        apply-kept ids store now (λ w w'. objects_at store w' j p ≡ objects_at store w j p)
          (record {
            same = λ w. refl;
            next = λ u v w h k. k ∙ h;
            step = λ target id ts w w' t h.
                lawful.reconcile_keeps w w' target id ts j p h (out target t);
          })
          datatype sprint specs b id ref w w' o h
