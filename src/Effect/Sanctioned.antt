-- ===== src/Effect/Sanctioned.antt =====
-- internal/effect/plan.go `buildPlan`: what a plan may write.
use mathlib.Core.Path.{subst}
use semmachina.Prelude.{
  ℕ, suc, String, true, false, none, some, List, [], ◌∷◌, str_eq, ◌≡◌, refl, sym, ap, ◌∙◌, inl, inr,
  ok, ◌>>=◌, All, Bool-cases, Result-cases, eq_iff, ok-injective, >>=-eq-ok,
}
use semmachina.Vocabulary.EntityKind.{EntityKind}
use semmachina.Vocabulary.EffectType.{EffectType}
use semmachina.Vocabulary.Attributes.{AttributeSpec}
use semmachina.Vocabulary.World.{allows_subject_kind, is_entity_reference, is_protected_predicate}
use semmachina.Graph.{Object, Store}
use semmachina.Graph.Ids.{IdRules}
use semmachina.Payload.Effects.{EffectIntent, mutation, kind_of}
use semmachina.Effect.Views.{EntityView, view}
use semmachina.Effect.Fold.{
  PredicateWrite, TargetWrite, find_write, put_write, entry_for, fold_entry, fold_value,
}
use semmachina.Effect.Plan.{
  Seen, Plan, target_of, put_target, check_bounds, check_object, fold_intent, fold_intents,
  build_plan,
}
use semmachina.Effect.Seen.{
  AreViews, HasKind, kind_of_view, view-AreViews, RefersTo, check_object-RefersTo,
}
use semmachina.Effect.Entries.{IsEntry, put_write-All, entry_for-IsOpen, fold_entry-IsEntry}

module _ {W : Type 0} (ids : IdRules) (store : Store W) (sprint : Object → String)
    (specs : List AttributeSpec) (w : W) where
  -- A new value: within the bounds of its attribute, and an allowed entity where it refers to one.
  pub record IsFit (target_id p : String) (object : Object) : Type 0 where
    pub bounded : check_bounds specs p object ≡ ok tt
    pub refers : is_entity_reference p ≡ true → RefersTo store w ids sprint specs p target_id object

  -- A predicate that intents may write, on an entity of a kind that it allows, with fit values.
  pub record IsSanctioned (id : String) (x : PredicateWrite) : Type 0 where
    pub unprotected : is_protected_predicate x.predicate ≡ false
    pub kind : EntityKind
    pub has_kind : HasKind store w id kind
    pub allowed : allows_subject_kind x.predicate kind ≡ true
    pub values : IsEntry (IsFit id) x

  abbrev pub AreSanctioned : TargetWrite → Type 0
  AreSanctioned t = All (IsSanctioned t.entity_id) t.writes

  values_of :
      (id : String) (xs : List PredicateWrite)
      → All (IsSanctioned id) xs
      → All (IsEntry (IsFit id)) xs
  values_of id [] h = tt
  values_of id (x ∷ xs) h = (h.0.values, values_of id xs h.1)

  fold_value-AreSanctioned :
      (target : EntityView) (p : String) (object : Object) (t : EffectType)
      (write after : TargetWrite) (kind : EntityKind)
      → is_protected_predicate p ≡ false
      → HasKind store w write.entity_id kind
      → allows_subject_kind p kind ≡ true
      → IsFit write.entity_id p object
      → AreSanctioned write
      → fold_value sprint target p object t write ≡ ok after
      → AreSanctioned after
  unfolding fold_value
  fold_value-AreSanctioned target p object t write after kind free has fits good h k =
      let id = write.entity_id in
      let (found, e, next) =
        >>=-eq-ok (entry_for target p (find_write p write.writes))
          (λ found. fold_entry sprint found object t >>= λ folded. ok (record write {
            resident = elim write.resident [ none ↦ some target.state | some s ↦ some s ];
            writes = put_write folded write.writes;
          }))
          k in
      let (folded, f, last) =
        >>=-eq-ok (fold_entry sprint found object t)
          (λ folded. ok (record write {
            resident = elim write.resident [ none ↦ some target.state | some s ↦ some s ];
            writes = put_write folded write.writes;
          }))
          next in
      let (opened, same) =
        entry_for-IsOpen (IsFit id) target p write.writes found (values_of id write.writes h) e in
      let (values, kept) =
        fold_entry-IsEntry (IsFit id) sprint found folded object t
          (subst (λ q. IsFit id q object) (sym same) good) opened f in
      let named = kept ∙ same in
      subst AreSanctioned (ok-injective last) (
        put_write-All (IsSanctioned id) folded write.writes
          (record {
            unprotected = ap is_protected_predicate named ∙ free;
            kind = kind;
            has_kind = has;
            allowed = ap (λ q. allows_subject_kind q kind) named ∙ fits;
            values = values;
          })
          h)

  target_of-AreSanctioned :
      (plan : Plan) (id : String)
      → All AreSanctioned plan
      → ((target_of plan id).entity_id ≡ id) × AreSanctioned (target_of plan id)
  unfolding target_of
  target_of-AreSanctioned [] id h = (refl, tt)
  target_of-AreSanctioned (t ∷ rest) id h = elim (Bool-cases (str_eq t.entity_id id)) [
    | inl e ↦ rw (e, target_of) ((eq_iff t.entity_id id).0 e, h.0)
    | inr e ↦ rw (e, target_of) (target_of-AreSanctioned rest id h.1)
  ]

  put_target-AreSanctioned :
      (t : TargetWrite) (plan : Plan)
      → AreSanctioned t
      → All AreSanctioned plan
      → All AreSanctioned (put_target t plan)
  unfolding put_target
  put_target-AreSanctioned t [] h k = (h, tt)
  put_target-AreSanctioned t (u ∷ rest) h k = elim (Bool-cases (str_eq u.entity_id t.entity_id)) [
    | inl e ↦ rw (e, put_target) (h, k.1)
    | inr e ↦ rw (e, put_target) (k.0, put_target-AreSanctioned t rest h k.1)
  ]

  abbrev IsGood : Seen × Plan → Type 0
  IsGood state = AreViews store w state.0 × All AreSanctioned state.1

  fold_intent-IsGood :
      (seen : Seen) (plan : Plan) (i : EffectIntent) (after : Seen × Plan)
      → AreViews store w seen
      → All AreSanctioned plan
      → fold_intent ids store sprint specs w (seen, plan) i ≡ ok after
      → IsGood after
  unfolding fold_intent
  fold_intent-IsGood seen plan i after views good = elim (Result-cases (mutation ids i)) [
    | inr (e, m) ↦ rw (m, fold_intent) (λ k. absurd (cc k))
    | inl ((p, object), m) ↦ elim (Bool-cases (is_protected_predicate p)) [
      | inl f ↦ rw (m, f, fold_intent) (λ k. absurd (cc k))
      | inr f ↦ elim (Result-cases (check_bounds specs p object)) [
        | inr (e, b) ↦ rw (m, f, b, fold_intent) (λ k. absurd (cc k))
        | inl (u, b) ↦ elim (Result-cases (view store w seen i.target)) [
          | inr (e, v) ↦ rw (m, f, b, v, fold_intent) (λ k. absurd (cc k))
          | inl (found, v) ↦ elim (Bool-cases (allows_subject_kind p found.0.kind)) [
            | inr a ↦ rw (m, f, b, v, a, fold_intent) (λ k. absurd (cc k))
            | inl a ↦
                elim (Result-cases
                  (check_object ids store sprint specs w found.1 p i.target object)) [
                    | inr (e, c) ↦ rw (m, f, b, v, a, c, fold_intent) (λ k. absurd (cc k))
                    | inl (seen', c) ↦
                        elim (Result-cases (
                          fold_value sprint found.0 p object (kind_of i)
                            (target_of plan i.target))) [
                              | inr (e, x) ↦
                                  rw (m, f, b, v, a, c, x, fold_intent) (λ k. absurd (cc k))
                              | inl (write, x) ↦
                                  rw (m, f, b, v, a, c, x, fold_intent)
                                    (λ k.
                                      let (here, known) =
                                        view-AreViews store w seen i.target found views v in
                                      let (refers, later) =
                                        check_object-RefersTo store w ids sprint specs found.1 seen'
                                          p i.target object known c in
                                      let (same, held) =
                                        target_of-AreSanctioned plan i.target good in
                                      let done =
                                        fold_value-AreSanctioned found.0 p object (kind_of i)
                                          (target_of plan i.target) write found.0.kind f
                                          (subst (λ j. HasKind store w j found.0.kind) (sym same)
                                            (kind_of_view store w i.target found.0 here))
                                          a
                                          (subst (λ j. IsFit j p object) (sym same)
                                            (record { bounded = b; refers = refers }))
                                          held x in
                                      subst IsGood (ok-injective k)
                                        (later, put_target-AreSanctioned write plan done good))
                            ]
                  ]
          ]
        ]
      ]
    ]
  ]

  fold_intents-IsGood :
      (n : ℕ) (state after : Seen × Plan) (intents : List EffectIntent)
      → IsGood state
      → fold_intents ids store sprint specs w n state intents ≡ ok after
      → IsGood after
  unfolding fold_intents
  fold_intents-IsGood n state after [] h = λ k. subst IsGood (ok-injective k) h
  fold_intents-IsGood n state after (i ∷ rest) h =
      elim (Result-cases (fold_intent ids store sprint specs w state i)) [
        | inr (e, f) ↦ rw (f, fold_intents) (λ k. absurd (cc k))
        | inl (next, f) ↦
            rw (f, fold_intents)
              (fold_intents-IsGood (suc n) next after rest
                (fold_intent-IsGood state.0 state.1 i next h.0 h.1 f))
      ]

  -- A plan that was built writes only what the batch may write: every predicate that it writes to an
  -- entity is not a protected one, and the entity is in the graph and is of a kind that the predicate
  -- allows; each new value is within the bounds of its attribute and, where it refers to an entity,
  -- names another entity in the graph of a kind that the predicate allows; and a predicate of one value
  -- gets exactly one value, a new one.
  pub plan_is_sanctioned :
      (intents : List EffectIntent) (plan : Plan)
      → build_plan ids store sprint specs w intents ≡ ok plan
      → All AreSanctioned plan
  unfolding build_plan
  plan_is_sanctioned intents plan h =
      let (after, folded, last) =
        >>=-eq-ok (fold_intents ids store sprint specs w 0 ([], []) intents) (λ state. ok state.1)
          h in
      subst (All AreSanctioned) (ok-injective last)
        (fold_intents-IsGood 0 ([], []) after intents (tt, tt) folded).1
