-- ===== src/Effect/Seen.antt =====
-- internal/effect/plan.go: the views of a plan are those of the store.
use semmachina.Prelude.{
  String, true, false, some, List, [], ◌∷◌, str_eq, ◌≡◌, refl, inl, inr, ok, All, Bool-cases,
  Option-cases, Result-cases, eq_iff, ok-injective,
}
use mathlib.Core.Path.{subst}
use semmachina.Vocabulary.EntityKind.{EntityKind}
use semmachina.Vocabulary.World.{allows_object_kind, is_entity_reference}
use semmachina.Graph.{Object, text, EntityState, Store, entity_not_found}
use semmachina.Graph.Ids.{IdRules}
use semmachina.Vocabulary.Attributes.{AttributeSpec}
use semmachina.Effect.Views.{EntityView, kind_of_entity, seen_view, viewed, view}
use semmachina.Effect.Plan.{Seen, reference_kind, check_referenced, check_object}

module _ {W : Type 0} (store : Store W) (w : W) where
  -- A view is what the store reads of the entity, with the one kind that the entity records.
  pub record IsViewOf (id : String) (v : EntityView) : Type 0 where
    pub stored : store.get_entity w id ≡ ok v.state
    pub kinded : kind_of_entity v.state ≡ ok v.kind

  abbrev pub AreViews : Seen → Type 0
  AreViews seen = All (λ x. IsViewOf x.0 x.1) seen

  -- The entity is in the graph and is of the kind.
  pub record HasKind (id : String) (kind : EntityKind) : Type 0 where
    pub state : EntityState
    pub stored : store.get_entity w id ≡ ok state
    pub kinded : kind_of_entity state ≡ ok kind

  pub kind_of_view : (id : String) (v : EntityView) → IsViewOf id v → HasKind id v.kind
  kind_of_view id v h = record { state = v.state; stored = h.stored; kinded = h.kinded }

  seen_view-IsViewOf :
      (seen : Seen) (id : String) (v : EntityView)
      → AreViews seen
      → seen_view seen id ≡ some v
      → IsViewOf id v
  unfolding seen_view
  seen_view-IsViewOf [] id v h = λ e. absurd (cc e)
  seen_view-IsViewOf ((j, u) ∷ rest) id v h = elim (Bool-cases (str_eq j id)) [
    | inl e ↦
        rw (e, seen_view)
          (λ k. subst (λ x. IsViewOf x v) ((eq_iff j id).0 e) (subst (IsViewOf j) (cc k) h.0))
    | inr e ↦ rw (e, seen_view) (seen_view-IsViewOf rest id v h.1)
  ]

  pub view-AreViews :
      (seen : Seen) (id : String) (found : EntityView × Seen)
      → AreViews seen
      → view store w seen id ≡ ok found
      → IsViewOf id found.0 × AreViews found.1
  unfolding view viewed
  view-AreViews seen id found h = elim (Option-cases (seen_view seen id)) [
    | inr (v, e) ↦
        rw (e, view)
          (λ k.
            let same = ok-injective k in
            (
              subst (λ f. IsViewOf id f.0) same (seen_view-IsViewOf seen id v h e),
              subst (λ f. AreViews f.1) same h,
            ))
    | inl e ↦ elim (Result-cases (store.get_entity w id)) [
      | inr (entity_not_found, g) ↦ rw (e, g, view) (λ k. absurd (cc k))
      | inr (f, g) ↦ rw (e, g, view) (λ k. absurd (cc k))
      | inl (s, g) ↦ elim (Result-cases (kind_of_entity s)) [
        | inr (f, c) ↦ rw (e, g, c, view, viewed) (λ k. absurd (cc k))
        | inl (kind, c) ↦
            rw (e, g, c, view, viewed)
              (λ k.
                let same = ok-injective k in
                let made : IsViewOf id (record { state = s; kind = kind }) = record {
                  stored = g;
                  kinded = c;
                } in
                (subst (λ f. IsViewOf id f.0) same made, subst (λ f. AreViews f.1) same (made, h)))
      ]
    ]
  ]

  module _ (ids : IdRules) (sprint : Object → String) (specs : List AttributeSpec) where
    -- The object of an entity reference is another entity, of a kind that the predicate allows.
    pub record RefersTo (p target_id : String) (object : Object) : Type 0 where
      pub id : String
      pub named : object ≡ text id
      pub other : str_eq id target_id ≡ false
      pub kind : EntityKind
      pub has_kind : HasKind id kind
      pub allowed : allows_object_kind p kind ≡ true

    check_referenced-RefersTo :
        (seen after : Seen) (p target_id : String) (object : Object)
        → AreViews seen
        → check_referenced ids store sprint specs w seen p target_id object ≡ ok after
        → RefersTo p target_id object × AreViews after
    unfolding check_referenced reference_kind
    check_referenced-RefersTo seen after p target_id (text id) h =
        elim (Bool-cases (str_eq id target_id)) [
          | inl own ↦ rw (own, check_referenced) (λ k. absurd (cc k))
          | inr other ↦ elim (Result-cases (view store w seen id)) [
            | inr (e, v) ↦ rw (other, v, check_referenced) (λ k. absurd (cc k))
            | inl (found, v) ↦ elim (Bool-cases (allows_object_kind p found.0.kind)) [
              | inr fails ↦ rw (other, v, fails, check_referenced) (λ k. absurd (cc k))
              | inl holds ↦
                  rw (other, v, holds, check_referenced)
                    (λ k.
                      let (seen_there, views) = view-AreViews seen id found h v in
                      (
                        record {
                          id = id;
                          named = refl;
                          other = other;
                          kind = found.0.kind;
                          has_kind = kind_of_view id found.0 seen_there;
                          allowed = holds;
                        },
                        subst AreViews (ok-injective k) views,
                      ))
            ]
          ]
        ]
    check_referenced-RefersTo seen after p target_id object h = λ k. absurd (cc k)

    pub check_object-RefersTo :
        (seen after : Seen) (p target_id : String) (object : Object)
        → AreViews seen
        → check_object ids store sprint specs w seen p target_id object ≡ ok after
        → (is_entity_reference p ≡ true → RefersTo p target_id object) × AreViews after
    unfolding check_object
    check_object-RefersTo seen after p target_id object h =
        elim (Bool-cases (is_entity_reference p)) [
          | inr fails ↦
              rw (fails, check_object)
                (λ k. (λ c. absurd (cc c), subst AreViews (ok-injective k) h))
          | inl holds ↦
              rw (holds, check_object)
                (λ k.
                  let (refers, views) =
                    check_referenced-RefersTo seen after p target_id object h k in
                  (λ _. refers, views))
        ]
