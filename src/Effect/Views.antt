-- ===== src/Effect/Views.antt =====
-- internal/effect/plan.go: what the plan reads of the graph, each entity once, and the violations.
use semmachina.Prelude.{
  String, if◌then◌else◌, Option, none, some, List, [], ◌∷◌, str_eq, Result, ok, err,
}
use semmachina.Vocabulary.Kinds.{UnknownValue}
use semmachina.Vocabulary.EntityKind
use semmachina.Vocabulary.EntityKind.{EntityKind}
use semmachina.Vocabulary.FailureReason.{
  FailureReason, effect_invalid, effect_entity_missing, effect_entity_kind,
}
use semmachina.Vocabulary.Attributes.{AttributeError}
use semmachina.Vocabulary.Predicates.{world_entity_kind}
use semmachina.Graph.{Object, text, EntityState, Store, StoreError, entity_not_found, objects_for}
use semmachina.Payload.Effects.{EffectError}

-- The violations, by what they say; `code` is the failure reason of each.
pub data Violation : Type 0 where
  mutation_refused : EffectError → Violation
  protected : String → Violation
  not_a_number not_a_reference own_object set_twice named_twice resident_not_text :
      String → Violation
  out_of_range : AttributeError → Violation
  entity_missing : String → Violation
  entity_unreadable : StoreError → Violation
  kindless many_kinds kind_not_text : String → Violation
  kind_unknown : UnknownValue → Violation
  subject_kind object_kind : String → EntityKind → Violation

unfoldable pub code : Violation → FailureReason
code (entity_missing id) = effect_entity_missing
code (entity_unreadable e) = effect_entity_missing
code (kindless id) = effect_entity_kind
code (many_kinds id) = effect_entity_kind
code (kind_not_text id) = effect_entity_kind
code (kind_unknown u) = effect_entity_kind
code (subject_kind p k) = effect_entity_kind
code (object_kind p k) = effect_entity_kind
code v = effect_invalid

pub record EntityView : Type 0 where
  pub state : EntityState
  pub kind : EntityKind

kind_in : String → List Object → Result Violation EntityKind
unfolding EntityKind.parse
kind_in id [] = err (kindless id)
kind_in id (text value ∷ []) = elim (EntityKind.parse value) [
  | err u ↦ err (kind_unknown u)
  | ok kind ↦ ok kind
]
kind_in id (object ∷ []) = err (kind_not_text id)
kind_in id (a ∷ b ∷ rest) = err (many_kinds id)

unfoldable pub kind_of_entity : EntityState → Result Violation EntityKind
unfolding kind_in objects_for
kind_of_entity state = kind_in state.id (objects_for state.triples world_entity_kind)

-- The map `seen`.
unfoldable pub seen_view : List (String × EntityView) → String → Option EntityView
seen_view [] id = none
seen_view ((j, view) ∷ rest) id = if str_eq j id then some view else seen_view rest id

module _ {W : Type 0} (store : Store W) (w : W) where
  unfoldable pub viewed :
      List (String × EntityView)
      → String
      → Result StoreError EntityState
      → Result Violation (EntityView × List (String × EntityView))
  unfolding kind_of_entity
  viewed seen id (err entity_not_found) = err (entity_missing id)
  viewed seen id (err e) = err (entity_unreadable e)
  viewed seen id (ok state) = elim (kind_of_entity state) [
    | err v ↦ err v
    | ok kind ↦
        let view : EntityView = record { state = state; kind = kind } in
        ok (view, (id, view) ∷ seen)
  ]

  -- `resolver.view`: the view, and the views that are known afterwards.
  unfoldable pub view :
      List (String × EntityView)
      → String
      → Result Violation (EntityView × List (String × EntityView))
  unfolding viewed seen_view
  view seen id = elim (seen_view seen id) [
    | some known ↦ ok (known, seen)
    | none ↦ viewed seen id (store.get_entity w id)
  ]
