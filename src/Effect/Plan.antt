-- ===== src/Effect/Plan.antt =====
-- internal/effect/plan.go: `foldIntent` and `buildPlan`.
use semmachina.Prelude.{
  ℕ, suc, String, not, if◌then◌else◌, none, some, List, [], ◌∷◌, str_eq, Result, ok, err, ◌>>=◌,
  ◌>>◌, guard, wrap,
}
use semmachina.Vocabulary.EffectType.{EffectType}
use semmachina.Vocabulary.Attributes.{AttributeSpec, check_attribute}
use semmachina.Vocabulary.World.{
  allows_subject_kind, allows_object_kind, is_entity_reference, attribute_for_predicate,
  is_protected_predicate,
}
use semmachina.Graph.{Object, text, int, Store}
use semmachina.Graph.Ids.{IdRules}
use semmachina.Payload.Effects.{EffectIntent, mutation, kind_of}
use semmachina.Effect.Views.{
  Violation, mutation_refused, protected, not_a_number, not_a_reference, own_object, out_of_range,
  subject_kind, object_kind, EntityView, view,
}
use semmachina.Effect.Fold.{TargetWrite, fold_value}

abbrev pub Seen : Type 0
Seen = List (String × EntityView)

-- The targets in the order of their first use: `order` and the map of the same keys.
abbrev pub Plan : Type 0
Plan = List TargetWrite

-- `plan.target`.
unfoldable pub target_of : Plan → String → TargetWrite
target_of [] id = record { entity_id = id; resident = none; writes = [] }
target_of (t ∷ rest) id = if str_eq t.entity_id id then t else target_of rest id

unfoldable pub put_target : TargetWrite → Plan → Plan
put_target t [] = t ∷ []
put_target t (u ∷ rest) = if str_eq u.entity_id t.entity_id then t ∷ rest else u ∷ put_target t rest

unfoldable pub check_bounds : List AttributeSpec → String → Object → Result Violation (Unit {0})
check_bounds specs p object = elim (attribute_for_predicate p) [
  | none ↦ ok tt
  | some a ↦ elim object [
    | int v ↦ wrap out_of_range (check_attribute specs a v)
    | _ ↦ err (not_a_number p)
  ]
]

-- Where and by whom a batch is refused: the index of the intent, its type and its target.
pub record Rejection : Type 0 where
  pub index : ℕ
  pub kind : EffectType
  pub target : String
  pub violation : Violation

module _ {W : Type 0} (ids : IdRules) (store : Store W) (sprint : Object → String)
    (specs : List AttributeSpec) (w : W) where
  unfoldable pub reference_kind : String → EntityView × Seen → Result Violation Seen
  reference_kind p (target, seen) =
      guard (allows_object_kind p target.kind) (object_kind p target.kind) >> ok seen

  -- `checkReferencedObject`, with the views that are known afterwards.
  unfoldable pub check_referenced : Seen → String → String → Object → Result Violation Seen
  unfolding reference_kind
  check_referenced seen p target_id (text object_id) =
      if str_eq object_id target_id
      then err (own_object p)
      else (view store w seen object_id >>= λ found. reference_kind p found)
  check_referenced seen p target_id object = err (not_a_reference p)

  unfoldable pub check_object : Seen → String → String → Object → Result Violation Seen
  unfolding check_referenced
  check_object seen p target_id object =
      if is_entity_reference p then check_referenced seen p target_id object else ok seen

  unfoldable pub fold_intent : Seen × Plan → EffectIntent → Result Violation (Seen × Plan)
  unfolding check_bounds check_object target_of put_target
  fold_intent (seen, plan) intent = do
    asked ← wrap mutation_refused (mutation ids intent)
    guard (not (is_protected_predicate asked.0)) (protected asked.0)
    check_bounds specs asked.0 asked.1
    found ← view store w seen intent.target
    guard (allows_subject_kind asked.0 found.0.kind) (subject_kind asked.0 found.0.kind)
    seen' ← check_object found.1 asked.0 intent.target asked.1
    write ←
        fold_value sprint found.0 asked.0 asked.1 (kind_of intent) (target_of plan intent.target)
    ok (seen', put_target write plan)

  abbrev rejection : ℕ → EffectIntent → Violation → Rejection
  rejection i intent v = record {
    index = i;
    kind = kind_of intent;
    target = intent.target;
    violation = v;
  }

  -- The loop of `buildPlan`, from an index.
  unfoldable pub fold_intents : ℕ → Seen × Plan → List EffectIntent → Result Rejection (Seen × Plan)
  unfolding fold_intent
  fold_intents i state [] = ok state
  fold_intents i state (intent ∷ rest) = elim (fold_intent state intent) [
    | err v ↦ err (rejection i intent v)
    | ok next ↦ fold_intents (suc i) next rest
  ]

  unfoldable pub build_plan : List EffectIntent → Result Rejection Plan
  unfolding fold_intents
  build_plan intents = fold_intents 0 ([], []) intents >>= λ state. ok state.1
