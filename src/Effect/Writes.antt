-- ===== src/Effect/Writes.antt =====
-- internal/effect/plan.go `projections` and internal/projectioncontract/contracts.go: what one target
-- of a plan writes, as one complete group of predicates at a time. The datatype of references is a
-- parameter.
use semmachina.Prelude.{
  ℕ, String, Bool, true, false, ◌&&◌, not, if◌then◌else◌, Option, none, some, List, [], ◌∷◌, ◌++◌,
  str_eq, contains, keep,
}
use semmachina.Vocabulary.World.{attribute_for_predicate, relation_for_predicate}
use semmachina.Vocabulary.Predicates.{character_status_current, world_location_current}
use semmachina.Graph.{Triple, EntityState, Target, full_confidence}
use semmachina.Graph.Targets.{
  same_target, predicates_of, effect_target_attributes, effect_target_relationships,
  effect_target_status, effect_target_location,
}
use semmachina.Effect.Fold.{ObjectWrite, PredicateWrite, TargetWrite}

-- `EffectTargetForPredicate`.
unfoldable pub effect_target_for_predicate : String → Option Target
effect_target_for_predicate p = elim (attribute_for_predicate p) [
  | some a ↦ some effect_target_attributes
  | none ↦ elim (relation_for_predicate p) [
    | some r ↦ some effect_target_relationships
    | none ↦
        if str_eq p character_status_current
        then some effect_target_status
        else if str_eq p world_location_current
        then some effect_target_location
        else none
  ]
]

pub record ProjectionWrite : Type 0 where
  pub target : Target
  pub triples : List Triple

abbrev pub has_target : List Target → Target → Bool
has_target [] t = false
has_target (u ∷ us) t = if same_target u t then true else has_target us t

-- The targets of the predicates, in the order of their first use.
unfoldable pub targets_from : List Target → List PredicateWrite → List Target
targets_from found [] = found
targets_from found (x ∷ rest) = elim (effect_target_for_predicate x.predicate) [
  | none ↦ targets_from found rest
  | some t ↦ targets_from (if has_target found t then found else found ++ t ∷ []) rest
]

abbrev in_target : Target → String → Bool
in_target target p = elim (effect_target_for_predicate p) [
  | none ↦ false
  | some t ↦ same_target t target
]

unfoldable pub touched : Target → List PredicateWrite → String → Bool
touched target [] p = false
touched target (x ∷ rest) p =
    if in_target target x.predicate && str_eq x.predicate p then true else touched target rest p

module _ (datatype source : String) (w : TargetWrite) (context : String) (at : ℕ) where
  -- A resident value keeps its triple.
  object_triple : PredicateWrite → ObjectWrite → Triple
  object_triple x o = elim o.resident [
    | some t ↦ t
    | none ↦ record {
      subject = w.entity_id;
      predicate = x.predicate;
      object = o.object;
      source = source;
      timestamp = at;
      confidence = full_confidence;
      context = context;
      datatype = if x.reference then datatype else "";
    }
  ]

  unfoldable pub object_triples : PredicateWrite → List ObjectWrite → List Triple
  unfolding object_triple
  object_triples x [] = []
  object_triples x (o ∷ rest) = object_triple x o ∷ object_triples x rest

  unfoldable pub write_triples : Target → List PredicateWrite → List Triple
  unfolding object_triples
  write_triples target [] = []
  write_triples target (x ∷ rest) =
      let later = write_triples target rest in
      if in_target target x.predicate then object_triples x x.objects ++ later else later

  -- The facts of the group that the batch does not touch.
  untouched : Target → Option EntityState → List Triple
  unfolding touched
  untouched target none = []
  untouched target (some s) =
      keep
        (λ t.
          contains (predicates_of target) t.predicate && not (touched target w.writes t.predicate))
        s.triples

  unfoldable pub projection : Target → ProjectionWrite
  unfolding untouched write_triples
  projection target = record {
    target = target;
    triples = untouched target w.resident ++ write_triples target w.writes;
  }

  unfoldable pub project_all : List Target → List ProjectionWrite
  unfolding projection
  project_all [] = []
  project_all (t ∷ ts) = projection t ∷ project_all ts

  unfoldable pub projections : List ProjectionWrite
  unfolding project_all targets_from
  projections = project_all (targets_from [] w.writes)
