-- ===== src/Payload/Projection.antt =====
-- internal/payload/triples.go: `RequireStorageRef`, `tripleProjection.build` and its checks.
use semmachina.Prelude.{
  len, ℕ, String, Bool, ◌&&◌, ◌||◌, not, if◌then◌else◌, Option, none, some, List, [], ◌∷◌, ◌++◌,
  ltb, ◌==◌, str_eq, length, contains, Result, ok, err, ◌>>=◌, ◌>>◌, guard, wrap,
}
use semmachina.Payload.Text.{cut_prefix, cut_at}
use semmachina.Graph.{Object, text, int, boolean, Triple, full_confidence}
use semmachina.Graph.Ids.{
  IdRules, IdError, is_storage_ref, validate_id_segment, require_entity_id, require_turn_entity_id,
}

-- `V` is the error of the payload's own validation.
pub data ProjectionError (V : Type 0) : Type 0 where
  invalid_payload : V → ProjectionError V
  bad_id : IdError → ProjectionError V
  other_player : ProjectionError V
  no_source no_timestamp no_ref : ProjectionError V
  writes_nothing scalars_registered nothing_registered : ProjectionError V
  registered_twice no_field : String → ProjectionError V
  ref_on_refless no_ref_predicate no_ref_name ref_is_scalar unregistered_field : ProjectionError V
  predicate_rejected object_empty object_too_long : String → ProjectionError V
  not_a_storage_ref no_ref_key no_ref_instance : String → ProjectionError V
  scalar_as_storage_ref object_type : String → ProjectionError V

unfoldable pub require_storage_ref :
    {V : Type 0} → String → String → Result (ProjectionError V) (Unit {0})
unfolding cut_prefix cut_at
require_storage_ref field value = elim (cut_prefix "obj://" value) [
  | none ↦ err (not_a_storage_ref field)
  | some rest ↦ elim (cut_at b'/' rest) [
    | none ↦ err (no_ref_key field)
    | some (instance_name, key) ↦
        if str_eq key ""
        then err (no_ref_key field)
        else if str_eq instance_name ""
        then err (no_ref_instance field)
        else ok tt
  ]
]

-- A `nil` object or one of another type is `other`.
unfoldable pub check_triple_object :
    {V : Type 0} → IdRules → String → Object → Result (ProjectionError V) (Unit {0})
unfolding require_storage_ref is_storage_ref
check_triple_object ids predicate object = elim (ids.parse_predicate predicate) [
  | none ↦ err (predicate_rejected predicate)
  | some _ ↦ elim object [
    | text value ↦
        if str_eq value ""
        then err (object_empty predicate)
        else if ltb ids.max_entity_id_bytes (len value)
        then err (object_too_long predicate)
        else if is_storage_ref ids predicate
        then require_storage_ref predicate value
        else ok tt
    | int _ ↦ if is_storage_ref ids predicate then err (scalar_as_storage_ref predicate) else ok tt
    | boolean _ ↦
        if is_storage_ref ids predicate then err (scalar_as_storage_ref predicate) else ok tt
    | _ ↦ err (object_type predicate)
  ]
]

pub record TripleProjection : Type 0 where
  pub subject : String
  pub turn_id : String
  pub player_subject : String
  pub source : String
  pub at : ℕ
  pub registered : List String
  pub objects : List (String × Object)
  pub ref_predicate : String
  pub ref_name : String
  pub ref : String
  pub refless : Bool
  pub scalarless : Bool

unfoldable pub object_of : List (String × Object) → String → Option Object
object_of [] predicate = none
object_of ((p, o) ∷ rest) predicate =
    if str_eq p predicate then some o else object_of rest predicate

check_registered :
    {V : Type 0}
    → List (String × Object)
    → List String
    → List String
    → Result (ProjectionError V) (List String)
unfolding object_of
check_registered objects seen [] = ok seen
check_registered objects seen (p ∷ ps) =
    let rest = check_registered objects (p ∷ seen) ps in
    if contains seen p
    then err (registered_twice p)
    else elim (object_of objects p) [ none ↦ err (no_field p) | some _ ↦ rest ]

unfoldable pub triple : TripleProjection → String → Object → Triple
triple p predicate object = record {
  subject = p.subject;
  predicate = predicate;
  object = object;
  source = p.source;
  timestamp = p.at;
  confidence = full_confidence;
  context = p.turn_id;
  datatype = "";
}

module _ {V : Type 0} (ids : IdRules) (p : TripleProjection) where
  unfoldable pub check_subject : Result (ProjectionError V) (Unit {0})
  check_subject =
      if str_eq p.player_subject ""
      then wrap bad_id (require_turn_entity_id ids p.turn_id p.subject)
      else (do
        wrap bad_id (validate_id_segment ids p.turn_id)
        wrap bad_id (require_entity_id ids p.subject)
        guard (str_eq p.subject p.player_subject) other_player)

  check_reference : List String → Result (ProjectionError V) (Unit {0})
  check_reference seen =
      if p.refless
      then guard (str_eq p.ref_predicate "" && str_eq p.ref "" && str_eq p.ref_name "")
          ref_on_refless
      else (do
        guard (not (str_eq p.ref_predicate "")) no_ref_predicate
        guard (not (str_eq p.ref_name "")) no_ref_name
        guard (not (contains seen p.ref_predicate)) ref_is_scalar)

  check_registration : Result (ProjectionError V) (Unit {0})
  check_registration =
      if p.scalarless
      then guard (length p.registered == 0) scalars_registered
      else guard (not (length p.registered == 0)) nothing_registered

  unfoldable pub check_predicate_set : Result (ProjectionError V) (Unit {0})
  unfolding check_registered check_registration check_reference
  check_predicate_set = do
    guard (not (p.scalarless && p.refless)) writes_nothing
    check_registration
    seen ← check_registered p.objects [] p.registered
    check_reference seen
    guard (length p.objects == length p.registered) unregistered_field

  -- A registered predicate without an object cannot come here: `check_predicate_set` refused it.
  unfoldable pub scalar_triples : List String → Result (ProjectionError V) (List Triple)
  unfolding check_triple_object triple object_of
  scalar_triples [] = ok []
  scalar_triples (predicate ∷ rest) =
      let later = scalar_triples rest in
      elim (object_of p.objects predicate) [
        | none ↦ err (object_type predicate)
        | some object ↦ check_triple_object ids predicate object >>= λ _.
            later >>= λ ts. ok (triple p predicate object ∷ ts)
      ]

  unfoldable pub ref_triples : Result (ProjectionError V) (List Triple)
  unfolding check_triple_object triple
  ref_triples = if p.refless then ok [] else (do
    check_triple_object ids p.ref_predicate (text p.ref)
    ok (triple p p.ref_predicate (text p.ref) ∷ []))

  -- The checks before the first triple; `validated` is what the payload's `Validate` returned.
  unfoldable pub check_projection : Result V (Unit {0}) → Result (ProjectionError V) (Unit {0})
  unfolding check_subject check_predicate_set
  check_projection validated = do
    wrap invalid_payload validated
    check_subject
    guard (not (str_eq p.source "")) no_source
    guard (not (p.at == 0)) no_timestamp
    check_predicate_set
    guard (p.refless || not (str_eq p.ref "")) no_ref

  unfoldable pub project : Result (ProjectionError V) (List Triple)
  unfolding scalar_triples ref_triples
  project = do scalars ← scalar_triples p.registered; refs ← ref_triples; ok (scalars ++ refs)

  unfoldable pub build : Result V (Unit {0}) → Result (ProjectionError V) (List Triple)
  unfolding check_projection project
  build validated = check_projection validated >> project
