-- ===== src/Payload/Effects.antt =====
-- internal/payload/effect.go: an effect intent, its validation and the mutation that it asks for.
use semmachina.Prelude.{
  String, Bool, true, false, ◌&&◌, not, if◌then◌else◌, Option, none, some, List, [], ◌∷◌, str_eq,
  contains, Result, ok, err, ◌>>=◌, ◌>>◌, wrap,
}
use semmachina.Prelude.Int.{ℤ}
use semmachina.Vocabulary.Kinds.{Kind, UnknownValue}
use semmachina.Vocabulary.EffectType
use semmachina.Vocabulary.EffectType.{
  EffectType, set_attribute, set_status, move_entity, add_relationship, remove_relationship,
}
use semmachina.Vocabulary.Attribute
use semmachina.Vocabulary.Status
use semmachina.Vocabulary.Relation
use semmachina.Vocabulary.Attributes.{
  AttributeError, spec_of, check_attribute, engine_specs, relation_predicate,
}
use semmachina.Vocabulary.Predicates.{character_status_current, world_location_current}
use semmachina.Graph.{Object, text, int}
use semmachina.Graph.Ids.{IdRules, IdError, require_entity_id}

-- An absent field is the empty text; an absent value is `none`.
pub record EffectIntent : Type 0 where
  pub kind : EffectType
  pub target : String
  pub attribute : Attribute.Attribute
  pub value : Option ℤ
  pub status : Status.Status
  pub location : String
  pub relation : Relation.Relation
  pub object : String

pub data EffectError : Type 0 where
  unknown : UnknownValue → EffectError
  bad_id : IdError → EffectError
  must_not_carry requires : String → EffectError
  bad_attribute : AttributeError → EffectError
  no_rule : EffectError

abbrev is_given : String → Bool
is_given s = not (str_eq s "")

-- The map `populated` at each field, in the order of the loop.
populated : EffectIntent → List (String × Bool)
populated i =
    ("attribute", is_given (Attribute.to_string i.attribute))
    ∷ ("value", elim i.value [ none ↦ false | some v ↦ true ])
    ∷ ("status", is_given (Status.to_string i.status))
    ∷ ("location", is_given i.location)
    ∷ ("relation", is_given (Relation.to_string i.relation))
    ∷ ("object", is_given i.object)
    ∷ []

check_fields : List String → List (String × Bool) → Result EffectError (Unit {0})
check_fields allowed [] = ok tt
check_fields allowed ((field, given) ∷ rest) =
    let later = check_fields allowed rest in
    if given && not (contains allowed field)
    then err (must_not_carry field)
    else if not given && contains allowed field
    then err (requires field)
    else later

unfoldable pub require_only : EffectIntent → List String → Result EffectError (Unit {0})
unfolding populated check_fields
require_only i allowed = check_fields allowed (populated i)

unfoldable pub check_value : Attribute.Attribute → Option ℤ → Result EffectError (Unit {0})
unfolding check_attribute engine_specs
check_value a none = err (requires "value")
check_value a (some v) = wrap bad_attribute (check_attribute engine_specs a v)

unfoldable pub check_status : Status.Status → Result EffectError (Unit {0})
check_status s = wrap unknown (Status.parse (Status.to_string s)) >>= λ _. ok tt

unfoldable pub check_relationship : IdRules → EffectIntent → Result EffectError (Unit {0})
unfolding require_only
check_relationship ids i = do
  require_only i ("relation" ∷ "object" ∷ [])
  relation ← wrap unknown (Relation.parse (Relation.to_string i.relation))
  wrap bad_id (require_entity_id ids i.object)

-- The switch on the type of the intent.
unfoldable pub validate_as : IdRules → EffectIntent → EffectType → Result EffectError (Unit {0})
unfolding require_only check_value check_status check_relationship
validate_as ids i set_attribute = do
  require_only i ("attribute" ∷ "value" ∷ [])
  check_value i.attribute i.value
validate_as ids i set_status = do require_only i ("status" ∷ []); check_status i.status
validate_as ids i move_entity = do
  require_only i ("location" ∷ [])
  wrap bad_id (require_entity_id ids i.location)
validate_as ids i add_relationship = check_relationship ids i
validate_as ids i remove_relationship = check_relationship ids i
validate_as ids i (EffectType.foreign s) = err no_rule

-- The constant that the type's text names.
unfoldable pub kind_of : EffectIntent → EffectType
unfolding EffectType.of_string
kind_of i = EffectType.of_string (EffectType.to_string i.kind)

unfoldable pub validate_intent : IdRules → EffectIntent → Result EffectError (Unit {0})
unfolding validate_as kind_of
validate_intent ids i = do
  kind ← wrap unknown (EffectType.parse (EffectType.to_string i.kind))
  wrap bad_id (require_entity_id ids i.target)
  validate_as ids i (kind_of i)

-- The mutation of an attribute; without a value the code would panic, and `Validate` refused it.
unfoldable pub mutate_attribute :
    Attribute.Attribute → Option ℤ → Result EffectError (String × Object)
unfolding engine_specs
mutate_attribute a value = elim (spec_of engine_specs a) [
  | none ↦ err (unknown (record { kind = Kind.attribute; value = Attribute.to_string a }))
  | some spec ↦ elim value [ none ↦ err (requires "value") | some v ↦ ok (spec.predicate, int v) ]
]

unfoldable pub mutate_relation : Relation.Relation → String → Result EffectError (String × Object)
unfolding relation_predicate Relation.of_string
mutate_relation r object = elim (relation_predicate (Relation.of_string (Relation.to_string r))) [
  | none ↦ err (unknown (record { kind = Kind.relation; value = Relation.to_string r }))
  | some predicate ↦ ok (predicate, text object)
]

unfoldable pub mutation_as : EffectIntent → EffectType → Result EffectError (String × Object)
unfolding mutate_attribute mutate_relation
mutation_as i set_attribute = mutate_attribute i.attribute i.value
mutation_as i set_status = ok (character_status_current, text (Status.to_string i.status))
mutation_as i move_entity = ok (world_location_current, text i.location)
mutation_as i add_relationship = mutate_relation i.relation i.object
mutation_as i remove_relationship = mutate_relation i.relation i.object
mutation_as i (EffectType.foreign s) = err (unknown (record { kind = Kind.effect_type; value = s }))

-- The predicate and the object that the intent writes.
unfoldable pub mutation : IdRules → EffectIntent → Result EffectError (String × Object)
unfolding validate_intent mutation_as kind_of
mutation ids i = validate_intent ids i >> mutation_as i (kind_of i)
