-- ===== src/Vocabulary/Attributes.antt =====
-- internal/vocabulary/attributes.go: the bounds that a world declares for its attributes, and the
-- predicates of attributes and relations.
use semmachina.Prelude.{
  String, Bool, ◌&&◌, if◌then◌else◌, Option, none, some, List, [], ◌∷◌, str_eq, Result, ok, err,
  ◌>>=◌, ◌>>◌,
}
use semmachina.Prelude.Int.{ℤ, pos, ltb_ℤ}
use semmachina.Vocabulary.Kinds.{Kind, UnknownValue}
use semmachina.Vocabulary.Attribute
use semmachina.Vocabulary.Attribute.{Attribute, health, stamina, resolve, quantity, tension}
use semmachina.Vocabulary.Relation.{Relation, allied_with, hostile_to, knows, carries, owes_debt}
use semmachina.Vocabulary.Resolution.{leb_ℤ}
use semmachina.Vocabulary.Predicates.{
  character_attribute_health, character_attribute_stamina, character_attribute_resolve,
  item_attribute_quantity, scene_attribute_tension, world_relation_allied_with,
  world_relation_hostile_to, world_relation_knows, world_relation_carries, world_relation_owes_debt,
}

pub record AttributeSpec : Type 0 where
  pub attribute : Attribute
  pub predicate : String
  pub min : ℤ
  pub max : ℤ

pub record AttributeBounds : Type 0 where
  pub min : ℤ
  pub max : ℤ

pub data AttributeError : Type 0 where
  no_bounds inverted_range : Attribute → AttributeError
  unknown_attribute : UnknownValue → AttributeError
  out_of_bounds : Attribute → ℤ → AttributeError

unfoldable pub in_bounds : AttributeSpec → ℤ → Bool
in_bounds s value = leb_ℤ s.min value && leb_ℤ value s.max

-- Attributes are texts, compared as such.
abbrev pub same_attribute : Attribute → Attribute → Bool
same_attribute a b = str_eq (Attribute.to_string a) (Attribute.to_string b)

-- A Go map from attributes is an association list.
unfoldable pub bounds_of : List (Attribute × AttributeBounds) → Attribute → Option AttributeBounds
bounds_of [] a = none
bounds_of ((b, x) ∷ rest) a = if same_attribute b a then some x else bounds_of rest a

unfoldable pub spec_of : List AttributeSpec → Attribute → Option AttributeSpec
spec_of [] a = none
spec_of (s ∷ rest) a = if same_attribute s.attribute a then some s else spec_of rest a

abbrev pub attributes : List Attribute
attributes = health ∷ stamina ∷ resolve ∷ quantity ∷ tension ∷ []

-- `attributePredicates`; a key that it lacks reads as the empty predicate.
unfoldable pub attribute_predicate : Attribute → String
attribute_predicate health = character_attribute_health
attribute_predicate stamina = character_attribute_stamina
attribute_predicate resolve = character_attribute_resolve
attribute_predicate quantity = item_attribute_quantity
attribute_predicate tension = scene_attribute_tension
attribute_predicate (Attribute.foreign s) = ""

unknown_in : Attribute → UnknownValue
unknown_in a = record { kind = Kind.attribute; value = Attribute.to_string a }

declare :
    List (Attribute × AttributeBounds) → List Attribute → Result AttributeError (List AttributeSpec)
unfolding attribute_predicate
declare bounds [] = ok []
declare bounds (a ∷ rest) =
    let later = declare bounds rest in
    elim (bounds_of bounds a) [
      | none ↦ err (no_bounds a)
      | some b ↦
          if ltb_ℤ b.max b.min
          then err (inverted_range a)
          else (later >>= λ specs. ok (
              record { attribute = a; predicate = attribute_predicate a; min = b.min; max = b.max }
              ∷ specs))
    ]

check_declared : List (Attribute × AttributeBounds) → Result AttributeError (Unit {0})
unfolding unknown_in
check_declared [] = ok tt
check_declared ((a, b) ∷ rest) =
    let later = check_declared rest in
    if Attribute.valid a then later else err (unknown_attribute (unknown_in a))

-- `NewAttributeSpecSet`; which of several unknown attributes is reported is a matter of map order.
unfoldable pub new_attribute_spec_set :
    List (Attribute × AttributeBounds) → Result AttributeError (List AttributeSpec)
unfolding declare check_declared
new_attribute_spec_set bounds = do
  specs ← declare bounds attributes
  check_declared bounds
  ok specs

-- `AttributeSpecSet.Check`.
unfoldable pub check_attribute :
    List AttributeSpec → Attribute → ℤ → Result AttributeError (Unit {0})
unfolding in_bounds unknown_in
check_attribute specs a value = elim (spec_of specs a) [
  | none ↦ err (unknown_attribute (unknown_in a))
  | some spec ↦ if in_bounds spec value then ok tt else err (out_of_bounds a value)
]

abbrev pub default_bounds : List (Attribute × AttributeBounds)
default_bounds =
    (health, record { min = pos 0; max = pos 10 })
    ∷ (stamina, record { min = pos 0; max = pos 10 })
    ∷ (resolve, record { min = pos 0; max = pos 10 })
    ∷ (quantity, record { min = pos 0; max = pos 99 })
    ∷ (tension, record { min = pos 0; max = pos 10 })
    ∷ []

-- `engineAttributeSpecs`; the panic of `DefaultAttributeSpecs` is the empty set.
unfoldable pub engine_specs : List AttributeSpec
unfolding new_attribute_spec_set
engine_specs = elim (new_attribute_spec_set default_bounds) [ ok specs ↦ specs | err e ↦ [] ]

-- `RelationPredicate`.
unfoldable pub relation_predicate : Relation → Option String
relation_predicate allied_with = some world_relation_allied_with
relation_predicate hostile_to = some world_relation_hostile_to
relation_predicate knows = some world_relation_knows
relation_predicate carries = some world_relation_carries
relation_predicate owes_debt = some world_relation_owes_debt
relation_predicate r = none
