-- ===== src/Payload/Mutations.antt =====
-- internal/payload/effect.go: the mutation of an intent that validates.
use semmachina.Prelude.{
  String, true, Option, none, some, [], ◌∷◌, ◌≡◌, refl, ap, ◌∙◌, inl, inr, Result, ok, ◌>>◌, wrap,
  Option-cases, Bool-cases, then-ok, >>=-eq-ok, wrap-eq-ok,
}
use semmachina.Prelude.Int.{ℤ}
use semmachina.Vocabulary.EffectType
use semmachina.Vocabulary.EffectType.{
  EffectType, set_attribute, set_status, move_entity, add_relationship, remove_relationship,
}
use semmachina.Vocabulary.Attribute
use semmachina.Vocabulary.Status
use semmachina.Vocabulary.Relation
use semmachina.Vocabulary.Attributes.{
  AttributeSpec, spec_of, in_bounds, check_attribute, engine_specs, relation_predicate,
}
use semmachina.Vocabulary.Predicates.{character_status_current, world_location_current}
use semmachina.Graph.{Object, text, int}
use semmachina.Graph.Ids.{IdRules, require_entity_id}
use semmachina.Payload.Effects.{
  EffectIntent, EffectError, unknown, bad_id, bad_attribute, require_only, check_value,
  check_status, check_relationship, validate_as, validate_intent, kind_of, mutate_attribute,
  mutate_relation, mutation_as, mutation,
}

-- What an intent may write: a value within the bounds of its attribute, a declared status, or the id
-- of an entity as a location or in a declared relation.
pub data Fits (ids : IdRules) (i : EffectIntent) : String → Object → Type 0 where
  bounded :
      (spec : AttributeSpec) (v : ℤ)
      → i.value ≡ some v
      → spec_of engine_specs i.attribute ≡ some spec
      → in_bounds spec v ≡ true
      → Fits ids i spec.predicate (int v)
  declared_status :
      (s : Status.Status)
      → Status.parse (Status.to_string i.status) ≡ ok s
      → Fits ids i character_status_current (text (Status.to_string i.status))
  moved :
      require_entity_id ids i.location ≡ ok tt → Fits ids i world_location_current (text i.location)
  related :
      (r : Relation.Relation) (p : String)
      → Relation.parse (Relation.to_string i.relation) ≡ ok r
      → relation_predicate r ≡ some p
      → require_entity_id ids i.object ≡ ok tt
      → Fits ids i p (text i.object)

-- A mutation that is made, and what it may write.
Mutates : IdRules → EffectIntent → Result EffectError (String × Object) → Type 0
Mutates ids i r = (p : String) × (o : Object) × (r ≡ ok (p, o)) × Fits ids i p o

checked_value :
    (a : Attribute.Attribute) (v : ℤ)
    → check_attribute engine_specs a v ≡ ok tt
    → (spec : AttributeSpec) × (spec_of engine_specs a ≡ some spec) × (in_bounds spec v ≡ true)
unfolding check_attribute
checked_value a v = elim (Option-cases (spec_of engine_specs a)) [
  | inl n ↦ rw (n, check_attribute) (λ h. absurd (cc h))
  | inr (spec, f) ↦ elim (Bool-cases (in_bounds spec v)) [
    | inr out ↦ rw (f, check_attribute) (rw out (λ h. absurd (cc h)))
    | inl inside ↦ λ h. (spec, f, inside)
  ]
]

attribute-Mutates :
    (ids : IdRules) (i : EffectIntent) (value : Option ℤ)
    → i.value ≡ value
    → check_value i.attribute value ≡ ok tt
    → Mutates ids i (mutate_attribute i.attribute value)
unfolding check_value Mutates mutate_attribute spec_of
attribute-Mutates ids i none e h = absurd (cc h)
attribute-Mutates ids i (some v) e h =
    let (spec, f, inside) =
      checked_value i.attribute v
        (wrap-eq-ok bad_attribute (check_attribute engine_specs i.attribute v) h) in
    (spec.predicate, int v, rw (f, mutate_attribute) refl, bounded spec v e f inside)

declared_has_predicate :
    (q : Relation.Relation)
    → Relation.valid q ≡ true
    → (p : String) × (relation_predicate q ≡ some p)
unfolding relation_predicate
declared_has_predicate Relation.allied_with v = (_, refl)
declared_has_predicate Relation.hostile_to v = (_, refl)
declared_has_predicate Relation.knows v = (_, refl)
declared_has_predicate Relation.carries v = (_, refl)
declared_has_predicate Relation.owes_debt v = (_, refl)
declared_has_predicate (Relation.foreign s) v = absurd (cc v)

parsed_has_predicate :
    (s : String) (r : Relation.Relation)
    → Relation.parse s ≡ ok r
    → (r ≡ Relation.of_string s)
      × ((p : String) × (relation_predicate (Relation.of_string s) ≡ some p))
unfolding Relation.parse
parsed_has_predicate s r = elim (Bool-cases (Relation.valid (Relation.of_string s))) [
  | inr n ↦ rw n (λ h. absurd (cc h))
  | inl v ↦ rw v (λ h. (cc h, declared_has_predicate (Relation.of_string s) v))
]

relation-Mutates :
    (ids : IdRules) (i : EffectIntent)
    → check_relationship ids i ≡ ok tt
    → Mutates ids i (mutate_relation i.relation i.object)
unfolding check_relationship mutate_relation Mutates
relation-Mutates ids i h =
    let h1 = then-ok (require_only i ("relation" ∷ "object" ∷ [])) _ h in
    let (r, parsed, h2) =
      >>=-eq-ok (wrap unknown (Relation.parse (Relation.to_string i.relation))) _ h1 in
    let is_relation = wrap-eq-ok unknown (Relation.parse (Relation.to_string i.relation)) parsed in
    let (same, (p, found)) = parsed_has_predicate (Relation.to_string i.relation) r is_relation in
    (
      p,
      text i.object,
      rw (found, mutate_relation) refl,
      related r p is_relation (ap relation_predicate same ∙ found)
          (wrap-eq-ok bad_id (require_entity_id ids i.object) h2),
    )

status-Mutates :
    (ids : IdRules) (i : EffectIntent)
    → check_status i.status ≡ ok tt
    → Fits ids i character_status_current (text (Status.to_string i.status))
unfolding check_status
status-Mutates ids i h =
    let (s, parsed, _) = >>=-eq-ok (wrap unknown (Status.parse (Status.to_string i.status))) _ h in
    declared_status s (wrap-eq-ok unknown (Status.parse (Status.to_string i.status)) parsed)

as-Mutates :
    (ids : IdRules) (i : EffectIntent) (t : EffectType)
    → validate_as ids i t ≡ ok tt
    → Mutates ids i (mutation_as i t)
unfolding validate_as mutation_as Mutates
as-Mutates ids i set_attribute h =
    attribute-Mutates ids i i.value refl (then-ok (require_only i ("attribute" ∷ "value" ∷ [])) _ h)
as-Mutates ids i set_status h =
    (_, _, refl, status-Mutates ids i (then-ok (require_only i ("status" ∷ [])) _ h))
as-Mutates ids i move_entity h = (
  _,
  _,
  refl,
  moved (
      wrap-eq-ok bad_id (require_entity_id ids i.location)
        (then-ok (require_only i ("location" ∷ [])) _ h)),
)
as-Mutates ids i add_relationship h = relation-Mutates ids i h
as-Mutates ids i remove_relationship h = relation-Mutates ids i h
as-Mutates ids i (EffectType.foreign s) h = absurd (cc h)

-- An intent that validates has a mutation: none of the refusals behind the validation is reached, and
-- what it writes fits the predicate it writes it to. Numbers are within the attribute's bounds.
pub validated_intent_mutates :
    (ids : IdRules) (i : EffectIntent)
    → validate_intent ids i ≡ ok tt
    → (p : String) × (o : Object) × (mutation ids i ≡ ok (p, o)) × Fits ids i p o
unfolding validate_intent mutation Mutates
validated_intent_mutates ids i h =
    let h1 = >>=-eq-ok (wrap unknown (EffectType.parse (EffectType.to_string i.kind))) _ h in
    let h2 = then-ok (wrap bad_id (require_entity_id ids i.target)) _ h1.2 in
    let (p, o, e, fits) = as-Mutates ids i (kind_of i) h2 in
    (p, o, ap (λ r. r >> mutation_as i (kind_of i)) h ∙ e, fits)
