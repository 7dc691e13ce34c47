-- ===== src/Graph/Ids.antt =====
-- Identifiers. types.ValidateEntityID, types.ValidateEntityIDPrefix and vocabulary.ParsePredicate of
-- semstreams are parameters; what internal/vocabulary/world.go and internal/payload/constants.go
-- build on them is written out.
use Prim.Native.Char.{code}
use semmachina.Prelude.{
  len, ℕ, ◌/◌, ◌-◌, String, Bool, false, ◌||◌, not, if◌then◌else◌, ltb, ◌==◌, ◌≡◌, refl, str_eq,
  Result, Option, none, some, ◌>>◌, guard,
}

-- `parse_predicate` gives the property, the last part of a predicate that parses; `category` is its
-- part of that name.
pub record IdRules : Type 0 where
  pub valid_entity_id : String → Bool
  pub valid_entity_id_prefix : String → Bool
  pub max_entity_id_bytes : ℕ
  pub parse_predicate : String → Option String
  pub category : String → String

pub data IdError : Type 0 where
  segment_empty segment_too_long segment_has_dot segment_illegal : IdError
  action_id_too_long : IdError
  entity_id_empty entity_id_not_canonical : IdError
  foreign_turn : IdError

abbrev pub has_dot : String → Bool
has_dot String.[] = false
has_dot (String.◌∷◌ c s) = code c == b'.' || has_dot s

-- The last element of `strings.Split(s, ".")`: what stands behind the last dot.
abbrev pub last_segment : String → String
last_segment String.[] = ""
last_segment (String.◌∷◌ c s) =
    let rest = last_segment s in if has_dot s || code c == b'.' then rest else String.◌∷◌ c s

module _ (ids : IdRules) where
  abbrev pub max_id_segment_bytes : ℕ
  max_id_segment_bytes = ids.max_entity_id_bytes / 2

  -- vocabulary.IsStorageRef.
  unfoldable pub is_storage_ref : String → Bool
  is_storage_ref p = elim (ids.parse_predicate p) [
    | none ↦ false
    | some property ↦ str_eq property "ref"
  ]

  unfoldable pub validate_id_segment : String → Result IdError (Unit {0})
  validate_id_segment s = do
    guard (not (str_eq s "")) segment_empty
    guard (not (ltb max_id_segment_bytes (len s))) segment_too_long
    guard (not (has_dot s)) segment_has_dot
    guard (ids.valid_entity_id_prefix s) segment_illegal

  unfoldable pub require_entity_id : String → Result IdError (Unit {0})
  require_entity_id s = do
    guard (not (str_eq s "")) entity_id_empty
    guard (ids.valid_entity_id s) entity_id_not_canonical

  unfoldable pub require_action_id : String → Result IdError (Unit {0})
  unfolding validate_id_segment
  require_action_id s = do
    validate_id_segment s
    guard (not (ltb (max_id_segment_bytes - len "turn-") (len s))) action_id_too_long

  -- A turn's id is the instance segment of its entity's id.
  unfoldable pub require_turn_entity_id : String → String → Result IdError (Unit {0})
  unfolding validate_id_segment require_entity_id
  require_turn_entity_id turn_id turn_entity_id = do
    validate_id_segment turn_id
    require_entity_id turn_entity_id
    guard (str_eq (last_segment turn_entity_id) turn_id) foreign_turn

segment_test : last_segment "acme.semmachina.w.t.turn.turn-1" ≡ "turn-1"
segment_test = refl
