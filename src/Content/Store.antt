-- ===== src/Content/Store.antt =====
-- internal/content: the keys of stored artifacts (ref.go) and the one write and the one read of the
-- store (store.go). The storage backend and the JSON codec are parameters.
use Prim.Native.String.{◌++◌ as ◌+++◌}
use semmachina.Prelude.{
  ℕ, String, Bool, ◌||◌, not, if◌then◌else◌, Option, none, some, List, [], ◌∷◌, ltb, len, str_eq,
  contains, Result, ok, err, ◌>>=◌, ◌>>◌, guard, wrap,
}
use semmachina.Exec.{Exec}
use semmachina.Graph.Ids.{IdRules, IdError, validate_id_segment}
use semmachina.Payload.Text.{contains_char}
use semmachina.Content.Ref.{Ref, RefError, validate}

-- `Get` reports an absent object as `object_not_found`.
pub data BackendError : Type 0 where
  object_not_found : BackendError
  backend_failure : String → BackendError

-- Bytes are the characters of a text.
pub record Backend (W : Type 0) : Type 0 where
  pub instance_name : String
  pub put : W → String → String → W × Option BackendError
  pub get : W → String → Result BackendError String

pub data ContentError : Type 0 where
  no_slot slot_of_scalar : String → ContentError
  unknown_subject : String → ContentError
  subject_rejected : IdError → ContentError
  instance_empty instance_too_long instance_has_separator : ContentError
  artifact_invalid not_encoded : ContentError
  reference_rejected : RefError → ContentError
  not_stored unreadable : BackendError → ContentError
  other_instance other_slot not_found : Ref → ContentError
  not_decoded stored_invalid : Ref → ContentError
  turn_rejected : IdError → ContentError

abbrev pub subject_turn : String
subject_turn = "turn"

abbrev pub subject_revelation : String
subject_revelation = "revelation"

abbrev subject_kinds : List String
subject_kinds = subject_turn ∷ subject_revelation ∷ []

abbrev pub max_instance_name_bytes : ℕ
max_instance_name_bytes = 32

-- `strings.HasSuffix`.
unfoldable pub has_suffix : String → String → Bool
has_suffix String.[] suffix = str_eq String.[] suffix
has_suffix (String.◌∷◌ c s) suffix = str_eq (String.◌∷◌ c s) suffix || has_suffix s suffix

-- `NewStore`, on the name of the backend's instance.
unfoldable pub validate_instance_name : String → Result ContentError (Unit {0})
validate_instance_name name = do
  guard (not (str_eq name "")) instance_empty
  guard (not (ltb max_instance_name_bytes (len name))) instance_too_long
  guard (not (contains_char b'/' name)) instance_has_separator

module _ (ids : IdRules) where
  unfoldable pub artifact_slot : String → Result ContentError String
  artifact_slot p = elim (ids.parse_predicate p) [
    | none ↦ err (no_slot p)
    | some property ↦
        if not (str_eq property "ref") then err (slot_of_scalar p) else ok (ids.category p)
  ]

  unfoldable pub key_for : String → String → String → Result ContentError String
  unfolding artifact_slot
  key_for ref_predicate kind subject_id = do
    slot ← artifact_slot ref_predicate
    guard (contains subject_kinds kind) (unknown_subject kind)
    wrap subject_rejected (validate_id_segment ids subject_id)
    ok (kind +++ ("/" +++ (subject_id +++ ("/" +++ slot))))

-- The artifacts of one type: their own contract, and their JSON.
pub record Codec (A : Type 0) : Type 0 where
  pub valid : A → Bool
  pub encode : A → Option String
  pub decode : String → Option A

module _ {W A : Type 0} (ids : IdRules) (backend : Backend W) (codec : Codec A) where
  -- `put` at a key whose bytes are known.
  unfoldable pub put_bytes : Ref → Option String → Exec W ContentError Ref
  put_bytes ref none w = (w, err not_encoded)
  put_bytes ref (some data_bytes) w =
      let (w', e) = backend.put w ref.key data_bytes in
      (w', elim e [ none ↦ ok ref | some f ↦ err (not_stored f) ])

  -- The reference of an artifact, checked before anything is written.
  unfoldable pub ref_for : String → String → String → A → Result ContentError Ref
  unfolding key_for
  ref_for ref_predicate kind subject_id a = do
    guard (codec.valid a) artifact_invalid
    key ← key_for ids ref_predicate kind subject_id
    wrap reference_rejected
        (validate ids (record { instance_name = backend.instance_name; key = key }))
    ok (record { instance_name = backend.instance_name; key = key })

  unfoldable pub put_at : Result ContentError Ref → A → Exec W ContentError Ref
  unfolding put_bytes
  put_at (err e) a w = (w, err e)
  put_at (ok ref) a w = put_bytes ref (codec.encode a) w

  unfoldable pub put : String → String → String → A → Exec W ContentError Ref
  unfolding put_at ref_for
  put ref_predicate kind subject_id a = put_at (ref_for ref_predicate kind subject_id a) a

  unfoldable pub check_reference : String → Ref → Result ContentError (Unit {0})
  unfolding artifact_slot has_suffix
  check_reference ref_predicate ref = do
    wrap reference_rejected (validate ids ref)
    guard (str_eq ref.instance_name backend.instance_name) (other_instance ref)
    slot ← artifact_slot ids ref_predicate
    guard (has_suffix ref.key ("/" +++ slot)) (other_slot ref)

  unfoldable pub decoded : Ref → Result BackendError String → Result ContentError A
  decoded ref (err object_not_found) = err (not_found ref)
  decoded ref (err e) = err (unreadable e)
  decoded ref (ok data_bytes) = elim (codec.decode data_bytes) [
    | none ↦ err (not_decoded ref)
    | some a ↦ if codec.valid a then ok a else err (stored_invalid ref)
  ]

  unfoldable pub get : String → Ref → W → Result ContentError A
  unfolding check_reference decoded
  get ref_predicate ref w = check_reference ref_predicate ref >> decoded ref (backend.get w ref.key)
