-- ===== src/Content/Ref.antt =====
-- internal/content/ref.go: `Ref`, its text and its parser.
use Prim.Native.String.{◌++◌ as ◌+++◌}
use text.Mathlib.TextLemmas.{cons-append, nil-append}
use semmachina.Prelude.{
  len, String, Bool, false, ◌&&◌, not, if◌then◌else◌, none, some, ltb, ◌≡◌, arith, str_eq, Result,
  ok, ◌>>◌, guard, wrap, inl, inr, ap, ◌∙◌, str_eq-cases,
}
use semmachina.Graph.Ids.{IdRules}
use semmachina.Payload.Text.{cut_prefix, cut_at, contains_char, cut_prefix-append, cut_at-append}
use semmachina.Payload.Projection.{ProjectionError, require_storage_ref}

pub record Ref : Type 0 where
  pub instance_name : String
  pub key : String

pub data RefError : Type 0 where
  no_instance instance_has_separator no_key ref_too_long : RefError
  not_a_ref : ProjectionError (Unit {0}) → RefError

unfoldable pub zero_ref : Ref
zero_ref = record { instance_name = ""; key = "" }

unfoldable pub is_zero : Ref → Bool
is_zero r = str_eq r.instance_name "" && str_eq r.key ""

unfoldable pub to_string : Ref → String
unfolding is_zero
to_string r = if is_zero r then "" else "obj://" +++ (r.instance_name +++ ("/" +++ r.key))

-- The text behind the scheme, split at the first separator; `RequireStorageRef` saw both.
split_ref : String → Ref
split_ref s = elim (cut_prefix "obj://" s) [
  | none ↦ zero_ref
  | some rest ↦ elim (cut_at b'/' rest) [
    | none ↦ zero_ref
    | some (i, k) ↦ record { instance_name = i; key = k }
  ]
]

module _ (ids : IdRules) where
  unfoldable pub validate : Ref → Result RefError (Unit {0})
  unfolding to_string
  validate r = do
    guard (not (str_eq r.instance_name "")) no_instance
    guard (not (contains_char b'/' r.instance_name)) instance_has_separator
    guard (not (str_eq r.key "")) no_key
    guard (not (ltb ids.max_entity_id_bytes (len (to_string r)))) ref_too_long

  unfoldable pub parse_ref : String → Result RefError Ref
  unfolding split_ref
  parse_ref s = if str_eq s "" then ok zero_ref else (do
    wrap not_a_ref (require_storage_ref "storage reference" s)
    validate (split_ref s)
    ok (split_ref s))

-- How a reference's text is cut.
scheme_cut :
    (r : Ref)
    → is_zero r ≡ false
    → cut_prefix "obj://" (to_string r) ≡ some (r.instance_name +++ ("/" +++ r.key))
unfolding to_string
scheme_cut r h = rw h (cut_prefix-append "obj://" (r.instance_name +++ ("/" +++ r.key)))

pub slash-append : (k : String) → ("/" +++ k) ≡ String.◌∷◌ "/" k
slash-append k = cons-append "/" "" k ∙ ap (λ t. String.◌∷◌ "/" t) (nil-append k)

slash_cut :
    (r : Ref)
    → contains_char b'/' r.instance_name ≡ false
    → cut_at b'/' (r.instance_name +++ ("/" +++ r.key)) ≡ some (r.instance_name, r.key)
slash_cut r h = rw (slash-append r.key) (cut_at-append "/" r.instance_name r.key h)

-- What `Validate` checks, as facts.
record IsValid (r : Ref) : Type 0 where
  has_instance : str_eq r.instance_name "" ≡ false
  unsplit : contains_char b'/' r.instance_name ≡ false
  has_key : str_eq r.key "" ≡ false

is_zero-IsValid : (r : Ref) → IsValid r → is_zero r ≡ false
unfolding is_zero
is_zero-IsValid r v = ground arith

empty_uncut :
    (r : Ref) {t : String} → cut_prefix "obj://" (to_string r) ≡ some t → to_string r ≡ "" → ⊥
unfolding cut_prefix
empty_uncut r h e = cc (rw e at h)

validate-IsValid : (ids : IdRules) (r : Ref) → validate ids r ≡ ok tt → IsValid r
unfolding validate
validate-IsValid ids r h = ground arith

split_ref-to_string : (r : Ref) → IsValid r → split_ref (to_string r) ≡ r
unfolding split_ref
split_ref-to_string r v =
    rw (scheme_cut r (is_zero-IsValid r v), split_ref) (rw (slash_cut r v.unsplit))

require_storage_ref-to_string :
    (r : Ref)
    → IsValid r
    → require_storage_ref {V = Unit {0}} "storage reference" (to_string r) ≡ ok tt
unfolding require_storage_ref
require_storage_ref-to_string r v =
    rw (scheme_cut r (is_zero-IsValid r v), require_storage_ref)
      (rw (slash_cut r v.unsplit) (ground (arith, v.has_key, v.has_instance)))

to_string-ne-empty : (r : Ref) → IsValid r → str_eq (to_string r) "" ≡ false
unfolding cut_prefix
to_string-ne-empty r v = elim (str_eq-cases (to_string r) "") [
  | inl e ↦ absurd (empty_uncut r (scheme_cut r (is_zero-IsValid r v)) e)
  | inr n ↦ n
]

-- A valid reference is read back from its text exactly.
pub parse_ref-to_string :
    (ids : IdRules) (r : Ref) → validate ids r ≡ ok tt → parse_ref ids (to_string r) ≡ ok r
unfolding parse_ref
parse_ref-to_string ids r h =
    let v = validate-IsValid ids r h in
    rw (to_string-ne-empty r v)
      (rw (require_storage_ref-to_string r v) (rw (split_ref-to_string r v) (rw h)))
