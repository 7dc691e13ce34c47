-- ===== src/Payload/Modifiers.antt =====
-- internal/payload/modifier.go: the modifiers of a roll and their bounds.
use semmachina.Prelude.{
  len, ℕ, String, ◌||◌, not, List, [], ◌∷◌, ltb, length, Result, ok, ◌>>=◌, ◌>>◌, guard, wrap,
}
use semmachina.Prelude.Int.{ℤ, pos, negsuc, ◌+ℤ◌, ltb_ℤ}
use semmachina.Vocabulary.Kinds.{UnknownValue}
use semmachina.Vocabulary.ModifierSource

pub record Modifier : Type 0 where
  pub source : ModifierSource.ModifierSource
  pub value : ℤ
  pub note : String

pub data ModifierError : Type 0 where
  source_unknown : UnknownValue → ModifierError
  value_outside : ℤ → ModifierError
  note_too_long : ModifierError
  too_many : ℕ → ModifierError
  total_outside : ℤ → ModifierError

abbrev pub min_modifier_value : ℤ
min_modifier_value = negsuc 2

abbrev pub max_modifier_value : ℤ
max_modifier_value = pos 3

abbrev pub max_modifiers : ℕ
max_modifiers = 4

abbrev pub min_modifier_total : ℤ
min_modifier_total = negsuc 1

abbrev pub max_modifier_total : ℤ
max_modifier_total = pos 4

abbrev pub max_modifier_note_bytes : ℕ
max_modifier_note_bytes = 256

unfoldable pub validate_modifier : Modifier → Result ModifierError (Unit {0})
validate_modifier m = do
  source ← wrap source_unknown (ModifierSource.parse (ModifierSource.to_string m.source))
  guard (not (ltb_ℤ m.value min_modifier_value || ltb_ℤ max_modifier_value m.value))
      (value_outside m.value)
  guard (not (ltb max_modifier_note_bytes (len m.note))) note_too_long

unfoldable pub validate_each : List Modifier → Result ModifierError (Unit {0})
unfolding validate_modifier
validate_each [] = ok tt
validate_each (m ∷ ms) = validate_modifier m >> validate_each ms

-- The Go loop adds from the left.
unfoldable pub sum_from : ℤ → List Modifier → ℤ
sum_from total [] = total
sum_from total (m ∷ ms) = sum_from (total +ℤ m.value) ms

unfoldable pub sum_modifiers : List Modifier → ℤ
unfolding sum_from
sum_modifiers ms = sum_from (pos 0) ms

unfoldable pub check_modifier_total : ℤ → Result ModifierError (Unit {0})
check_modifier_total total =
    guard (not (ltb_ℤ total min_modifier_total || ltb_ℤ max_modifier_total total))
      (total_outside total)

unfoldable pub validate_modifiers : List Modifier → Result ModifierError (Unit {0})
unfolding validate_each sum_modifiers check_modifier_total
validate_modifiers ms = do
  guard (not (ltb max_modifiers (length ms))) (too_many (length ms))
  validate_each ms
  check_modifier_total (sum_modifiers ms)
