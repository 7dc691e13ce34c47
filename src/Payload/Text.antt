-- ===== src/Payload/Text.antt =====
-- What the payloads take from Go's package strings: `CutPrefix`, `Cut` and `Contains` for one
-- character, on the characters of a text.
use Prim.Native.String.{◌++◌ as ◌+++◌}
use Prim.Native.Char.{Char, code}
use text.Mathlib.TextLemmas.{cons-append, nil-append}
use semmachina.Prelude.{
  ℕ, String, Bool, true, false, ◌||◌, if◌then◌else◌, Option, none, some, ◌==◌, ◌≡◌, arith,
  Bool-cases, inl, inr,
}

unfoldable pub cut_prefix : String → String → Option String
cut_prefix String.[] s = some s
cut_prefix (String.◌∷◌ p ps) String.[] = none
cut_prefix (String.◌∷◌ p ps) (String.◌∷◌ c s) = if code p == code c then cut_prefix ps s else none

-- `strings.Cut` at a character: the text before its first occurrence, and the text after it.
unfoldable pub cut_at : ℕ → String → Option (String × String)
cut_at k String.[] = none
cut_at k (String.◌∷◌ c s) =
    let rest = cut_at k s in
    if code c == k
    then some ("", s)
    else elim rest [ none ↦ none | some (a, b) ↦ some (String.◌∷◌ c a, b) ]

unfoldable pub contains_char : ℕ → String → Bool
contains_char k String.[] = false
contains_char k (String.◌∷◌ c s) = code c == k || contains_char k s

code_same : (c : Char) → (code c == code c) ≡ true
code_same c = ground arith

-- A prefix that was put on is cut off again.
pub cut_prefix-append : (p s : String) → cut_prefix p (p +++ s) ≡ some s
unfolding cut_prefix
cut_prefix-append String.[] s = rw nil-append
cut_prefix-append (String.◌∷◌ c p) s = rw cons-append (rw (code_same c) (cut_prefix-append p s))

-- A text without the separator is what stands before the separator that follows it.
pub cut_at-append :
    (d : Char) (a s : String)
    → contains_char (code d) a ≡ false
    → cut_at (code d) (a +++ String.◌∷◌ d s) ≡ some (a, s)
unfolding cut_at contains_char
cut_at-append d String.[] s h = rw nil-append (rw (code_same d))
cut_at-append d (String.◌∷◌ c a) s h = elim (Bool-cases (code c == code d)) [
  | inl same ↦ absurd (cc)
  | inr other ↦ rw cons-append (rw other (rw (cut_at-append d a s (ground arith))))
]
