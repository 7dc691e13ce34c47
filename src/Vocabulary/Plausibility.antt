-- ===== src/Vocabulary/Plausibility.antt =====
-- The closed set Plausibility of internal/vocabulary/classes.go.
use semmachina.Prelude.{
  String, Bool, true, false, if◌then◌else◌, ◌≡◌, arith, str_eq, eq_iff, Result, ℕ, ◌&&◌, ◌==◌, List,
  [], ◌∷◌, ◌||◌,
}
use semmachina.Vocabulary.Kinds.{Kind, UnknownValue, parse as parse_enum}

pub data Plausibility : Type 0 where
  impossible unlikely plausible certain : Plausibility
  foreign : String → Plausibility

-- The conversion of a text.
unfoldable pub of_string : String → Plausibility
of_string s =
    if str_eq s "impossible"
    then impossible
    else if str_eq s "unlikely"
    then unlikely
    else if str_eq s "plausible"
    then plausible
    else if str_eq s "certain"
    then certain
    else foreign s

abbrev pub to_string : Plausibility → String
to_string impossible = "impossible"
to_string unlikely = "unlikely"
to_string plausible = "plausible"
to_string certain = "certain"
to_string (foreign s) = s

-- Membership in the set of the declared constants.
abbrev pub valid : Plausibility → Bool
valid (foreign s) = false
valid p = true

unfoldable pub parse : String → Result UnknownValue Plausibility
unfolding of_string
parse s = parse_enum Kind.plausibility of_string valid s

abbrev pub tag : Plausibility → ℕ
tag impossible = 0
tag unlikely = 1
tag plausible = 2
tag certain = 3
tag (foreign s) = 4

abbrev pub foreign_text : Plausibility → String
foreign_text (foreign s) = s
foreign_text p = ""

-- `==` on the values.
abbrev pub same : Plausibility → Plausibility → Bool
same p q = tag p == tag q && str_eq (foreign_text p) (foreign_text q)

-- `slices.Contains`.
abbrev pub member : List Plausibility → Plausibility → Bool
member [] p = false
member (q ∷ qs) p = same q p || member qs p

pub to_string-of_string : (s : String) → to_string (of_string s) ≡ s
unfolding of_string
to_string-of_string s =
    ground
      (arith, eq_iff s "impossible", eq_iff s "unlikely", eq_iff s "plausible", eq_iff s "certain")
