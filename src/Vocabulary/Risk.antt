-- ===== src/Vocabulary/Risk.antt =====
-- The closed set Risk of internal/vocabulary/classes.go.
use semmachina.Prelude.{
  String, Bool, true, false, if◌then◌else◌, ◌≡◌, arith, str_eq, eq_iff, Result, ℕ, ◌&&◌, ◌==◌, List,
  [], ◌∷◌, ◌||◌,
}
use semmachina.Vocabulary.Kinds.{Kind, UnknownValue, parse as parse_enum}

pub data Risk : Type 0 where
  no_risk low moderate high : Risk
  foreign : String → Risk

-- The conversion of a text.
unfoldable pub of_string : String → Risk
of_string s =
    if str_eq s "none"
    then no_risk
    else if str_eq s "low"
    then low
    else if str_eq s "moderate"
    then moderate
    else if str_eq s "high"
    then high
    else foreign s

abbrev pub to_string : Risk → String
to_string no_risk = "none"
to_string low = "low"
to_string moderate = "moderate"
to_string high = "high"
to_string (foreign s) = s

-- Membership in the set of the declared constants.
abbrev pub valid : Risk → Bool
valid (foreign s) = false
valid p = true

unfoldable pub parse : String → Result UnknownValue Risk
unfolding of_string
parse s = parse_enum Kind.risk of_string valid s

abbrev pub tag : Risk → ℕ
tag no_risk = 0
tag low = 1
tag moderate = 2
tag high = 3
tag (foreign s) = 4

abbrev pub foreign_text : Risk → String
foreign_text (foreign s) = s
foreign_text p = ""

-- `==` on the values.
abbrev pub same : Risk → Risk → Bool
same p q = tag p == tag q && str_eq (foreign_text p) (foreign_text q)

-- `slices.Contains`.
abbrev pub member : List Risk → Risk → Bool
member [] p = false
member (q ∷ qs) p = same q p || member qs p

pub to_string-of_string : (s : String) → to_string (of_string s) ≡ s
unfolding of_string
to_string-of_string s =
    ground (arith, eq_iff s "none", eq_iff s "low", eq_iff s "moderate", eq_iff s "high")
