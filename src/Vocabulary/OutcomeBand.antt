-- ===== src/Vocabulary/OutcomeBand.antt =====
-- The closed set OutcomeBand of internal/vocabulary/classes.go.
use semmachina.Prelude.{
  String, Bool, true, false, if◌then◌else◌, ◌≡◌, arith, str_eq, eq_iff, Result, ℕ, ◌&&◌, ◌==◌, List,
  [], ◌∷◌, ◌||◌,
}
use semmachina.Vocabulary.Kinds.{Kind, UnknownValue, parse as parse_enum}

pub data OutcomeBand : Type 0 where
  auto miss partial full : OutcomeBand
  foreign : String → OutcomeBand

-- The conversion of a text.
unfoldable pub of_string : String → OutcomeBand
of_string s =
    if str_eq s "auto"
    then auto
    else if str_eq s "miss"
    then miss
    else if str_eq s "partial"
    then partial
    else if str_eq s "full"
    then full
    else foreign s

abbrev pub to_string : OutcomeBand → String
to_string auto = "auto"
to_string miss = "miss"
to_string partial = "partial"
to_string full = "full"
to_string (foreign s) = s

-- Membership in the set of the declared constants.
abbrev pub valid : OutcomeBand → Bool
valid (foreign s) = false
valid p = true

unfoldable pub parse : String → Result UnknownValue OutcomeBand
unfolding of_string
parse s = parse_enum Kind.outcome_band of_string valid s

abbrev pub tag : OutcomeBand → ℕ
tag auto = 0
tag miss = 1
tag partial = 2
tag full = 3
tag (foreign s) = 4

abbrev pub foreign_text : OutcomeBand → String
foreign_text (foreign s) = s
foreign_text p = ""

-- `==` on the values.
abbrev pub same : OutcomeBand → OutcomeBand → Bool
same p q = tag p == tag q && str_eq (foreign_text p) (foreign_text q)

-- `slices.Contains`.
abbrev pub member : List OutcomeBand → OutcomeBand → Bool
member [] p = false
member (q ∷ qs) p = same q p || member qs p

pub to_string-of_string : (s : String) → to_string (of_string s) ≡ s
unfolding of_string
to_string-of_string s =
    ground (arith, eq_iff s "auto", eq_iff s "miss", eq_iff s "partial", eq_iff s "full")
