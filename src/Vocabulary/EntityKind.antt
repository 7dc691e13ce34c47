-- ===== src/Vocabulary/EntityKind.antt =====
-- The closed set EntityKind of internal/vocabulary/world.go.
use semmachina.Prelude.{
  String, Bool, true, false, if◌then◌else◌, ◌≡◌, arith, str_eq, eq_iff, Result, ℕ, ◌&&◌, ◌==◌, List,
  [], ◌∷◌, ◌||◌,
}
use semmachina.Vocabulary.Kinds.{Kind, UnknownValue, parse as parse_enum}

pub data EntityKind : Type 0 where
  character item scene location player case evidence event belief knowledge revelation
        companion_bond :
      EntityKind
  foreign : String → EntityKind

-- The conversion of a text.
unfoldable pub of_string : String → EntityKind
of_string s =
    if str_eq s "character"
    then character
    else if str_eq s "item"
    then item
    else if str_eq s "scene"
    then scene
    else if str_eq s "location"
    then location
    else if str_eq s "player"
    then player
    else if str_eq s "case"
    then case
    else if str_eq s "evidence"
    then evidence
    else if str_eq s "event"
    then event
    else if str_eq s "belief"
    then belief
    else if str_eq s "knowledge"
    then knowledge
    else if str_eq s "revelation"
    then revelation
    else if str_eq s "companion-bond"
    then companion_bond
    else foreign s

abbrev pub to_string : EntityKind → String
to_string character = "character"
to_string item = "item"
to_string scene = "scene"
to_string location = "location"
to_string player = "player"
to_string case = "case"
to_string evidence = "evidence"
to_string event = "event"
to_string belief = "belief"
to_string knowledge = "knowledge"
to_string revelation = "revelation"
to_string companion_bond = "companion-bond"
to_string (foreign s) = s

-- Membership in the set of the declared constants.
abbrev pub valid : EntityKind → Bool
valid (foreign s) = false
valid p = true

unfoldable pub parse : String → Result UnknownValue EntityKind
unfolding of_string
parse s = parse_enum Kind.entity_kind of_string valid s

abbrev pub tag : EntityKind → ℕ
tag character = 0
tag item = 1
tag scene = 2
tag location = 3
tag player = 4
tag case = 5
tag evidence = 6
tag event = 7
tag belief = 8
tag knowledge = 9
tag revelation = 10
tag companion_bond = 11
tag (foreign s) = 12

abbrev pub foreign_text : EntityKind → String
foreign_text (foreign s) = s
foreign_text p = ""

-- `==` on the values.
abbrev pub same : EntityKind → EntityKind → Bool
same p q = tag p == tag q && str_eq (foreign_text p) (foreign_text q)

-- `slices.Contains`.
abbrev pub member : List EntityKind → EntityKind → Bool
member [] p = false
member (q ∷ qs) p = same q p || member qs p

pub to_string-of_string : (s : String) → to_string (of_string s) ≡ s
unfolding of_string
to_string-of_string s = ground (
  arith,
  eq_iff s "character",
  eq_iff s "item",
  eq_iff s "scene",
  eq_iff s "location",
  eq_iff s "player",
  eq_iff s "case",
  eq_iff s "evidence",
  eq_iff s "event",
  eq_iff s "belief",
  eq_iff s "knowledge",
  eq_iff s "revelation",
  eq_iff s "companion-bond",
)
