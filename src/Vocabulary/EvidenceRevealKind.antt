-- ===== src/Vocabulary/EvidenceRevealKind.antt =====
-- The closed set EvidenceRevealKind of internal/vocabulary/mystery.go.
use semmachina.Prelude.{
  String, Bool, true, false, if◌then◌else◌, ◌≡◌, arith, str_eq, eq_iff, Result, List, [], ◌∷◌, ◌||◌,
}
use semmachina.Vocabulary.Kinds.{Kind, UnknownValue, parse as parse_enum}

pub data EvidenceRevealKind : Type 0 where
  observe investigate : EvidenceRevealKind
  foreign : String → EvidenceRevealKind

-- The conversion of a text.
unfoldable pub of_string : String → EvidenceRevealKind
of_string s =
    if str_eq s "observe"
    then observe
    else if str_eq s "investigate"
    then investigate
    else foreign s

abbrev pub to_string : EvidenceRevealKind → String
to_string observe = "observe"
to_string investigate = "investigate"
to_string (foreign s) = s

-- Membership in the set of the declared constants.
abbrev pub valid : EvidenceRevealKind → Bool
valid (foreign s) = false
valid p = true

unfoldable pub parse : String → Result UnknownValue EvidenceRevealKind
unfolding of_string
parse s = parse_enum Kind.evidence_reveal_kind of_string valid s

-- `slices.Contains`: the values are texts.
abbrev pub member : List EvidenceRevealKind → EvidenceRevealKind → Bool
member [] p = false
member (q ∷ qs) p = str_eq (to_string q) (to_string p) || member qs p

pub to_string-of_string : (s : String) → to_string (of_string s) ≡ s
unfolding of_string
to_string-of_string s = ground (arith, eq_iff s "observe", eq_iff s "investigate")
