-- ===== src/Vocabulary/TurnPhase.antt =====
-- The closed set TurnPhase of internal/vocabulary/classes.go.
use semmachina.Prelude.{
  String, Bool, true, false, if◌then◌else◌, ◌≡◌, arith, str_eq, eq_iff, Result, ℕ, ◌&&◌, ◌==◌, List,
  [], ◌∷◌, ◌||◌,
}
use semmachina.Vocabulary.Kinds.{Kind, UnknownValue, parse as parse_enum}

pub data TurnPhase : Type 0 where
  accepted interpreting adjudicating resolving applying companion narrating complete failed :
      TurnPhase
  foreign : String → TurnPhase

-- The conversion of a text.
unfoldable pub of_string : String → TurnPhase
of_string s =
    if str_eq s "accepted"
    then accepted
    else if str_eq s "interpreting"
    then interpreting
    else if str_eq s "adjudicating"
    then adjudicating
    else if str_eq s "resolving"
    then resolving
    else if str_eq s "applying"
    then applying
    else if str_eq s "companion"
    then companion
    else if str_eq s "narrating"
    then narrating
    else if str_eq s "complete"
    then complete
    else if str_eq s "failed"
    then failed
    else foreign s

abbrev pub to_string : TurnPhase → String
to_string accepted = "accepted"
to_string interpreting = "interpreting"
to_string adjudicating = "adjudicating"
to_string resolving = "resolving"
to_string applying = "applying"
to_string companion = "companion"
to_string narrating = "narrating"
to_string complete = "complete"
to_string failed = "failed"
to_string (foreign s) = s

-- Membership in the set of the declared constants.
abbrev pub valid : TurnPhase → Bool
valid (foreign s) = false
valid p = true

unfoldable pub parse : String → Result UnknownValue TurnPhase
unfolding of_string
parse s = parse_enum Kind.turn_phase of_string valid s

abbrev pub tag : TurnPhase → ℕ
tag accepted = 0
tag interpreting = 1
tag adjudicating = 2
tag resolving = 3
tag applying = 4
tag companion = 5
tag narrating = 6
tag complete = 7
tag failed = 8
tag (foreign s) = 9

abbrev pub foreign_text : TurnPhase → String
foreign_text (foreign s) = s
foreign_text p = ""

-- `==` on the values.
abbrev pub same : TurnPhase → TurnPhase → Bool
same p q = tag p == tag q && str_eq (foreign_text p) (foreign_text q)

-- `slices.Contains`.
abbrev pub member : List TurnPhase → TurnPhase → Bool
member [] p = false
member (q ∷ qs) p = same q p || member qs p

pub to_string-of_string : (s : String) → to_string (of_string s) ≡ s
unfolding of_string
to_string-of_string s = ground (
  arith,
  eq_iff s "accepted",
  eq_iff s "interpreting",
  eq_iff s "adjudicating",
  eq_iff s "resolving",
  eq_iff s "applying",
  eq_iff s "companion",
  eq_iff s "narrating",
  eq_iff s "complete",
  eq_iff s "failed",
)
