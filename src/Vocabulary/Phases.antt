-- ===== src/Vocabulary/Phases.antt =====
-- internal/vocabulary/phases.go: the ranks of the phases and the phases that each may be entered from.
use semmachina.Prelude.{ℕ, Bool, ◌||◌, Option, none, some, List, [], ◌∷◌}
use semmachina.Vocabulary.TurnPhase.{
  TurnPhase, accepted, interpreting, adjudicating, resolving, applying, companion, narrating,
  complete, failed, foreign, same, member,
}

abbrev pub is_terminal : TurnPhase → Bool
is_terminal p = same p complete || same p failed

-- The map `phaseRanks`.
unfoldable pub phase_rank : TurnPhase → Option ℕ
phase_rank accepted = some 0
phase_rank interpreting = some 1
phase_rank adjudicating = some 2
phase_rank resolving = some 3
phase_rank applying = some 4
phase_rank companion = some 5
phase_rank narrating = some 6
phase_rank complete = some 7
phase_rank failed = some 7
phase_rank (foreign s) = none

-- The map `phasePredecessors`; a key that it lacks reads as the empty list.
unfoldable pub phase_predecessors : TurnPhase → List TurnPhase
phase_predecessors accepted = []
phase_predecessors interpreting = accepted ∷ []
phase_predecessors adjudicating = interpreting ∷ []
phase_predecessors resolving = adjudicating ∷ []
phase_predecessors applying = adjudicating ∷ resolving ∷ []
phase_predecessors companion = applying ∷ []
phase_predecessors narrating = companion ∷ []
phase_predecessors complete = narrating ∷ []
phase_predecessors failed =
    accepted ∷ interpreting ∷ adjudicating ∷ resolving ∷ applying ∷ companion ∷ narrating ∷ []
phase_predecessors (foreign s) = []

unfoldable pub phase_follows : TurnPhase → TurnPhase → Bool
unfolding phase_predecessors
phase_follows from to = member (phase_predecessors to) from
