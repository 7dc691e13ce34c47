-- ===== src/Turn/Transition.antt =====
-- internal/turn/recorder.go: `classify`, the pure part of a phase transition, and its outcomes and
-- faults (errors.go).
use semmachina.Prelude.{ℕ, if◌then◌else◌, Option, none, some, ltb, Result, ok, err}
use semmachina.Vocabulary.TurnPhase.{TurnPhase, accepted, failed, same}
use semmachina.Vocabulary.Phases.{phase_rank, phase_follows, is_terminal}

pub data Outcome : Type 0 where
  advanced resumed declined : Outcome

pub data TransitionFault : Type 0 where
  skipped_stage unknown_phase created_not_advanced failure_needs_reason : TransitionFault

-- Both ranks are known.
classify_known : TurnPhase → TurnPhase → ℕ → ℕ → Result TransitionFault Outcome
classify_known previous to previous_rank to_rank =
    if is_terminal previous
    then ok declined
    else if same previous to
    then ok resumed
    else if phase_follows previous to
    then ok advanced
    else if ltb to_rank previous_rank
    then ok declined
    else err skipped_stage

classify_to : TurnPhase → TurnPhase → ℕ → Option ℕ → Result TransitionFault Outcome
classify_to previous to previous_rank none = err unknown_phase
classify_to previous to previous_rank (some to_rank) =
    classify_known previous to previous_rank to_rank

classify_from : TurnPhase → TurnPhase → Option ℕ → Result TransitionFault Outcome
classify_from previous to none = err unknown_phase
classify_from previous to (some previous_rank) =
    classify_to previous to previous_rank (phase_rank to)

unfoldable pub classify : TurnPhase → TurnPhase → Result TransitionFault Outcome
unfolding classify_known classify_to classify_from phase_rank phase_follows
classify previous to = classify_from previous to (phase_rank previous)

-- The guard of `Advance`: two phases are not reached by it.
unfoldable pub advance_target : TurnPhase → Option TransitionFault
advance_target to =
    if same to accepted
    then some created_not_advanced
    else if same to failed
    then some failure_needs_reason
    else none
