-- ===== src/Stage/Resolving.antt =====
-- internal/stage/resolve.go and complete.go: the stage that rolls the dice and records the roll, and the
-- stage that closes the turn. The graph store, the artifacts and the clock are parameters.
use semmachina.Prelude.{ℕ, String, if◌then◌else◌, Option, none, some, Result, ok, err, wrap}
use semmachina.Exec.{Exec, pure, lift, wrapping, ◌>>=◌}
use semmachina.Vocabulary.TurnPhase.{resolving, complete}
use semmachina.Vocabulary.Predicates.{turn_verdict_ref}
use semmachina.Graph.{EntityState, Store, StoreError}
use semmachina.Graph.Targets.{turn_roll}
use semmachina.Graph.Ids.{IdRules}
use semmachina.Payload.Verdicts.{Verdict}
use semmachina.Payload.RollResults.{RollResult, roll_triples}
use semmachina.Content.Ref.{to_string}
use semmachina.Content.Artifacts.{Artifacts}
use semmachina.Dice.Roller.{Randomness}
use semmachina.Dice.Resolver.{Resolver, ResolveError, no_roll_required, resolve}
use semmachina.Stage.Entering.{
  Trigger, StageError, artifact_error, dice_declined, not_resolved, roll_unprojectable,
  not_recorded, sole_ref, enter, read_turn,
}

abbrev pub source : String
source = "turn-stage"

-- A verdict that declined the dice is named on its own.
unfoldable pub resolve_failed : ResolveError → StageError
resolve_failed no_roll_required = dice_declined
resolve_failed e = not_resolved e

module _ {W : Type 0} (ids : IdRules) (store : Store W) (now : W → ℕ)
    (artifacts : Artifacts W) where
  -- `verdictOf`.
  unfoldable pub verdict_of : EntityState → Exec W StageError Verdict
  unfolding sole_ref
  verdict_of state = do
    ref ← lift (sole_ref ids state turn_verdict_ref)
    (λ w. (w, wrap artifact_error (artifacts.get_verdict ref w)))

  unfoldable pub written : W × Option StoreError → W × Result StageError (Unit {0})
  written (w, none) = (w, ok tt)
  written (w, some e) = (w, err (not_recorded e))

  -- The roll is stored, and then the reference is recorded.
  unfoldable pub record_roll : String → RollResult → Exec W StageError (Unit {0})
  unfolding written
  record_roll turn_entity_id r = do
    ref ← wrapping artifact_error (artifacts.put_roll turn_entity_id r)
    triples ← (λ w. (
      w,
      wrap roll_unprojectable (roll_triples ids r turn_entity_id (to_string ref) source (now w)),
    ))
    (λ w. written (store.reconcile w turn_roll turn_entity_id triples))

  module _ (random : Randomness) (resolver : Resolver) where
    -- The work of the dice stage, once it is entered.
    unfoldable pub resolve_turn : String → Exec W StageError (Unit {0})
    unfolding record_roll verdict_of resolve_failed
    resolve_turn turn_entity_id = do
      state ← read_turn ids store now turn_entity_id
      verdict ← verdict_of state
      resolution ← (λ w.
          (w, wrap resolve_failed (resolve ids random store resolver verdict turn_entity_id w)))
      (if resolution.rolled then record_roll turn_entity_id resolution.roll else pure tt)

    -- `Resolver.Run`.
    unfoldable pub run_resolving : Trigger → Exec W StageError (Unit {0})
    unfolding resolve_turn
    run_resolving trigger = do
      run ← enter ids store now trigger resolving
      (if run then resolve_turn trigger.turn_entity_id else pure tt)

  -- `Completer.Run`.
  unfoldable pub run_complete : Trigger → Exec W StageError (Unit {0})
  run_complete trigger = do run ← enter ids store now trigger complete; pure tt
