-- ===== src/Stage/Entering.antt =====
-- internal/stage/enter.go: the entry of a stage and the reads of one value of a turn, and the errors of
-- the stages.
use semmachina.Prelude.{
  ℕ, String, Bool, true, false, not, Option, none, some, List, [], ◌∷◌, Result, ok, err, ◌>>=◌,
  ◌>>◌, guard, wrap,
}
use semmachina.Exec.{Exec, pure, wrapping}
use semmachina.Exec.{◌>>=◌ as ◌>>>=◌}
use semmachina.Vocabulary.TurnPhase.{TurnPhase}
use semmachina.Vocabulary.Kinds.{UnknownValue}
use semmachina.Vocabulary.OutcomeBand.{OutcomeBand}
use semmachina.Graph.{Object, text, EntityState, Store, StoreError, objects_for}
use semmachina.Graph.Ids.{IdRules}
use semmachina.Payload.Projection.{ProjectionError}
use semmachina.Payload.RollResults.{RollError}
use semmachina.Payload.Verdicts.{VerdictError}
use semmachina.Content.Ref.{Ref, RefError, parse_ref, is_zero}
use semmachina.Content.Store.{ContentError}
use semmachina.Turn.Transition.{Outcome, declined}
use semmachina.Turn.Pointers.{RecorderError}
use semmachina.Turn.Recorder.{advance}
use semmachina.Dice.Resolver.{ResolveError}
use semmachina.Effect.Applier.{ApplyError}

pub record Trigger : Type 0 where
  pub turn_entity_id : String
  pub turn_id : String
  pub subject : String

pub data StageError : Type 0 where
  not_entered : RecorderError → StageError
  turn_unreadable : StoreError → StageError
  many_values no_value not_a_reference empty_reference : String → StageError
  unresolvable : RefError → StageError
  artifact_error : ContentError → StageError
  dice_declined : StageError
  not_resolved : ResolveError → StageError
  roll_unprojectable : ProjectionError RollError → StageError
  not_recorded : StoreError → StageError
  roll_missing roll_unauthorised band_not_text : StageError
  band_unknown : UnknownValue → StageError
  band_not_rolled : OutcomeBand → StageError
  no_such_band : VerdictError → StageError
  commit_to_retry not_an_outcome : ApplyError → StageError
  not_failed : RecorderError → ApplyError → StageError

abbrev pub is_declined : Outcome → Bool
is_declined declined = true
is_declined o = false

-- `soleObject`, on the objects of the predicate.
unfoldable pub sole : String → List Object → Result StageError (Option Object)
sole p [] = ok none
sole p (o ∷ []) = ok (some o)
sole p (a ∷ b ∷ rest) = err (many_values p)

unfoldable pub sole_object : EntityState → String → Result StageError (Option Object)
unfolding sole objects_for
sole_object state p = sole p (objects_for state.triples p)

-- `soleRef` on the value that is there.
unfoldable pub ref_in : IdRules → String → Option Object → Result StageError Ref
ref_in ids p none = err (no_value p)
ref_in ids p (some (text value)) = do
  ref ← wrap unresolvable (parse_ref ids value)
  guard (not (is_zero ref)) (empty_reference p)
  ok ref
ref_in ids p (some object) = err (not_a_reference p)

unfoldable pub sole_ref : IdRules → EntityState → String → Result StageError Ref
unfolding sole_object ref_in
sole_ref ids state p = sole_object state p >>= ref_in ids p

module _ {W : Type 0} (ids : IdRules) (store : Store W) (now : W → ℕ) where
  -- Whether the stage should run.
  unfoldable pub enter : Trigger → TurnPhase → Exec W StageError Bool
  enter trigger phase =
      wrapping not_entered (advance ids store now trigger.turn_id trigger.turn_entity_id phase)
      >>>= λ t. pure (not (is_declined t.outcome))

  unfoldable pub read_turn : String → Exec W StageError EntityState
  read_turn id w = (w, wrap turn_unreadable (store.get_entity w id))
