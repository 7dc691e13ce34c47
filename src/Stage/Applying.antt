-- ===== src/Stage/Applying.antt =====
-- internal/stage/apply.go: the stage that commits the effects of the selected band. The graph store, the
-- artifacts and the clock are parameters, and so are the class of a commit's cause (errs.Classify of
-- semstreams) and the text of an error.
use semmachina.Prelude.{
  ℕ, String, Bool, true, false, if◌then◌else◌, Option, none, some, List, Result, ok, err, wrap,
}
use semmachina.Prelude.{◌>>=◌ as ◌>>>=◌}
use semmachina.Exec.{Exec, pure, raise, lift, wrapping, ◌>>=◌}
use semmachina.Vocabulary.Kinds.{UnknownValue}
use semmachina.Vocabulary.TurnPhase.{applying}
use semmachina.Vocabulary.FailureReason
use semmachina.Vocabulary.FailureReason.{FailureReason}
use semmachina.Vocabulary.OutcomeBand
use semmachina.Vocabulary.OutcomeBand.{OutcomeBand, auto}
use semmachina.Vocabulary.Resolution.{is_roll_band}
use semmachina.Vocabulary.Attributes.{AttributeSpec}
use semmachina.Vocabulary.Predicates.{turn_roll_band}
use semmachina.Graph.{Object, text, EntityState, Store}
use semmachina.Graph.Ids.{IdRules}
use semmachina.Payload.Verdicts.{Verdict, for_band}
use semmachina.Payload.EffectBatches.{EffectBatch, new_effect_batch}
use semmachina.Content.Ref.{Ref, zero_ref, to_string}
use semmachina.Content.Failures.{FailureDetail, deterministic}
use semmachina.Content.Artifacts.{Artifacts}
use semmachina.Turn.Recorder.{fail}
use semmachina.Effect.Applier.{Applied, ApplyError, commit_incomplete, CommitCause, apply}
use semmachina.Effect.Reasons.{failure_reason_for, target_of_error, committed_of_error}
use semmachina.Stage.Entering.{
  Trigger, StageError, artifact_error, roll_missing, roll_unauthorised, band_not_text, band_unknown,
  band_not_rolled, no_such_band, commit_to_retry, not_an_outcome, not_failed, sole_object, enter,
  read_turn,
}
use semmachina.Stage.Resolving.{verdict_of}

unfoldable pub roll_band : OutcomeBand → Result StageError OutcomeBand
roll_band band = if is_roll_band band then ok band else err (band_not_rolled band)

unfoldable pub parsed_band : Result UnknownValue OutcomeBand → Result StageError OutcomeBand
unfolding roll_band
parsed_band (err e) = err (band_unknown e)
parsed_band (ok band) = roll_band band

-- The switch of `committedBand`, on the gate of the verdict and the recorded band.
unfoldable pub band_from : Bool → Option Object → Result StageError OutcomeBand
unfolding parsed_band
band_from true none = err roll_missing
band_from false (some object) = err roll_unauthorised
band_from false none = ok auto
band_from true (some (text value)) = parsed_band (OutcomeBand.parse value)
band_from true (some object) = err band_not_text

unfoldable pub committed_band : EntityState → Verdict → Result StageError OutcomeBand
unfolding band_from sole_object
committed_band state verdict =
    sole_object state turn_roll_band >>>= band_from verdict.scalars.requires_roll

module _ {W : Type 0} (ids : IdRules) (store : Store W) (now : W → ℕ) (artifacts : Artifacts W)
    (transient : CommitCause → Bool) (message : ApplyError → String) where
  abbrev detail_of : Trigger → FailureReason → ApplyError → FailureDetail
  detail_of trigger reason e = record {
    turn_id = trigger.turn_id;
    reason = FailureReason.to_string reason;
    failure_class = deterministic;
    authorization_reason = "";
    message = message e;
    target = target_of_error e;
    committed = committed_of_error e;
  }

  -- A detail that cannot be stored leaves the reference empty.
  unfoldable pub stored_detail : Trigger → FailureReason → ApplyError → Exec W StageError Ref
  stored_detail trigger reason e w =
      let (w', r) =
        artifacts.put_failure_detail trigger.turn_entity_id (detail_of trigger reason e) w in
      elim r [ ok ref ↦ (w', ok ref) | err f ↦ (w', ok zero_ref) ]

  unfoldable pub end_turn : Trigger → FailureReason → ApplyError → Exec W StageError (Unit {0})
  unfolding stored_detail
  end_turn trigger reason e = do
    ref ← stored_detail trigger reason e
    ended ←
        wrapping (λ f. not_failed f e)
          (fail ids store now trigger.turn_id trigger.turn_entity_id
            (FailureReason.to_string reason) ref)
    pure tt

  -- `refuse`.
  unfoldable pub refuse : Trigger → ApplyError → Exec W StageError (Unit {0})
  unfolding end_turn
  refuse trigger e = elim (failure_reason_for e) [
    | none ↦ raise (not_an_outcome e)
    | some reason ↦ end_turn trigger reason e
  ]

  unfoldable pub is_transient : ApplyError → Bool
  is_transient (commit_incomplete id written c) = transient c
  is_transient e = false

  -- What follows the answer of the applier.
  unfoldable pub applied_or :
      Trigger → W × Result ApplyError Applied → W × Result StageError (Unit {0})
  unfolding refuse is_transient
  applied_or trigger (w, ok o) = (w, ok tt)
  applied_or trigger (w, err e) =
      if is_transient e then (w, err (commit_to_retry e)) else refuse trigger e w

  module _ (datatype : String) (sprint : Object → String) (specs : List AttributeSpec) where
    unfoldable pub apply_batch : Trigger → EffectBatch → Exec W StageError (Unit {0})
    unfolding applied_or
    apply_batch trigger batch = do
      ref ← wrapping artifact_error (artifacts.put_effect_batch trigger.turn_entity_id batch)
      (λ w. applied_or trigger (
          apply ids store now datatype sprint specs batch trigger.turn_entity_id (to_string ref) w))

    -- The work of the effect stage, once it is entered.
    unfoldable pub apply_turn : Trigger → Exec W StageError (Unit {0})
    unfolding apply_batch committed_band
    apply_turn trigger = do
      state ← read_turn ids store now trigger.turn_entity_id
      verdict ← verdict_of ids store now artifacts state
      band ← lift (committed_band state verdict)
      intents ← lift (wrap no_such_band (for_band verdict.bands band))
      apply_batch trigger (new_effect_batch trigger.turn_id band intents)

    -- `Effector.Run`.
    unfoldable pub run_applying : Trigger → Exec W StageError (Unit {0})
    unfolding apply_turn
    run_applying trigger = do
      run ← enter ids store now trigger applying
      (if run then apply_turn trigger else pure tt)
