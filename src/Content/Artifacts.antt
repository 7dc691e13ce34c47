-- ===== src/Content/Artifacts.antt =====
-- internal/content/store.go: the operations on the artifacts of a turn, over the one write and the one
-- read. What the stages take of it is an interface.
use semmachina.Prelude.{String, Result, wrap}
use semmachina.Exec.{Exec, lift, ◌>>◌}
use semmachina.Vocabulary.Predicates.{
  turn_action_ref, turn_verdict_ref, turn_roll_ref, turn_effects_ref, turn_failure_ref,
}
use semmachina.Graph.Ids.{IdRules, require_turn_entity_id}
use semmachina.Payload.PlayerAction.{PlayerAction, turn_id_for_action}
use semmachina.Payload.Verdicts.{Verdict}
use semmachina.Payload.RollResults.{RollResult}
use semmachina.Payload.EffectBatches.{EffectBatch}
use semmachina.Content.Ref.{Ref}
use semmachina.Content.Failures.{FailureDetail}
use semmachina.Content.Store.{Backend, ContentError, turn_rejected, Codec, subject_turn, put, get}

-- The store as the stages see it: VerdictReader, RollStore, BatchStore and DetailStore.
pub record Artifacts (W : Type 0) : Type 0 where
  pub get_verdict : Ref → W → Result ContentError Verdict
  pub put_roll : String → RollResult → Exec W ContentError Ref
  pub put_effect_batch : String → EffectBatch → Exec W ContentError Ref
  pub put_failure_detail : String → FailureDetail → Exec W ContentError Ref

pub record Codecs : Type 0 where
  pub actions : Codec PlayerAction
  pub verdicts : Codec Verdict
  pub rolls : Codec RollResult
  pub batches : Codec EffectBatch
  pub details : Codec FailureDetail

module _ {W : Type 0} (ids : IdRules) (backend : Backend W) where
  -- The write of an artifact of a turn, for the turn's own entity.
  unfoldable pub put_for_turn :
      {A : Type 0} → Codec A → String → String → String → A → Exec W ContentError Ref
  put_for_turn codec ref_predicate turn_id turn_entity_id a = do
    lift (wrap turn_rejected (require_turn_entity_id ids turn_id turn_entity_id))
    put ids backend codec ref_predicate subject_turn turn_id a

  module _ (codecs : Codecs) where
    unfoldable pub put_action : String → PlayerAction → Exec W ContentError Ref
    unfolding put_for_turn
    put_action turn_entity_id a =
        put_for_turn codecs.actions turn_action_ref (turn_id_for_action a.action_id) turn_entity_id
          a

    unfoldable pub get_action : Ref → W → Result ContentError PlayerAction
    get_action ref w = get ids backend codecs.actions turn_action_ref ref w

    unfoldable pub put_verdict : String → Verdict → Exec W ContentError Ref
    unfolding put_for_turn
    put_verdict turn_entity_id v =
        put_for_turn codecs.verdicts turn_verdict_ref v.turn_id turn_entity_id v

    unfoldable pub get_verdict : Ref → W → Result ContentError Verdict
    get_verdict ref w = get ids backend codecs.verdicts turn_verdict_ref ref w

    unfoldable pub put_roll : String → RollResult → Exec W ContentError Ref
    unfolding put_for_turn
    put_roll turn_entity_id r = put_for_turn codecs.rolls turn_roll_ref r.turn_id turn_entity_id r

    unfoldable pub get_roll : Ref → W → Result ContentError RollResult
    get_roll ref w = get ids backend codecs.rolls turn_roll_ref ref w

    unfoldable pub put_effect_batch : String → EffectBatch → Exec W ContentError Ref
    unfolding put_for_turn
    put_effect_batch turn_entity_id b =
        put_for_turn codecs.batches turn_effects_ref b.turn_id turn_entity_id b

    unfoldable pub get_effect_batch : Ref → W → Result ContentError EffectBatch
    get_effect_batch ref w = get ids backend codecs.batches turn_effects_ref ref w

    unfoldable pub put_failure_detail : String → FailureDetail → Exec W ContentError Ref
    unfolding put_for_turn
    put_failure_detail turn_entity_id d =
        put_for_turn codecs.details turn_failure_ref d.turn_id turn_entity_id d

    unfoldable pub get_failure_detail : Ref → W → Result ContentError FailureDetail
    get_failure_detail ref w = get ids backend codecs.details turn_failure_ref ref w

    unfoldable pub artifacts : Artifacts W
    unfolding get_verdict put_roll put_effect_batch put_failure_detail
    artifacts = record {
      get_verdict = get_verdict;
      put_roll = put_roll;
      put_effect_batch = put_effect_batch;
      put_failure_detail = put_failure_detail;
    }
