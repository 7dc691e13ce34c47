-- ===== src/Effect/Applier.antt =====
-- internal/effect/applier.go and errors.go: `Apply`, `commit` and `alreadyApplied`. The graph store and
-- the clock are parameters.
use semmachina.Prelude.{
  ℕ, String, Bool, true, false, not, if◌then◌else◌, Option, none, some, List, [], ◌∷◌, ◌++◌, length,
  ltb, ◌==◌, str_eq, Result, ok, err, wrap, guard,
}
use semmachina.Exec.{Exec, pure, lift, ◌>>=◌, ◌>>◌}
use semmachina.Vocabulary.Attributes.{AttributeSpec}
use semmachina.Vocabulary.Predicates.{turn_effects_batch, turn_effects_ref}
use semmachina.Graph.{Object, text, EntityState, Store, StoreError, objects_for}
use semmachina.Graph.Targets.{turn_effect_marker}
use semmachina.Graph.Ids.{IdRules, IdError, require_turn_entity_id}
use semmachina.Payload.Projection.{ProjectionError}
use semmachina.Payload.EffectBatches.{EffectBatch, BatchError, validate_batch, batch_triples}
use semmachina.Effect.Plan.{Plan, Rejection, build_plan}
use semmachina.Effect.Writes.{ProjectionWrite, projections}

-- `Targets` are the entities that were written.
pub record Applied : Type 0 where
  pub batch_id : String
  pub applied : Bool
  pub targets : List String

pub data CommitCause : Type 0 where
  write_failed : StoreError → CommitCause
  marker_refused : ProjectionError BatchError → CommitCause

-- `commit_incomplete` has the target that failed and those that were written.
pub data ApplyError : Type 0 where
  batch_invalid : BatchError → ApplyError
  turn_rejected : IdError → ApplyError
  no_batch_ref marker_repeated marker_halved batch_not_text ref_not_text : ApplyError
  turn_unreadable : StoreError → ApplyError
  other_batch other_ref : String → ApplyError
  rejected : Rejection → ApplyError
  commit_incomplete : String → List String → CommitCause → ApplyError

abbrev pub source : String
source = "effect-applier"

-- What is left of `alreadyApplied` at one identity and one reference.
unfoldable pub marker_matches : String → String → Object → Object → Result ApplyError Bool
marker_matches batch_id batch_ref (text b) (text r) =
    if not (str_eq b batch_id)
    then err (other_batch b)
    else if not (str_eq r batch_ref)
    then err (other_ref r)
    else ok true
marker_matches batch_id batch_ref (text b) r =
    if not (str_eq b batch_id) then err (other_batch b) else err ref_not_text
marker_matches batch_id batch_ref b r = err batch_not_text

unfoldable pub marker_lists : String → String → List Object → List Object → Result ApplyError Bool
unfolding marker_matches
marker_lists batch_id batch_ref (b ∷ bs) (r ∷ rs) = marker_matches batch_id batch_ref b r
marker_lists batch_id batch_ref bs rs = ok false

-- `alreadyApplied` on the turn's facts.
unfoldable pub already_applied :
    String → String → List Object → List Object → Result ApplyError Bool
unfolding marker_lists
already_applied batch_id batch_ref identities references =
    if ltb 1 (length identities)
    then err marker_repeated
    else if ltb 1 (length references)
    then err marker_repeated
    else if not (length identities == length references)
    then err marker_halved
    else marker_lists batch_id batch_ref identities references

module _ {W : Type 0} (ids : IdRules) (store : Store W) (now : W → ℕ) where
  unfoldable pub write_all : String → List ProjectionWrite → W → W × Option StoreError
  write_all id [] w = (w, none)
  write_all id (p ∷ ps) w =
      let (w', e) = store.reconcile w p.target id p.triples in
      elim e [ none ↦ write_all id ps w' | some f ↦ (w', some f) ]

  unfoldable pub read_turn : String → Exec W ApplyError EntityState
  read_turn id w = (w, wrap turn_unreadable (store.get_entity w id))

  unfoldable pub finish : Option StoreError → String → List String → Result ApplyError (Unit {0})
  finish none id written = ok tt
  finish (some e) id written = err (commit_incomplete id written (write_failed e))

  unfoldable pub write_target :
      String → List String → List ProjectionWrite → Exec W ApplyError (Unit {0})
  unfolding write_all finish
  write_target id written ps w = let (w', e) = write_all id ps w in (w', finish e id written)

  module _ (datatype turn_id : String) (at : ℕ) where
    -- The loop of `commit` over the targets, with those written so far.
    unfoldable pub write_plan : List String → Plan → Exec W ApplyError (List String)
    unfolding write_target
    write_plan written [] = pure written
    write_plan written (t ∷ rest) =
        write_target t.entity_id written (projections datatype source t turn_id at)
        >> write_plan (written ++ t.entity_id ∷ []) rest

  unfoldable pub write_marker :
      EffectBatch → String → String → ℕ → List String → Exec W ApplyError (Unit {0})
  unfolding finish
  write_marker batch turn_entity_id batch_ref at written = do
    marker ← lift (
        wrap (λ e. commit_incomplete turn_entity_id written (marker_refused e))
          (batch_triples ids batch turn_entity_id batch_ref source at))
    (λ w.
        let (w', e) = store.reconcile w turn_effect_marker turn_entity_id marker in
        (w', finish e turn_entity_id written))

  unfoldable pub commit : String → EffectBatch → String → String → Plan → Exec W ApplyError Applied
  unfolding write_plan write_marker
  commit datatype batch turn_entity_id batch_ref plan w =
      (do
        written ← write_plan datatype batch.turn_id (now w) [] plan
        write_marker batch turn_entity_id batch_ref (now w) written
        pure (record { batch_id = batch.batch_id; applied = true; targets = written }))
        w

  unfoldable pub plan_and_commit :
      String
      → (Object → String)
      → List AttributeSpec
      → EffectBatch
      → String
      → String
      → Exec W ApplyError Applied
  unfolding commit
  plan_and_commit datatype sprint specs batch turn_entity_id batch_ref = do
    plan ← (λ w. (w, wrap rejected (build_plan ids store sprint specs w batch.intents)))
    commit datatype batch turn_entity_id batch_ref plan

  -- `Apply`.
  unfoldable pub apply :
      String
      → (Object → String)
      → List AttributeSpec
      → EffectBatch
      → String
      → String
      → Exec W ApplyError Applied
  unfolding plan_and_commit read_turn
  apply datatype sprint specs batch turn_entity_id batch_ref = do
    lift (wrap batch_invalid (validate_batch ids batch))
    lift (wrap turn_rejected (require_turn_entity_id ids batch.turn_id turn_entity_id))
    lift (guard (not (str_eq batch_ref "")) no_batch_ref)
    state ← read_turn turn_entity_id
    done ← lift (
        already_applied batch.batch_id batch_ref (objects_for state.triples turn_effects_batch)
          (objects_for state.triples turn_effects_ref))
    (if done
        then pure (record { batch_id = batch.batch_id; applied = false; targets = [] })
        else plan_and_commit datatype sprint specs batch turn_entity_id batch_ref)
