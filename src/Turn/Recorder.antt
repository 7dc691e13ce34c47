-- ===== src/Turn/Recorder.antt =====
-- internal/turn/recorder.go: `Accept`, `Advance` and `Fail`. The graph store, the action store and the
-- clock are parameters.
use semmachina.Prelude.{
  ℕ, String, Bool, true, false, ◌&&◌, not, if◌then◌else◌, none, some, contains, Result, ok, err,
  wrap,
}
use semmachina.Exec.{Exec, pure, raise, lift, ◌>>=◌, ◌>>◌}
use semmachina.Vocabulary.TurnPhase.{TurnPhase, accepted, failed, same}
use semmachina.Vocabulary.Phases.{is_terminal}
use semmachina.Vocabulary.FailureReason
use semmachina.Graph.{EntityState, Store, StoreError, entity_not_found, entity_exists}
use semmachina.Graph.Targets.{turn_birth_contract, turn_phase_state, player_resolved_turn}
use semmachina.Graph.Ids.{IdRules, require_turn_entity_id}
use semmachina.Content.Ref
use semmachina.Content.Ref.{Ref, zero_ref}
use semmachina.Payload.TurnRecords.{TurnState, turn_state_triples, player_resolved_turn_triples}
use semmachina.Payload.PlayerAction.{PlayerAction, validate_player_action}
use semmachina.Turn.Identity.{Identity, entity_id_for_action}
use semmachina.Turn.Transition.{Outcome, advanced, classify, advance_target}
use semmachina.Turn.Reads.{born_elsewhere, phase_of, player_of, held_turns, resolved_turns}
use semmachina.Turn.Pointers.{
  RecorderError, action_rejected, action_id_rejected, action_unprojectable, store_error,
  record_error, illegal_transition, bad_turn_id, reason_unknown, bad_detail, unprojectable,
  pointer_unprojectable, Acceptance, Actions, source, clock, reconcile, current_state,
  point_player_at_turn,
}

pub record Transition : Type 0 where
  pub previous : TurnPhase
  pub phase : TurnPhase
  pub outcome : Outcome

abbrev pub birth_state : String → PlayerAction → String → TurnState
birth_state turn_id action action_ref = record {
  turn_id = turn_id;
  phase = accepted;
  player_id = action.player_id;
  scene_id = action.scene_id;
  action_ref = action_ref;
  reason = "";
  detail_ref = "";
}

abbrev pub later_state : String → TurnPhase → String → String → TurnState
later_state turn_id phase reason detail = record {
  turn_id = turn_id;
  phase = phase;
  player_id = "";
  scene_id = "";
  action_ref = "";
  reason = reason;
  detail_ref = detail;
}

module _ {W : Type 0} (ids : IdRules) (store : Store W) (now : W → ℕ) where
  -- `pointPlayerAtResolvedTurn`, and the write at the end of `repairResolvedPointer`.
  unfoldable pub write_resolved : String → String → String → Exec W RecorderError (Unit {0})
  unfolding reconcile clock
  write_resolved player_id turn_id turn_entity_id = do
    at ← clock ids store now
    triples ← lift (
        wrap pointer_unprojectable (
          player_resolved_turn_triples ids
            (record { player_id = player_id; turn_id = turn_id; turn_entity_id = turn_entity_id })
            player_id source at))
    reconcile ids store now player_resolved_turn player_id triples

  unfoldable pub point_player_at_resolved_turn :
      EntityState → String → String → Exec W RecorderError (Unit {0})
  unfolding write_resolved
  point_player_at_resolved_turn state turn_id turn_entity_id = do
    player_id ← lift (wrap record_error (player_of state))
    write_resolved player_id turn_id turn_entity_id

  unfoldable pub repair_from :
      String → String → String → Result StoreError EntityState → Exec W RecorderError (Unit {0})
  unfolding write_resolved
  repair_from player_id turn_id turn_entity_id (err entity_not_found) = pure tt
  repair_from player_id turn_id turn_entity_id (err e) = raise (store_error e)
  repair_from player_id turn_id turn_entity_id (ok player) =
      if contains (resolved_turns (some player)).0 turn_entity_id
      then pure tt
      else if not (contains (held_turns (some player)).0 turn_entity_id)
      then pure tt
      else write_resolved player_id turn_id turn_entity_id

  unfoldable pub repair_resolved_pointer :
      EntityState → String → String → Exec W RecorderError (Unit {0})
  unfolding repair_from
  repair_resolved_pointer state turn_id turn_entity_id = do
    player_id ← lift (wrap record_error (player_of state))
    (λ w. repair_from player_id turn_id turn_entity_id (store.get_entity w player_id) w)

  -- The part of `transition` behind `classify`.
  unfoldable pub settle :
      String
      → String
      → TurnPhase
      → String
      → Ref
      → EntityState
      → TurnPhase
      → Outcome
      → Exec W RecorderError Transition
  unfolding reconcile clock
  settle turn_id turn_entity_id to reason detail stored previous advanced = do
    at ← clock ids store now
    triples ← lift (
        wrap unprojectable (
          turn_state_triples ids (later_state turn_id to reason (Ref.to_string detail))
            turn_entity_id source at))
    reconcile ids store now turn_phase_state turn_entity_id triples
    (if is_terminal to
        then point_player_at_resolved_turn stored turn_id turn_entity_id
        else pure tt)
    pure (record { previous = previous; phase = to; outcome = advanced })
  settle turn_id turn_entity_id to reason detail stored previous outcome = do
    (if is_terminal to && is_terminal previous
        then repair_resolved_pointer stored turn_id turn_entity_id
        else pure tt)
    pure (record { previous = previous; phase = previous; outcome = outcome })

  unfoldable pub transition :
      String → String → TurnPhase → String → Ref → Exec W RecorderError Transition
  unfolding settle current_state
  transition turn_id turn_entity_id to reason detail = do
    lift (wrap bad_turn_id (require_turn_entity_id ids turn_id turn_entity_id))
    read ← current_state ids store now turn_entity_id
    outcome ← lift (wrap illegal_transition (classify read.1 to))
    settle turn_id turn_entity_id to reason detail read.0 read.1 outcome

  unfoldable pub advance : String → String → TurnPhase → Exec W RecorderError Transition
  advance turn_id turn_entity_id to = elim (advance_target to) [
    | some fault ↦ raise (illegal_transition fault)
    | none ↦ transition turn_id turn_entity_id to "" zero_ref
  ]

  unfoldable pub fail : String → String → String → Ref → Exec W RecorderError Transition
  fail turn_id turn_entity_id reason detail = do
    code ← lift (wrap reason_unknown (FailureReason.parse reason))
    (if Ref.is_zero detail then pure tt else lift (wrap bad_detail (Ref.validate ids detail)))
    transition turn_id turn_entity_id failed reason detail

  -- `acceptedEntity`, as the entity that is created.
  unfoldable pub accepted_entity :
      String → String → String → PlayerAction → Exec W RecorderError EntityState
  unfolding clock
  accepted_entity turn_id turn_entity_id action_ref action = do
    at ← clock ids store now
    triples ← lift (
        wrap action_unprojectable
          (turn_state_triples ids (birth_state turn_id action action_ref) turn_entity_id source at))
    pure (record { id = turn_entity_id; triples = triples })

  -- `confirmAccepted`.
  unfoldable pub confirm_accepted : EntityState → Result RecorderError TurnPhase
  confirm_accepted stored = elim (phase_of (some stored)) [
    | err e ↦ err (record_error e)
    | ok phase ↦
        if same phase accepted then ok accepted else err (record_error (born_elsewhere phase))
  ]

  -- The switch on what `CreateEntity` returned: whether the turn was created, and its phase.
  unfoldable pub birth_outcome :
      String → Result StoreError EntityState → Exec W RecorderError (Bool × TurnPhase)
  unfolding confirm_accepted current_state
  birth_outcome turn_entity_id (ok stored) = do
    phase ← lift (confirm_accepted stored)
    pure (true, phase)
  birth_outcome turn_entity_id (err entity_exists) = do
    read ← current_state ids store now turn_entity_id
    pure (false, read.1)
  birth_outcome turn_entity_id (err e) = raise (store_error e)

  unfoldable pub create : String → EntityState → Exec W RecorderError (Bool × TurnPhase)
  unfolding birth_outcome
  create turn_entity_id entity w =
      let (w', r) = store.create_entity w turn_birth_contract entity in
      birth_outcome turn_entity_id r w'

  unfoldable pub put : Actions W → String → PlayerAction → Exec W RecorderError String
  put actions turn_entity_id action w =
      let (w', r) = actions.put_action w turn_entity_id action in (w', wrap store_error r)

  unfoldable pub accept : Actions W → Identity → PlayerAction → Exec W RecorderError Acceptance
  unfolding accepted_entity create put point_player_at_turn
  accept actions identity action = do
    lift (wrap action_rejected (validate_player_action ids action))
    names ← lift (wrap action_id_rejected (entity_id_for_action ids identity action.action_id))
    action_ref ← put actions names.1 action
    entity ← accepted_entity names.0 names.1 action_ref action
    born ← create names.1 entity
    let acceptance : Acceptance = record {
      turn_id = names.0;
      turn_entity_id = names.1;
      created = born.0;
      phase = born.1;
    }
    point_player_at_turn ids store now action.player_id acceptance
    pure acceptance
