-- ===== src/Turn/Pointers.antt =====
-- internal/turn/recorder.go: the errors of the recorder, its reads and writes of the graph, and the
-- pointer from a player to a turn that is being played. The graph store and the clock are parameters.
use semmachina.Prelude.{
  ℕ, String, Bool, true, false, not, if◌then◌else◌, Option, none, some, List, [], ◌∷◌, str_eq,
  Result, ok, err, wrap,
}
use semmachina.Exec.{Exec, pure, raise, lift, ◌>>=◌}
use semmachina.Vocabulary.Kinds.{UnknownValue}
use semmachina.Vocabulary.TurnPhase.{TurnPhase}
use semmachina.Vocabulary.Phases.{is_terminal}
use semmachina.Graph.{Triple, EntityState, Store, StoreError, entity_not_found, Target}
use semmachina.Graph.Targets.{player_current_turn}
use semmachina.Graph.Ids.{IdRules, IdError}
use semmachina.Content.Ref.{RefError}
use semmachina.Payload.Projection.{ProjectionError}
use semmachina.Payload.TurnRecords.{TurnStateError, player_turn_triples}
use semmachina.Payload.PlayerAction.{PlayerAction, ActionError}
use semmachina.Turn.Transition.{TransitionFault}
use semmachina.Turn.Reads.{RecordFault, phase_of, held_turns}

pub data RecorderError : Type 0 where
  action_rejected : ActionError → RecorderError
  action_id_rejected : IdError → RecorderError
  action_unprojectable : ProjectionError TurnStateError → RecorderError
  store_error : StoreError → RecorderError
  record_error : RecordFault → RecorderError
  illegal_transition : TransitionFault → RecorderError
  bad_turn_id : IdError → RecorderError
  reason_unknown : UnknownValue → RecorderError
  bad_detail : RefError → RecorderError
  unprojectable : ProjectionError TurnStateError → RecorderError
  pointer_unprojectable : ProjectionError IdError → RecorderError

pub record Acceptance : Type 0 where
  pub turn_id : String
  pub turn_entity_id : String
  pub created : Bool
  pub phase : TurnPhase

abbrev pub source : String
source = "turn-recorder"

-- `PutAction` of the action store returns the text of the reference to the stored action.
pub record Actions (W : Type 0) : Type 0 where
  pub put_action : W → String → PlayerAction → W × Result StoreError String

module _ {W : Type 0} (ids : IdRules) (store : Store W) (now : W → ℕ) where
  unfoldable pub get : String → Exec W RecorderError EntityState
  get id w = (w, wrap store_error (store.get_entity w id))

  unfoldable pub clock : Exec W RecorderError ℕ
  clock w = (w, ok (now w))

  unfoldable pub written : W × Option StoreError → W × Result RecorderError (Unit {0})
  written (w, none) = (w, ok tt)
  written (w, some e) = (w, err (store_error e))

  unfoldable pub reconcile : Target → String → List Triple → Exec W RecorderError (Unit {0})
  unfolding written
  reconcile target id triples w = written (store.reconcile w target id triples)

  -- `currentState`.
  unfoldable pub current_state : String → Exec W RecorderError (EntityState × TurnPhase)
  unfolding get
  current_state turn_entity_id = do
    state ← get turn_entity_id
    phase ← lift (wrap record_error (phase_of (some state)))
    pure (state, phase)

  -- `turnIsLive`: a turn that is not there or that cannot be read is not live.
  live_read : Result StoreError EntityState → Result RecorderError Bool
  live_read (err entity_not_found) = ok false
  live_read (err e) = err (store_error e)
  live_read (ok state) = elim (phase_of (some state)) [
    | ok phase ↦ ok (not (is_terminal phase))
    | err _ ↦ ok false
  ]

  unfoldable pub turn_is_live : String → Exec W RecorderError Bool
  unfolding live_read
  turn_is_live turn_entity_id w = (w, live_read (store.get_entity w turn_entity_id))

  -- The loop of `holdsAnotherLiveTurn` over the turns that the player holds.
  unfoldable pub any_live : String → List String → Exec W RecorderError Bool
  unfolding turn_is_live
  any_live except [] = pure false
  any_live except (id ∷ held) =
      let later = any_live except held in
      if str_eq id except
      then later
      else (turn_is_live id >>= λ live. if live then pure true else later)

  unfoldable pub held_by : String → Result StoreError EntityState → Exec W RecorderError Bool
  unfolding any_live
  held_by except (err entity_not_found) = pure false
  held_by except (err e) = raise (store_error e)
  held_by except (ok state) = any_live except (held_turns (some state)).0

  unfoldable pub holds_another_live_turn : String → String → Exec W RecorderError Bool
  unfolding held_by
  holds_another_live_turn player_id except w = held_by except (store.get_entity w player_id) w

  unfoldable pub write_pointer : String → Acceptance → Exec W RecorderError (Unit {0})
  unfolding reconcile clock
  write_pointer player_id a = do
    at ← clock
    triples ← lift (
        wrap pointer_unprojectable (
          player_turn_triples ids
            (record {
              player_id = player_id;
              turn_id = a.turn_id;
              turn_entity_id = a.turn_entity_id;
            })
            player_id source at))
    reconcile player_current_turn player_id triples

  unfoldable pub point_player_at_turn : String → Acceptance → Exec W RecorderError (Unit {0})
  unfolding write_pointer holds_another_live_turn
  point_player_at_turn player_id a = if is_terminal a.phase then pure tt else (do
    late ← holds_another_live_turn player_id a.turn_entity_id
    if late then pure tt else write_pointer player_id a)
