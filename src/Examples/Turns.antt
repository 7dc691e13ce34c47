-- ===== src/Examples/Turns.antt =====
-- A turn that is accepted and interpreted.
use semmachina.Prelude.{
  true, false, List, [], ◌∷◌, ◌≡◌, refl, ap, ◌⊎◌, ◌↔◌, ok, err, ◌≤◌, ◌<◌, length,
}
use semmachina.Vocabulary.TurnPhase.{
  TurnPhase, accepted, interpreting, adjudicating, resolving, applying, companion, narrating,
  complete,
}
use semmachina.Vocabulary.Phases.{is_terminal}
use semmachina.Content.Ref.{zero_ref}
use semmachina.Graph.Memory.{Memory, memory, memory-IsLawful}
use semmachina.Graph.Ids.{require_turn_entity_id}
use semmachina.Turn.Transition.{advanced, resumed, declined, classify, Outcome, skipped_stage}
use semmachina.Turn.Lifecycle.{
  Edge, Live, rank, run, ending, classify-advanced_iff, complete_skips_nothing, bounded_execution,
}
use semmachina.Turn.Pointers.{Acceptance}
use semmachina.Turn.Recorder.{Transition, accept, advance, transition}
use semmachina.Turn.Faults.{classify_skipped, classify_stale}
use semmachina.Turn.Durable.{InPhase}
use semmachina.Turn.Identity.{entity_id_for_action}
use semmachina.Turn.Accepted.{accept_records}
use semmachina.Turn.Advance.{reported, advance_records}
use semmachina.Turn.Redelivery.{transition_again}
use semmachina.Turn.Moves.{transition_moves_along_edges}
use semmachina.Examples.World.{ids, clock, turn_1, start, actions, identity, action}

abbrev acceptance : Acceptance
acceptance = record {
  turn_id = "turn-a1";
  turn_entity_id = turn_1;
  created = true;
  phase = accepted;
}

abbrev begun : Memory
begun = (accept ids memory clock actions identity action start).0

accepts : (accept ids memory clock actions identity action start).1 ≡ ok acceptance
unfolding accept semmachina.Payload.PlayerAction.validate_player_action
    semmachina.Graph.Ids.require_action_id semmachina.Graph.Ids.require_entity_id
    semmachina.Turn.Identity.entity_id_for_action semmachina.Payload.PlayerAction.turn_id_for_action
    semmachina.Payload.TurnRecords.turn_state_triples semmachina.Payload.Projection.build
    semmachina.Payload.TurnRecords.validate_turn_state semmachina.Vocabulary.TurnPhase.parse
    require_turn_entity_id semmachina.Turn.Reads.phase_of semmachina.Graph.objects_for
    semmachina.Turn.Reads.held_turns semmachina.Payload.TurnRecords.player_turn_triples
    semmachina.Payload.TurnRecords.validate_player_pointer
accepts = refl

-- An action is acknowledged in a world that has the player.
accept_records_example :
    (entity_id_for_action ids identity action.action_id ≡ ok ("turn-a1", turn_1))
    × InPhase memory begun turn_1 accepted
accept_records_example =
    accept_records ids memory clock memory-IsLawful actions identity action start begun acceptance
      (ap (λ r. (begun, r)) accepts)

abbrev interpreted : Transition
interpreted = record { previous = accepted; phase = interpreting; outcome = advanced }

abbrev later : Memory
later = (advance ids memory clock "turn-a1" turn_1 interpreting begun).0

advances : (advance ids memory clock "turn-a1" turn_1 interpreting begun).1 ≡ ok interpreted
unfolding accept advance transition require_turn_entity_id semmachina.Turn.Transition.advance_target
    semmachina.Payload.PlayerAction.validate_player_action semmachina.Graph.Ids.require_action_id
    semmachina.Turn.Identity.entity_id_for_action semmachina.Payload.PlayerAction.turn_id_for_action
    semmachina.Payload.TurnRecords.turn_state_triples semmachina.Payload.Projection.build
    semmachina.Payload.TurnRecords.validate_turn_state semmachina.Vocabulary.TurnPhase.parse
    semmachina.Turn.Reads.phase_of semmachina.Graph.objects_for semmachina.Turn.Reads.held_turns
    semmachina.Payload.TurnRecords.player_turn_triples
    semmachina.Payload.TurnRecords.validate_player_pointer semmachina.Content.Ref.is_zero
    semmachina.Content.Ref.to_string semmachina.Graph.Ids.require_entity_id
    semmachina.Graph.Ids.validate_id_segment classify zero_ref
advances = refl

advance_records_example :
    InPhase memory later turn_1 interpreting
    × (classify accepted interpreting ≡ ok advanced)
    × (interpreting ≡ reported interpreting accepted advanced)
advance_records_example =
    advance_records ids memory clock memory-IsLawful "turn-a1" turn_1 interpreting begun later
      interpreted (ap (λ r. (later, r)) advances)

transits :
    transition ids memory clock "turn-a1" turn_1 interpreting "" zero_ref begun
    ≡ (later, ok interpreted)
unfolding advance semmachina.Turn.Transition.advance_target
transits = ap (λ r. (later, r)) advances

transition_again_example :
    (o : Outcome) × ((o ≡ resumed) ⊎ (o ≡ declined))
    × (transition ids memory clock "turn-a1" turn_1 interpreting "" zero_ref later
        ≡ (later, ok (record { previous = interpreting; phase = interpreting; outcome = o })))
transition_again_example =
    transition_again ids memory clock memory-IsLawful "turn-a1" turn_1 "" zero_ref interpreting
      begun later interpreted transits refl

refused : classify accepted applying ≡ err skipped_stage
unfolding classify
refused = refl

transition_moves_along_edges_example :
    ((transition ids memory clock "turn-a1" turn_1 accepted "" zero_ref later).0 ≡ later)
    ⊎ ((p : TurnPhase) × InPhase memory later turn_1 p
        × (Edge p accepted ⊎ ((is_terminal p ≡ true) × (is_terminal accepted ≡ true))))
transition_moves_along_edges_example =
    transition_moves_along_edges ids memory clock "turn-a1" turn_1 "" zero_ref accepted later

classify-advanced_iff_example :
    (classify adjudicating applying ≡ ok advanced) ↔ Edge adjudicating applying
classify-advanced_iff_example = classify-advanced_iff adjudicating applying

abbrev all_stages : List TurnPhase
all_stages =
    interpreting ∷ interpreting ∷ adjudicating ∷ applying ∷ resolving ∷ companion ∷ narrating
    ∷ complete ∷ []

finishes : (run accepted all_stages).0 ≡ complete
unfolding run classify
finishes = refl

complete_skips_nothing_example :
    ((run accepted all_stages).1 ≡ interpreting ∷ adjudicating ∷ resolving ∷ ending)
    ⊎ ((run accepted all_stages).1 ≡ interpreting ∷ adjudicating ∷ ending)
complete_skips_nothing_example = complete_skips_nothing all_stages finishes

bounded_execution_example : length (run accepted all_stages).1 ≤ 7
bounded_execution_example = bounded_execution all_stages

classify_skipped_example :
    (skipped_stage ≡ skipped_stage)
    × Live accepted
    × (rank accepted < rank applying)
    × (Edge accepted applying → ⊥)
classify_skipped_example = classify_skipped accepted applying skipped_stage refl refl refused

classify_stale_example :
    ((classify interpreting accepted ≡ ok resumed)
      ↔ ((is_terminal interpreting ≡ false) × (interpreting ≡ accepted)))
    × ((classify interpreting accepted ≡ ok declined)
        ↔ ((is_terminal interpreting ≡ true) ⊎ (rank accepted < rank interpreting)))
classify_stale_example = classify_stale interpreting accepted refl refl
