-- ===== src/Turn/Reads.antt =====
-- internal/turn/recorder.go: what a turn's or a player's entity says: `PhaseOf`, `playerOf`,
-- `HeldTurns` and `ResolvedTurns`.
use semmachina.Prelude.{
  ℕ, ◌+◌, String, if◌then◌else◌, Option, none, some, List, [], ◌∷◌, str_eq, Result, ok, err, wrap,
}
use semmachina.Vocabulary.Kinds.{UnknownValue}
use semmachina.Vocabulary.TurnPhase
use semmachina.Vocabulary.TurnPhase.{TurnPhase}
use semmachina.Vocabulary.Predicates.{
  turn_phase_current, turn_action_player, player_turn_current, player_turn_resolved,
}
use semmachina.Graph.{Object, text, EntityState, objects_for}

-- RecordError: the anomaly of a stored record.
pub data RecordFault : Type 0 where
  read_as_nil no_phase many_phases phase_not_text : RecordFault
  phase_unknown : UnknownValue → RecordFault
  born_elsewhere : TurnPhase → RecordFault
  no_player many_players player_not_text : RecordFault

unfoldable pub phase_in : List Object → Result RecordFault TurnPhase
phase_in [] = err no_phase
phase_in (text value ∷ []) = wrap phase_unknown (TurnPhase.parse value)
phase_in (object ∷ []) = err phase_not_text
phase_in (a ∷ b ∷ rest) = err many_phases

unfoldable pub phase_of : Option EntityState → Result RecordFault TurnPhase
unfolding phase_in
phase_of none = err read_as_nil
phase_of (some state) = phase_in (objects_for state.triples turn_phase_current)

player_in : List Object → Result RecordFault String
player_in [] = err no_player
player_in (text value ∷ []) = if str_eq value "" then err player_not_text else ok value
player_in (object ∷ []) = err player_not_text
player_in (a ∷ b ∷ rest) = err many_players

unfoldable pub player_of : EntityState → Result RecordFault String
unfolding player_in
player_of state = player_in (objects_for state.triples turn_action_player)

-- The readable turn ids among the objects of a pointer predicate, in order.
readable : List Object → List String
readable [] = []
readable (text value ∷ rest) = if str_eq value "" then readable rest else value ∷ readable rest
readable (object ∷ rest) = readable rest

unreadable : List Object → ℕ
unreadable [] = 0
unreadable (text value ∷ rest) = (if str_eq value "" then 1 else 0) + unreadable rest
unreadable (object ∷ rest) = 1 + unreadable rest

unfoldable pub held_turns : Option EntityState → List String × ℕ
unfolding readable unreadable
held_turns none = ([], 0)
held_turns (some state) =
    let objects = objects_for state.triples player_turn_current in
    (readable objects, unreadable objects)

unfoldable pub resolved_turns : Option EntityState → List String × ℕ
unfolding readable unreadable
resolved_turns none = ([], 0)
resolved_turns (some state) =
    let objects = objects_for state.triples player_turn_resolved in
    (readable objects, unreadable objects)
