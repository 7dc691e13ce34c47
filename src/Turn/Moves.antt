-- ===== src/Turn/Moves.antt =====
-- internal/turn/recorder.go `transition` on any trigger: when it writes at all.
use semmachina.Prelude.{
  ℕ, String, true, ◌&&◌, ◌≡◌, refl, ok, ◌⊎◌, inl, inr, Bool-cases, Result-cases,
}
use semmachina.Vocabulary.TurnPhase.{TurnPhase}
use semmachina.Vocabulary.Phases.{is_terminal}
use semmachina.Vocabulary.Predicates.{turn_phase_current}
use semmachina.Graph.{EntityState, Store, objects_for}
use semmachina.Graph.Ids.{IdRules, require_turn_entity_id}
use semmachina.Content.Ref.{Ref}
use semmachina.Turn.Reads.{phase_of, phase_in}
use semmachina.Turn.Transition.{Outcome, advanced, resumed, declined, classify}
use semmachina.Turn.Pointers.{current_state}
use semmachina.Turn.Recorder.{settle, transition}
use semmachina.Turn.Durable.{InPhase}
use semmachina.Turn.Lifecycle.{Edge, classify-advanced_iff}

module _ {W : Type 0} (ids : IdRules) (store : Store W) (now : W → ℕ) (turn_id id reason : String)
    (detail : Ref) (to : TurnPhase) (w : W) where
  -- The phase asked for is entered from the recorded one, or both end a turn.
  Moves : TurnPhase → Type 0
  Moves p = Edge p to ⊎ ((is_terminal p ≡ true) × (is_terminal to ≡ true))

  -- The turn is recorded in a phase from which it moves.
  MayMove : Type 0
  MayMove = (p : TurnPhase) × InPhase store w id p × Moves p

  settle-Moves :
      (s : EntityState) (p : TurnPhase) (o : Outcome)
      → classify p to ≡ ok o
      → ((settle ids store now turn_id id to reason detail s p o w).0 ≡ w) ⊎ Moves p
  unfolding settle Moves
  settle-Moves s p advanced c = inr (inl ((classify-advanced_iff p to).0 c))
  settle-Moves s p resumed c = elim (Bool-cases (is_terminal to)) [
    | inr f ↦ inl (rw (f, ◌&&◌) refl)
    | inl t ↦ elim (Bool-cases (is_terminal p)) [
      | inr g ↦ inl (rw (t, g, ◌&&◌) refl)
      | inl e ↦ inr (inr (e, t))
    ]
  ]
  settle-Moves s p declined c = elim (Bool-cases (is_terminal to)) [
    | inr f ↦ inl (rw (f, ◌&&◌) refl)
    | inl t ↦ elim (Bool-cases (is_terminal p)) [
      | inr g ↦ inl (rw (t, g, ◌&&◌) refl)
      | inl e ↦ inr (inr (e, t))
    ]
  ]

  read-MayMove :
      (s : EntityState) (p : TurnPhase)
      → store.get_entity w id ≡ ok s
      → phase_in (objects_for s.triples turn_phase_current) ≡ ok p
      → Moves p
      → MayMove
  unfolding MayMove
  read-MayMove s p g k moves = (p, record { present = rw g refl; recorded = rw g k }, moves)

  transition-MayMove : ((transition ids store now turn_id id to reason detail w).0 ≡ w) ⊎ MayMove
  unfolding transition current_state phase_of
  transition-MayMove = elim (Result-cases (require_turn_entity_id ids turn_id id)) [
    | inr (e, n) ↦ inl (rw (n, transition) refl)
    | inl (u, n) ↦ elim (Result-cases (store.get_entity w id)) [
      | inr (e, g) ↦ inl (rw (n, g, transition) refl)
      | inl (s, g) ↦ elim (Result-cases (phase_in (objects_for s.triples turn_phase_current))) [
        | inr (e, k) ↦ inl (rw (n, g, k, transition) refl)
        | inl (p, k) ↦ elim (Result-cases (classify p to)) [
          | inr (e, c) ↦ inl (rw (n, g, k, c, transition) refl)
          | inl (o, c) ↦ elim (settle-Moves s p o c) [
            | inl same ↦ inl (rw (n, g, k, c, transition) same)
            | inr moves ↦ inr (read-MayMove s p g k moves)
          ]
        ]
      ]
    ]
  ]

  -- A trigger, whatever it answers, leaves the world as it is, unless the graph records the turn in a
  -- phase from which an edge of the diagram leads to the one asked for, or both of them end a turn.
  pub transition_moves_along_edges :
      ((transition ids store now turn_id id to reason detail w).0 ≡ w)
      ⊎ ((p : TurnPhase) × InPhase store w id p
          × (Edge p to ⊎ ((is_terminal p ≡ true) × (is_terminal to ≡ true))))
  unfolding Moves MayMove
  transition_moves_along_edges = transition-MayMove
