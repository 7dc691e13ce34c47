-- ===== src/Turn/Writes.antt =====
-- internal/payload/turnstate.go as the recorder uses it: the phase that a written turn state carries.
use semmachina.Prelude.{
  ℕ, String, true, List, [], ◌∷◌, ◌++◌, ◌≡◌, refl, ◌∙◌, str_eq, ok, Bool-cases, inl, inr,
}
use semmachina.Vocabulary.TurnPhase
use semmachina.Vocabulary.TurnPhase.{TurnPhase, accepted, failed, same, valid}
use semmachina.Vocabulary.Predicates.{turn_phase_current}
use semmachina.Graph.{text, Triple, objects_for}
use semmachina.Graph.Ids.{IdRules}
use semmachina.Payload.TurnRecords.{
  TurnState, turn_state_projection, turn_state_triples, validate_turn_state,
}
use semmachina.Payload.Projection.{object_of}
use semmachina.Payload.Written.{scalar_objects, ref_objects, build-objects}

-- A declared phase is read back from its text.
pub parse-to_string :
    (p : TurnPhase) → valid p ≡ true → TurnPhase.parse (TurnPhase.to_string p) ≡ ok p
unfolding TurnPhase.parse
parse-to_string accepted v = refl
parse-to_string (TurnPhase.foreign t) v = cc
parse-to_string p v = refl

projected_phase :
    (s : TurnState) (e src : String) (at : ℕ)
    → let p = turn_state_projection s e src at in
      scalar_objects p.objects p.registered turn_phase_current ++ ref_objects p turn_phase_current
      ≡ text (TurnPhase.to_string s.phase) ∷ []
unfolding turn_state_projection scalar_objects ref_objects object_of
projected_phase s e src at = elim (Bool-cases (same s.phase accepted)) [
  | inl born ↦ rw (born, turn_state_projection)
  | inr later ↦ elim (Bool-cases (same s.phase failed)) [
    | inl fails ↦ elim (Bool-cases (str_eq s.detail_ref "")) [
      | inl plain ↦ rw (later, turn_state_projection) (rw (fails, turn_state_projection) (rw plain))
      | inr detailed ↦
          rw (later, turn_state_projection) (rw (fails, turn_state_projection) (rw detailed))
    ]
    | inr goes_on ↦ rw (later, turn_state_projection) (rw (goes_on, turn_state_projection))
  ]
]

-- A turn state that was written has one phase, its own.
pub turn_state_triples-phase :
    (ids : IdRules) (s : TurnState) (e src : String) (at : ℕ) (ts : List Triple)
    → turn_state_triples ids s e src at ≡ ok ts
    → objects_for ts turn_phase_current ≡ text (TurnPhase.to_string s.phase) ∷ []
unfolding turn_state_triples
turn_state_triples-phase ids s e src at ts h =
    build-objects ids (turn_state_projection s e src at) (validate_turn_state ids s) ts
      turn_phase_current h
    ∙ projected_phase s e src at
