-- ===== src/Turn/Accepted.antt =====
-- internal/turn/recorder.go `Accept` over a lawful store: what the graph records when an action is
-- acknowledged.
use mathlib.Core.Path.{ap₂, subst}
use semmachina.Prelude.{
  ℕ, String, Bool, true, ◌≡◌, refl, sym, ap, ◌∙◌, arith, eq_iff, Result, ok, err, Bool-cases, inl,
  inr, Result-cases,
}
use semmachina.Exec.{pure, ◌>>=◌, ◌>>◌, Post, Post-mono, Post-ok, Post-bind, Exec-cases}
use semmachina.Vocabulary.TurnPhase.{TurnPhase, accepted, same, foreign_text}
use semmachina.Vocabulary.Predicates.{turn_phase_current}
use semmachina.Graph.{EntityState, Store, StoreError, entity_exists, objects_for}
use semmachina.Graph.Targets.{turn_birth_contract}
use semmachina.Graph.Laws.{IsLawful}
use semmachina.Graph.Ids.{IdRules}
use semmachina.Payload.PlayerAction.{PlayerAction, validate_player_action}
use semmachina.Payload.TurnRecords.{turn_state_triples}
use semmachina.Turn.Identity.{Identity, entity_id_for_action}
use semmachina.Turn.Reads.{RecordFault, phase_in, phase_of}
use semmachina.Turn.Pointers.{
  RecorderError, Acceptance, Actions, source, current_state, point_player_at_turn,
}
use semmachina.Turn.Recorder.{
  birth_outcome, create, confirm_accepted, accepted_entity, birth_state, put, accept,
}
use semmachina.Turn.Durable.{InPhase, current_state-Post}
use semmachina.Turn.Pointed.{point_player_at_turn-Post}

accepted_only : (q : TurnPhase) → same q accepted ≡ true → q ≡ accepted
accepted_only q h = ground (arith, eq_iff (foreign_text q) "")

of_ok :
    {p q : TurnPhase}
    → ◌≡◌ {A = Result RecorderError TurnPhase} (ok p) (ok q)
    → ◌≡◌ {A = Result RecordFault TurnPhase} (ok p) (ok q)
of_ok h = cc

abbrev acknowledged : String → String → Bool × TurnPhase → Acceptance
acknowledged turn_id id born = record {
  turn_id = turn_id;
  turn_entity_id = id;
  created = born.0;
  phase = born.1;
}

module _ {W : Type 0} (ids : IdRules) (store : Store W) (now : W → ℕ) where
  -- A stored turn that was confirmed reads as it was reported.
  confirmed :
      (w : W) (id : String) (s : EntityState) (p : TurnPhase)
      → store.get_entity w id ≡ ok s
      → confirm_accepted ids store now s ≡ ok p
      → InPhase store w id p
  unfolding confirm_accepted phase_of
  confirmed w id s p h = elim (Result-cases (phase_in (objects_for s.triples turn_phase_current))) [
    | inr (e, k) ↦ rw (k, confirm_accepted) (λ c. absurd (cc c))
    | inl (q, k) ↦ elim (Bool-cases (same q accepted)) [
      | inr n ↦ rw (k, confirm_accepted) (rw n (λ c. absurd (cc c)))
      | inl e ↦
          rw (k, confirm_accepted)
            (rw e (λ c. record {
              present = rw h refl;
              recorded = rw h (k ∙ ap ok (accepted_only q e) ∙ of_ok c);
            }))
    ]
  ]

  create-Post :
      IsLawful store
      → (entity : EntityState) (w : W)
      → Post
          (create ids store now entity.id entity w)
          (λ w' born. InPhase store w' entity.id born.1)
  unfolding create birth_outcome
  create-Post lawful entity w =
      elim (Exec-cases (store.create_entity w turn_birth_contract entity)) [
        | inl (v, s, h) ↦ rw h (elim (Result-cases (confirm_accepted ids store now s)) [
          | inr (e, k) ↦ rw k tt
          | inl (p, k) ↦ rw k (
              confirmed v entity.id s p (lawful.create_stores w v turn_birth_contract entity s h) k)
        ])
        | inr (v, e, h) ↦ rw h (not_created e v)
      ]
    where
      not_created :
          (e : StoreError) (v : W)
          → Post
              (birth_outcome ids store now entity.id (err e) v)
              (λ w' born. InPhase store w' entity.id born.1)
      not_created entity_exists v = elim (Exec-cases (current_state ids store now entity.id v)) [
        | inr (v', e, k) ↦ rw k tt
        | inl (v', read, k) ↦
            let (same_world, at) =
              Post-ok (λ w' read. (w' ≡ v) × InPhase store v entity.id read.1) _
                (current_state-Post ids store now entity.id v) k in
            rw k (subst (λ x. InPhase store x entity.id read.1) (sym same_world) at)
      ]
      not_created e v = tt

  pointed_then :
      IsLawful store
      → (player_id : String) (a : Acceptance) (w : W) → InPhase store w a.turn_entity_id a.phase
      → Post
          ((point_player_at_turn ids store now player_id a >> pure a) w)
          (λ w' b. (b ≡ a) × InPhase store w' a.turn_entity_id a.phase)
  pointed_then lawful player_id a w at =
      Post-bind (point_player_at_turn ids store now player_id a) (λ _. pure a) w _
        (Post-mono (λ v u. InPhase store v a.turn_entity_id a.phase) _ _
          (point_player_at_turn-Post ids store now lawful a.turn_entity_id a.phase player_id a w at)
          (λ v u kept. (refl, kept)))

  -- The acknowledgement of a turn that is in the graph.
  Acknowledges : String → String → W → Acceptance → Type 0
  Acknowledges turn_id id w a =
      (a.turn_id ≡ turn_id) × (a.turn_entity_id ≡ id) × InPhase store w a.turn_entity_id a.phase

  born_and_pointed :
      IsLawful store
      → (turn_id id ref : String) (action : PlayerAction) (w : W)
      → Post
          ((accepted_entity ids store now turn_id id ref action >>= λ entity.
              create ids store now id entity >>= λ born.
              point_player_at_turn ids store now action.player_id (acknowledged turn_id id born)
              >> pure (acknowledged turn_id id born))
            w)
          (Acknowledges turn_id id)
  unfolding accepted_entity Acknowledges
  born_and_pointed lawful turn_id id ref action w =
      elim (Result-cases
        (turn_state_triples ids (birth_state turn_id action ref) id source (now w))) [
          | inr (e, h) ↦ rw h tt
          | inl (ts, h) ↦ rw h (
              Post-bind (create ids store now id (record { id = id; triples = ts }))
                (λ born.
                  point_player_at_turn ids store now action.player_id (acknowledged turn_id id born)
                  >> pure (acknowledged turn_id id born))
                w (Acknowledges turn_id id)
                (Post-mono (λ v born. InPhase store v id born.1) _ _
                  (create-Post lawful (record { id = id; triples = ts }) w)
                  (λ v born at.
                    Post-mono
                      (λ v' b. (b ≡ acknowledged turn_id id born) × InPhase store v' id born.1) _ _
                      (pointed_then lawful action.player_id (acknowledged turn_id id born) v at)
                      (λ v' b (same, kept). (
                        ap (λ x. x.turn_id) same,
                        ap (λ x. x.turn_entity_id) same,
                        rw same kept,
                      )))))
        ]

  -- The acknowledgement is of the turn of the action.
  Recorded : Identity → PlayerAction → W → Acceptance → Type 0
  Recorded identity action w a =
      (entity_id_for_action ids identity action.action_id ≡ ok (a.turn_id, a.turn_entity_id))
      × InPhase store w a.turn_entity_id a.phase

  accept-Post :
      IsLawful store
      → (actions : Actions W) (identity : Identity) (action : PlayerAction) (w : W)
      → Post (accept ids store now actions identity action w) (Recorded identity action)
  unfolding accept Recorded Acknowledges
  accept-Post lawful actions identity action w =
      elim (Result-cases (validate_player_action ids action)) [
        | inr (e, h) ↦ rw h tt
        | inl (u, h) ↦
            rw h (elim (Result-cases (entity_id_for_action ids identity action.action_id)) [
              | inr (e, n) ↦ rw n tt
              | inl (names, n) ↦
                  rw n (elim (Exec-cases (put ids store now actions names.1 action w)) [
                    | inr (v, e, k) ↦ rw k tt
                    | inl (v, ref, k) ↦ rw k (
                        Post-mono (Acknowledges names.0 names.1) _ _
                          (born_and_pointed lawful names.0 names.1 ref action v)
                          (λ w' a (turn, entity, at).
                            (n ∙ ap ok (ap₂ (λ t e. (t, e)) (sym turn) (sym entity)), at)))
                  ])
            ])
      ]

  -- Over a lawful store, when `Accept` acknowledges an action, the acknowledgement names the turn of that
  -- action, whose entity is in the graph and records the phase of the acknowledgement, whether the turn
  -- was created or was there before.
  pub accept_records :
      IsLawful store
      → (actions : Actions W) (identity : Identity) (action : PlayerAction) (w w' : W)
        (a : Acceptance)
      → accept ids store now actions identity action w ≡ (w', ok a)
      → (entity_id_for_action ids identity action.action_id ≡ ok (a.turn_id, a.turn_entity_id))
        × InPhase store w' a.turn_entity_id a.phase
  unfolding Recorded
  accept_records lawful actions identity action w w' a h =
      Post-ok (Recorded identity action) _ (accept-Post lawful actions identity action w) h
