-- ===== src/Turn/Durable.antt =====
-- internal/turn/recorder.go over a lawful store: what is in the graph when the recorder reports
-- success.

use semmachina.Prelude.{
  ℕ, String, true, false, Option, none, some, List, [], ◌∷◌, map, ◌≡◌, refl, ap, ◌∙◌, Result, ok,
  err, Bool-cases, inl, inr, contains, Result-cases,
}
use semmachina.Exec.{Post, Exec-cases}
use semmachina.Vocabulary.TurnPhase.{TurnPhase}
use semmachina.Vocabulary.Predicates.{turn_phase_current}
use semmachina.Graph.{
  Object, text, int, int64, float64, json_number, boolean, other, Triple, EntityState, Store,
  StoreError, entity_not_found, Target, objects_for,
}
use semmachina.Graph.Targets.{predicates_of, turn_phase_state, player_resolved_turn}
use semmachina.Graph.Laws.{is_present, objects_at, IsLawful}
use semmachina.Graph.Ids.{IdRules}
use semmachina.Turn.Reads.{phase_of, phase_in, player_of, resolved_turns, held_turns}
use semmachina.Turn.Recorder.{
  write_resolved, point_player_at_resolved_turn, repair_from, repair_resolved_pointer,
}
use semmachina.Payload.TurnRecords.{player_resolved_turn_triples}
use semmachina.Turn.Pointers.{reconcile, written, current_state, source}

-- The turn's entity is there and records the phase.
module _ {W : Type 0} (store : Store W) where
  pub record InPhase (w : W) (id : String) (p : TurnPhase) : Type 0 where
    pub present : is_present store w id ≡ true
    pub recorded : phase_in (objects_at store w id turn_phase_current) ≡ ok p

module _ {W : Type 0} (ids : IdRules) (store : Store W) (now : W → ℕ) where
  written-ok :
      (r : W × Option StoreError) {w' : W} → written ids store now r ≡ (w', ok tt) → r ≡ (w', none)
  unfolding written
  written-ok (w, none) h = ap (λ r. (r.0, none)) h
  written-ok (w, some e) h = cc (ap (λ r. r.1) h)

  pub reconcile-ok :
      (target : Target) (id : String) (ts : List Triple) {w w' : W}
      → reconcile ids store now target id ts w ≡ (w', ok tt)
      → store.reconcile w target id ts ≡ (w', none)
  unfolding reconcile
  reconcile-ok target id ts {w = w} h = written-ok (store.reconcile w target id ts) h

  -- A successful write of another group leaves the phase.
  pub reconcile-InPhase :
      IsLawful store
      → (target : Target) (j : String) (ts : List Triple) {w w' : W} (id : String) (p : TurnPhase)
      → contains (predicates_of target) turn_phase_current ≡ false
      → reconcile ids store now target j ts w ≡ (w', ok tt)
      → InPhase store w id p
      → InPhase store w' id p
  reconcile-InPhase l target j ts {w} {w'} id p g h at =
      let done = reconcile-ok target j ts h in
      record {
        present = l.reconcile_present w w' target j ts id done ∙ at.present;
        recorded =
            ap phase_in (l.reconcile_keeps w w' target j ts id turn_phase_current done g)
            ∙ at.recorded;
      }

  phase-read_back :
      (l : IsLawful store) (os : List Object) (p : TurnPhase)
      → phase_in os ≡ ok p
      → phase_in (map l.read_back os) ≡ ok p
  unfolding phase_in
  phase-read_back l [] p h = absurd (cc h)
  phase-read_back l (text s ∷ []) p h = rw (l.read_text s) h
  phase-read_back l (int v ∷ []) p h = absurd (cc h)
  phase-read_back l (int64 v ∷ []) p h = absurd (cc h)
  phase-read_back l (float64 v ∷ []) p h = absurd (cc h)
  phase-read_back l (json_number v ∷ []) p h = absurd (cc h)
  phase-read_back l (boolean b ∷ []) p h = absurd (cc h)
  phase-read_back l (other ∷ []) p h = absurd (cc h)
  phase-read_back l (a ∷ b ∷ rest) p h = absurd (cc h)

  -- The write of a phase is there to be read.
  pub reconcile-writes_phase :
      IsLawful store
      → (id : String) (ts : List Triple) (w : W) {w' : W} (p : TurnPhase)
      → is_present store w id ≡ true
      → phase_in (objects_for ts turn_phase_current) ≡ ok p
      → reconcile ids store now turn_phase_state id ts w ≡ (w', ok tt)
      → InPhase store w' id p
  unfolding predicates_of
  reconcile-writes_phase l id ts w {w'} p at e h =
      let done = reconcile-ok turn_phase_state id ts h in
      record {
        present = l.reconcile_present w w' turn_phase_state id ts id done ∙ at;
        recorded =
            ap phase_in (l.reconcile_sets w w' turn_phase_state id ts turn_phase_current done refl)
            ∙ phase-read_back l (objects_for ts turn_phase_current) p e;
      }

  -- What `currentState` answers is the phase that the graph records.
  pub current_state-Post :
      (id : String) (w : W)
      → Post (current_state ids store now id w) (λ w' read. (w' ≡ w) × InPhase store w id read.1)
  unfolding current_state phase_of
  current_state-Post id w = elim (Result-cases (store.get_entity w id)) [
    | inr (e, h) ↦ rw h tt
    | inl (s, h) ↦ elim (Result-cases (phase_in (objects_for s.triples turn_phase_current))) [
      | inr (f, k) ↦ rw h (rw k tt)
      | inl (p, k) ↦ rw h (rw k (refl, record { present = rw h; recorded = rw h k }))
    ]
  ]

  module _ (lawful : IsLawful store) (id : String) (p : TurnPhase) where
    -- The pointer at a resolved turn is another group.
    write_resolved-Post :
        (player_id turn_id turn_entity_id : String) (w : W)
        → InPhase store w id p
        → Post
            (write_resolved ids store now player_id turn_id turn_entity_id w)
            (λ w' _. InPhase store w' id p)
    unfolding write_resolved predicates_of
    write_resolved-Post player_id turn_id turn_entity_id w at =
        elim (Result-cases (
          player_resolved_turn_triples ids
            (record { player_id = player_id; turn_id = turn_id; turn_entity_id = turn_entity_id })
            player_id source (now w))) [
              | inr (e, h) ↦ rw h tt
              | inl (ts, h) ↦
                  rw h
                    (elim (Exec-cases
                      (reconcile ids store now player_resolved_turn player_id ts w)) [
                        | inr (v, e, k) ↦ rw k tt
                        | inl (v, u, k) ↦ rw k (
                            reconcile-InPhase lawful player_resolved_turn player_id ts id p refl k
                              at)
                      ])
            ]

    pub point-Post :
        (state : EntityState) (turn_id turn_entity_id : String) (w : W)
        → InPhase store w id p
        → Post
            (point_player_at_resolved_turn ids store now state turn_id turn_entity_id w)
            (λ w' _. InPhase store w' id p)
    unfolding point_player_at_resolved_turn
    point-Post state turn_id turn_entity_id w at = elim (Result-cases (player_of state)) [
      | inr (e, h) ↦ rw h tt
      | inl (player, h) ↦ rw h (write_resolved-Post player turn_id turn_entity_id w at)
    ]

    repair_from-Post :
        (player_id turn_id turn_entity_id : String) (r : Result StoreError EntityState) (w : W)
        → InPhase store w id p
        → Post
            (repair_from ids store now player_id turn_id turn_entity_id r w)
            (λ w' _. InPhase store w' id p)
    unfolding repair_from
    repair_from-Post a b c (err entity_not_found) w at = at
    repair_from-Post a b c (err e) w at = tt
    repair_from-Post a b c (ok player) w at =
        elim (Bool-cases (contains (resolved_turns (some player)).0 c)) [
          | inl done ↦ rw done at
          | inr missing ↦ rw missing (elim (Bool-cases (contains (held_turns (some player)).0 c)) [
            | inl held ↦ rw held (write_resolved-Post a b c w at)
            | inr moved_on ↦ rw moved_on at
          ])
        ]

    pub repair-Post :
        (state : EntityState) (turn_id turn_entity_id : String) (w : W)
        → InPhase store w id p
        → Post
            (repair_resolved_pointer ids store now state turn_id turn_entity_id w)
            (λ w' _. InPhase store w' id p)
    unfolding repair_resolved_pointer
    repair-Post state turn_id turn_entity_id w at = elim (Result-cases (player_of state)) [
      | inr (e, h) ↦ rw h tt
      | inl (player, h) ↦
          rw h (repair_from-Post player turn_id turn_entity_id (store.get_entity w player) w at)
    ]
