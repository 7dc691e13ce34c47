-- ===== src/Turn/Advance.antt =====
-- internal/turn/recorder.go `transition`, `Advance` and `Fail` over a lawful store: what the graph
-- records when they report an outcome, and when they write.
use mathlib.Core.Path.{subst}
use semmachina.Prelude.{
  ℕ, String, true, ◌&&◌, if◌then◌else◌, List, ◌≡◌, refl, sym, ok, Bool-cases, Option-cases, inl,
  inr, Result-cases,
}
use semmachina.Exec.{pure, ◌>>◌, Post, Post-mono, Post-ok, Post-bind, Exec-cases}
use semmachina.Vocabulary.TurnPhase.{TurnPhase, valid}
use semmachina.Vocabulary.Phases.{is_terminal}
use semmachina.Vocabulary.Predicates.{turn_phase_current}
use semmachina.Graph.{Triple, EntityState, Store, objects_for}
use semmachina.Graph.Targets.{turn_phase_state}
use semmachina.Graph.Laws.{IsLawful}
use semmachina.Graph.Ids.{IdRules, require_turn_entity_id}
use semmachina.Content.Ref
use semmachina.Content.Ref.{Ref, zero_ref}
use semmachina.Payload.TurnRecords.{turn_state_triples}
use semmachina.Turn.Reads.{phase_in}
use semmachina.Turn.Transition.{Outcome, advanced, resumed, declined, classify, advance_target}
use semmachina.Turn.Pointers.{reconcile, current_state, source}
use semmachina.Turn.Recorder.{
  Transition, later_state, settle, transition, advance, point_player_at_resolved_turn,
  repair_resolved_pointer,
}
use semmachina.Turn.Writes.{parse-to_string, turn_state_triples-phase}
use semmachina.Turn.Lifecycle.{
  Edge, interpret, adjudicate, roll, skip_dice, apply, accompany, narrate, finish, give_up,
  classify-advanced_iff,
}
use semmachina.Turn.Durable.{
  InPhase, reconcile-writes_phase, current_state-Post, point-Post, repair-Post,
}

-- The phase that a reported outcome stands for.
abbrev pub reported : TurnPhase → TurnPhase → Outcome → TurnPhase
reported to previous advanced = to
reported to previous _ = previous

later_phase :
    (ids : IdRules) (turn_id e reason detail : String) (to : TurnPhase) (at : ℕ) (ts : List Triple)
    → valid to ≡ true
    → turn_state_triples ids (later_state turn_id to reason detail) e source at ≡ ok ts
    → phase_in (objects_for ts turn_phase_current) ≡ ok to
unfolding phase_in
later_phase ids turn_id e reason detail to at ts v h =
    rw (turn_state_triples-phase ids (later_state turn_id to reason detail) e source at ts h)
      (rw (parse-to_string to v) refl)

pub entered-valid : {p q : TurnPhase} → Edge p q → valid q ≡ true
entered-valid interpret = refl
entered-valid adjudicate = refl
entered-valid roll = refl
entered-valid skip_dice = refl
entered-valid apply = refl
entered-valid accompany = refl
entered-valid narrate = refl
entered-valid finish = refl
entered-valid (give_up l) = refl

module _ {W : Type 0} (ids : IdRules) (store : Store W) (now : W → ℕ) where
  -- What a transition answers about the phase that the graph records.
  unfoldable pub Told : String → TurnPhase → W → Transition → Type 0
  Told id to w t =
      InPhase store w id t.phase
      × (classify t.previous to ≡ ok t.outcome)
      × (t.phase ≡ reported to t.previous t.outcome)

  module _ (lawful : IsLawful store) (turn_id id : String) (to : TurnPhase) (reason : String)
      (detail : Ref) where
    pointed :
        (stored : EntityState) (w : W)
        → InPhase store w id to
        → Post
            ((if is_terminal to
                then point_player_at_resolved_turn ids store now stored turn_id id
                else pure tt)
              w)
            (λ w' _. InPhase store w' id to)
    pointed stored w at = elim (Bool-cases (is_terminal to)) [
      | inl t ↦ rw t (point-Post ids store now lawful id to stored turn_id id w at)
      | inr f ↦ rw f at
    ]

    repaired :
        (stored : EntityState) (previous : TurnPhase) (w : W)
        → InPhase store w id previous
        → Post
            ((if is_terminal to && is_terminal previous
                then repair_resolved_pointer ids store now stored turn_id id
                else pure tt)
              w)
            (λ w' _. InPhase store w' id previous)
    repaired stored previous w at = elim (Bool-cases (is_terminal to && is_terminal previous)) [
      | inl t ↦ rw t (repair-Post ids store now lawful id previous stored turn_id id w at)
      | inr f ↦ rw f at
    ]

    settled_advanced :
        (stored : EntityState) (previous : TurnPhase) (w : W)
        → InPhase store w id previous
        → classify previous to ≡ ok advanced
        → Post
            (settle ids store now turn_id id to reason detail stored previous advanced w)
            (Told id to)
    unfolding settle Told
    settled_advanced stored previous w at c =
        let v = entered-valid ((classify-advanced_iff previous to).0 c) in
        elim (Result-cases (
          turn_state_triples ids (later_state turn_id to reason (Ref.to_string detail)) id source
            (now w))) [
              | inr (e, h) ↦ rw h tt
              | inl (ts, h) ↦
                  rw h (elim (Exec-cases (reconcile ids store now turn_phase_state id ts w)) [
                    | inr (w', e, k) ↦ rw k tt
                    | inl (w', u, k) ↦ rw k (
                        Post-bind
                          (if is_terminal to
                            then point_player_at_resolved_turn ids store now stored turn_id id
                            else pure tt)
                          (λ _.
                            pure (record { previous = previous; phase = to; outcome = advanced }))
                          w' (Told id to)
                          (Post-mono (λ v _. InPhase store v id to) _ _
                            (pointed stored w' (
                              reconcile-writes_phase ids store now lawful id ts w to at.present
                                (later_phase ids turn_id id reason (Ref.to_string detail) to (now w)
                                  ts v h)
                                k))
                            (λ v _ there. (there, c, refl))))
                  ])
            ]

    -- Both answers that write no phase.
    settled_stale :
        (stored : EntityState) (previous : TurnPhase) (outcome : Outcome) (w : W)
        → reported to previous outcome ≡ previous
        → InPhase store w id previous
        → classify previous to ≡ ok outcome
        → Post
            (((if is_terminal to && is_terminal previous
                  then repair_resolved_pointer ids store now stored turn_id id
                  else pure tt)
                >> pure (record { previous = previous; phase = previous; outcome = outcome }))
              w)
            (Told id to)
    unfolding Told
    settled_stale stored previous outcome w e at c =
        Post-bind
          (if is_terminal to && is_terminal previous
            then repair_resolved_pointer ids store now stored turn_id id
            else pure tt)
          (λ _. pure (record { previous = previous; phase = previous; outcome = outcome })) w
          (Told id to)
          (Post-mono (λ v _. InPhase store v id previous) _ _ (repaired stored previous w at)
            (λ v _ there. (there, c, sym e)))

    settle-Post :
        (stored : EntityState) (previous : TurnPhase) (outcome : Outcome) (w : W)
        → InPhase store w id previous
        → classify previous to ≡ ok outcome
        → Post
            (settle ids store now turn_id id to reason detail stored previous outcome w)
            (Told id to)
    unfolding settle
    settle-Post stored previous advanced w at c = settled_advanced stored previous w at c
    settle-Post stored previous resumed w at c = settled_stale stored previous resumed w refl at c
    settle-Post stored previous declined w at c = settled_stale stored previous declined w refl at c

    pub transition-Post :
        (w : W) → Post (transition ids store now turn_id id to reason detail w) (Told id to)
    unfolding transition
    transition-Post w = elim (Result-cases (require_turn_entity_id ids turn_id id)) [
      | inr (e, h) ↦ rw h tt
      | inl (u, h) ↦ rw h (elim (Exec-cases (current_state ids store now id w)) [
        | inr (w', e, k) ↦ rw k tt
        | inl (w', read, k) ↦ rw k (
            let found =
              Post-ok (λ w' read. (w' ≡ w) × InPhase store w id read.1) _
                (current_state-Post ids store now id w) k in
            elim (Result-cases (classify read.1 to)) [
              | inr (f, c) ↦ rw c tt
              | inl (o, c) ↦ rw c (
                  settle-Post read.0 read.1 o w'
                    (subst (λ v. InPhase store v id read.1) (sym found.0) found.1) c)
            ])
      ])
    ]

  -- Over a lawful store, when `Advance` succeeds the turn's entity is in the graph and records the
  -- phase that was reported: the requested one if the outcome is `advanced`, the one that was read
  -- if not, and the outcome is the one that `classify` gives for the two.
  pub advance_records :
      IsLawful store
      → (turn_id id : String) (to : TurnPhase) (w w' : W) (t : Transition)
      → advance ids store now turn_id id to w ≡ (w', ok t)
      → InPhase store w' id t.phase
        × (classify t.previous to ≡ ok t.outcome)
        × (t.phase ≡ reported to t.previous t.outcome)
  unfolding Told advance
  advance_records lawful turn_id id to w w' t = elim (Option-cases (advance_target to)) [
    | inr (f, h) ↦ rw (h, advance) (λ k. absurd (cc k))
    | inl h ↦
        rw (h, advance)
          (λ k. Post-ok (Told id to) _ (transition-Post lawful turn_id id to "" zero_ref w) k)
  ]
