-- ===== src/Turn/Redelivery.antt =====
-- internal/turn/recorder.go `transition` on a turn that the graph already records: a trigger that is
-- delivered again.
use mathlib.Core.Path.{subst}
use semmachina.Prelude.{
  ℕ, String, false, ◌&&◌, ◌≡◌, refl, sym, ap, ◌∙◌, ok, Bool-cases, inl, inr, wrap, Result-cases,
  ◌⊎◌,
}
use semmachina.Exec.{lift, ◌>>=◌, Post-ok}
use semmachina.Vocabulary.TurnPhase.{TurnPhase}
use semmachina.Vocabulary.Phases.{is_terminal}
use semmachina.Vocabulary.Predicates.{turn_phase_current}
use semmachina.Graph.{EntityState, Store}
use semmachina.Graph.Laws.{was_read, objects_read, IsLawful}
use semmachina.Graph.Ids.{IdRules, require_turn_entity_id}
use semmachina.Content.Ref.{Ref}
use semmachina.Turn.Reads.{phase_in, phase_of}
use semmachina.Turn.Transition.{Outcome, advanced, resumed, declined, classify}
use semmachina.Turn.Pointers.{illegal_transition, current_state}
use semmachina.Turn.Recorder.{Transition, settle, transition}
use semmachina.Turn.Durable.{InPhase}
use semmachina.Turn.Advance.{reported, Told, entered-valid, transition-Post}
use semmachina.Turn.Faults.{live_resumes}
use semmachina.Turn.Lifecycle.{classify-advanced_iff}

module _ {W : Type 0} (ids : IdRules) (store : Store W) (now : W → ℕ) where
  current_state-reads :
      (id : String) (w : W) (p : TurnPhase)
      → InPhase store w id p
      → (s : EntityState) × (current_state ids store now id w ≡ (w, ok (s, p)))
  unfolding current_state phase_of
  current_state-reads id w p at = elim (Result-cases (store.get_entity w id)) [
    | inl (s, h) ↦ (
      s,
      rw h (rw (ap (λ r. phase_in (objects_read r turn_phase_current)) (sym h) ∙ at.recorded) refl),
    )
    | inr (e, h) ↦ absurd (cc (ap was_read (sym h) ∙ at.present))
  ]

  settle-stale :
      (turn_id id reason : String) (detail : Ref) (p to : TurnPhase) (s : EntityState) (o : Outcome)
      (w : W)
      → is_terminal p ≡ false
      → (o ≡ resumed) ⊎ (o ≡ declined)
      → settle ids store now turn_id id to reason detail s p o w
        ≡ (w, ok (record { previous = p; phase = p; outcome = o }))
  unfolding settle
  settle-stale turn_id id reason detail p to s advanced w live stale = elim stale [
    | inl e ↦ absurd (cc e)
    | inr e ↦ absurd (cc e)
  ]
  settle-stale turn_id id reason detail p to s resumed w live stale =
      elim (Bool-cases (is_terminal to)) [
        | inl t ↦ rw (t, ◌&&◌) (rw live refl)
        | inr f ↦ rw (f, ◌&&◌) refl
      ]
  settle-stale turn_id id reason detail p to s declined w live stale =
      elim (Bool-cases (is_terminal to)) [
        | inl t ↦ rw (t, ◌&&◌) (rw live refl)
        | inr f ↦ rw (f, ◌&&◌) refl
      ]

  module _ (turn_id id reason : String) (detail : Ref) (p to : TurnPhase) (w : W) where
    pub after_read :
        require_turn_entity_id ids turn_id id ≡ ok tt
        → InPhase store w id p
        → (s : EntityState) × (transition ids store now turn_id id to reason detail w
            ≡ (lift (wrap illegal_transition (classify p to)) >>= λ outcome.
                  settle ids store now turn_id id to reason detail s p outcome)
                w)
    unfolding transition
    after_read named at = let (s, h) = current_state-reads id w p at in (s, rw named (rw h refl))

    -- A late or repeated trigger of a live turn.
    pub stale_writes_nothing :
        (o : Outcome)
        → require_turn_entity_id ids turn_id id ≡ ok tt
        → InPhase store w id p
        → is_terminal p ≡ false
        → (o ≡ resumed) ⊎ (o ≡ declined)
        → classify p to ≡ ok o
        → transition ids store now turn_id id to reason detail w
          ≡ (w, ok (record { previous = p; phase = p; outcome = o }))
    stale_writes_nothing o named at live stale c =
        let (s, h) = after_read named at in
        h ∙ rw c (settle-stale turn_id id reason detail p to s o w live stale)

  pub named_of :
      (turn_id id reason : String) (detail : Ref) (to : TurnPhase) (w w' : W) (t : Transition)
      → transition ids store now turn_id id to reason detail w ≡ (w', ok t)
      → require_turn_entity_id ids turn_id id ≡ ok tt
  unfolding transition
  named_of turn_id id reason detail to w w' t =
      elim (Result-cases (require_turn_entity_id ids turn_id id)) [
        | inl (tt, h) ↦ λ k. h
        | inr (e, h) ↦ rw (h, transition) (λ k. absurd (cc k))
      ]

  again :
      (turn_id id reason : String) (detail : Ref) (to : TurnPhase) (w : W)
      → require_turn_entity_id ids turn_id id ≡ ok tt
      → (previous phase : TurnPhase) (outcome : Outcome) → InPhase store w id phase
      → classify previous to ≡ ok outcome
      → phase ≡ reported to previous outcome
      → is_terminal phase ≡ false
      → (o : Outcome) × ((o ≡ resumed) ⊎ (o ≡ declined))
        × (transition ids store now turn_id id to reason detail w
            ≡ (w, ok (record { previous = phase; phase = phase; outcome = o })))
  again turn_id id reason detail to w named previous phase advanced at c e live =
      let v = entered-valid ((classify-advanced_iff previous to).0 c) in
      let here = live_resumes to v (subst (λ x. is_terminal x ≡ false) e live) in
      (
        resumed,
        inl refl,
        stale_writes_nothing turn_id id reason detail phase to w resumed named at live (inl refl)
            (subst (λ x. classify x to ≡ ok resumed) (sym e) here),
      )
  again turn_id id reason detail to w named previous phase resumed at c e live = (
    resumed,
    inl refl,
    stale_writes_nothing turn_id id reason detail phase to w resumed named at live (inl refl)
        (subst (λ x. classify x to ≡ ok resumed) (sym e) c),
  )
  again turn_id id reason detail to w named previous phase declined at c e live = (
    declined,
    inr refl,
    stale_writes_nothing turn_id id reason detail phase to w declined named at live (inr refl)
        (subst (λ x. classify x to ≡ ok declined) (sym e) c),
  )

  -- Over a lawful store, the same trigger delivered once more after a transition that left the turn
  -- live changes nothing: the world stays, and the answer is the phase that the first one reported,
  -- as resumed or declined.
  pub transition_again :
      IsLawful store
      → (turn_id id reason : String) (detail : Ref) (to : TurnPhase) (w w' : W) (t : Transition)
      → transition ids store now turn_id id to reason detail w ≡ (w', ok t)
      → is_terminal t.phase ≡ false
      → (o : Outcome) × ((o ≡ resumed) ⊎ (o ≡ declined))
        × (transition ids store now turn_id id to reason detail w'
            ≡ (w', ok (record { previous = t.phase; phase = t.phase; outcome = o })))
  unfolding Told
  transition_again lawful turn_id id reason detail to w w' t h live =
      let told =
        Post-ok (Told ids store now id to) _
          (transition-Post ids store now lawful turn_id id to reason detail w) h in
      let named = named_of turn_id id reason detail to w w' t h in
      again turn_id id reason detail to w' named t.previous t.phase t.outcome told.0 told.1 told.2
        live
