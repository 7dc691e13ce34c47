-- ===== src/Stage/Entered.antt =====
-- internal/stage/enter.go over a lawful store: a stage that is entered, and one that is entered again.
use mathlib.Core.Path.{subst}
use semmachina.Prelude.{
  ℕ, String, Bool, true, false, ◌&&◌, not, none, ◌≡◌, refl, sym, ap, ◌∙◌, ◌⊎◌, inl, inr, Result, ok,
  arith, ok-injective,
}
use semmachina.Exec.{Post-ok, Exec-cases}
use semmachina.Vocabulary.TurnPhase.{TurnPhase, foreign}
use semmachina.Vocabulary.Phases.{is_terminal}
use semmachina.Graph.{Store}
use semmachina.Graph.Laws.{IsLawful}
use semmachina.Graph.Ids.{IdRules, require_turn_entity_id}
use semmachina.Content.Ref.{zero_ref}
use semmachina.Turn.Transition.{Outcome, advanced, resumed, declined, classify, advance_target}
use semmachina.Turn.Pointers.{RecorderError}
use semmachina.Turn.Recorder.{Transition, settle, transition, advance}
use semmachina.Turn.Durable.{InPhase}
use semmachina.Turn.Advance.{reported, Told, transition-Post}
use semmachina.Turn.Redelivery.{after_read, named_of}
use semmachina.Stage.Entering.{Trigger, is_declined, enter}

resumed_same : (p q : TurnPhase) → classify p q ≡ ok resumed → p ≡ q
unfolding classify
resumed_same (foreign s) q h = absurd (cc h)
resumed_same p q h = ground arith

-- A phase that stages enter: it is neither an end nor reached by another way.
pub record IsStaged (to : TurnPhase) : Type 0 where
  pub target : advance_target to ≡ none
  pub live : is_terminal to ≡ false
  pub resumes : classify to to ≡ ok resumed

module _ {W : Type 0} (ids : IdRules) (store : Store W) (now : W → ℕ) (trigger : Trigger)
    (to : TurnPhase) (staged : IsStaged to) where
  abbrev here : String
  here = trigger.turn_entity_id

  abbrev moved : W → W × Result RecorderError Transition
  moved w = transition ids store now trigger.turn_id here to "" zero_ref w

  enter-moved :
      (w w' : W) (run : Bool)
      → enter ids store now trigger to w ≡ (w', ok run)
      → (t : Transition) × (moved w ≡ (w', ok t)) × (run ≡ not (is_declined t.outcome))
  unfolding enter advance
  enter-moved w w' run h = elim (Exec-cases (moved w)) [
    | inr (v, e, k) ↦ absurd (cc (ap (λ r. r.1) (rw (staged.target, k, enter, advance) at h)))
    | inl (v, t, k) ↦
        let done = rw (staged.target, k, enter, advance) at h in
        (t, k ∙ ap (λ x. (x, ok t)) (ap (λ r. r.0) done), sym (ok-injective (ap (λ r. r.1) done)))
  ]

  -- A turn that is in another phase, or in this one, and is found so, is not written.
  pub enter_stale :
      (w : W) (p : TurnPhase) (o : Outcome)
      → require_turn_entity_id ids trigger.turn_id here ≡ ok tt
      → InPhase store w here p
      → (o ≡ resumed) ⊎ (o ≡ declined)
      → classify p to ≡ ok o
      → enter ids store now trigger to w ≡ (w, ok (not (is_declined o)))
  unfolding enter advance settle
  enter_stale w p o named at stale c =
      let (s, read) = after_read ids store now trigger.turn_id here "" zero_ref p to w named at in
      elim stale [
        | inl r ↦
            rw (staged.target, enter, advance)
              (rw (read, c, r) (rw (staged.live, settle, ◌&&◌) refl))
        | inr d ↦
            rw (staged.target, enter, advance)
              (rw (read, c, d) (rw (staged.live, settle, ◌&&◌) refl))
      ]

  pub entered_again :
      (w : W)
      → require_turn_entity_id ids trigger.turn_id here ≡ ok tt
      → InPhase store w here to
      → enter ids store now trigger to w ≡ (w, ok true)
  entered_again w named at = enter_stale w to resumed named at (inl refl) staged.resumes

  module _ (lawful : IsLawful store) (w w' : W) where
    told :
        (run : Bool)
        → enter ids store now trigger to w ≡ (w', ok run)
        → (t : Transition) × (require_turn_entity_id ids trigger.turn_id here ≡ ok tt)
          × Told ids store now here to w' t
          × (run ≡ not (is_declined t.outcome))
    told run h =
        let (t, k, e) = enter-moved w w' run h in
        (
          t,
          named_of ids store now trigger.turn_id here "" zero_ref to w w' t k,
          Post-ok (Told ids store now here to) _
              (transition-Post ids store now lawful trigger.turn_id here to "" zero_ref w) k,
          e,
        )

    in_phase :
        (p q : TurnPhase) (o : Outcome)
        → InPhase store w' here q
        → classify p to ≡ ok o
        → q ≡ reported to p o
        → true ≡ not (is_declined o)
        → InPhase store w' here to
    in_phase p q advanced at c e run = subst (InPhase store w' here) e at
    in_phase p q resumed at c e run = subst (InPhase store w' here) (e ∙ resumed_same p to c) at
    in_phase p q declined at c e run = absurd (cc run)

    -- A stage that runs has its turn in its phase.
    pub entered :
        enter ids store now trigger to w ≡ (w', ok true)
        → (require_turn_entity_id ids trigger.turn_id here ≡ ok tt) × InPhase store w' here to
    unfolding Told
    entered h =
        let (t, named, tell, run) = told true h in
        (named, in_phase t.previous t.phase t.outcome tell.0 tell.1 tell.2 run)

    left_behind :
        (p q : TurnPhase) (o : Outcome)
        → require_turn_entity_id ids trigger.turn_id here ≡ ok tt
        → InPhase store w' here q
        → classify p to ≡ ok o
        → q ≡ reported to p o
        → false ≡ not (is_declined o)
        → enter ids store now trigger to w' ≡ (w', ok false)
    left_behind p q advanced named at c e run = absurd (cc run)
    left_behind p q resumed named at c e run = absurd (cc run)
    left_behind p q declined named at c e run =
        enter_stale w' q declined named at (inr refl)
          (subst (λ x. classify x to ≡ ok declined) (sym e) c)

    -- A stage that declined its trigger declines it again.
    pub declined_again :
        enter ids store now trigger to w ≡ (w', ok false)
        → enter ids store now trigger to w' ≡ (w', ok false)
    unfolding Told
    declined_again h =
        let (t, named, tell, run) = told false h in
        left_behind t.previous t.phase t.outcome named tell.0 tell.1 tell.2 run
