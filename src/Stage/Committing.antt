-- ===== src/Stage/Committing.antt =====
-- internal/stage/apply.go over a lawful store: what a run of the effect stage keeps, and how it ends.
use mathlib.Core.Path.{subst}
use semmachina.Prelude.{
  ℕ, String, Bool, true, false, ◌≡◌, refl, ap, ◌∙◌, ◌⊎◌, inl, inr, Result, ok, err, contains, arith,
  Bool-cases, Result-cases, Option-cases,
}
use semmachina.Exec.{Post-ok, Exec-cases}
use semmachina.Vocabulary.TurnPhase.{TurnPhase, failed, foreign}
use semmachina.Vocabulary.Phases.{is_terminal}
use semmachina.Vocabulary.FailureReason
use semmachina.Vocabulary.FailureReason.{FailureReason}
use semmachina.Vocabulary.Predicates.{turn_verdict_ref, turn_phase_current, turn_roll_band}
use semmachina.Graph.{Store, Target}
use semmachina.Graph.Targets.{predicates_of}
use semmachina.Graph.Laws.{is_present, objects_at, IsLawful}
use semmachina.Graph.Ids.{IdRules, require_turn_entity_id}
use semmachina.Content.Ref
use semmachina.Content.Ref.{Ref}
use semmachina.Content.Artifacts.{Artifacts}
use semmachina.Turn.Reads.{phase_in}
use semmachina.Turn.Transition.{Outcome, advanced, resumed, declined, classify}
use semmachina.Turn.Recorder.{Transition, transition, fail}
use semmachina.Turn.Durable.{InPhase}
use semmachina.Turn.Advance.{reported, Told, transition-Post}
use semmachina.Turn.Redelivery.{named_of}
use semmachina.Effect.Applier.{Applied, ApplyError, CommitCause}
use semmachina.Effect.Reasons.{failure_reason_for}
use semmachina.Effect.Steps.{IsWritten, attributes, relationships, status, location, marker, IsKept}
use semmachina.Stage.Entering.{Trigger}
use semmachina.Stage.Applying.{stored_detail, end_turn, refuse, is_transient, applied_or}
use semmachina.Stage.Apart.{IsApart}

-- A predicate of no group that an application writes.
abbrev pub Outside : String → Type 0
Outside p = (t : Target) → IsWritten t → contains (predicates_of t) p ≡ false

pub phase-Outside : Outside turn_phase_current
unfolding predicates_of
phase-Outside _ attributes = refl
phase-Outside _ relationships = refl
phase-Outside _ status = refl
phase-Outside _ location = refl
phase-Outside _ marker = refl

pub verdict-Outside : Outside turn_verdict_ref
unfolding predicates_of
verdict-Outside _ attributes = refl
verdict-Outside _ relationships = refl
verdict-Outside _ status = refl
verdict-Outside _ location = refl
verdict-Outside _ marker = refl

pub band-Outside : Outside turn_roll_band
unfolding predicates_of
band-Outside _ attributes = refl
band-Outside _ relationships = refl
band-Outside _ status = refl
band-Outside _ location = refl
band-Outside _ marker = refl

ended_by_failure : (p : TurnPhase) → classify p failed ≡ ok declined → is_terminal p ≡ true
unfolding classify
ended_by_failure (foreign s) h = absurd (cc h)
ended_by_failure p h = ground arith

resumed_by_failure : (p : TurnPhase) → classify p failed ≡ ok resumed → is_terminal p ≡ true
unfolding classify
resumed_by_failure (foreign s) h = absurd (cc h)
resumed_by_failure p h = ground arith

ended_phase :
    (p q : TurnPhase) (o : Outcome)
    → classify p failed ≡ ok o
    → q ≡ reported failed p o
    → is_terminal q ≡ true
ended_phase p q advanced c e = ap is_terminal e
ended_phase p q resumed c e = ap is_terminal e ∙ resumed_by_failure p c
ended_phase p q declined c e = ap is_terminal e ∙ ended_by_failure p c

-- A turn that was asked to fail, and answered, is over.
module _ {W : Type 0} (ids : IdRules) (store : Store W) (now : W → ℕ) where
  unfoldable pub IsOver : W → String → Type 0
  IsOver w id = (q : TurnPhase) × InPhase store w id q × (is_terminal q ≡ true)

  pub fail-IsOver :
      IsLawful store
      → (turn_id id reason : String) (detail : Ref) (w w' : W) (t : Transition)
      → fail ids store now turn_id id reason detail w ≡ (w', ok t)
      → (require_turn_entity_id ids turn_id id ≡ ok tt) × IsOver w' id
  unfolding fail Told IsOver
  fail-IsOver lawful turn_id id reason detail w w' t h =
      let moved = went h in
      let tell =
        Post-ok (Told ids store now id failed) _
          (transition-Post ids store now lawful turn_id id failed reason detail w) moved in
      (
        named_of ids store now turn_id id reason detail failed w w' t moved,
        (t.phase, tell.0, ended_phase t.previous t.phase t.outcome tell.1 tell.2),
      )
    where
      went :
          fail ids store now turn_id id reason detail w ≡ (w', ok t)
          → transition ids store now turn_id id failed reason detail w ≡ (w', ok t)
      went h = elim (Result-cases (FailureReason.parse reason)) [
        | inr (e, p) ↦ absurd (cc (ap (λ r. r.1) (rw (p, fail) at h)))
        | inl (c, p) ↦ elim (Bool-cases (Ref.is_zero detail)) [
          | inl z ↦ rw (p, z, fail) at h
          | inr z ↦ elim (Result-cases (Ref.validate ids detail)) [
            | inr (e, v) ↦ absurd (cc (ap (λ r. r.1) (rw (p, z, v, fail) at h)))
            | inl (u, v) ↦ rw (p, z, v, fail) at h
          ]
        ]
      ]

  -- The entities, the facts outside the groups that an application writes, and the verdicts are the same.
  pub record Keeps (artifacts : Artifacts W) (w w' : W) : Type 0 where
    pub presence : (j : String) → is_present store w' j ≡ is_present store w j
    pub facts : (j p : String) → Outside p → objects_at store w' j p ≡ objects_at store w j p
    pub verdicts : (q : Ref) → artifacts.get_verdict q w' ≡ artifacts.get_verdict q w

  pub Keeps-IsKept :
      (artifacts : Artifacts W)
      → IsLawful store
      → IsApart store artifacts
      → IsKept store (Keeps artifacts)
  Keeps-IsKept artifacts lawful apart = record {
    same = λ w. record { presence = λ j. refl; facts = λ j p out. refl; verdicts = λ q. refl };
    next = λ u v w h k. record {
      presence = λ j. k.presence j ∙ h.presence j;
      facts = λ j p out. k.facts j p out ∙ h.facts j p out;
      verdicts = λ q. k.verdicts q ∙ h.verdicts q;
    };
    step = λ target id ts w w' t h. record {
      presence = λ j. lawful.reconcile_present w w' target id ts j h;
      facts = λ j p out. lawful.reconcile_keeps w w' target id ts j p h (out target t);
      verdicts = λ q. apart.graph_verdicts target id ts w w' h q;
    };
  }

  pub Keeps-phase :
      (artifacts : Artifacts W) (w w' : W) (id : String) (p : TurnPhase)
      → Keeps artifacts w w'
      → InPhase store w id p
      → InPhase store w' id p
  Keeps-phase artifacts w w' id p k at = record {
    present = k.presence id ∙ at.present;
    recorded = ap phase_in (k.facts id turn_phase_current phase-Outside) ∙ at.recorded;
  }

  module _ (artifacts : Artifacts W) (transient : CommitCause → Bool)
      (message : ApplyError → String) (trigger : Trigger) where
    end_turn-IsOver :
        IsLawful store
        → (reason : FailureReason) (e : ApplyError) (w w' : W)
        → end_turn ids store now artifacts transient message trigger reason e w ≡ (w', ok tt)
        → (require_turn_entity_id ids trigger.turn_id trigger.turn_entity_id ≡ ok tt)
          × IsOver w' trigger.turn_entity_id
    unfolding end_turn
    end_turn-IsOver lawful reason e w w' h =
        elim (Exec-cases
          (stored_detail ids store now artifacts transient message trigger reason e w)) [
            | inr (v, f, s) ↦ absurd (cc (ap (λ r. r.1) (rw (s, end_turn) at h)))
            | inl (v, ref, s) ↦
                elim (Exec-cases (
                  fail ids store now trigger.turn_id trigger.turn_entity_id
                    (FailureReason.to_string reason) ref v)) [
                      | inr (u, f, l) ↦ absurd (cc (ap (λ r. r.1) (rw (s, l, end_turn) at h)))
                      | inl (u, t, l) ↦
                          let done : u ≡ w' = ap (λ r. r.0) (rw (s, l, end_turn) at h) in
                          subst
                            (λ x.
                              (require_turn_entity_id ids trigger.turn_id trigger.turn_entity_id
                                ≡ ok tt)
                              × IsOver x trigger.turn_entity_id)
                            done
                            (fail-IsOver lawful trigger.turn_id trigger.turn_entity_id
                              (FailureReason.to_string reason) ref v u t l)
                    ]
          ]

    -- A run that ends well has an answer of the applier, or the turn is over.
    pub applied_or-ends :
        IsLawful store
        → (w w' : W) (r : Result ApplyError Applied)
        → applied_or ids store now artifacts transient message trigger (w, r) ≡ (w', ok tt)
        → ((o : Applied) × (r ≡ ok o) × (w ≡ w'))
          ⊎ ((require_turn_entity_id ids trigger.turn_id trigger.turn_entity_id ≡ ok tt)
              × IsOver w' trigger.turn_entity_id)
    unfolding applied_or refuse
    applied_or-ends lawful w w' (ok o) h = inl (o, refl, ap (λ r. r.0) h)
    applied_or-ends lawful w w' (err e) h =
        elim (Bool-cases (is_transient ids store now artifacts transient message e)) [
          | inl y ↦ absurd (cc (ap (λ r. r.1) (rw (y, applied_or) at h)))
          | inr y ↦ elim (Option-cases (failure_reason_for e)) [
            | inl f ↦ absurd (cc (ap (λ r. r.1) (rw (y, f, applied_or, refuse) at h)))
            | inr (reason, f) ↦
                inr (end_turn-IsOver lawful reason e w w' (rw (y, f, applied_or, refuse) at h))
          ]
        ]
