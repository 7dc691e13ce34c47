-- ===== src/Turn/Faults.antt =====
-- internal/turn/recorder.go `classify`: the answers that enter no phase, and the faults.
use mathlib.Core.Path.{subst}
use semmachina.Prelude.{◌<◌, true, false, ◌≡◌, refl, ◌↔◌, ◌⊎◌, inl, inr, arith, ok, err}
use semmachina.Vocabulary.TurnPhase.{
  TurnPhase, accepted, interpreting, adjudicating, resolving, applying, companion, narrating,
  complete, failed, foreign, valid,
}
use semmachina.Vocabulary.Phases.{is_terminal}
use semmachina.Turn.Transition.{resumed, declined, TransitionFault, skipped_stage, classify}
use semmachina.Turn.Lifecycle.{
  Live, live_accepted, live_interpreting, live_adjudicating, live_resolving, live_applying,
  live_companion, live_narrating, Edge, rank, Edge-advanced,
}

pub live_resumes :
    (p : TurnPhase) → valid p ≡ true → is_terminal p ≡ false → classify p p ≡ ok resumed
unfolding classify
live_resumes accepted v l = refl
live_resumes interpreting v l = refl
live_resumes adjudicating v l = refl
live_resumes resolving v l = refl
live_resumes applying v l = refl
live_resumes companion v l = refl
live_resumes narrating v l = refl
live_resumes p v l = ground arith

resumes_iff :
    (p q : TurnPhase)
    → valid p ≡ true
    → (classify p q ≡ ok resumed) ↔ ((is_terminal p ≡ false) × (p ≡ q))
unfolding classify
resumes_iff p q vp = (
  ground arith,
  λ (live, here). subst (λ x. classify p x ≡ ok resumed) here (live_resumes p vp live),
)

declines_iff :
    (p q : TurnPhase)
    → valid p ≡ true
    → valid q ≡ true
    → (classify p q ≡ ok declined) ↔ ((is_terminal p ≡ true) ⊎ (rank q < rank p))
unfolding classify rank
declines_iff p q vp vq = (ground arith, ground arith)

-- Between declared phases, a trigger resumes the turn exactly when the turn is live and in the phase
-- asked for, and is declined exactly when the turn has ended or has left that phase behind: its rank is
-- lower.
pub classify_stale :
    (p q : TurnPhase)
    → valid p ≡ true
    → valid q ≡ true
    → ((classify p q ≡ ok resumed) ↔ ((is_terminal p ≡ false) × (p ≡ q)))
      × ((classify p q ≡ ok declined) ↔ ((is_terminal p ≡ true) ⊎ (rank q < rank p)))
classify_stale p q vp vq = (resumes_iff p q vp, declines_iff p q vp vq)

Live-or_ended : (p : TurnPhase) → valid p ≡ true → Live p ⊎ (is_terminal p ≡ true)
Live-or_ended accepted v = inl live_accepted
Live-or_ended interpreting v = inl live_interpreting
Live-or_ended adjudicating v = inl live_adjudicating
Live-or_ended resolving v = inl live_resolving
Live-or_ended applying v = inl live_applying
Live-or_ended companion v = inl live_companion
Live-or_ended narrating v = inl live_narrating
Live-or_ended complete v = inr refl
Live-or_ended failed v = inr refl
Live-or_ended (foreign s) v = cc

fault_is_skip :
    (p q : TurnPhase) (f : TransitionFault)
    → valid p ≡ true
    → valid q ≡ true
    → classify p q ≡ err f
    → f ≡ skipped_stage
unfolding classify
fault_is_skip p q f vp vq h = ground arith

-- One clause for each pair of phases: the requested one is split first.
skip_ahead :
    (q p : TurnPhase) (f : TransitionFault)
    → valid p ≡ true
    → valid q ≡ true
    → classify p q ≡ err f
    → rank p < rank q
unfolding classify rank
skip_ahead accepted accepted f u v h = ground arith
skip_ahead q accepted f u v h = ground arith
skip_ahead q p f u v h = ground arith

-- A fault between two known phases is a skipped stage: the turn is live, the requested phase lies
-- ahead of it, and no edge leads there.
pub classify_skipped :
    (p q : TurnPhase) (f : TransitionFault)
    → valid p ≡ true
    → valid q ≡ true
    → classify p q ≡ err f
    → (f ≡ skipped_stage) × Live p × (rank p < rank q) × (Edge p q → ⊥)
classify_skipped p q f vp vq h = elim (Live-or_ended p vp) [
  | inl l ↦ (fault_is_skip p q f vp vq h, l, skip_ahead q p f vp vq h, λ e. cc (Edge-advanced e))
  | inr t ↦ absurd (cc ((declines_iff p q vp vq).1 (inl t)))
]
