-- ===== src/Turn/Lifecycle.antt =====
-- internal/turn/recorder.go `classify` and internal/vocabulary/phases.go against the diagram of a
-- turn's life, stated here as a relation of its own.
use semmachina.Prelude.{
  ℕ, ◌+◌, ◌≤◌, ◌<◌, none, some, List, [], ◌∷◌, ◌≡◌, refl, ◌↔◌, ◌⊎◌, ◌++◌, ap, inl, inr, arith,
  Result, ok, err, length,
}
use mathlib.Core.Path.{subst}
use semmachina.Vocabulary.TurnPhase.{
  TurnPhase, accepted, interpreting, adjudicating, resolving, applying, companion, narrating,
  complete, failed,
}
use semmachina.Vocabulary.Phases.{phase_rank}
use semmachina.Turn.Transition.{Outcome, advanced, resumed, declined, TransitionFault, classify}

-- A turn that has not ended.
pub data Live : TurnPhase → Type 0 where
  live_accepted : Live accepted
  live_interpreting : Live interpreting
  live_adjudicating : Live adjudicating
  live_resolving : Live resolving
  live_applying : Live applying
  live_companion : Live companion
  live_narrating : Live narrating

-- The diagram: `skip_dice` is a verdict that asks for no roll, `give_up` ends a live turn.
pub data Edge : TurnPhase → TurnPhase → Type 0 where
  interpret : Edge accepted interpreting
  adjudicate : Edge interpreting adjudicating
  roll : Edge adjudicating resolving
  skip_dice : Edge adjudicating applying
  apply : Edge resolving applying
  accompany : Edge applying companion
  narrate : Edge companion narrating
  finish : Edge narrating complete
  give_up : {p : TurnPhase} → Live p → Edge p failed

ruleset edges = (interpret, adjudicate, roll, skip_dice, apply, accompany, narrate, finish)

ruleset lives = (
  live_accepted, live_interpreting, live_adjudicating, live_resolving, live_applying,
  live_companion, live_narrating,
)

give_up_advanced : {p : TurnPhase} → Live p → classify p failed ≡ ok advanced
unfolding classify
give_up_advanced live_accepted = refl
give_up_advanced live_interpreting = refl
give_up_advanced live_adjudicating = refl
give_up_advanced live_resolving = refl
give_up_advanced live_applying = refl
give_up_advanced live_companion = refl
give_up_advanced live_narrating = refl

pub Edge-advanced : {p q : TurnPhase} → Edge p q → classify p q ≡ ok advanced
unfolding classify
Edge-advanced interpret = refl
Edge-advanced adjudicate = refl
Edge-advanced roll = refl
Edge-advanced skip_dice = refl
Edge-advanced apply = refl
Edge-advanced accompany = refl
Edge-advanced narrate = refl
Edge-advanced finish = refl
Edge-advanced (give_up l) = give_up_advanced l

advanced-Edge : (p q : TurnPhase) → classify p q ≡ ok advanced → Edge p q
unfolding classify
advanced-Edge p q h = grind (arith, edges, lives, give_up)

-- A phase is entered exactly along an edge of the diagram.
pub classify-advanced_iff : (p q : TurnPhase) → (classify p q ≡ ok advanced) ↔ Edge p q
classify-advanced_iff p q = (advanced-Edge p q, Edge-advanced)

-- How far a turn is; both ends count as 7.
unfoldable pub rank : TurnPhase → ℕ
unfolding phase_rank
rank p = elim (phase_rank p) [ none ↦ 8 | some n ↦ n ]

Edge-rank : {p q : TurnPhase} → Edge p q → (rank p < rank q) × (rank q ≤ 7)
unfolding rank
Edge-rank interpret = omega arith
Edge-rank adjudicate = omega arith
Edge-rank roll = omega arith
Edge-rank skip_dice = omega arith
Edge-rank apply = omega arith
Edge-rank accompany = omega arith
Edge-rank narrate = omega arith
Edge-rank finish = omega arith
Edge-rank (give_up live_accepted) = omega arith
Edge-rank (give_up live_interpreting) = omega arith
Edge-rank (give_up live_adjudicating) = omega arith
Edge-rank (give_up live_resolving) = omega arith
Edge-rank (give_up live_applying) = omega arith
Edge-rank (give_up live_companion) = omega arith
Edge-rank (give_up live_narrating) = omega arith

-- The phases that a chain of edges enters, in order.
pub data Chain : TurnPhase → TurnPhase → List TurnPhase → Type 0 where
  here : {p : TurnPhase} → Chain p p []
  step : {p q r : TurnPhase} {qs : List TurnPhase} → Edge p q → Chain q r qs → Chain p r (q ∷ qs)

-- One trigger: the phase afterwards, and the phase that was entered, if one was.
move : TurnPhase → TurnPhase → Result TransitionFault Outcome → TurnPhase × List TurnPhase
move p q (ok advanced) = (q, q ∷ [])
move p q _ = (p, [])

-- A turn under a list of requested phases: the phase at the end, and those that it entered.
unfoldable pub run : TurnPhase → List TurnPhase → TurnPhase × List TurnPhase
unfolding move
run p [] = (p, [])
run p (q ∷ qs) =
    let (p', entered) = move p q (classify p q) in
    let (last, later) = run p' qs in (last, entered ++ later)

run-Chain : (p : TurnPhase) (qs : List TurnPhase) → Chain p (run p qs).0 (run p qs).1
unfolding run
run-Chain p [] = here
run-Chain p (q ∷ qs) = go (classify p q) refl (run-Chain p qs) (run-Chain q qs)
  where
    go :
        (r : Result TransitionFault Outcome)
        → classify p q ≡ r
        → Chain p (run p qs).0 (run p qs).1
        → Chain q (run q qs).0 (run q qs).1
        → let m = move p q r in Chain p (run m.0 qs).0 (m.1 ++ (run m.0 qs).1)
    go (err f) e stay go_on = stay
    go (ok advanced) e stay go_on = step (advanced-Edge p q e) go_on
    go (ok resumed) e stay go_on = stay
    go (ok declined) e stay go_on = stay

Chain-rank :
    {p q : TurnPhase} {es : List TurnPhase} → Chain p q es → rank p ≤ 7 → rank p + length es ≤ 7
Chain-rank here h = omega arith
Chain-rank (step e c) h = let m = Edge-rank e in omega (arith, m, Chain-rank c m.1)

-- Under any list of triggers, with any phases, a turn enters at most seven phases after it was
-- accepted.
pub bounded_execution : (qs : List TurnPhase) → length (run accepted qs).1 ≤ 7
unfolding rank
bounded_execution qs = omega (arith, Chain-rank (run-Chain accepted qs) (omega arith))

failed_ends : {r : TurnPhase} {es : List TurnPhase} → Chain failed r es → r ≡ failed
unfolding rank
failed_ends here = refl
failed_ends (step e c) = absurd (omega (arith, Edge-rank e))

complete_ends : {es : List TurnPhase} → Chain complete complete es → es ≡ []
unfolding rank
complete_ends here = refl
complete_ends (step e c) = absurd (omega (arith, Edge-rank e))

not_failed : {es : List TurnPhase} → Chain failed complete es → ⊥
not_failed c = cc (failed_ends c)

after_narrating : {es : List TurnPhase} → Chain narrating complete es → es ≡ complete ∷ []
after_narrating (step finish c) = ap (λ t. complete ∷ t) (complete_ends c)
after_narrating (step (give_up l) c) = absurd (not_failed c)

after_applying :
    {es : List TurnPhase} → Chain applying complete es → es ≡ companion ∷ narrating ∷ complete ∷ []
after_applying (step accompany (step narrate c)) =
    ap (λ t. companion ∷ narrating ∷ t) (after_narrating c)
after_applying (step accompany (step (give_up l) c)) = absurd (not_failed c)
after_applying (step (give_up l) c) = absurd (not_failed c)

abbrev pub ending : List TurnPhase
ending = applying ∷ companion ∷ narrating ∷ complete ∷ []

after_adjudicating :
    {es : List TurnPhase}
    → Chain adjudicating complete es
    → (es ≡ resolving ∷ ending) ⊎ (es ≡ ending)
after_adjudicating (step roll (step apply c)) =
    inl (ap (λ t. resolving ∷ applying ∷ t) (after_applying c))
after_adjudicating (step roll (step (give_up l) c)) = absurd (not_failed c)
after_adjudicating (step skip_dice c) = inr (ap (λ t. applying ∷ t) (after_applying c))
after_adjudicating (step (give_up l) c) = absurd (not_failed c)

completes :
    {es : List TurnPhase}
    → Chain accepted complete es
    → (es ≡ interpreting ∷ adjudicating ∷ resolving ∷ ending)
      ⊎ (es ≡ interpreting ∷ adjudicating ∷ ending)
completes (step interpret (step adjudicate c)) = elim (after_adjudicating c) [
  | inl e ↦ inl (ap (λ t. interpreting ∷ adjudicating ∷ t) e)
  | inr e ↦ inr (ap (λ t. interpreting ∷ adjudicating ∷ t) e)
]
completes (step interpret (step (give_up l) c)) = absurd (not_failed c)
completes (step (give_up l) c) = absurd (not_failed c)

-- A turn that is complete after some list of triggers entered every stage once and in order, the
-- dice alone left out or not.
pub complete_skips_nothing :
    (qs : List TurnPhase)
    → (run accepted qs).0 ≡ complete
    → ((run accepted qs).1 ≡ interpreting ∷ adjudicating ∷ resolving ∷ ending)
      ⊎ ((run accepted qs).1 ≡ interpreting ∷ adjudicating ∷ ending)
complete_skips_nothing qs h =
    completes (subst (λ r. Chain accepted r (run accepted qs).1) h (run-Chain accepted qs))
