-- ===== src/Stage/Reapplied.antt =====
-- internal/stage/apply.go over a lawful store: a trigger of the effect stage that is delivered again.
use mathlib.Core.Path.{subst}
use semmachina.Prelude.{
  ℕ, String, Bool, true, false, List, ◌≡◌, refl, sym, ap, ◌∙◌, inl, inr, Result, ok, err, arith,
  Result-cases,
}
use semmachina.Exec.{Exec-cases}
use semmachina.Vocabulary.TurnPhase.{TurnPhase, applying, foreign}
use semmachina.Vocabulary.Phases.{is_terminal}
use semmachina.Vocabulary.OutcomeBand.{OutcomeBand}
use semmachina.Vocabulary.Attributes.{AttributeSpec}
use semmachina.Vocabulary.Predicates.{turn_verdict_ref, turn_roll_band, turn_phase_current}
use semmachina.Graph.{Object, Store}
use semmachina.Graph.Laws.{objects_read, was_read, IsLawful}
use semmachina.Graph.Ids.{IdRules, require_turn_entity_id}
use semmachina.Payload.Effects.{EffectIntent}
use semmachina.Payload.EffectBatches.{EffectBatch, new_effect_batch}
use semmachina.Content.Ref.{Ref, to_string}
use semmachina.Content.Artifacts.{Artifacts}
use semmachina.Turn.Transition.{declined, classify, advance_target}
use semmachina.Turn.Reads.{phase_in}
use semmachina.Turn.Durable.{InPhase}
use semmachina.Effect.Applier.{Applied, ApplyError, CommitCause, apply}
use semmachina.Effect.Cases.{IsAdmitted, IsFound, found-skips}
use semmachina.Effect.Marker.{applied-IsFound}
use semmachina.Effect.Steps.{apply-kept}
use semmachina.Stage.Entering.{Trigger, StageError, enter, read_turn}
use semmachina.Stage.Resolving.{verdict_of}
use semmachina.Stage.Applying.{applied_or, apply_batch, apply_turn, run_applying}
use semmachina.Stage.Applied.{Worked, work-Worked, same_verdict_ref, same_band}
use semmachina.Stage.Apart.{IsApart}
use semmachina.Stage.Entered.{IsStaged, entered, entered_again, declined_again, enter_stale}
use semmachina.Stage.Committing.{
  IsOver, Keeps, Keeps-IsKept, Keeps-phase, applied_or-ends, verdict-Outside, band-Outside,
}

applying-IsStaged : IsStaged applying
unfolding classify advance_target
applying-IsStaged = record { target = refl; live = refl; resumes = refl }

over-declines : (p : TurnPhase) → is_terminal p ≡ true → classify p applying ≡ ok declined
unfolding classify
over-declines (foreign s) h = absurd (cc h)
over-declines p h = ground arith

module _ {W : Type 0} (ids : IdRules) (store : Store W) (now : W → ℕ) (artifacts : Artifacts W)
    (transient : CommitCause → Bool) (message : ApplyError → String) (datatype : String)
    (sprint : Object → String) (specs : List AttributeSpec) (trigger : Trigger) where
  abbrev here : String
  here = trigger.turn_entity_id

  abbrev run : W → W × Result StageError (Unit {0})
  run w = run_applying ids store now artifacts transient message datatype sprint specs trigger w

  abbrev work : W → W × Result StageError (Unit {0})
  work w = apply_turn ids store now artifacts transient message datatype sprint specs trigger w

  abbrev batch_of : OutcomeBand → List EffectIntent → EffectBatch
  batch_of band intents = new_effect_batch trigger.turn_id band intents

  abbrev applied : EffectBatch → Ref → W → W × Result ApplyError Applied
  applied b ref w = apply ids store now datatype sprint specs b here (to_string ref) w

  abbrev Succeeded : W → W → Type 0
  Succeeded w w' =
      Worked ids store now artifacts transient message datatype sprint specs trigger w w'

  -- The graph of a world is that of another.
  abbrev SameGraph : W → W → Type 0
  SameGraph w w' = (j : String) → store.get_entity w' j ≡ store.get_entity w j

  module _ (lawful : IsLawful store) (apart : IsApart store artifacts) where
    work-Keeps :
        (w w' : W) (worked : Succeeded w w') (o : Applied)
        → applied (batch_of worked.band worked.intents) worked.batch_ref worked.stored ≡ (w', ok o)
        → Keeps ids store now artifacts worked.stored w'
    work-Keeps w w' worked o h =
        apply-kept ids store now (Keeps ids store now artifacts)
          (Keeps-IsKept ids store now artifacts lawful apart) datatype sprint specs
          (batch_of worked.band worked.intents) here (to_string worked.batch_ref) worked.stored w' o
          h

    -- The batch is stored under its reference again and found applied, if it is stored.
    batch_again :
        (b : EffectBatch) (ref : Ref) (w u v : W)
        → artifacts.put_effect_batch here b w ≡ (u, ok ref)
        → IsAdmitted ids store now datatype sprint specs b here (to_string ref) u
        → IsFound ids store now datatype sprint specs b here (to_string ref) v
        → SameGraph v
            (apply_batch ids store now artifacts transient message datatype sprint specs trigger b
              v).0
    unfolding apply_batch applied_or
    batch_again b ref w u v puts admitted found =
        elim (Exec-cases (artifacts.put_effect_batch here b v)) [
          | inr (x, e, k) ↦ rw (k, apply_batch) (apart.batch_graph here b v x (err e) k)
          | inl (x, again, k) ↦
              let kept = apart.batch_graph here b v x (ok again) k in
              let same = apart.batch_named here b w u v x ref again puts k in
              let moved : IsFound ids store now datatype sprint specs b here (to_string ref) x =
                record {
                  state = found.state;
                  stored = kept here ∙ found.stored;
                  found = found.found;
                } in
              let skips =
                found-skips ids store now datatype sprint specs b here (to_string ref) u x admitted
                  moved in
              rw (k, same, apply_batch) (rw skips kept)
        ]

    committed_again :
        (w w' : W) (worked : Succeeded w w') (o : Applied)
        → applied (batch_of worked.band worked.intents) worked.batch_ref worked.stored ≡ (w', ok o)
        → SameGraph w' (work w').0
    unfolding apply_turn verdict_of read_turn
    committed_again w w' worked o h =
        let b = batch_of worked.band worked.intents in
        let kept = work-Keeps w w' worked o h in
        let puts = worked.puts in
        let graph = apart.batch_graph here b w worked.stored (ok worked.batch_ref) puts in
        let (admitted, found) =
          applied-IsFound ids store now lawful datatype sprint specs b here
            (to_string worked.batch_ref) worked.stored w' o h in
        let first = graph here ∙ worked.read in
        elim (Result-cases (store.get_entity w' here)) [
          | inr (e, g) ↦ absurd (cc (ap was_read (sym g) ∙ kept.presence here ∙ ap was_read first))
          | inl (s, g) ↦
              let referred =
                same_verdict_ref ids worked.state s (
                  ap (λ r. objects_read r turn_verdict_ref) (sym g)
                  ∙ kept.facts here turn_verdict_ref verdict-Outside
                  ∙ ap (λ r. objects_read r turn_verdict_ref) first)
                ∙ worked.referred in
              let judged =
                kept.verdicts worked.ref
                ∙ apart.batch_verdicts here b w worked.stored (ok worked.batch_ref) puts worked.ref
                ∙ worked.judged in
              let banded =
                same_band worked.state s worked.verdict (
                  ap (λ r. objects_read r turn_roll_band) (sym g)
                  ∙ kept.facts here turn_roll_band band-Outside
                  ∙ ap (λ r. objects_read r turn_roll_band) first)
                ∙ worked.banded in
              rw (g, referred, judged, banded, worked.listed, apply_turn)
                (batch_again b worked.batch_ref w worked.stored w' puts admitted found)
        ]

    over_again :
        (w : W)
        → require_turn_entity_id ids trigger.turn_id here ≡ ok tt
        → IsOver ids store now w here
        → SameGraph w (run w).0
    unfolding run_applying IsOver
    over_again w named (q, at, over) =
        let declines =
          enter_stale ids store now trigger applying applying-IsStaged w q declined named at
            (inr refl) (over-declines q over) in
        rw (declines, run_applying) (λ j. refl)

    work_again :
        (w w' : W)
        → require_turn_entity_id ids trigger.turn_id here ≡ ok tt
        → InPhase store w here applying
        → work w ≡ (w', ok tt)
        → SameGraph w' (run w').0
    unfolding run_applying
    work_again w w' named at h =
        let worked =
          work-Worked ids store now artifacts transient message datatype sprint specs trigger w w'
            h in
        let b = batch_of worked.band worked.intents in
        let graph = apart.batch_graph here b w worked.stored (ok worked.batch_ref) worked.puts in
        elim (applied_or-ends ids store now artifacts transient message trigger lawful
          (applied b worked.batch_ref worked.stored).0 w'
          (applied b worked.batch_ref worked.stored).1 worked.ended) [
            | inr (n, over) ↦ over_again w' n over
            | inl (o, answered, same) ↦
                let done =
                  ap (λ x. (x, (applied b worked.batch_ref worked.stored).1)) same
                  ∙ ap (λ r. (w', r)) answered in
                let stored_at : InPhase store worked.stored here applying = record {
                  present = ap was_read (graph here) ∙ at.present;
                  recorded =
                      ap (λ r. phase_in (objects_read r turn_phase_current)) (graph here)
                      ∙ at.recorded;
                } in
                let there =
                  Keeps-phase ids store now artifacts worked.stored w' here applying
                    (work-Keeps w w' worked o done) stored_at in
                rw
                  (
                    entered_again ids store now trigger applying applying-IsStaged w' named there,
                    run_applying,
                  )
                  (committed_again w w' worked o done)
          ]

    -- Over a lawful store and artifacts apart from it, a trigger of the effect stage that succeeded and is
    -- delivered again leaves the graph as it is, whatever it answers: the effects are applied once.
    pub applying_again :
        (w w' : W)
        → run w ≡ (w', ok tt)
        → (j : String) → store.get_entity (run w').0 j ≡ store.get_entity w' j
    unfolding run_applying
    applying_again w w' h = elim (Exec-cases (enter ids store now trigger applying w)) [
      | inr (v, e, k) ↦ absurd (cc (ap (λ r. r.1) (rw (k, run_applying) at h)))
      | inl (v, false, k) ↦
          let same : v ≡ w' = ap (λ r. r.0) (rw (k, run_applying) at h) in
          let stays =
            declined_again ids store now trigger applying applying-IsStaged lawful w v k in
          subst (λ x. SameGraph x (run x).0) same (rw (stays, run_applying) (λ j. refl))
      | inl (v, true, k) ↦
          let (named, at) = entered ids store now trigger applying applying-IsStaged lawful w v k in
          work_again v w' named at (rw (k, run_applying) at h)
    ]
