-- ===== src/Stage/Rerolled.antt =====
-- internal/stage/resolve.go over a lawful store: a trigger of the dice stage that is delivered again.
use mathlib.Core.Path.{subst}
use semmachina.Prelude.{
  ℕ, String, true, false, if◌then◌else◌, ◌≡◌, refl, sym, ap, ◌∙◌, inl, inr, ok, Bool-cases,
  Result-cases,
}
use semmachina.Exec.{pure, Exec-cases}
use semmachina.Vocabulary.TurnPhase.{resolving}
use semmachina.Graph.{Store}
use semmachina.Graph.Laws.{was_read, IsLawful}
use semmachina.Graph.Ids.{IdRules}
use semmachina.Content.Ref.{to_string}
use semmachina.Content.Artifacts.{Artifacts}
use semmachina.Turn.Transition.{classify, advance_target}
use semmachina.Turn.Durable.{InPhase}
use semmachina.Dice.Roller.{Randomness}
use semmachina.Dice.Resolver.{Resolver}
use semmachina.Dice.OneRoll.{one_roll_per_turn}
use semmachina.Stage.Entering.{Trigger, enter, read_turn}
use semmachina.Stage.Rolled.{
  Recorded, record_roll-Recorded, Worked, resolve_turn-Worked, keeps_present, keeps_verdicts,
  keeps_verdict_ref, keeps_phase,
}
use semmachina.Stage.Apart.{IsApart}
use semmachina.Stage.Entered.{IsStaged, entered, entered_again, declined_again}
use semmachina.Stage.Resolving.{source, verdict_of, record_roll, resolve_turn, run_resolving}

resolving-IsStaged : IsStaged resolving
unfolding classify advance_target
resolving-IsStaged = record { target = refl; live = refl; resumes = refl }

module _ {W : Type 0} (ids : IdRules) (store : Store W) (now : W → ℕ)
    (artifacts : Artifacts W) where
  module _ (random : Randomness) (resolver : Resolver) (id : String) where
    module _ (lawful : IsLawful store) (apart : IsApart store artifacts) where
      rolled_before :
          (w w' : W) (worked : Worked ids store now artifacts random resolver id w w')
          → Recorded ids store now artifacts w w' id worked.resolution.roll
          → resolve_turn ids store now artifacts random resolver id w' ≡ (w', ok tt)
      unfolding resolve_turn verdict_of read_turn
      rolled_before w w' worked recorded =
          let o = worked.resolution in
          let there = ap was_read worked.read in
          let stored_there =
            ap was_read (apart.roll_graph id o.roll w recorded.stored recorded.ref recorded.puts id)
            ∙ there in
          elim (Result-cases (store.get_entity w' id)) [
            | inr (e, g) ↦ absurd (
                cc (
                  ap was_read (sym g)
                  ∙ keeps_present ids store now artifacts lawful apart id o.roll w w' recorded
                  ∙ there))
            | inl (s, g) ↦
                let referred =
                  keeps_verdict_ref ids store now artifacts lawful apart id o.roll w w' recorded
                    worked.state s worked.read g
                  ∙ worked.referred in
                let judged =
                  keeps_verdicts ids store now artifacts lawful apart id o.roll w w' recorded
                    worked.ref
                  ∙ worked.judged in
                let again =
                  one_roll_per_turn ids random store resolver worked.verdict id lawful w
                    recorded.stored w' o source (to_string recorded.ref) recorded.at
                    recorded.triples worked.resolved recorded.projected stored_there
                    recorded.reconciled in
                rw (g, referred, judged, again) refl
          ]

      resolve_turn_again :
          (w w' : W)
          → resolve_turn ids store now artifacts random resolver id w ≡ (w', ok tt)
          → (InPhase store w id resolving → InPhase store w' id resolving)
            × (resolve_turn ids store now artifacts random resolver id w' ≡ (w', ok tt))
      resolve_turn_again w w' h =
          let worked = resolve_turn-Worked ids store now artifacts random resolver id w w' h in
          elim (Bool-cases worked.resolution.rolled) [
            | inr no_roll ↦
                let same : w ≡ w' =
                  ap (λ r. r.0)
                    (ap
                        (λ b.
                          (if b
                              then record_roll ids store now artifacts id worked.resolution.roll
                              else pure tt)
                            w)
                        (sym no_roll)
                      ∙ worked.ended) in
                (
                  subst (λ v. InPhase store v id resolving) same,
                  subst
                      (λ v. resolve_turn ids store now artifacts random resolver id v ≡ (w', ok tt))
                      same h,
                )
            | inl rolls ↦
                let recorded =
                  record_roll-Recorded ids store now artifacts id worked.resolution.roll w w' (
                    ap
                      (λ b.
                        (if b
                            then record_roll ids store now artifacts id worked.resolution.roll
                            else pure tt)
                          w)
                      (sym rolls)
                    ∙ worked.ended) in
                (
                  keeps_phase ids store now artifacts lawful apart id worked.resolution.roll w w'
                      recorded,
                  rolled_before w w' worked recorded,
                )
          ]

  -- Over a lawful store and artifacts apart from it, a trigger of the dice stage that succeeded and is
  -- delivered again succeeds and changes nothing: no second roll is made or recorded.
  pub resolving_again :
      (random : Randomness) (resolver : Resolver) (trigger : Trigger) (w w' : W)
      → IsLawful store
      → IsApart store artifacts
      → run_resolving ids store now artifacts random resolver trigger w ≡ (w', ok tt)
      → run_resolving ids store now artifacts random resolver trigger w' ≡ (w', ok tt)
  unfolding run_resolving
  resolving_again random resolver trigger w w' lawful apart h =
      let id = trigger.turn_entity_id in
      elim (Exec-cases (enter ids store now trigger resolving w)) [
        | inr (v, e, k) ↦ absurd (cc (ap (λ r. r.1) (rw (k, run_resolving) at h)))
        | inl (v, false, k) ↦
            let same : v ≡ w' = ap (λ r. r.0) (rw (k, run_resolving) at h) in
            let stays =
              declined_again ids store now trigger resolving resolving-IsStaged lawful w v k in
            subst
              (λ x. run_resolving ids store now artifacts random resolver trigger x ≡ (x, ok tt))
              same (rw (stays, run_resolving) refl)
        | inl (v, true, k) ↦
            let (named, at) =
              entered ids store now trigger resolving resolving-IsStaged lawful w v k in
            let (kept, again) =
              resolve_turn_again random resolver id lawful apart v w'
                (rw (k, run_resolving) at h) in
            rw
              (
                entered_again ids store now trigger resolving resolving-IsStaged w' named (kept at),
                run_resolving,
              )
              again
      ]
