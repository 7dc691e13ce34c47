-- ===== src/Stage/Rolled.antt =====
-- internal/stage/resolve.go: what the work of the dice stage reads, records and answers when it succeeds.

use semmachina.Prelude.{
  ℕ, String, false, if◌then◌else◌, Option, none, some, List, ◌≡◌, refl, sym, ap, ◌∙◌, inl, inr, ok,
  contains, Result-cases,
}
use semmachina.Exec.{pure, Exec-cases}
use semmachina.Vocabulary.TurnPhase.{resolving}
use semmachina.Vocabulary.Predicates.{turn_verdict_ref, turn_phase_current}
use semmachina.Graph.{Triple, EntityState, Store, StoreError}
use semmachina.Graph.Targets.{turn_roll, predicates_of}
use semmachina.Graph.Laws.{is_present, objects_at, objects_read, was_read, IsLawful}
use semmachina.Graph.Ids.{IdRules}
use semmachina.Payload.Verdicts.{Verdict}
use semmachina.Payload.RollResults.{RollResult, roll_triples}
use semmachina.Content.Ref.{Ref, to_string}
use semmachina.Content.Artifacts.{Artifacts}
use semmachina.Turn.Reads.{phase_in}
use semmachina.Turn.Durable.{InPhase}
use semmachina.Dice.Roller.{Randomness}
use semmachina.Dice.Resolver.{Resolver, Resolution, resolve}
use semmachina.Stage.Entering.{sole_object, sole_ref, read_turn}
use semmachina.Stage.Apart.{IsApart}
use semmachina.Stage.Resolving.{source, verdict_of, written, record_roll, resolve_turn}

module _ {W : Type 0} (ids : IdRules) (store : Store W) (now : W → ℕ)
    (artifacts : Artifacts W) where
  -- The steps of a roll that is recorded.
  pub record Recorded (w w' : W) (id : String) (r : RollResult) : Type 0 where
    pub stored : W
    pub ref : Ref
    pub triples : List Triple
    pub at : ℕ
    pub puts : artifacts.put_roll id r w ≡ (stored, ok ref)
    pub projected : roll_triples ids r id (to_string ref) source at ≡ ok triples
    pub reconciled : store.reconcile stored turn_roll id triples ≡ (w', none)

  written-ok :
      (r : W × Option StoreError) (w' : W)
      → written ids store now artifacts r ≡ (w', ok tt)
      → r ≡ (w', none)
  unfolding written
  written-ok (v, none) w' h = ap (λ r. (r.0, none)) h
  written-ok (v, some e) w' h = absurd (cc (ap (λ r. r.1) h))

  pub record_roll-Recorded :
      (id : String) (r : RollResult) (w w' : W)
      → record_roll ids store now artifacts id r w ≡ (w', ok tt)
      → Recorded w w' id r
  unfolding record_roll
  record_roll-Recorded id r w w' h = elim (Exec-cases (artifacts.put_roll id r w)) [
    | inr (v, e, k) ↦ absurd (cc (ap (λ r. r.1) (rw (k, record_roll) at h)))
    | inl (v, ref, k) ↦ elim (Result-cases (roll_triples ids r id (to_string ref) source (now v))) [
      | inr (e, t) ↦ absurd (cc (ap (λ r. r.1) (rw (k, t, record_roll) at h)))
      | inl (ts, t) ↦ record {
        stored = v;
        ref = ref;
        triples = ts;
        at = now v;
        puts = k;
        projected = t;
        reconciled =
            written-ok (store.reconcile v turn_roll id ts) w' (rw (k, t, record_roll) at h);
      }
    ]
  ]

  module _ (lawful : IsLawful store) (apart : IsApart store artifacts) (id : String)
      (r : RollResult) (w w' : W) (recorded : Recorded w w' id r) where
    keeps :
        (p : String)
        → contains (predicates_of turn_roll) p ≡ false
        → objects_at store w' id p ≡ objects_at store w id p
    keeps p out =
        lawful.reconcile_keeps recorded.stored w' turn_roll id recorded.triples id p
          recorded.reconciled out
        ∙ ap (λ r. objects_read r p)
            (apart.roll_graph id r w recorded.stored recorded.ref recorded.puts id)

    pub keeps_present : is_present store w' id ≡ is_present store w id
    keeps_present =
        lawful.reconcile_present recorded.stored w' turn_roll id recorded.triples id
          recorded.reconciled
        ∙ ap was_read (apart.roll_graph id r w recorded.stored recorded.ref recorded.puts id)

    pub keeps_verdicts : (q : Ref) → artifacts.get_verdict q w' ≡ artifacts.get_verdict q w
    keeps_verdicts q =
        apart.graph_verdicts turn_roll id recorded.triples recorded.stored w' recorded.reconciled q
        ∙ apart.roll_verdicts id r w recorded.stored recorded.ref recorded.puts q

    pub keeps_phase : InPhase store w id resolving → InPhase store w' id resolving
    unfolding predicates_of
    keeps_phase at = record {
      present = keeps_present ∙ at.present;
      recorded = ap phase_in (keeps turn_phase_current refl) ∙ at.recorded;
    }

    pub keeps_verdict_ref :
        (s s' : EntityState)
        → store.get_entity w id ≡ ok s
        → store.get_entity w' id ≡ ok s'
        → sole_ref ids s' turn_verdict_ref ≡ sole_ref ids s turn_verdict_ref
    unfolding sole_ref sole_object predicates_of
    keeps_verdict_ref s s' g g' =
        rw
          (ap (λ r. objects_read r turn_verdict_ref) (sym g')
            ∙ keeps turn_verdict_ref refl
            ∙ ap (λ r. objects_read r turn_verdict_ref) g)
          refl

  module _ (random : Randomness) (resolver : Resolver) (id : String) where
    -- What the work of the stage read and answered.
    pub record Worked (w w' : W) : Type 0 where
      pub state : EntityState
      pub ref : Ref
      pub verdict : Verdict
      pub resolution : Resolution
      pub read : store.get_entity w id ≡ ok state
      pub referred : sole_ref ids state turn_verdict_ref ≡ ok ref
      pub judged : artifacts.get_verdict ref w ≡ ok verdict
      pub resolved : resolve ids random store resolver verdict id w ≡ ok resolution
      pub ended :
          (if resolution.rolled
              then record_roll ids store now artifacts id resolution.roll
              else pure tt)
            w
          ≡ (w', ok tt)

    pub resolve_turn-Worked :
        (w w' : W)
        → resolve_turn ids store now artifacts random resolver id w ≡ (w', ok tt)
        → Worked w w'
    unfolding resolve_turn verdict_of read_turn
    resolve_turn-Worked w w' h = elim (Result-cases (store.get_entity w id)) [
      | inr (e, g) ↦ absurd (cc (ap (λ r. r.1) (rw (g, resolve_turn) at h)))
      | inl (s, g) ↦ elim (Result-cases (sole_ref ids s turn_verdict_ref)) [
        | inr (e, f) ↦ absurd (cc (ap (λ r. r.1) (rw (g, f, resolve_turn) at h)))
        | inl (ref, f) ↦ elim (Result-cases (artifacts.get_verdict ref w)) [
          | inr (e, v) ↦ absurd (cc (ap (λ r. r.1) (rw (g, f, v, resolve_turn) at h)))
          | inl (verdict, v) ↦
              elim (Result-cases (resolve ids random store resolver verdict id w)) [
                | inr (e, r) ↦ absurd (cc (ap (λ r. r.1) (rw (g, f, v, r, resolve_turn) at h)))
                | inl (o, r) ↦ record {
                  state = s;
                  ref = ref;
                  verdict = verdict;
                  resolution = o;
                  read = g;
                  referred = f;
                  judged = v;
                  resolved = r;
                  ended = rw (g, f, v, r, resolve_turn) at h;
                }
              ]
        ]
      ]
    ]
