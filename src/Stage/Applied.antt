-- ===== src/Stage/Applied.antt =====
-- internal/stage/apply.go: what the work of the effect stage reads, stores and answers when it succeeds.

use semmachina.Prelude.{ℕ, String, Bool, List, ◌≡◌, refl, ap, inl, inr, Result, ok, Result-cases}
use semmachina.Exec.{Exec-cases}
use semmachina.Vocabulary.OutcomeBand.{OutcomeBand}
use semmachina.Vocabulary.Attributes.{AttributeSpec}
use semmachina.Vocabulary.Predicates.{turn_verdict_ref, turn_roll_band}
use semmachina.Graph.{Object, EntityState, Store}
use semmachina.Graph.Laws.{objects_read}
use semmachina.Graph.Ids.{IdRules}
use semmachina.Payload.Verdicts.{Verdict, for_band}
use semmachina.Payload.Effects.{EffectIntent}
use semmachina.Payload.EffectBatches.{EffectBatch, new_effect_batch}
use semmachina.Content.Ref.{Ref, to_string}
use semmachina.Content.Artifacts.{Artifacts}
use semmachina.Effect.Applier.{Applied, ApplyError, CommitCause, apply}
use semmachina.Stage.Entering.{Trigger, StageError, sole_object, sole_ref, read_turn}
use semmachina.Stage.Resolving.{verdict_of}
use semmachina.Stage.Applying.{committed_band, applied_or, apply_batch, apply_turn}

module _ {W : Type 0} (ids : IdRules) (store : Store W) (now : W → ℕ) (artifacts : Artifacts W)
    (transient : CommitCause → Bool) (message : ApplyError → String) (datatype : String)
    (sprint : Object → String) (specs : List AttributeSpec) (trigger : Trigger) where
  abbrev here : String
  here = trigger.turn_entity_id

  abbrev work : W → W × Result StageError (Unit {0})
  work w = apply_turn ids store now artifacts transient message datatype sprint specs trigger w

  abbrev batch_of : OutcomeBand → List EffectIntent → EffectBatch
  batch_of band intents = new_effect_batch trigger.turn_id band intents

  abbrev applied : EffectBatch → Ref → W → W × Result ApplyError Applied
  applied b ref w = apply ids store now datatype sprint specs b here (to_string ref) w

  abbrev ends : W × Result ApplyError Applied → W × Result StageError (Unit {0})
  ends r = applied_or ids store now artifacts transient message trigger r

  -- What the work of the stage read, stored and answered.
  pub record Worked (w w' : W) : Type 0 where
    pub state : EntityState
    pub ref : Ref
    pub verdict : Verdict
    pub band : OutcomeBand
    pub intents : List EffectIntent
    pub read : store.get_entity w here ≡ ok state
    pub referred : sole_ref ids state turn_verdict_ref ≡ ok ref
    pub judged : artifacts.get_verdict ref w ≡ ok verdict
    pub banded : committed_band state verdict ≡ ok band
    pub listed : for_band verdict.bands band ≡ ok intents
    pub stored : W
    pub batch_ref : Ref
    pub puts : artifacts.put_effect_batch here (batch_of band intents) w ≡ (stored, ok batch_ref)
    pub ended : ends (applied (batch_of band intents) batch_ref stored) ≡ (w', ok tt)

  pub work-Worked : (w w' : W) → work w ≡ (w', ok tt) → Worked w w'
  unfolding apply_turn verdict_of read_turn apply_batch
  work-Worked w w' h = elim (Result-cases (store.get_entity w here)) [
    | inr (e, g) ↦ absurd (cc (ap (λ r. r.1) (rw (g, apply_turn) at h)))
    | inl (s, g) ↦ elim (Result-cases (sole_ref ids s turn_verdict_ref)) [
      | inr (e, f) ↦ absurd (cc (ap (λ r. r.1) (rw (g, f, apply_turn) at h)))
      | inl (ref, f) ↦ elim (Result-cases (artifacts.get_verdict ref w)) [
        | inr (e, v) ↦ absurd (cc (ap (λ r. r.1) (rw (g, f, v, apply_turn) at h)))
        | inl (verdict, v) ↦ elim (Result-cases (committed_band s verdict)) [
          | inr (e, b) ↦ absurd (cc (ap (λ r. r.1) (rw (g, f, v, b, apply_turn) at h)))
          | inl (band, b) ↦ elim (Result-cases (for_band verdict.bands band)) [
            | inr (e, i) ↦ absurd (cc (ap (λ r. r.1) (rw (g, f, v, b, i, apply_turn) at h)))
            | inl (intents, i) ↦
                elim (Exec-cases (artifacts.put_effect_batch here (batch_of band intents) w)) [
                  | inr (u, e, p) ↦
                      absurd (cc (ap (λ r. r.1) (rw (g, f, v, b, i, p, apply_turn) at h)))
                  | inl (u, batch_ref, p) ↦ record {
                    state = s;
                    ref = ref;
                    verdict = verdict;
                    band = band;
                    intents = intents;
                    read = g;
                    referred = f;
                    judged = v;
                    banded = b;
                    listed = i;
                    stored = u;
                    batch_ref = batch_ref;
                    puts = p;
                    ended = rw (g, f, v, b, i, p, apply_turn) at h;
                  }
                ]
          ]
        ]
      ]
    ]
  ]

pub same_verdict_ref :
    (ids : IdRules) (s s' : EntityState)
    → objects_read (ok s') turn_verdict_ref ≡ objects_read (ok s) turn_verdict_ref
    → sole_ref ids s' turn_verdict_ref ≡ sole_ref ids s turn_verdict_ref
unfolding sole_ref sole_object
same_verdict_ref ids s s' e = rw e refl

pub same_band :
    (s s' : EntityState) (v : Verdict)
    → objects_read (ok s') turn_roll_band ≡ objects_read (ok s) turn_roll_band
    → committed_band s' v ≡ committed_band s v
unfolding committed_band sole_object
same_band s s' v e = rw e refl
