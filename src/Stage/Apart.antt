-- ===== src/Stage/Apart.antt =====
-- What the stages rely on of the artifacts beside the graph: the two are kept apart, a stored artifact
-- leaves the verdicts alone, and a batch that is stored again has the same reference.
use semmachina.Prelude.{String, none, List, ◌≡◌, Result, ok}
use semmachina.Graph.{Triple, Store, Target}
use semmachina.Payload.RollResults.{RollResult}
use semmachina.Payload.EffectBatches.{EffectBatch}
use semmachina.Content.Ref.{Ref}
use semmachina.Content.Store.{ContentError}
use semmachina.Content.Artifacts.{Artifacts}

pub record IsApart {W : Type 0} (store : Store W) (artifacts : Artifacts W) : Type 0 where
  pub roll_graph :
      (id : String) (r : RollResult) (w w' : W) (ref : Ref)
      → artifacts.put_roll id r w ≡ (w', ok ref)
      → (j : String) → store.get_entity w' j ≡ store.get_entity w j
  pub roll_verdicts :
      (id : String) (r : RollResult) (w w' : W) (ref : Ref)
      → artifacts.put_roll id r w ≡ (w', ok ref)
      → (q : Ref) → artifacts.get_verdict q w' ≡ artifacts.get_verdict q w
  pub batch_graph :
      (id : String) (b : EffectBatch) (w w' : W) (r : Result ContentError Ref)
      → artifacts.put_effect_batch id b w ≡ (w', r)
      → (j : String) → store.get_entity w' j ≡ store.get_entity w j
  pub batch_verdicts :
      (id : String) (b : EffectBatch) (w w' : W) (r : Result ContentError Ref)
      → artifacts.put_effect_batch id b w ≡ (w', r)
      → (q : Ref) → artifacts.get_verdict q w' ≡ artifacts.get_verdict q w
  pub batch_named :
      (id : String) (b : EffectBatch) (w w' v v' : W) (ref again : Ref)
      → artifacts.put_effect_batch id b w ≡ (w', ok ref)
      → artifacts.put_effect_batch id b v ≡ (v', ok again)
      → again ≡ ref
  pub graph_verdicts :
      (target : Target) (id : String) (ts : List Triple) (w w' : W)
      → store.reconcile w target id ts ≡ (w', none)
      → (q : Ref) → artifacts.get_verdict q w' ≡ artifacts.get_verdict q w
