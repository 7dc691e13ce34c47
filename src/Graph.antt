-- ===== src/Graph.antt =====
-- The graph as the components see it: graph.EntityState and message.Triple of semstreams, with the
-- fields that the code reads or writes, the store interfaces of internal/turn, internal/effect,
-- internal/dice and internal/caseflow (all of them kept by internal/graphio), and the readers of one
-- predicate that those packages share.
pub mod Targets
pub mod Laws
pub mod Memory
pub mod Ids
use semmachina.Prelude.{
  ℕ, String, Bool, Option, none, some, List, [], ◌∷◌, ◌++◌, if◌then◌else◌, str_eq, Result,
}
use semmachina.Prelude.Int.{ℤ}

-- A triple's object has type `any`. A float64 is given by the integer that it is exactly, where it is one
-- of 64 bits, and a json.Number by what its method Int64 gives.
pub data Object : Type 0 where
  text : String → Object
  int int64 : ℤ → Object
  float64 json_number : Option ℤ → Object
  boolean : Bool → Object
  other : Object

-- `timestamp` counts from the zero time; `confidence` is the bit pattern of a float64.
pub record Triple : Type 0 where
  pub subject : String
  pub predicate : String
  pub object : Object
  pub source : String
  pub timestamp : ℕ
  pub confidence : ℕ
  pub context : String
  pub datatype : String

-- The float64 1.0.
abbrev pub full_confidence : ℕ
full_confidence = 0x3ff0000000000000

pub record EntityState : Type 0 where
  pub id : String
  pub triples : List Triple

-- graphio.ErrEntityNotFound, graphio.ErrEntityExists, or another error with its text.
pub data StoreError : Type 0 where
  entity_not_found entity_exists : StoreError
  store_failure : String → StoreError

-- projectioncontract.Target.
pub record Target : Type 0 where
  pub contract : String
  pub group : String

-- `Reconcile` may fail and may have changed the graph when it does. A read leaves the graph alone.
pub record Store (W : Type 0) : Type 0 where
  pub get_entity : W → String → Result StoreError EntityState
  pub reconcile : W → Target → String → List Triple → W × Option StoreError
  pub create_entity : W → String → EntityState → W × Result StoreError EntityState

-- The objects that a list of triples has for a predicate, in order.
unfoldable pub objects_for : List Triple → String → List Object
objects_for [] predicate = []
objects_for (t ∷ ts) predicate =
    if str_eq t.predicate predicate
    then t.object ∷ objects_for ts predicate
    else objects_for ts predicate
