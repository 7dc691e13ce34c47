-- ===== src/Graph/Memory.antt =====
-- A store in memory that meets the laws: the graph as a function from ids to triples, each of which has
-- been through JSON.
use mathlib.Core.Path.{ap₂}
use mathlib.Core.List.{append-nil}
use semmachina.Prelude.{
  String, Bool, true, false, not, Option, none, some, List, [], ◌∷◌, ◌++◌, ◌≡◌, refl, sym, ap, ◌∙◌,
  contains, str_eq, if◌then◌else◌, arith, eq_iff, eq_refl, keep, Result, ok, err, str_eq-cases,
  Bool-cases, inl, inr, map,
}
use semmachina.Graph.{
  Object, int, int64, float64, json_number, Triple, EntityState, Store, StoreError,
  entity_not_found, entity_exists, Target, objects_for,
}
use semmachina.Graph.Targets.{predicates_of}
use semmachina.Graph.Laws.{is_present, objects_at, IsLawful}

pub objects_for-append :
    (ts us : List Triple) (p : String)
    → objects_for (ts ++ us) p ≡ objects_for ts p ++ objects_for us p
unfolding objects_for
objects_for-append [] us p = refl
objects_for-append (t ∷ ts) us p = ground (arith, objects_for-append ts us p)

-- Keeping the triples of some predicates keeps the objects of each of those.
pub objects_for-keep :
    (test : String → Bool) (ts : List Triple) (p : String)
    → test p ≡ true
    → objects_for (keep (λ t. test t.predicate) ts) p ≡ objects_for ts p
unfolding objects_for
objects_for-keep test [] p h = refl
objects_for-keep test (t ∷ ts) p h = elim (str_eq-cases t.predicate p) [
  | inl e ↦ ground (arith, ap test e ∙ h, eq_iff t.predicate p, objects_for-keep test ts p h)
  | inr n ↦ ground (arith, objects_for-keep test ts p h)
]

pub objects_for-keep_none :
    (test : String → Bool) (ts : List Triple) (p : String)
    → test p ≡ false
    → objects_for (keep (λ t. test t.predicate) ts) p ≡ []
unfolding objects_for
objects_for-keep_none test [] p h = refl
objects_for-keep_none test (t ∷ ts) p h = elim (str_eq-cases t.predicate p) [
  | inl e ↦ ground (arith, ap test e ∙ h, objects_for-keep_none test ts p h)
  | inr n ↦ ground (arith, objects_for-keep_none test ts p h)
]

-- An object behind its encoding and decoding, with numbers of any size, and triples with their objects.
abbrev through_json : Object → Object
through_json (int v) = float64 (some v)
through_json (int64 v) = float64 (some v)
through_json (json_number v) = float64 v
through_json object = object

abbrev decoded_triples : List Triple → List Triple
decoded_triples [] = []
decoded_triples (t ∷ ts) = record t { object = through_json t.object } ∷ decoded_triples ts

objects_for-decoded_triples :
    (ts : List Triple) (p : String)
    → objects_for (decoded_triples ts) p ≡ map through_json (objects_for ts p)
unfolding objects_for
objects_for-decoded_triples [] p = refl
objects_for-decoded_triples (t ∷ ts) p = elim (Bool-cases (str_eq t.predicate p)) [
  | inl e ↦
      rw (e, objects_for) (ap (λ os. through_json t.object ∷ os) (objects_for-decoded_triples ts p))
  | inr n ↦ rw (n, objects_for) (objects_for-decoded_triples ts p)
]

abbrev pub Memory : Type 0
Memory = String → Option (List Triple)

abbrev read : String → Option (List Triple) → Result StoreError EntityState
read id none = err entity_not_found
read id (some ts) = ok (record { id = id; triples = ts })

abbrev update : Memory → String → List Triple → Memory
update m id ts j = if str_eq j id then some ts else m j

abbrev replaced : Target → List Triple → List Triple → List Triple
replaced target old new =
    keep (λ t. not (contains (predicates_of target) t.predicate)) old
    ++ keep (λ t. contains (predicates_of target) t.predicate) (decoded_triples new)

abbrev reconciled :
    Memory → Target → String → List Triple → Option (List Triple) → Memory × Option StoreError
reconciled m target id ts none = (m, some entity_not_found)
reconciled m target id ts (some old) = (update m id (replaced target old ts), none)

abbrev created :
    Memory → EntityState → Option (List Triple) → Memory × Result StoreError EntityState
created m e none = (
  update m e.id (decoded_triples e.triples),
  ok (record { id = e.id; triples = decoded_triples e.triples }),
)
created m e (some old) = (m, err entity_exists)

abbrev pub memory : Store Memory
memory = record {
  get_entity = λ m id. read id (m id);
  reconcile = λ m target id ts. reconciled m target id ts (m id);
  create_entity = λ m contract e. created m e (m e.id);
}

-- The facts of the updated memory at one id.
at_self :
    (m : Memory) (id : String) (ts : List Triple) (p : String)
    → objects_at memory (update m id ts) id p ≡ objects_for ts p
at_self m id ts p = rw (eq_refl id)

at_other :
    (m : Memory) (id j : String) (ts : List Triple) (p : String)
    → str_eq j id ≡ false
    → objects_at memory (update m id ts) j p ≡ objects_at memory m j p
at_other m id j ts p h = rw h

-- A successful write found the entity.
reconciled-ok :
    (m m' : Memory) (target : Target) (id : String) (ts : List Triple) (o : Option (List Triple))
    → reconciled m target id ts o ≡ (m', none)
    → (old : List Triple) × (o ≡ some old) × (m' ≡ update m id (replaced target old ts))
reconciled-ok m m' target id ts none h = absurd (cc (ap (λ r. r.1) h))
reconciled-ok m m' target id ts (some old) h = (old, refl, sym (ap (λ r. r.0) h))

replaced-sets :
    (target : Target) (old new : List Triple) (p : String)
    → contains (predicates_of target) p ≡ true
    → objects_for (replaced target old new) p ≡ map through_json (objects_for new p)
replaced-sets target old new p h =
    let group = contains (predicates_of target) in
    objects_for-append (keep (λ t. not (group t.predicate)) old)
      (keep (λ t. group t.predicate) (decoded_triples new)) p
    ∙ ap₂ (λ a b. a ++ b) (objects_for-keep_none (λ q. not (group q)) old p (ap not h))
        (objects_for-keep group (decoded_triples new) p h ∙ objects_for-decoded_triples new p)

replaced-keeps :
    (target : Target) (old new : List Triple) (p : String)
    → contains (predicates_of target) p ≡ false
    → objects_for (replaced target old new) p ≡ objects_for old p
replaced-keeps target old new p h =
    let group = contains (predicates_of target) in
    objects_for-append (keep (λ t. not (group t.predicate)) old)
      (keep (λ t. group t.predicate) (decoded_triples new)) p
    ∙ ap₂ (λ a b. a ++ b) (objects_for-keep (λ q. not (group q)) old p (ap not h))
        (objects_for-keep_none group (decoded_triples new) p h)
    ∙ append-nil (objects_for old p)

present-updated :
    (m : Memory) (id j : String) (old ts : List Triple)
    → m id ≡ some old
    → is_present memory (update m id ts) j ≡ is_present memory m j
present-updated m id j old ts e = elim (str_eq-cases j id) [
  | inl same ↦ rw same (rw (eq_refl id) (rw e))
  | inr other ↦ rw other
]

keeps-updated :
    (m : Memory) (target : Target) (id j p : String) (old ts : List Triple)
    → m id ≡ some old
    → contains (predicates_of target) p ≡ false
    → objects_at memory (update m id (replaced target old ts)) j p ≡ objects_at memory m j p
keeps-updated m target id j p old ts e g = elim (str_eq-cases j id) [
  | inl same ↦
      rw same (at_self m id (replaced target old ts) p ∙ replaced-keeps target old ts p g ∙ rw e)
  | inr other ↦ at_other m id j (replaced target old ts) p other
]

present-reconciled :
    (m m' : Memory) (target : Target) (id : String) (ts : List Triple) (j : String)
    → memory.reconcile m target id ts ≡ (m', none)
    → is_present memory m' j ≡ is_present memory m j
present-reconciled m m' target id ts j h =
    let (old, e, u) = reconciled-ok m m' target id ts (m id) h in
    rw u (present-updated m id j old (replaced target old ts) e)

sets-reconciled :
    (m m' : Memory) (target : Target) (id : String) (ts : List Triple) (p : String)
    → memory.reconcile m target id ts ≡ (m', none)
    → contains (predicates_of target) p ≡ true
    → objects_at memory m' id p ≡ map through_json (objects_for ts p)
sets-reconciled m m' target id ts p h g =
    let (old, e, u) = reconciled-ok m m' target id ts (m id) h in
    rw u (at_self m id (replaced target old ts) p ∙ replaced-sets target old ts p g)

keeps-reconciled :
    (m m' : Memory) (target : Target) (id : String) (ts : List Triple) (j p : String)
    → memory.reconcile m target id ts ≡ (m', none)
    → contains (predicates_of target) p ≡ false
    → objects_at memory m' j p ≡ objects_at memory m j p
keeps-reconciled m m' target id ts j p h g =
    let (old, e, u) = reconciled-ok m m' target id ts (m id) h in
    rw u (keeps-updated m target id j p old ts e g)

others-reconciled :
    (m m' : Memory) (target : Target) (id : String) (ts : List Triple) (j p : String)
    → memory.reconcile m target id ts ≡ (m', none)
    → str_eq j id ≡ false
    → objects_at memory m' j p ≡ objects_at memory m j p
others-reconciled m m' target id ts j p h other =
    let (old, e, u) = reconciled-ok m m' target id ts (m id) h in
    rw u (at_other m id j (replaced target old ts) p other)

created-stores :
    (m m' : Memory) (entity s : EntityState) (o : Option (List Triple))
    → created m entity o ≡ (m', ok s)
    → memory.get_entity m' entity.id ≡ ok s
created-stores m m' entity s none h =
    rw (← ap (λ r. r.0) h) (rw (eq_refl entity.id) (ap (λ r. r.1) h))
created-stores m m' entity s (some old) h = absurd (cc (ap (λ r. r.1) h))

pub memory-IsLawful : IsLawful memory
memory-IsLawful = record {
  read_back = through_json;
  read_text = λ s. refl;
  read_number = λ v exact. refl;
  reconcile_present = present-reconciled;
  reconcile_sets = sets-reconciled;
  reconcile_keeps = keeps-reconciled;
  reconcile_keeps_others = others-reconciled;
  create_stores = λ m m' c e s h. created-stores m m' e s (m e.id) h;
}
