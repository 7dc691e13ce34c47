-- ===== src/Graph/Laws.antt =====
-- What the components rely on of the graph store, as documented in internal/graphio/store.go and on
-- the Store interfaces: a successful `Reconcile` replaces the values of its group's predicates on the
-- one entity and leaves every other fact alone; a created entity is there to be read. An object comes
-- back through JSON, as internal/dice/resolver.go says of it: a text as it is, a number as a float64.
use semmachina.Prelude.{
  String, Bool, true, false, none, some, List, [], ◌∷◌, ◌≡◌, ap, ◌∙◌, contains, str_eq, map, Result,
  ok, err,
}
use semmachina.Prelude.Int.{ℤ, pos, negsuc, ◌≤ℤ◌}
use semmachina.Graph.{
  Object, text, int, float64, Triple, EntityState, Store, StoreError, Target, objects_for,
}
use semmachina.Graph.Targets.{predicates_of}

abbrev pub was_read : Result StoreError EntityState → Bool
was_read (ok s) = true
was_read (err e) = false

abbrev pub objects_read : Result StoreError EntityState → String → List Object
objects_read (ok s) p = objects_for s.triples p
objects_read (err e) p = []

-- 2 ^ 53 on either side: the integers that a float64 holds one by one.
abbrev pub IsExact : ℤ → Type 0
IsExact v = (negsuc 9007199254740991 ≤ℤ v) × (v ≤ℤ pos 9007199254740992)

module _ {W : Type 0} (store : Store W) where
  abbrev pub is_present : W → String → Bool
  is_present w id = was_read (store.get_entity w id)

  -- The objects that an entity has for a predicate, none if it cannot be read.
  abbrev pub objects_at : W → String → String → List Object
  objects_at w id p = objects_read (store.get_entity w id) p

  -- `read_back` is what an object that was written is read as.
  pub record IsLawful : Type 0 where
    pub read_back : Object → Object
    pub read_text : (s : String) → read_back (text s) ≡ text s
    pub read_number : (v : ℤ) → IsExact v → read_back (int v) ≡ float64 (some v)
    pub reconcile_present :
        (w w' : W) (target : Target) (id : String) (ts : List Triple) (j : String)
        → store.reconcile w target id ts ≡ (w', none)
        → is_present w' j ≡ is_present w j
    pub reconcile_sets :
        (w w' : W) (target : Target) (id : String) (ts : List Triple) (p : String)
        → store.reconcile w target id ts ≡ (w', none)
        → contains (predicates_of target) p ≡ true
        → objects_at w' id p ≡ map read_back (objects_for ts p)
    pub reconcile_keeps :
        (w w' : W) (target : Target) (id : String) (ts : List Triple) (j p : String)
        → store.reconcile w target id ts ≡ (w', none)
        → contains (predicates_of target) p ≡ false
        → objects_at w' j p ≡ objects_at w j p
    pub reconcile_keeps_others :
        (w w' : W) (target : Target) (id : String) (ts : List Triple) (j p : String)
        → store.reconcile w target id ts ≡ (w', none)
        → str_eq j id ≡ false
        → objects_at w' j p ≡ objects_at w j p
    pub create_stores :
        (w w' : W) (contract : String) (entity s : EntityState)
        → store.create_entity w contract entity ≡ (w', ok s)
        → store.get_entity w' entity.id ≡ ok s

  -- A text that is the one value written is read as it is.
  pub reads_text :
      (lawful : IsLawful) (w w' : W) (target : Target) (id : String) (ts : List Triple)
      (p s : String)
      → store.reconcile w target id ts ≡ (w', none)
      → contains (predicates_of target) p ≡ true
      → objects_for ts p ≡ text s ∷ []
      → objects_at w' id p ≡ text s ∷ []
  reads_text lawful w w' target id ts p s done within wrote =
      lawful.reconcile_sets w w' target id ts p done within
      ∙ ap (map lawful.read_back) wrote
      ∙ ap (λ o. o ∷ []) (lawful.read_text s)

  -- A number that is the one value written is read as a float64.
  pub reads_number :
      (lawful : IsLawful) (w w' : W) (target : Target) (id : String) (ts : List Triple) (p : String)
      (v : ℤ)
      → store.reconcile w target id ts ≡ (w', none)
      → contains (predicates_of target) p ≡ true
      → IsExact v
      → objects_for ts p ≡ int v ∷ []
      → objects_at w' id p ≡ float64 (some v) ∷ []
  reads_number lawful w w' target id ts p v done within exact wrote =
      lawful.reconcile_sets w w' target id ts p done within
      ∙ ap (map lawful.read_back) wrote
      ∙ ap (λ o. o ∷ []) (lawful.read_number v exact)
