-- ===== src/Payload/Written.antt =====
-- internal/payload/triples.go: what a successful projection writes.
use semmachina.Prelude.{
  String, if◌then◌else◌, none, some, List, [], ◌∷◌, ◌++◌, ◌≡◌, refl, sym, ◌∙◌, arith, str_eq,
  Result, ok, ◌>>=◌, >>=-eq-ok, then-ok, ok-injective, All, All-append, Bool-cases, inl, inr,
  Option-cases,
}
use mathlib.Core.Path.{ap₂}
use semmachina.Graph.{Object, text, Triple, objects_for}
use semmachina.Graph.Ids.{IdRules}
use semmachina.Graph.Memory.{objects_for-append}
use semmachina.Payload.Projection.{
  TripleProjection, ProjectionError, object_of, scalar_triples, ref_triples, triple, build,
  check_projection, project, check_triple_object,
}

-- The objects that a list of registered predicates gives a predicate.
unfoldable pub scalar_objects : List (String × Object) → List String → String → List Object
scalar_objects objects [] q = []
scalar_objects objects (p ∷ ps) q =
    let rest = scalar_objects objects ps q in
    if str_eq p q then elim (object_of objects p) [ none ↦ rest | some o ↦ o ∷ rest ] else rest

unfoldable pub ref_objects : TripleProjection → String → List Object
ref_objects p q = if p.refless then [] else if str_eq p.ref_predicate q then text p.ref ∷ [] else []

-- A triple that carries the projection's own provenance.
pub record IsOf (p : TripleProjection) (t : Triple) : Type 0 where
  pub about : t.subject ≡ p.subject
  pub from : t.source ≡ p.source
  pub when : t.timestamp ≡ p.at
  pub turn : t.context ≡ p.turn_id

module _ {V : Type 0} (ids : IdRules) (p : TripleProjection) where
  scalars-step :
      (x : String) (ps : List String) (o : Object) (ts : List Triple)
      → object_of p.objects x ≡ some o
      → scalar_triples {V = V} ids p (x ∷ ps) ≡ ok ts
      → (rest : List Triple) × (scalar_triples {V = V} ids p ps ≡ ok rest)
        × (triple p x o ∷ rest ≡ ts)
  unfolding scalar_triples
  scalars-step x ps o ts e h =
      let later = scalar_triples {V = V} ids p ps in
      let put : List Triple → Result (ProjectionError V) (List Triple) =
        λ us. ok (triple p x o ∷ us) in
      let (rest, inner, last) = >>=-eq-ok later put (
        then-ok (check_triple_object {V = V} ids x o) (later >>= put)
          (rw (e, scalar_triples) at h)) in
      (rest, inner, ok-injective last)

  scalars-objects :
      (ps : List String) (ts : List Triple) (q : String)
      → scalar_triples {V = V} ids p ps ≡ ok ts
      → objects_for ts q ≡ scalar_objects p.objects ps q
  unfolding scalar_triples scalar_objects objects_for
  scalars-objects [] ts q h = rw (← ok-injective h)
  scalars-objects (x ∷ ps) ts q h = elim (Option-cases (object_of p.objects x)) [
    | inl e ↦ cc (rw (e, scalar_triples) at h)
    | inr (o, e) ↦
        let (rest, inner, last) = scalars-step x ps o ts e h in
        rw e (rw (← last) (ground (arith, scalars-objects ps rest q inner)))
  ]

  refs-objects :
      (ts : List Triple) (q : String)
      → ref_triples {V = V} ids p ≡ ok ts
      → objects_for ts q ≡ ref_objects p q
  unfolding ref_triples ref_objects objects_for
  refs-objects ts q h = elim (Bool-cases p.refless) [
    | inl plain ↦ ground arith
    | inr carried ↦ ground arith
  ]

  build-parts :
      (validated : Result V (Unit {0})) (ts : List Triple)
      → build ids p validated ≡ ok ts
      → (a b : List Triple) × (scalar_triples {V = V} ids p p.registered ≡ ok a)
        × (ref_triples {V = V} ids p ≡ ok b)
        × (ts ≡ a ++ b)
  unfolding build project
  build-parts validated ts h =
      let (a, scalars, rest) =
        >>=-eq-ok (scalar_triples {V = V} ids p p.registered)
          (λ us. ref_triples ids p >>= λ vs. ok (us ++ vs))
          (then-ok (check_projection ids p validated) (project ids p) h) in
      let (b, refs, last) = >>=-eq-ok (ref_triples {V = V} ids p) (λ vs. ok (a ++ vs)) rest in
      (a, b, scalars, refs, sym (ok-injective last))

  -- A successful projection writes exactly its payload's facts: for every predicate, the objects of
  -- the registered fields and of the reference.
  pub build-objects :
      (validated : Result V (Unit {0})) (ts : List Triple) (q : String)
      → build ids p validated ≡ ok ts
      → objects_for ts q ≡ scalar_objects p.objects p.registered q ++ ref_objects p q
  build-objects validated ts q h =
      let (a, b, scalars, refs, e) = build-parts validated ts h in
      rw e (
        objects_for-append a b q
        ∙ ap₂ (λ x y. x ++ y) (scalars-objects p.registered a q scalars) (refs-objects b q refs))

  scalars-IsOf :
      (ps : List String) (ts : List Triple)
      → scalar_triples {V = V} ids p ps ≡ ok ts
      → All (IsOf p) ts
  unfolding scalar_triples triple
  scalars-IsOf [] ts h = rw (← ok-injective h) tt
  scalars-IsOf (x ∷ ps) ts h = elim (Option-cases (object_of p.objects x)) [
    | inl e ↦ cc (rw (e, scalar_triples) at h)
    | inr (o, e) ↦
        let (rest, inner, last) = scalars-step x ps o ts e h in
        rw (← last) (
          record { about = refl; from = refl; when = refl; turn = refl },
          scalars-IsOf ps rest inner,
        )
  ]

  refs-IsOf : (ts : List Triple) → ref_triples {V = V} ids p ≡ ok ts → All (IsOf p) ts
  unfolding ref_triples triple
  refs-IsOf ts h = elim (Bool-cases p.refless) [
    | inl plain ↦ rw (← ok-injective (rw plain at h)) tt
    | inr carried ↦
        rw
          (← ok-injective (
            then-ok (check_triple_object {V = V} ids p.ref_predicate (text p.ref))
              (ok (triple p p.ref_predicate (text p.ref) ∷ [])) (rw carried at h)))
          (record { about = refl; from = refl; when = refl; turn = refl }, tt)
  ]

  -- Every triple that a successful projection writes is about its subject, at its time, in the name
  -- of its source and of its turn.
  pub build-IsOf :
      (validated : Result V (Unit {0})) (ts : List Triple)
      → build ids p validated ≡ ok ts
      → All (IsOf p) ts
  build-IsOf validated ts h =
      let (a, b, scalars, refs, e) = build-parts validated ts h in
      rw e (All-append (IsOf p) a b (scalars-IsOf p.registered a scalars) (refs-IsOf b refs))
