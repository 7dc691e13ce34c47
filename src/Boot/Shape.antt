-- ===== src/Boot/Shape.antt =====
-- internal/boot/sequence.go `NewSequence`: what the sequences that it makes are like, and their runs.
use mathlib.Core.Path.{subst}
use semmachina.Prelude.{
  String, Bool, true, false, List, [], ◌∷◌, str_eq, contains, ◌≡◌, refl, sym, ◌∙◌, inl, inr, Result,
  ok, err, All, Bool-cases, Result-cases,
}
use semmachina.Boot.Sequence.{
  Step, Boot, SequenceError, check_steps, check_all_needs, check_shape, is_set, new_sequence,
  run_through,
}
use semmachina.Boot.Complete.{run_completes}

module _ {W E : Type 0} where
  -- A step with an id of its own and work to do.
  abbrev pub Named : List String → Step W E → Type 0
  Named earlier s =
      (str_eq s.id "" ≡ false) × (contains earlier s.id ≡ false) × (is_set s.work ≡ true)

  -- The steps of a list, each named unlike those before it.
  abbrev pub Distinct : List String → List (Step W E) → Type 0
  Distinct earlier [] = Unit
  Distinct earlier (s ∷ rest) = Named earlier s × Distinct (s.id ∷ earlier) rest

  check_steps-Distinct :
      (earlier : List String) (steps : List (Step W E)) (d : List String)
      → check_steps earlier steps ≡ ok d
      → Distinct earlier steps
  unfolding check_steps
  check_steps-Distinct earlier [] d = λ h. tt
  check_steps-Distinct earlier (s ∷ rest) d = elim (Bool-cases (str_eq s.id "")) [
    | inl e ↦ rw (e, check_steps) (λ h. absurd (cc h))
    | inr n ↦ elim (Bool-cases (contains earlier s.id)) [
      | inl e ↦ rw (n, check_steps) (rw e (λ h. absurd (cc h)))
      | inr fresh ↦ elim (Bool-cases (is_set s.work)) [
        | inr e ↦ rw (n, check_steps) (rw fresh (rw e (λ h. absurd (cc h))))
        | inl set ↦ λ h. (
          (n, fresh, set),
          check_steps-Distinct (s.id ∷ earlier) rest d (
              sym (rw (n, check_steps) (rw (fresh, check_steps) (rw (set, check_steps) refl))) ∙ h),
        )
      ]
    ]
  ]

  Distinct-named :
      (earlier : List String) (steps : List (Step W E))
      → Distinct earlier steps
      → All (λ s. str_eq s.id "" ≡ false) steps
  Distinct-named earlier [] h = tt
  Distinct-named earlier (s ∷ rest) (n, h) = (n.0, Distinct-named (s.id ∷ earlier) rest h)

  shape-ok :
      (steps made : List (Step W E)) (r : Result SequenceError (List String))
      → check_shape steps r ≡ ok made
      → (made ≡ steps) × ((d : List String) × (r ≡ ok d))
  unfolding check_shape
  shape-ok steps made (err e) = λ h. absurd (cc h)
  shape-ok steps made (ok d) = elim (Result-cases (check_all_needs d steps)) [
    | inr (e, f) ↦ rw (f, check_shape) (λ h. absurd (cc h))
    | inl (u, g) ↦ rw (g, check_shape) (λ h. (cc h, (d, refl)))
  ]

  made-Distinct :
      (steps made : List (Step W E))
      → new_sequence steps ≡ ok made
      → (made ≡ steps) × Distinct [] steps
  unfolding new_sequence
  made-Distinct [] made h = absurd (cc h)
  made-Distinct (s ∷ rest) made h =
      let (same, (d, checked)) = shape-ok (s ∷ rest) made (check_steps [] (s ∷ rest)) h in
      (same, check_steps-Distinct [] (s ∷ rest) d checked)

  -- A sequence that `NewSequence` makes has the steps it was given, each with work and with an id
  -- unlike the ids before it, and a run of all of it that succeeds leaves every step done.
  pub sequence_completes :
      (cancelled : W → Bool) (steps made : List (Step W E)) (b b' : Boot W)
      → new_sequence steps ≡ ok made
      → run_through cancelled made "" b ≡ (b', ok tt)
      → (made ≡ steps) × Distinct [] made × All (λ s. b'.done s.id ≡ true) made
  sequence_completes cancelled steps made b b' h ran =
      let (same, distinct) = made-Distinct steps made h in
      let here = subst (λ l. Distinct [] l) (sym same) distinct in
      (same, here, run_completes cancelled made b b' (Distinct-named [] made here) ran)
