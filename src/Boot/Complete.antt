-- ===== src/Boot/Complete.antt =====
-- internal/boot/sequence.go `RunThrough`: a run that succeeds, and when a run succeeds.
use mathlib.Core.Path.{subst}
use semmachina.Prelude.{
  String, Bool, true, false, List, [], ◌∷◌, str_eq, ◌≡◌, refl, sym, ap, ◌∙◌, inl, inr, arith,
  eq_iff, eq_refl, contains, Result, ok, err, All, Bool-cases,
}
use semmachina.Exec.{Exec-cases}
use semmachina.Boot.Sequence.{
  Step, Boot, BootError, missing, attempt, run_check, run_work, record_done, run_steps, run_through,
}
use semmachina.Boot.Order.{Attempted, stopped, finished, attempt-Attempted}

module _ {W : Type 0} where
  missing-met :
      (known needs : List String) (b : Boot W)
      → ((x : String) → contains known x ≡ true → b.done x ≡ true)
      → All (λ n. contains known n ≡ true) needs
      → missing b.done needs ≡ []
  unfolding missing
  missing-met known [] b k met = refl
  missing-met known (n ∷ needs) b k (h, met) = rw (k n h) (missing-met known needs b k met)

module _ {W E : Type 0} where
  Marks : String → Boot W × Result (BootError E) (Unit {0}) → Type 0
  Marks x (b, ok u) = b.done x ≡ true
  Marks x (b, err e) = Unit

  Attempted-Marks :
      (s : Step W E) (b : Boot W) (r : Boot W × Result (BootError E) (Unit {0}))
      → Attempted s b r
      → Marks s.id r
  unfolding Marks
  Attempted-Marks s b (b', err e) (stopped k) = tt
  Attempted-Marks s b (b', ok u) (finished m d c) = d s.id ∙ rw (eq_refl s.id) refl

  Attempted-keeps :
      (s : Step W E) (b : Boot W) (r : Boot W × Result (BootError E) (Unit {0})) (x : String)
      → Attempted s b r
      → b.done x ≡ true
      → r.0.done x ≡ true
  Attempted-keeps s b (b', err e) x (stopped k) h = k.0 x ∙ h
  Attempted-keeps s b (b', ok u) x (finished m d c) h = d x ∙ ground (arith, h)

  run_steps-keeps :
      (cancelled : W → Bool) (last : String) (todo : List (Step W E)) (b : Boot W) (x : String)
      → b.done x ≡ true
      → (run_steps cancelled last todo b).0.done x ≡ true
  unfolding run_steps
  run_steps-keeps cancelled last [] b x h = h
  run_steps-keeps cancelled last (s ∷ rest) b x h = elim (Bool-cases (b.done s.id)) [
    | inl d ↦ rw d (run_steps-keeps cancelled last rest b x h)
    | inr new ↦
        let next = Attempted-keeps s b _ x (attempt-Attempted cancelled s b) h in
        rw new (elim (Exec-cases (attempt cancelled s b)) [
          | inr (b', e, k) ↦ rw k (subst (λ r. r.0.done x ≡ true) k next)
          | inl (b', u, k) ↦ rw k (elim (Bool-cases (str_eq s.id last)) [
            | inl stop ↦ rw stop (subst (λ r. r.0.done x ≡ true) k next)
            | inr go_on ↦
                rw go_on
                  (run_steps-keeps cancelled last rest b' x (subst (λ r. r.0.done x ≡ true) k next))
          ])
        ])
  ]

  AllDone : List (Step W E) → Boot W × Result (BootError E) (Unit {0}) → Type 0
  AllDone todo (b, ok u) = All (λ s. b.done s.id ≡ true) todo
  AllDone todo (b, err e) = Unit

  AllDone-cons :
      (s : Step W E) (rest : List (Step W E)) (r : Boot W × Result (BootError E) (Unit {0}))
      → r.0.done s.id ≡ true
      → AllDone rest r
      → AllDone (s ∷ rest) r
  unfolding AllDone
  AllDone-cons s rest (b, ok u) h k = (h, k)
  AllDone-cons s rest (b, err e) h k = tt

  run_steps-AllDone :
      (cancelled : W → Bool) (todo : List (Step W E)) (b : Boot W)
      → All (λ s. str_eq s.id "" ≡ false) todo
      → AllDone todo (run_steps cancelled "" todo b)
  unfolding run_steps AllDone Marks
  run_steps-AllDone cancelled [] b named = tt
  run_steps-AllDone cancelled (s ∷ rest) b (n, named) = elim (Bool-cases (b.done s.id)) [
    | inl d ↦ rw d (
        AllDone-cons s rest (run_steps cancelled "" rest b)
          (run_steps-keeps cancelled "" rest b s.id d) (run_steps-AllDone cancelled rest b named))
    | inr new ↦ rw new (elim (Exec-cases (attempt cancelled s b)) [
      | inr (b', e, k) ↦ rw k tt
      | inl (b', u, k) ↦
          let marked =
            subst (λ r. Marks s.id r) k (Attempted-Marks s b _ (attempt-Attempted cancelled s b)) in
          rw k (
            rw n (
              AllDone-cons s rest (run_steps cancelled "" rest b')
                (run_steps-keeps cancelled "" rest b' s.id marked)
                (run_steps-AllDone cancelled rest b' named)))
    ])
  ]

  -- A run of the whole sequence that succeeds leaves every step done, where no step has the empty id.
  pub run_completes :
      (cancelled : W → Bool) (steps : List (Step W E)) (b b' : Boot W)
      → All (λ s. str_eq s.id "" ≡ false) steps
      → run_through cancelled steps "" b ≡ (b', ok tt)
      → All (λ s. b'.done s.id ≡ true) steps
  unfolding run_through AllDone
  run_completes cancelled steps b b' named h =
      subst (λ r. AllDone steps r) h (run_steps-AllDone cancelled steps b named)

  -- A step whose check and work succeed in every state.
  abbrev pub Willing : Step W E → Type 0
  Willing s = ((b : Boot W) → (run_check s b).1 ≡ ok tt) × ((b : Boot W) → (run_work s b).1 ≡ ok tt)

  -- An order in which each step comes after what it needs, given what is known to be done.
  abbrev pub InOrder : List String → List (Step W E) → Type 0
  InOrder known [] = Unit
  InOrder known (s ∷ rest) =
      All (λ n. contains known n ≡ true) s.needs × InOrder (s.id ∷ known) rest

  attempt-ok :
      (cancelled : W → Bool) (s : Step W E) (b : Boot W)
      → ((w : W) → cancelled w ≡ false)
      → Willing s
      → missing b.done s.needs ≡ []
      → (attempt cancelled s b).1 ≡ ok tt
  unfolding attempt record_done
  attempt-ok cancelled s b never (checks, works) m = rw (never b.world) (
      rw m (elim (Exec-cases (run_check s b)) [
        | inr (b', e, k) ↦ absurd (cc (ap (λ r. r.1) (sym k) ∙ checks b))
        | inl (b', u, k) ↦ rw k (elim (Exec-cases (run_work s b')) [
          | inr (b2, e, l) ↦ absurd (cc (ap (λ r. r.1) (sym l) ∙ works b'))
          | inl (b2, u2, l) ↦ rw l refl
        ])
      ]))

  run_steps-ok :
      (cancelled : W → Bool) (last : String) (known : List String) (todo : List (Step W E))
      (b : Boot W)
      → ((w : W) → cancelled w ≡ false)
      → All Willing todo
      → InOrder known todo
      → ((x : String) → contains known x ≡ true → b.done x ≡ true)
      → (run_steps cancelled last todo b).1 ≡ ok tt
  unfolding run_steps Marks
  run_steps-ok cancelled last known [] b never willing order k = refl
  run_steps-ok cancelled last known (s ∷ rest) b never (will, willing) (met, order) k =
      elim (Bool-cases (b.done s.id)) [
        | inl d ↦
            rw d
              (run_steps-ok cancelled last (s.id ∷ known) rest b never willing order (extend b d k))
        | inr new ↦ rw new (elim (Exec-cases (attempt cancelled s b)) [
          | inr (b', e, j) ↦ absurd (
              cc (
                ap (λ r. r.1) (sym j)
                ∙ attempt-ok cancelled s b never will (missing-met known s.needs b k met)))
          | inl (b', u, j) ↦ rw j (elim (Bool-cases (str_eq s.id last)) [
            | inl stop ↦ rw stop refl
            | inr go_on ↦ rw go_on (
                run_steps-ok cancelled last (s.id ∷ known) rest b' never willing order (
                  extend b'
                    (subst (λ r. Marks s.id r) j
                      (Attempted-Marks s b _ (attempt-Attempted cancelled s b)))
                    (λ x h.
                      subst (λ r. r.0.done x ≡ true) j
                        (Attempted-keeps s b _ x (attempt-Attempted cancelled s b) (k x h)))))
          ])
        ])
      ]
    where
      extend :
          (c : Boot W)
          → c.done s.id ≡ true
          → ((x : String) → contains known x ≡ true → c.done x ≡ true)
          → (x : String) → contains (s.id ∷ known) x ≡ true
          → c.done x ≡ true
      extend c d k x h = elim (Bool-cases (str_eq s.id x)) [
        | inl e ↦ subst (λ y. c.done y ≡ true) ((eq_iff s.id x).0 e) d
        | inr n ↦ k x (ground (arith, h, n))
      ]

  -- A sequence boots: uncancelled, with steps that succeed in every state and have an id, in an order
  -- in which each comes after what it needs, a run from any state succeeds, and every step is done
  -- then.
  pub ordered_boot_succeeds :
      (cancelled : W → Bool) (steps : List (Step W E)) (b : Boot W)
      → ((w : W) → cancelled w ≡ false)
      → All Willing steps
      → InOrder [] steps
      → All (λ s. str_eq s.id "" ≡ false) steps
      → let r = run_through cancelled steps "" b in
        (r.1 ≡ ok tt) × All (λ s. r.0.done s.id ≡ true) steps
  unfolding run_through
  ordered_boot_succeeds cancelled steps b never willing order named =
      let fine = run_steps-ok cancelled "" [] steps b never willing order (λ x h. absurd (cc h)) in
      (
        fine,
        run_completes cancelled steps b (run_through cancelled steps "" b).0 named
            (ap (λ t. ((run_through cancelled steps "" b).0, t)) fine),
      )
