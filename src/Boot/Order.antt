-- ===== src/Boot/Order.antt =====
-- internal/boot/sequence.go `RunThrough`: the steps that ran, against the prerequisites declared.
use mathlib.Core.Path.{subst}
use semmachina.Prelude.{
  String, Bool, true, false, ◌||◌, ◌&&◌, not, List, [], ◌∷◌, ◌++◌, str_eq, ◌≡◌, refl, sym, ap, ◌∙◌,
  ◌⊎◌, inl, inr, arith, contains, Result, ok, err, All, Bool-cases, Option-cases, str_eq_comm,
}
use semmachina.Exec.{◌>>◌, Exec-cases}
use semmachina.Boot.Sequence.{
  Step, Boot, BootError, missing, attempt, run_check, run_work, record_done, run_steps, run_through,
  declared_ids,
}

contains-snoc :
    (xs : List String) (y x : String) → contains (xs ++ y ∷ []) x ≡ (str_eq x y || contains xs x)
contains-snoc [] y x = rw (str_eq_comm x y) refl
contains-snoc (a ∷ xs) y x = ground (arith, contains-snoc xs y x)

missing-none :
    (done : String → Bool) (c needs : List String)
    → ((x : String) → done x ≡ contains c x)
    → missing done needs ≡ []
    → All (λ n. contains c n ≡ true) needs
unfolding missing
missing-none done c [] e = λ h. tt
missing-none done c (n ∷ needs) e = elim (Bool-cases (done n)) [
  | inl d ↦ rw (d, missing) (λ h. (sym (e n) ∙ d, missing-none done c needs e h))
  | inr f ↦ rw (f, missing) (λ h. absurd (cc h))
]

List-cases {ℓ} : {A : Type ℓ} (xs : List A) → (xs ≡ []) ⊎ ((y : A) × (ys : List A) × (xs ≡ y ∷ ys))
List-cases [] = inl refl
List-cases (y ∷ ys) = inr (y, ys, refl)

module _ {W : Type 0} where
  -- Two states with the same bookkeeping.
  abbrev pub Books : Boot W → Boot W → Type 0
  Books b b' = ((x : String) → b'.done x ≡ b.done x) × (b'.completed ≡ b.completed)

module _ {W E : Type 0} where
  pub data Listed (s : Step W E) : List (Step W E) → Type 0 where
    first : {rest : List (Step W E)} → Listed s (s ∷ rest)
    later : {t : Step W E} {rest : List (Step W E)} → Listed s rest → Listed s (t ∷ rest)

  -- The ids of steps that ran in an order their prerequisites allow: each one is a step of the
  -- sequence, was not there before, and had all its needs before it.
  pub data Justified (steps : List (Step W E)) : List String → Type 0 where
    start : Justified steps []
    ran :
        {c : List String}
        → Justified steps c
        → (s : Step W E) → Listed s steps
        → contains c s.id ≡ false
        → All (λ n. contains c n ≡ true) s.needs
        → Justified steps (c ++ s.id ∷ [])

  pub record Sound (steps : List (Step W E)) (b : Boot W) : Type 0 where
    pub agrees : (x : String) → b.done x ≡ contains b.completed x
    pub justified : Justified steps b.completed

  -- What an attempt did to the bookkeeping.
  pub data Attempted (s : Step W E) (b : Boot W)
      : Boot W × Result (BootError E) (Unit {0}) → Type 0 where
    stopped : {b' : Boot W} {e : BootError E} → Books b b' → Attempted s b (b', err e)
    finished :
        {b' : Boot W}
        → missing b.done s.needs ≡ []
        → ((x : String) → b'.done x ≡ (str_eq x s.id || b.done x))
        → b'.completed ≡ b.completed ++ s.id ∷ []
        → Attempted s b (b', ok tt)

  run_check-Books : (s : Step W E) (b : Boot W) → Books b (run_check s b).0
  unfolding run_check
  run_check-Books s b = elim (Option-cases s.check) [
    | inl h ↦ rw (h, run_check) (λ x. refl, refl)
    | inr (f, h) ↦
        rw (h, run_check)
          (elim (Exec-cases (f b.world)) [
            | inl (w, u, k) ↦ rw k (λ x. refl, refl)
            | inr (w, e, k) ↦ rw k (λ x. refl, refl)
          ])
  ]

  run_work-Books : (s : Step W E) (b : Boot W) → Books b (run_work s b).0
  unfolding run_work
  run_work-Books s b = elim (Option-cases s.work) [
    | inl h ↦ rw (h, run_work) (λ x. refl, refl)
    | inr (f, h) ↦
        rw (h, run_work)
          (elim (Exec-cases (f b.world)) [
            | inl (w, u, k) ↦ rw k (λ x. refl, refl)
            | inr (w, e, k) ↦ rw k (λ x. refl, refl)
          ])
  ]

  worked :
      (s : Step W E) (b b1 : Boot W)
      → missing b.done s.needs ≡ []
      → Books b b1
      → Attempted s b ((run_work s >> record_done s.id) b1)
  unfolding record_done
  worked s b b1 m (d1, c1) = elim (Exec-cases (run_work s b1)) [
    | inr (b2, e, k) ↦
        let (d2, c2) = subst (λ r. Books b1 r.0) k (run_work-Books s b1) in
        rw k (stopped (λ x. d2 x ∙ d1 x, c2 ∙ c1))
    | inl (b2, u, k) ↦
        let (d2, c2) = subst (λ r. Books b1 r.0) k (run_work-Books s b1) in
        rw k (
          finished m (λ x. ap (λ t. str_eq x s.id || t) (d2 x ∙ d1 x))
            (ap (λ c. c ++ s.id ∷ []) (c2 ∙ c1)))
  ]

  pub attempt-Attempted :
      (cancelled : W → Bool) (s : Step W E) (b : Boot W) → Attempted s b (attempt cancelled s b)
  unfolding attempt
  attempt-Attempted cancelled s b = elim (Bool-cases (cancelled b.world)) [
    | inl t ↦ rw t (stopped (λ x. refl, refl))
    | inr f ↦ rw f (elim (List-cases (missing b.done s.needs)) [
      | inr (m, ms, h) ↦ rw h (stopped (λ x. refl, refl))
      | inl h ↦ rw h (elim (Exec-cases (run_check s b)) [
        | inr (b1, e, k) ↦ rw k (stopped (subst (λ r. Books b r.0) k (run_check-Books s b)))
        | inl (b1, u, k) ↦ rw k (worked s b b1 h (subst (λ r. Books b r.0) k (run_check-Books s b)))
      ])
    ])
  ]

  attempt-Sound :
      (cancelled : W → Bool) (steps : List (Step W E)) (s : Step W E) (b : Boot W)
      → Listed s steps
      → b.done s.id ≡ false
      → Sound steps b
      → Sound steps (attempt cancelled s b).0
  attempt-Sound cancelled steps s b l new at =
      after (attempt cancelled s b) (attempt-Attempted cancelled s b)
    where
      after : (r : Boot W × Result (BootError E) (Unit {0})) → Attempted s b r → Sound steps r.0
      after (b', err e) (stopped (d, c)) = record {
        agrees = λ x. d x ∙ at.agrees x ∙ ap (λ l. contains l x) (sym c);
        justified = subst (λ l. Justified steps l) (sym c) at.justified;
      }
      after (b', ok tt) (finished m d c) = record {
        agrees = λ x.
            d x
            ∙ ap (λ t. str_eq x s.id || t) (at.agrees x)
            ∙ sym (contains-snoc b.completed s.id x)
            ∙ ap (λ l. contains l x) (sym c);
        justified =
            subst (λ l. Justified steps l) (sym c)
              (ran at.justified s l (sym (at.agrees s.id) ∙ new)
                (missing-none b.done b.completed s.needs at.agrees m));
      }

  run_steps-Sound :
      (cancelled : W → Bool) (last : String) (steps todo : List (Step W E))
      → ((s : Step W E) → Listed s todo → Listed s steps)
      → (b : Boot W) → Sound steps b
      → Sound steps (run_steps cancelled last todo b).0
  unfolding run_steps
  run_steps-Sound cancelled last steps [] inside b at = at
  run_steps-Sound cancelled last steps (s ∷ rest) inside b at = elim (Bool-cases (b.done s.id)) [
    | inl d ↦ rw d (run_steps-Sound cancelled last steps rest (λ t l. inside t (later l)) b at)
    | inr new ↦
        let next = attempt-Sound cancelled steps s b (inside s first) new at in
        rw new (elim (Exec-cases (attempt cancelled s b)) [
          | inr (b', e, k) ↦ rw k (subst (λ r. Sound steps r.0) k next)
          | inl (b', u, k) ↦ rw k (elim (Bool-cases (str_eq s.id last)) [
            | inl stop ↦ rw stop (subst (λ r. Sound steps r.0) k next)
            | inr go_on ↦ rw go_on (
                run_steps-Sound cancelled last steps rest (λ t l. inside t (later l)) b'
                  (subst (λ r. Sound steps r.0) k next))
          ])
        ])
  ]

  -- Whatever a run of the sequence returns, success or any failure, from sound bookkeeping it leaves
  -- sound bookkeeping: what is marked as done is what completed, in an order in which each step of
  -- the sequence ran at most once and after everything that it needs.
  pub run_through-Sound :
      (cancelled : W → Bool) (steps : List (Step W E)) (last : String) (b : Boot W)
      → Sound steps b
      → Sound steps (run_through cancelled steps last b).0
  unfolding run_through
  run_through-Sound cancelled steps last b at =
      elim (Bool-cases (not (str_eq last "") && not (contains (declared_ids steps) last))) [
        | inl t ↦ rw t at
        | inr f ↦ rw f (run_steps-Sound cancelled last steps steps (λ s l. l) b at)
      ]
