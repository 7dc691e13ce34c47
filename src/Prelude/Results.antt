-- ===== src/Prelude/Results.antt =====
-- `(value, error)`: a result that is the one or the other, with `do` blocks.
use mathlib.Core.Path.{◌≡◌, refl, ap}
use mathlib.Core.Bool.{Bool, true, false}
use mathlib.Core.Logic.{◌⊎◌, inl, inr}

pub data Result {ℓ κ} (E : Type ℓ) (A : Type κ) : Type (ℓ ⊔ κ) where
  ok : A → Result E A
  err : E → Result E A

-- `if !test { return err }`.
abbrev pub guard {κ} : {E : Type κ} → Bool → E → Result E (Unit {0})
guard false failure = err failure
guard true failure = ok tt

infixl 5 ◌>>=◌ ◌>>◌
abbrev pub ◌>>=◌ {ℓ κ μ} :
    {E : Type ℓ} {A : Type κ} {B : Type μ} → Result E A → (A → Result E B) → Result E B
err failure >>= next = err failure
ok value >>= next = next value

abbrev pub ◌>>◌ {ℓ μ} : {E : Type ℓ} {B : Type μ} → Result E (Unit {0}) → Result E B → Result E B
check >> next = check >>= λ _. next

-- `fmt.Errorf("…: %w", err)`: the error in its wrapping.
abbrev pub wrap {ℓ κ μ} : {E : Type ℓ} {F : Type κ} {A : Type μ} → (E → F) → Result E A → Result F A
wrap f (ok a) = ok a
wrap f (err e) = err (f e)

pub Result-cases {ℓ κ} :
    {E : Type ℓ} {A : Type κ} (r : Result E A) → ((a : A) × (r ≡ ok a)) ⊎ ((e : E) × (r ≡ err e))
Result-cases (ok a) = inl (a, refl)
Result-cases (err e) = inr (e, refl)

pub >>=-eq-ok {ℓ κ μ} :
    {E : Type ℓ} {A : Type κ} {B : Type μ} (first : Result E A) (next : A → Result E B) {end : B}
    → (first >>= next) ≡ ok end
    → (mid : A) × (first ≡ ok mid) × (next mid ≡ ok end)
>>=-eq-ok (err failure) next whole = absurd (cc whole)
>>=-eq-ok (ok mid) next whole = (mid, refl, whole)

-- A successful block succeeded behind its first check.
pub then-ok {ℓ κ} :
    {E : Type ℓ} {B : Type κ} (m : Result E (Unit {0})) (k : Result E B) {b : B}
    → (m >>= λ _. k) ≡ ok b
    → k ≡ ok b
then-ok (ok u) k h = h
then-ok (err e) k h = cc

pub ok-injective {ℓ κ} :
    {E : Type ℓ} {A : Type κ} {a b : A} → ◌≡◌ {A = Result E A} (ok a) (ok b) → a ≡ b
ok-injective h = cc

pub wrap-eq-ok {ℓ κ μ} :
    {E : Type ℓ} {F : Type κ} {A : Type μ} (f : E → F) (r : Result E A) {a : A}
    → wrap f r ≡ ok a
    → r ≡ ok a
wrap-eq-ok f (ok a) h = ap ok (ok-injective h)
wrap-eq-ok f (err e) h = cc
