-- ===== src/Exec.antt =====
-- Methods that read and write a shared world and may fail: what was written before a failure stays
-- written, so the world comes back beside the error too.
use mathlib.Core.Path.{◌≡◌, refl, subst}
use semmachina.Prelude.{Result, ok, err, wrap, ◌⊎◌, inl, inr}

abbrev pub Exec {ℓ κ μ} : Type ℓ → Type κ → Type μ → Type (ℓ ⊔ κ ⊔ μ)
Exec W E A = W → W × Result E A

module _ {W E A : Type 0} where
  abbrev pub pure : A → Exec W E A
  pure a w = (w, ok a)

  abbrev pub raise : E → Exec W E A
  raise e w = (w, err e)

  abbrev pub lift : Result E A → Exec W E A
  lift r w = (w, r)

module _ {W E A B : Type 0} where
  abbrev continue : (A → Exec W E B) → W × Result E A → W × Result E B
  continue f (w, ok a) = f a w
  continue f (w, err e) = (w, err e)

  infixl 5 ◌>>=◌
  abbrev pub ◌>>=◌ : Exec W E A → (A → Exec W E B) → Exec W E B
  ◌>>=◌ m f w = continue f (m w)

module _ {W E F A : Type 0} where
  -- `fmt.Errorf("…: %w", err)` around an action.
  abbrev pub wrapping : (E → F) → Exec W E A → Exec W F A
  wrapping f m w = let (w', r) = m w in (w', wrap f r)

module _ {W E B : Type 0} where
  infixl 5 ◌>>◌
  abbrev pub ◌>>◌ : Exec W E (Unit {0}) → Exec W E B → Exec W E B
  m >> k = m >>= λ _. k

-- What holds when an action succeeds, of the world that it leaves and of its value.
module _ {W E A : Type 0} where
  abbrev pub Post : W × Result E A → (W → A → Type 0) → Type 0
  Post (w, ok a) Q = Q w a
  Post (w, err e) Q = Unit

  pub Post-mono :
      (P Q : W → A → Type 0) (r : W × Result E A)
      → Post r P
      → ((w : W) (a : A) → P w a → Q w a)
      → Post r Q
  Post-mono P Q (w, ok a) h k = k w a h
  Post-mono P Q (w, err e) h k = tt

  -- What holds when an action fails, of the world that it leaves and of its error.
  abbrev pub Fails : W × Result E A → (W → E → Type 0) → Type 0
  Fails (w, ok a) Q = Unit
  Fails (w, err e) Q = Q w e

  pub Fails-err :
      (Q : W → E → Type 0) (r : W × Result E A) {w : W} {e : E} → Fails r Q → r ≡ (w, err e) → Q w e
  Fails-err Q r h e = subst (λ t. Fails t Q) e h

  pub Exec-cases :
      (r : W × Result E A)
      → ((w : W) × (a : A) × (r ≡ (w, ok a))) ⊎ ((w : W) × (e : E) × (r ≡ (w, err e)))
  Exec-cases (w, ok a) = inl (w, a, refl)
  Exec-cases (w, err e) = inr (w, e, refl)

  pub Post-ok :
      (Q : W → A → Type 0) (r : W × Result E A) {w : W} {a : A} → Post r Q → r ≡ (w, ok a) → Q w a
  Post-ok Q r h e = subst (λ t. Post t Q) e h

module _ {W E A B : Type 0} where
  pub Post-bind :
      (m : Exec W E A) (f : A → Exec W E B) (w : W) (Q : W → B → Type 0)
      → Post (m w) (λ v a. Post (f a v) Q)
      → Post ((m >>= f) w) Q
  Post-bind m f w Q h = continue-Post f (m w) Q h
    where
      continue-Post :
          (f : A → Exec W E B) (r : W × Result E A) (Q : W → B → Type 0)
          → Post r (λ v a. Post (f a v) Q)
          → Post (continue f r) Q
      continue-Post f (v, ok a) Q h = h
      continue-Post f (v, err e) Q h = tt
