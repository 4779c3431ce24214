-- ===== src/Common/Result.antt =====
-- Go's `(value, error)` results, for any type of errors.
use mathlib.Core.Path.{◌≡◌, refl}

pub data Result {ℓ κ} (E : Type κ) (A : Type ℓ) : Type (ℓ ⊔ κ) where
  err : E → Result E A
  ok : A → Result E A

module _ {ℓ κ μ} {E : Type μ} {A : Type ℓ} {B : Type κ} where
  -- `if err != nil { return err }`, and then the rest of the function.
  infixl 5 ◌>>=◌
  abbrev pub ◌>>=◌ : Result E A → (A → Result E B) → Result E B
  ◌>>=◌ (err why) rest = err why
  ◌>>=◌ (ok value) rest = rest value

  -- What is returned behind an error test was returned by the call and by the rest.
  pub returned_behind :
      (call : Result E A) (rest : A → Result E B) {out : B}
      → (call >>= rest) ≡ ok out
      → (value : A) × (call ≡ ok value) × (rest value ≡ ok out)
  returned_behind (err why) rest h = absurd (cc h)
  returned_behind (ok value) rest h = (value, refl, h)

  -- Two continuations that agree on every result that is returned.
  pub same_after :
      (call : Result E A) (f g : A → Result E B)
      → ((a : A) → call ≡ ok a → f a ≡ g a)
      → (call >>= f) ≡ (call >>= g)
  same_after (err why) f g same = refl
  same_after (ok value) f g same = same value refl
