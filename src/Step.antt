-- ===== src/Step.antt =====
-- Go functions on a state that may fail: the error is a value, and what was done before a failure
-- stays done, so the state comes back beside the error too.
pub mod Ensures
pub mod Keeps
pub mod Returns
use jotfs.Errors.{Error, Result, ok, err}

abbrev pub Step {ℓ} : Type ℓ → Type ℓ → Type ℓ
Step S A = S → Result A × S

module _ {ℓ} {S A : Type ℓ} where
  unfoldable pub pure : A → Step S A
  pure a s = (ok a, s)

  unfoldable pub fail : Error → Step S A
  fail e s = (err e, s)

  unfoldable pub lift : Result A → Step S A
  lift r s = (r, s)

  unfoldable pub gets : (S → A) → Step S A
  gets f s = (ok (f s), s)

module _ {ℓ} {S A B : Type ℓ} where
  abbrev pub continue : Result A → (A → Step S B) → Step S B
  continue (ok a) f s = f a s
  continue (err e) f s = (err e, s)

  infixl 5 ◌>>=◌
  unfoldable pub ◌>>=◌ : Step S A → (A → Step S B) → Step S B
  unfolding pure fail lift gets
  ◌>>=◌ m f s = let (r, s') = m s in continue r f s'

infixl 5 ◌>>◌
abbrev pub ◌>>◌ : {S A : Type 0} → Step S (Unit {0}) → Step S A → Step S A
m >> k = m >>= λ _. k
