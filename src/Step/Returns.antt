-- ===== src/Step/Returns.antt =====
-- What a step that returned did: its parts returned.
use jotfs.Prelude.{◌≡◌, refl}
use jotfs.Errors.{Error, Result, ok, err}
use jotfs.Step.{Step, pure, lift, fail, continue, ◌>>=◌}

module _ {S A : Type 0} where
  pub lift-ok : (r : Result A) (s s' : S) {a : A} → lift r s ≡ (ok a, s') → (r ≡ ok a) × (s ≡ s')
  unfolding lift
  lift-ok r s s' e = (cc e, cc e)

  pub pure-ok : (a b : A) (s s' : S) → pure a s ≡ (ok b, s') → (a ≡ b) × (s ≡ s')
  unfolding pure
  pure-ok a b s s' e = (cc e, λ i. (e i).1)

  pub fail-ne-ok : (x : Error) (s s' : S) {a : A} → fail {A = A} x s ≡ (ok a, s') → ⊥
  unfolding fail
  fail-ne-ok x s s' e = cc e

pub bind-ok :
    {S A B : Type 0} (m : Step S A) (f : A → Step S B) (s s' : S) {b : B}
    → (m >>= f) s ≡ (ok b, s')
    → (a : A) × (t : S) × (m s ≡ (ok a, t)) × (f a t ≡ (ok b, s'))
unfolding ◌>>=◌
bind-ok {S} {A} {B} m f s s' {b} e = go (m s) refl e
  where
    go :
        (p : Result A × S)
        → m s ≡ p
        → continue p.0 f p.1 ≡ (ok b, s')
        → (a : A) × (t : S) × (m s ≡ (ok a, t)) × (f a t ≡ (ok b, s'))
    go (ok a, t) q e' = (a, t, q, e')
    go (err x, t) q e' = absurd (cc e')
