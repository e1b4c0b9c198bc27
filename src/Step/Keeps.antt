-- ===== src/Step/Keeps.antt =====
-- Steps that keep a property of the state, whether they return or fail.
use jotfs.Prelude.{◌≡◌, refl, Bool, true, false, if◌then◌else◌}
use jotfs.Errors.{Error, Result, ok, err}
use jotfs.Step.{Step, pure, fail, lift, gets, continue, ◌>>=◌}

pub record Keeps {S A : Type 0} (P : S → Type 0) (m : Step S A) : Type 0 where
  pub holds : (s : S) → P s → P (m s).1

module _ {S A : Type 0} (P : S → Type 0) where
  pub Keeps-pure : (a : A) → Keeps P (pure a)
  unfolding pure
  Keeps-pure a = record { holds = λ s p. p }

  pub Keeps-fail : (e : Error) → Keeps {A = A} P (fail e)
  unfolding fail
  Keeps-fail e = record { holds = λ s p. p }

  pub Keeps-lift : (r : Result A) → Keeps P (lift r)
  unfolding lift
  Keeps-lift r = record { holds = λ s p. p }

  pub Keeps-gets : (f : S → A) → Keeps P (gets f)
  unfolding gets
  Keeps-gets f = record { holds = λ s p. p }

  pub Keeps-if : (b : Bool) {m k : Step S A} → Keeps P m → Keeps P k → Keeps P (if b then m else k)
  Keeps-if true m k = m
  Keeps-if false m k = k

pub Keeps-bind :
    {S A B : Type 0} {P : S → Type 0} {m : Step S A} {f : A → Step S B}
    → Keeps P m
    → ((a : A) → Keeps P (f a))
    → Keeps P (m >>= f)
unfolding ◌>>=◌
Keeps-bind {S} {A} {B} {P} {m} {f} km kf = record { holds = λ s p. go (m s) (km.holds s p) }
  where
    go : (r : Result A × S) → P r.1 → P (continue r.0 f r.1).1
    go (ok a, s) p = (kf a).holds s p
    go (err e, s) p = p

-- A step after a result keeps the property where the result is ok.
pub Keeps-lift_bind :
    {S A B : Type 0} {P : S → Type 0} (r : Result A) {f : A → Step S B}
    → ((a : A) → r ≡ ok a → Keeps P (f a))
    → Keeps P (lift r >>= f)
unfolding ◌>>=◌ lift
Keeps-lift_bind (ok a) h = record { holds = λ s p. (h a refl).holds s p }
Keeps-lift_bind (err e) h = record { holds = λ s p. p }
