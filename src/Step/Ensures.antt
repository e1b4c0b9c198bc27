-- ===== src/Step/Ensures.antt =====
-- What holds of the result and the state after a step that returns no error.
use jotfs.Prelude.{◌≡◌, refl}
use jotfs.Errors.{Error, Result, ok, err}
use jotfs.Step.{Step, continue, ◌>>=◌, pure, fail, lift, gets}

abbrev pub Post : {S A : Type 0} → (A → S → Type 0) → Result A × S → Type 0
Post Q (ok a, s) = Q a s
Post Q (err e, s) = Unit

-- From `s`, the step `m` fails or ends in a result and a state of `Q`.
pub record Ensures {S A : Type 0} (Q : A → S → Type 0) (m : Step S A) (s : S) : Type 0 where
  pub holds : Post Q (m s)

module _ {S A : Type 0} {Q : A → S → Type 0} where
  pub Ensures-pure : (a : A) (s : S) → Q a s → Ensures Q (pure a) s
  unfolding pure
  Ensures-pure a s h = record { holds = h }

  pub Ensures-fail : (e : Error) (s : S) → Ensures Q (fail e) s
  unfolding fail
  Ensures-fail e s = record { holds = tt }

  pub Ensures-gets : (f : S → A) (s : S) → Q (f s) s → Ensures Q (gets f) s
  unfolding gets
  Ensures-gets f s h = record { holds = h }

  pub Ensures-map :
      (R : A → S → Type 0) {m : Step S A} {s : S}
      → ((a : A) (s' : S) → Q a s' → R a s')
      → Ensures Q m s
      → Ensures R m s
  Ensures-map R {m = m} {s = s} f h = record { holds = go (m s) h.holds }
    where
      go : (p : Result A × S) → Post Q p → Post R p
      go (ok a, s') k = f a s' k
      go (err e, s') k = tt

  pub Ensures-lift : (r : Result A) (s : S) → ((a : A) → r ≡ ok a → Q a s) → Ensures Q (lift r) s
  unfolding lift
  Ensures-lift (ok a) s h = record { holds = h a refl }
  Ensures-lift (err e) s h = record { holds = tt }

module _ {S A B : Type 0} {R : B → S → Type 0} where
  pub Ensures-bind :
      (Q : A → S → Type 0) {m : Step S A} {f : A → Step S B} {s : S}
      → Ensures Q m s
      → ((a : A) (s' : S) → Q a s' → Ensures R (f a) s')
      → Ensures R (m >>= f) s
  unfolding ◌>>=◌
  Ensures-bind Q {m = m} {f = f} {s = s} h k = record { holds = go (m s) h.holds }
    where
      go : (p : Result A × S) → Post Q p → Post R (continue p.0 f p.1)
      go (ok a, s') h' = (k a s' h').holds
      go (err e, s') h' = tt

  -- What follows a test may use that it passed.
  pub Ensures-guard :
      {r : Result A} {f : A → Step S B} {s : S}
      → ((a : A) → r ≡ ok a → Ensures R (f a) s)
      → Ensures R (lift r >>= f) s
  unfolding ◌>>=◌
  Ensures-guard {r = r} {f = f} {s = s} k = record { holds = go r k }
    where
      go : (t : Result A) → ((a : A) → t ≡ ok a → Ensures R (f a) s) → Post R (continue t f s)
      go (ok a) h = (h a refl).holds
      go (err e) h = tt
