-- ===== src/Errors.antt =====
-- Go's error values, and functions that return a value or an error.
use jotfs.Prelude.{◌≡◌, refl, ◌⊎◌, inl, inr}
use jotfs.Prelude.{ℕ, String, Bool, true, false}

-- `message` is `errors.New` or `fmt.Errorf` with no wrapped error (its numbers left out),
-- `wrapped` is `fmt.Errorf` with `%w`, `formatted` is `fmt.Errorf` with `%v`.
-- `merged` is what `mergeErrors` makes of two errors, and those from
-- `required_argument` to `invalid_argument` are twirp's. `http` is a response with a status code.
-- `panic` ends the process: an index or a capacity is out of range.
-- `out_of_fuel` is no Go value: a loop of the model ran out of rounds, which theorems exclude.
pub data Error : Type 0 where
  eof unexpected_eof : Error
  db_not_found store_not_found no_rows : Error
  constraint : Error
  high_bit : Error
  out_of_fuel panic : Error
  message : String → Error
  wrapped formatted : String → Error → Error
  merged : Error → Error → Error
  required_argument failed_precondition not_found unavailable : String → Error
  invalid_argument : String → Error → Error
  http : ℕ → Error → Error

pub data Result {ℓ} (A : Type ℓ) : Type ℓ where
  ok : A → Result A
  err : Error → Result A

pub Result-cases {ℓ} :
    {A : Type ℓ} (r : Result A) → ((a : A) × (r ≡ ok a)) ⊎ ((e : Error) × (r ≡ err e))
Result-cases (ok a) = inl (a, refl)
Result-cases (err e) = inr (e, refl)

infixl 5 ◌>>=◌
abbrev pub ◌>>=◌ {ℓ κ} : {A : Type ℓ} {B : Type κ} → Result A → (A → Result B) → Result B
ok a >>= f = f a
err e >>= f = err e

abbrev pub map_err {ℓ} : {A : Type ℓ} → (Error → Error) → Result A → Result A
map_err f (ok a) = ok a
map_err f (err e) = err (f e)

infixl 5 ◌>>◌
abbrev pub ◌>>◌ {κ} : {A : Type κ} → Result (Unit {0}) → Result A → Result A
ok u >> r = r
err e >> r = err e

-- `errors.Is(err, db.ErrNotFound)`
unfoldable pub is_db_not_found : Error → Bool
is_db_not_found db_not_found = true
is_db_not_found (wrapped s e) = is_db_not_found e
is_db_not_found (merged e minor) = is_db_not_found e
is_db_not_found (message s) = false
is_db_not_found _ = false

-- `mergeErrors` of internal/server/server.go and internal/store/store.go
unfoldable pub merge_errors : Result (Unit {0}) → Result (Unit {0}) → Result (Unit {0})
merge_errors (ok u) minor = minor
merge_errors (err e) (ok u) = err e
merge_errors (err e) (err minor) = err (merged e minor)

-- The parts of a result that is ok are ok.
pub result_bind-ok :
    {A B : Type 0} (r : Result A) (f : A → Result B) {b : B}
    → (r >>= f) ≡ ok b
    → (a : A) × (r ≡ ok a) × (f a ≡ ok b)
result_bind-ok (ok a) f e = (a, refl, e)
result_bind-ok (err x) f e = absurd (cc e)

pub map_err-ok :
    {A : Type 0} (f : Error → Error) (r : Result A) (a : A) → map_err f r ≡ ok a → r ≡ ok a
map_err-ok f (ok x) a e = e
map_err-ok f (err x) a e = absurd (cc e)
