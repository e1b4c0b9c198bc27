-- ===== src/Server/World/Effects.antt =====
-- Requests that do not change the database, that change it only where they return no error, and that
-- never return one.
use jotfs.Prelude.{◌≡◌, ◌≢◌, refl, ◌∙◌, Bool, true, false, List, [], ◌∷◌, if◌then◌else◌}
use jotfs.Errors.{Error, Result, ok, err, map_err, merge_errors}
use jotfs.Step.{Step, pure, fail, lift, continue, ◌>>=◌}
use jotfs.Bytes.{Bytes}
use jotfs.Db.{Db, Tx, update, commit_or_rollback}
use jotfs.Server.World.{
  Store, World, Handler, on_db, query, on_store, attempt, clean_up, undo, with_err,
}

pub update-rollback :
    {A : Type 0} (t : Tx A) (db : Db) (e : Error) → (update t db).0 ≡ err e → (update t db).1 ≡ db
unfolding update
update-rollback {A} t db e h = go (t db) h
  where
    go :
        (r : Result A × Db) → (commit_or_rollback db r).0 ≡ err e → (commit_or_rollback db r).1 ≡ db
    go (ok a, db') h' = absurd (cc h')
    go (err x, db') h' = refl

module _ {st : Store} where
  pub record Reads {A : Type 0} (m : Handler st A) : Type 0 where
    pub holds : (w : World st) → (m w).1.db ≡ w.db

  pub record Atomic {A : Type 0} (m : Handler st A) : Type 0 where
    pub holds : (w : World st) (e : Error) → (m w).0 ≡ err e → (m w).1.db ≡ w.db

  pub record Succeeds {A : Type 0} (m : Handler st A) : Type 0 where
    pub never : (w : World st) (e : Error) → (m w).0 ≢ err e

  pub Reads-lift : {A : Type 0} (r : Result A) → Reads (lift r)
  unfolding lift
  Reads-lift r = record { holds = λ w. refl }

  pub Reads-query : {A : Type 0} (q : Db → Result A) → Reads (query st q)
  unfolding query
  Reads-query q = record { holds = λ w. refl }

  pub Reads-on_store : {A : Type 0} (t : Step st.Objects A) → Reads (on_store st t)
  unfolding on_store
  Reads-on_store t = record { holds = λ w. refl }

  pub Reads-with_err :
      {A : Type 0} (f : Error → Error) {m : Handler st A} → Reads m → Reads (with_err st f m)
  unfolding with_err
  Reads-with_err f k = record { holds = λ w. k.holds w }

  pub clean_up-Reads : (r : Result (Unit {0})) (ks : List Bytes) → Reads (clean_up st r ks)
  unfolding clean_up on_store
  clean_up-Reads r [] = record { holds = λ w. refl }
  clean_up-Reads r (k ∷ ks) = record {
    holds = λ w. (clean_up-Reads (merge_errors r (st.delete k w.objects).0) ks).holds _;
  }

  pub Reads-pure : {A : Type 0} (a : A) → Reads (pure a)
  unfolding pure
  Reads-pure a = record { holds = λ w. refl }

  pub Atomic-of_Reads : {A : Type 0} {m : Handler st A} → Reads m → Atomic m
  Atomic-of_Reads k = record { holds = λ w e h. k.holds w }

  pub Atomic-if :
      {A : Type 0} (b : Bool) {m k : Handler st A}
      → Atomic m
      → Atomic k
      → Atomic (if b then m else k)
  Atomic-if true m k = m
  Atomic-if false m k = k

  pub Atomic-bind :
      {A B : Type 0} {m : Handler st A} {f : A → Handler st B}
      → Reads m
      → ((a : A) → Atomic (f a))
      → Atomic (m >>= f)
  unfolding ◌>>=◌
  Atomic-bind {A} {B} {m} {f} km kf = record { holds = λ w e h. go w e (m w) (km.holds w) h }
    where
      go :
          (w : World st) (e : Error) (r : Result A × World st)
          → r.1.db ≡ w.db
          → (continue r.0 f r.1).0 ≡ err e
          → (continue r.0 f r.1).1.db ≡ w.db
      go w e (ok a, w') same h = (kf a).holds w' e h ∙ same
      go w e (err x, w') same h = same

  -- What follows never fails.
  pub Atomic-then :
      {A B : Type 0} {m : Handler st A} {f : A → Handler st B}
      → Atomic m
      → ((a : A) → Succeeds (f a))
      → Atomic (m >>= f)
  unfolding ◌>>=◌
  Atomic-then {A} {B} {m} {f} km kf = record { holds = λ w e h. go w e (m w) (km.holds w) h }
    where
      go :
          (w : World st) (e : Error) (r : Result A × World st)
          → ((x : Error) → r.0 ≡ err x → r.1.db ≡ w.db)
          → (continue r.0 f r.1).0 ≡ err e
          → (continue r.0 f r.1).1.db ≡ w.db
      go w e (ok a, w') same h = absurd ((kf a).never w' e h)
      go w e (err x, w') same h = same x refl

  -- A transaction that is rolled back where it fails, and what is done about its result
  pub Atomic-attempt :
      {A B : Type 0} (t : Tx A) (f : Result A → Handler st B)
      → ((db : Db) (e : Error) → (t db).0 ≡ err e → (t db).1 ≡ db)
      → ((e : Error) → Reads (f (err e)))
      → ((a : A) → Succeeds (f (ok a)))
      → Atomic (attempt st (on_db st t) >>= f)
  unfolding ◌>>=◌ attempt on_db
  Atomic-attempt {A} {B} t f rolled failed done = record {
    holds = λ w e h. go w e (t w.db) (rolled w.db) h;
  }
    where
      go :
          (w : World st) (e : Error) (r : Result A × Db)
          → ((x : Error) → r.0 ≡ err x → r.1 ≡ w.db)
          → (f r.0 (record w { db = r.1 })).0 ≡ err e
          → (f r.0 (record w { db = r.1 })).1.db ≡ w.db
      go w e (ok a, db') same h = absurd ((done a).never _ e h)
      go w e (err x, db') same h = (failed x).holds (record w { db = db' }) ∙ same x refl

  pub Reads-fail : {A : Type 0} (e : Error) → Reads (fail {A = A} e)
  unfolding fail
  Reads-fail e = record { holds = λ w. refl }

  pub Reads-attempt : {A : Type 0} {m : Handler st A} → Reads m → Reads (attempt st m)
  unfolding attempt
  Reads-attempt k = record { holds = λ w. k.holds w }

  pub undo-Reads : (r : Result (Unit {0})) (ks : List Bytes) → Reads (undo st r ks)
  unfolding undo
  undo-Reads (ok u) ks = Reads-pure tt
  undo-Reads (err e) ks = clean_up-Reads (err e) ks

  pub Reads-bind :
      {A B : Type 0} {m : Handler st A} {f : A → Handler st B}
      → Reads m
      → ((a : A) → Reads (f a))
      → Reads (m >>= f)
  unfolding ◌>>=◌
  Reads-bind {A} {B} {m} {f} km kf = record { holds = λ w. go w (m w) (km.holds w) }
    where
      go :
          (w : World st) (r : Result A × World st)
          → r.1.db ≡ w.db
          → (continue r.0 f r.1).1.db ≡ w.db
      go w (ok a, w') same = (kf a).holds w' ∙ same
      go w (err x, w') same = same

  pub Succeeds-with_err :
      {A : Type 0} (f : Error → Error) {m : Handler st A} → Succeeds m → Succeeds (with_err st f m)
  unfolding with_err
  Succeeds-with_err {A} f {m} k = record { never = λ w e h. go (m w) (k.never w) e h }
    where
      go :
          (r : Result A × World st)
          → ((x : Error) → r.0 ≢ err x)
          → (e : Error) → map_err f r.0 ≢ err e
      go (ok a, w') fails e h = cc h
      go (err x, w') fails e h = fails x refl

  pub Atomic-on_db :
      {A : Type 0} (t : Tx A)
      → ((db : Db) (e : Error) → (t db).0 ≡ err e → (t db).1 ≡ db)
      → Atomic (on_db st t)
  unfolding on_db
  Atomic-on_db t k = record { holds = λ w e h. k w.db e h }

  pub Atomic-with_err :
      {A : Type 0} (f : Error → Error) {m : Handler st A} → Atomic m → Atomic (with_err st f m)
  unfolding with_err
  Atomic-with_err {A} f {m} k = record { holds = λ w e h. go w e (m w) (k.holds w) h }
    where
      go :
          (w : World st) (e : Error) (r : Result A × World st)
          → ((x : Error) → r.0 ≡ err x → r.1.db ≡ w.db)
          → map_err f r.0 ≡ err e
          → r.1.db ≡ w.db
      go w e (ok a, w') same h = absurd (cc h)
      go w e (err x, w') same h = same x refl

  pub Succeeds-if :
      {A : Type 0} (b : Bool) {m k : Handler st A}
      → Succeeds m
      → Succeeds k
      → Succeeds (if b then m else k)
  Succeeds-if true m k = m
  Succeeds-if false m k = k

  pub Succeeds-pure : {A : Type 0} (a : A) → Succeeds (pure a)
  unfolding pure
  Succeeds-pure a = record { never = λ w e h. absurd (cc h) }

  pub Succeeds-attempt : {A : Type 0} (m : Handler st A) → Succeeds (attempt st m)
  unfolding attempt
  Succeeds-attempt m = record { never = λ w e h. absurd (cc h) }

  pub Succeeds-bind :
      {A B : Type 0} {m : Handler st A} {f : A → Handler st B}
      → Succeeds m
      → ((a : A) → Succeeds (f a))
      → Succeeds (m >>= f)
  unfolding ◌>>=◌
  Succeeds-bind {A} {B} {m} {f} km kf = record { never = λ w e h. go (m w) (km.never w) e h }
    where
      go :
          (r : Result A × World st)
          → ((x : Error) → r.0 ≢ err x)
          → (e : Error) → (continue r.0 f r.1).0 ≢ err e
      go (ok a, w') fails e h = (kf a).never w' e h
      go (err x, w') fails e h = fails x refl
