-- ===== src/Server/World/Keeps.antt =====
-- Requests that keep a property of the database, whatever the store does.
use jotfs.Prelude.{List, [], ◌∷◌}
use jotfs.Errors.{Error, Result, ok, err, merge_errors}
use jotfs.Step.{Step}
use jotfs.Step.Keeps.{Keeps, Keeps-pure, Keeps-lift, Keeps-bind}
use jotfs.Bytes.{Bytes}
use jotfs.Db.{Db, Tx}
use jotfs.Server.World.{
  Store, World, Handler, on_db, query, on_store, get_object, attempt, clean_up, undo, with_err,
}

-- The property of the database, as one of the world
pub record On {st : Store} (P : Db → Type 0) (w : World st) : Type 0 where
  pub holds : P w.db

module _ {st : Store} {P : Db → Type 0} where
  pub Keeps-query : {A : Type 0} (q : Db → Result A) → Keeps (On P) (query st q)
  unfolding query
  Keeps-query q = record { holds = λ w c. record { holds = c.holds } }

  pub Keeps-on_store : {A : Type 0} (t : Step st.Objects A) → Keeps (On P) (on_store st t)
  unfolding on_store
  Keeps-on_store t = record { holds = λ w c. record { holds = c.holds } }

  pub Keeps-on_db :
      {A : Type 0} (t : Tx A) → ((db : Db) → P db → P (t db).1) → Keeps (On P) (on_db st t)
  unfolding on_db
  Keeps-on_db t h = record { holds = λ w c. record { holds = h w.db c.holds } }

  pub Keeps-attempt : {A : Type 0} {m : Handler st A} → Keeps (On P) m → Keeps (On P) (attempt st m)
  unfolding attempt
  Keeps-attempt k = record { holds = λ w c. record { holds = (k.holds w c).holds } }

  pub Keeps-with_err :
      {A : Type 0} (f : Error → Error) {m : Handler st A}
      → Keeps (On P) m
      → Keeps (On P) (with_err st f m)
  unfolding with_err
  Keeps-with_err f k = record { holds = λ w c. record { holds = (k.holds w c).holds } }

  pub clean_up-Keeps : (r : Result (Unit {0})) (ks : List Bytes) → Keeps (On P) (clean_up st r ks)
  unfolding clean_up on_store
  clean_up-Keeps r [] = record { holds = λ w c. record { holds = c.holds } }
  clean_up-Keeps r (k ∷ ks) = record {
    holds = λ w c.
        (clean_up-Keeps (merge_errors r (st.delete k w.objects).0) ks).holds _
          (record { holds = c.holds });
  }

  pub undo-Keeps : (r : Result (Unit {0})) (ks : List Bytes) → Keeps (On P) (undo st r ks)
  unfolding undo
  undo-Keeps (ok u) ks = Keeps-pure (On P) tt
  undo-Keeps (err e) ks = clean_up-Keeps (err e) ks

  pub get_object-Keeps : (key : Bytes) → Keeps (On P) (get_object st key)
  unfolding get_object
  get_object-Keeps key = Keeps-bind (Keeps-on_store _) (λ r. Keeps-lift (On P) _)
