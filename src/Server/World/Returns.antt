-- ===== src/Server/World/Returns.antt =====
-- What a request that returned did to the store and to the database.
use jotfs.Prelude.{◌≡◌, refl, sym, ap, ◌∙◌, List, [], ◌∷◌}
use jotfs.Errors.{Error, Result, ok, err, map_err, merge_errors, merged}
use jotfs.Step.{Step, lift, pure, ◌>>=◌}
use jotfs.Step.Returns.{bind-ok}
use jotfs.Bytes.{Bytes}
use jotfs.Db.{Tx}
use jotfs.Server.World.{Store, World, Handler, on_db, on_store, attempt, clean_up, undo, with_err}

module _ (st : Store) where
  pub with_err-ok :
      {A : Type 0} (f : Error → Error) (m : Handler st A) (w w' : World st) {a : A}
      → with_err st f m w ≡ (ok a, w')
      → m w ≡ (ok a, w')
  unfolding with_err
  with_err-ok {A} f m w w' {a} e = go (m w) e
    where
      go :
          (p : Result A × World st)
          → ◌≡◌ {A = Result A × World st} (map_err f p.0, p.1) (ok a, w')
          → p ≡ (ok a, w')
      go (ok x, t) e' = cc e'
      go (err x, t) e' = absurd (cc e')

  pub on_db-ok :
      {A : Type 0} (t : Tx A) (w w' : World st) {a : A}
      → on_db st t w ≡ (ok a, w')
      → (t w.db ≡ (ok a, w'.db)) × (w'.objects ≡ w.objects)
  unfolding on_db
  on_db-ok t w w' e = ((λ i. ((e i).0, (e i).1.db)), sym (λ i. (e i).1.objects))

  pub on_store-ok :
      {A : Type 0} (t : Step st.Objects A) (w w' : World st) {a : A}
      → on_store st t w ≡ (ok a, w')
      → (t w.objects ≡ (ok a, w'.objects)) × (w'.db ≡ w.db)
  unfolding on_store
  on_store-ok t w w' e = ((λ i. ((e i).0, (e i).1.objects)), sym (λ i. (e i).1.db))

  merge_errors-err :
      (e : Error) (d : Result (Unit {0})) → (x : Error) × (merge_errors (err e) d ≡ err x)
  unfolding merge_errors
  merge_errors-err e (ok u) = (e, refl)
  merge_errors-err e (err minor) = (merged e minor, refl)

  -- A clean-up after an error returns one.
  pub clean_up-fails :
      (e : Error) (ks : List Bytes) (w w' : World st) → clean_up st (err e) ks w ≡ (ok tt, w') → ⊥
  unfolding clean_up on_store lift
  clean_up-fails e [] w w' h = cc h
  clean_up-fails e (k ∷ ks) w w' h =
      let next : World st = (on_store st (st.delete k) w).1 in
      let (x, q) = merge_errors-err e (st.delete k w.objects).0 in
      clean_up-fails x ks next w' (ap (λ r. clean_up st r ks next) (sym q) ∙ h)

  pub undo-ok :
      (r : Result (Unit {0})) (ks : List Bytes) (w w' : World st)
      → undo st r ks w ≡ (ok tt, w')
      → (r ≡ ok tt) × (w ≡ w')
  unfolding undo pure
  undo-ok (ok u) ks w w' h = (refl, (λ i. (h i).1))
  undo-ok (err e) ks w w' h = absurd (clean_up-fails e ks w w' h)

  -- A step whose result is looked at afterwards, and whose effects are undone unless it returned
  pub attempt-ok :
      {A : Type 0} (m : Handler st A) (w t : World st) (r : Result A)
      → attempt st m w ≡ (ok r, t)
      → m w ≡ (r, t)
  unfolding attempt
  attempt-ok m w t r e = cc e

  pub attempt-undo-ok :
      (m : Handler st (Unit {0})) (f : Error → Error) (ks : List Bytes) (w w' : World st)
      → (attempt st m >>= λ r. with_err st f (undo st r ks)) w ≡ (ok tt, w')
      → m w ≡ (ok tt, w')
  attempt-undo-ok m f ks w w' e =
      let (r, t, p, q) = bind-ok (attempt st m) _ w w' e in
      let (done, same) = undo-ok r ks t w' (with_err-ok f (undo st r ks) t w' q) in
      cc (attempt-ok m w t r p, done, same)
