-- ===== src/Server/Files/Atomic.antt =====
-- The database after a `CreateFile`, `Copy` or `Delete` that returns an error.
use jotfs.Prelude.{ℕ, ◌≡◌, refl, Option, none, some, List, length, ◌==◌, not, ◌&&◌}
use jotfs.Errors.{Error, Result, ok, err}
use jotfs.Step.{pure, ◌>>=◌}
use jotfs.Bytes.{Bytes}
use jotfs.Sum.{Sum, Hash}
use jotfs.Object.File.{File}
use jotfs.Db.Files.{insert_file, insert_file_tx, delete_file}
use jotfs.Db.Queries.{FileInfo}
use jotfs.Server.World.{Store, Config, World, on_db, attempt}
use jotfs.Server.Files.{
  undo_put, save_file, delete, delete_prev, create_named, create_file, copy_named, copy,
}
use jotfs.Server.World.Effects.{
  update-rollback, Atomic-attempt, Reads-bind, Reads, Atomic, Succeeds, Reads-lift, Reads-query,
  Reads-on_store, Reads-with_err, clean_up-Reads, Reads-pure, Atomic-of_Reads, Atomic-if,
  Atomic-bind, Atomic-then, Atomic-on_db, Atomic-with_err, Succeeds-if, Succeeds-pure,
  Succeeds-attempt, Succeeds-bind,
}

module _ (st : Store) where
  undo_put-Reads :
      (f : Error → Error) (sum : Sum) (r : Result (Unit {0})) → Reads (undo_put st f sum r)
  unfolding undo_put
  undo_put-Reads f sum (ok u) = record { holds = λ w. refl }
  undo_put-Reads f sum (err e) = Reads-with_err f (clean_up-Reads (err e) _)

  -- Either the file is inserted, or what failed is undone.
  insert-Atomic :
      (f : Error → Error) (file : File) (sum : Sum)
      → Atomic (
          attempt st (on_db st (insert_file file sum)) >>= λ r.
          undo_put st f sum r >>= λ u. pure sum)
  unfolding undo_put insert_file
  insert-Atomic f file sum =
      Atomic-attempt _ _ (update-rollback (insert_file_tx file sum))
        (λ e. Reads-bind (undo_put-Reads f sum (err e)) (λ u. Reads-pure sum))
        (λ u. Succeeds-bind (Succeeds-pure tt) (λ v. Succeeds-pure sum))

  save_file-Atomic : (h : Hash) (f : Error → Error) (file : File) → Atomic (save_file st h f file)
  unfolding save_file
  save_file-Atomic h f file = Atomic-bind (Reads-on_store _) (λ u. insert-Atomic f file _)

  delete_prev-Succeeds :
      (cfg : Config) (prev : Option FileInfo) → Succeeds (delete_prev st cfg prev)
  unfolding delete_prev
  delete_prev-Succeeds cfg none = Succeeds-pure tt
  delete_prev-Succeeds cfg (some info) =
      Succeeds-if (not info.versioned && not cfg.versioning_enabled)
        (Succeeds-bind (Succeeds-attempt _) (λ r. Succeeds-pure tt)) (Succeeds-pure tt)

  -- Where `CreateFile` returns an error, whichever step failed, the database is as it was.
  pub create_file-unchanged :
      (cfg : Config) (h : Hash) (now : ℕ) (name : Bytes) (sums : List Bytes) (w : World st)
      (e : Error)
      → (create_file st cfg h now name sums w).0 ≡ err e
      → (create_file st cfg h now name sums w).1.db ≡ w.db
  create_file-unchanged cfg h now name sums w e failed = whole.holds w e failed
    where
      whole : Atomic (create_file st cfg h now name sums)
      whole =
          unfold create_file create_named in
          Atomic-if (length name == 0) (Atomic-of_Reads (Reads-lift _)) (
            Atomic-bind (Reads-lift _) (λ u. Atomic-bind (Reads-query _) (λ prev.
              Atomic-bind (Reads-query _) (λ chunks.
                Atomic-then (save_file-Atomic h _ _) (λ sum.
                  Succeeds-bind (delete_prev-Succeeds cfg prev) (λ v. Succeeds-pure sum))))))

  -- Where `Copy` returns an error, whichever step failed, the database is as it was.
  pub copy-unchanged :
      (h : Hash) (now : ℕ) (id : Option Bytes) (dst : Bytes) (w : World st) (e : Error)
      → (copy st h now id dst w).0 ≡ err e
      → (copy st h now id dst w).1.db ≡ w.db
  unfolding copy copy_named
  copy-unchanged h now none dst w e failed = (Atomic-of_Reads (Reads-lift _)).holds w e failed
  copy-unchanged h now (some id) dst w e failed =
      (Atomic-if (length dst == 0) (Atomic-of_Reads (Reads-lift _)) (
          Atomic-bind (Reads-lift _) (λ u.
            Atomic-bind (Reads-lift _)
              (λ src. Atomic-bind (Reads-query _) (λ f. save_file-Atomic h _ _))))).holds
        w e failed

  -- Where `Delete` returns an error, whichever step failed, the database is as it was.
  pub delete-unchanged :
      (id : Option Bytes) (w : World st) (e : Error)
      → (delete st id w).0 ≡ err e
      → (delete st id w).1.db ≡ w.db
  unfolding delete delete_file
  delete-unchanged id w e failed =
      (Atomic-bind (Reads-lift _) (λ sum. Atomic-bind (Reads-query _) (λ info.
          Atomic-bind (Reads-with_err _ (Reads-on_store _))
            (λ u. Atomic-with_err _ (Atomic-on_db _ (update-rollback _)))))).holds
        w e failed
