-- ===== src/Server/Files/Integrity.antt =====
-- The consistency of the database over the steps of CreateFile.
use jotfs.Prelude.{ℕ, Option, none, some, List, length, ◌==◌, not, ◌&&◌}
use jotfs.Errors.{Error, Result, ok, err}
use jotfs.Step.Keeps.{Keeps, Keeps-pure, Keeps-lift, Keeps-if, Keeps-bind}
use jotfs.Bytes.{Bytes}
use jotfs.Sum.{Sum, Hash}
use jotfs.Object.File.{File}
use jotfs.Db.Files.{insert_file, delete_file}
use jotfs.Db.Queries.{FileInfo}
use jotfs.Db.Integrity.{IsConsistent}
use jotfs.Db.Integrity.Files.{insert_file-IsConsistent}
use jotfs.Db.Integrity.Deletes.{delete_file-IsConsistent}
use jotfs.Server.World.{Store, Config, World}
use jotfs.Server.World.Keeps.{
  On, Keeps-query, Keeps-on_store, Keeps-on_db, Keeps-attempt, Keeps-with_err, clean_up-Keeps,
}
use jotfs.Server.Files.{undo_put, save_file, delete, delete_prev, create_named, create_file}

module _ (st : Store) where
  undo_put-Keeps :
      (f : Error → Error) (sum : Sum) (r : Result (Unit {0}))
      → Keeps (On IsConsistent) (undo_put st f sum r)
  unfolding undo_put
  undo_put-Keeps f sum (ok u) = record { holds = λ w c. c }
  undo_put-Keeps f sum (err e) = Keeps-with_err f (clean_up-Keeps (err e) _)

  save_file-Keeps :
      (h : Hash) (f : Error → Error) (file : File) → Keeps (On IsConsistent) (save_file st h f file)
  unfolding save_file
  save_file-Keeps h f file = Keeps-bind (Keeps-on_store _) (λ u.
      Keeps-bind
        (Keeps-attempt (Keeps-on_db (insert_file file _) (insert_file-IsConsistent file _)))
        (λ r. Keeps-bind (undo_put-Keeps f _ r) (λ v. Keeps-pure (On IsConsistent) _)))

  delete-Keeps : (id : Option Bytes) → Keeps (On IsConsistent) (delete st id)
  unfolding delete
  delete-Keeps id = Keeps-bind (Keeps-lift (On IsConsistent) _) (λ sum.
      Keeps-bind (Keeps-query _) (λ info.
        Keeps-bind (Keeps-with_err _ (Keeps-on_store _))
          (λ u. Keeps-with_err _ (Keeps-on_db (delete_file sum) (delete_file-IsConsistent sum)))))

  delete_prev-Keeps :
      (cfg : Config) (prev : Option FileInfo) → Keeps (On IsConsistent) (delete_prev st cfg prev)
  unfolding delete_prev
  delete_prev-Keeps cfg none = Keeps-pure (On IsConsistent) tt
  delete_prev-Keeps cfg (some info) =
      Keeps-if (On IsConsistent) (not info.versioned && not cfg.versioning_enabled)
        (Keeps-bind (Keeps-attempt (delete-Keeps (some info.sum)))
          (λ r. Keeps-pure (On IsConsistent) tt))
        (Keeps-pure (On IsConsistent) tt)

  create_file-Keeps :
      (cfg : Config) (h : Hash) (now : ℕ) (name : Bytes) (sums : List Bytes)
      → Keeps (On IsConsistent) (create_file st cfg h now name sums)
  unfolding create_file create_named
  create_file-Keeps cfg h now name sums =
      Keeps-if (On IsConsistent) (length name == 0) (Keeps-lift (On IsConsistent) _) (
        Keeps-bind (Keeps-lift (On IsConsistent) _) (λ u. Keeps-bind (Keeps-query _) (λ prev.
          Keeps-bind (Keeps-query _) (λ chunks. Keeps-bind (save_file-Keeps h _ _) (λ sum.
            Keeps-bind (delete_prev-Keeps cfg prev) (λ v. Keeps-pure (On IsConsistent) sum))))))

  -- `CreateFile` leaves a consistent database consistent, whatever the store's operations do, whether it
  -- returns an error or not, and also where it deletes the previous version.
  pub create_file-IsConsistent :
      (cfg : Config) (h : Hash) (now : ℕ) (name : Bytes) (sums : List Bytes) (w : World st)
      → IsConsistent w.db
      → IsConsistent (create_file st cfg h now name sums w).1.db
  create_file-IsConsistent cfg h now name sums w c =
      ((create_file-Keeps cfg h now name sums).holds w (record { holds = c })).holds
