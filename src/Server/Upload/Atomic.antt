-- ===== src/Server/Upload/Atomic.antt =====
-- The database after a packfile upload that is refused.
use jotfs.Prelude.{ℕ, ◌≡◌, refl, Bool}
use jotfs.Errors.{Error, Result, ok, err}
use jotfs.Bytes.{Bytes}
use jotfs.Sum.{Sum, Hash}
use jotfs.Compress.{Zstd}
use jotfs.Object.PackIndex.{PackIndex}
use jotfs.Db.{Db}
use jotfs.Db.Packs.{insert_pack_tx, insert_pack_index}
use jotfs.Prelude.{length, ◌==◌, Bool-cases, inl, inr}
use jotfs.Server.World.{Store, Config, World, undo}
use jotfs.Server.Upload.{
  Upload, cancel_put, finish_put, put_index, insert_index, save_packfile, upload,
}
use jotfs.Server.World.Effects.{
  update-rollback, Reads, Atomic, Reads-lift, Reads-fail, Reads-on_store, Reads-attempt, Reads-bind,
  Reads-with_err, undo-Reads, Atomic-of_Reads, Atomic-bind, Atomic-attempt, Succeeds-pure,
  Succeeds-with_err,
}

-- A refused index is not inserted.
insert_pack_index-rollback :
    (index : PackIndex) (t : ℕ) (db : Db) (e : Error)
    → (insert_pack_index index t db).0 ≡ err e
    → (insert_pack_index index t db).1 ≡ db
unfolding insert_pack_index
insert_pack_index-rollback index t db e h = elim (Bool-cases (length index.blocks == 0)) [
  | inl b ↦ rw b refl
  | inr b ↦ rw b (update-rollback (insert_pack_tx index t) db e (rw b at h))
]

module _ (st : Store) where
  insert_index-Atomic :
      (now : ℕ) (sum : Sum) (index : PackIndex) → Atomic (insert_index st now sum index)
  unfolding insert_index undo
  insert_index-Atomic now sum index =
      Atomic-attempt _ _ (insert_pack_index-rollback index now)
        (λ e. Reads-with_err _ (undo-Reads (err e) _)) (λ u. Succeeds-with_err _ (Succeeds-pure tt))

  put_index-Reads : (sum : Sum) (index : PackIndex) → Reads (put_index st sum index)
  unfolding put_index
  put_index-Reads sum index =
      Reads-bind (Reads-attempt (Reads-on_store _)) (λ r. Reads-with_err _ (undo-Reads r _))

  save_packfile-Atomic :
      (early : Bool) (now : ℕ) (sum : Sum) (packfile : Bytes) (r : Result PackIndex)
      → Atomic (save_packfile st early now sum packfile r)
  unfolding save_packfile finish_put cancel_put
  save_packfile-Atomic early now sum packfile (err e) =
      Atomic-bind (record { holds = λ w. refl }) (λ u. Atomic-of_Reads (Reads-fail e))
  save_packfile-Atomic early now sum packfile (ok index) =
      Atomic-bind (Reads-with_err _ (Reads-on_store _))
        (λ u. Atomic-bind (put_index-Reads sum index) (λ v. insert_index-Atomic now sum index))

  -- Where a packfile upload is answered by an error, whichever check or step failed, the database is as
  -- it was.
  pub upload-unchanged :
      (cfg : Config) (z : Zstd) (h : Hash) (early : Bool) (now : ℕ) (req : Upload) (w : World st)
      (e : Error)
      → (upload st cfg z h early now req w).0 ≡ err e
      → (upload st cfg z h early now req w).1.db ≡ w.db
  unfolding upload
  upload-unchanged cfg z h early now req w e failed =
      (Atomic-bind (Reads-lift _) (λ sum. save_packfile-Atomic early now sum _ _)).holds w e failed
