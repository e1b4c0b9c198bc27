-- ===== src/Db/Refinement/Runs.antt =====
-- Sequences of transactions and the map of files.
use jotfs.Prelude.{List, [], ◌∷◌}
use jotfs.Errors.{Result, ok, err}
use jotfs.Db.{Db}
use jotfs.Db.Files.{insert_file, delete_file}
use jotfs.Db.Packs.{insert_pack_index, update_index, delete_pack_index}
use jotfs.Db.Keys.{IsKeyed}
use jotfs.Db.Keys.Kept.{
  insert_pack_index-IsKeyed, update_index-IsKeyed, delete_pack_index-IsKeyed,
  get_zero_refcount-IsKeyed, delete_file-IsKeyed,
}
use jotfs.Db.Integrity.{IsConsistent}
use jotfs.Db.Integrity.Packs.{
  insert_pack_index-IsConsistent, update_index-IsConsistent, delete_pack_index-IsConsistent,
}
use jotfs.Db.Integrity.Files.{insert_file-IsConsistent}
use jotfs.Db.Integrity.Deletes.{delete_file-IsConsistent}
use jotfs.Db.Integrity.Marks.{get_zero_refcount-IsConsistent}
use jotfs.Db.Contents.Views.{SameFiles-refl, get_file-SameFiles}
use jotfs.Db.Contents.Kept.{
  update_index-SameFiles, delete_pack_index-SameFiles, get_zero_refcount-SameFiles,
}
use jotfs.Db.Contents.Grown.{insert_pack_index-SameFiles}
use jotfs.Db.Refinement.{
  Operation, put_file, remove_file, put_pack, move_pack, remove_pack, mark_blocks, succeeded, apply,
  run, Simulates, pack_put, pack_moved, pack_removed, marked, SimulatesAll, done, step, IsFit,
  AllFit,
}
use jotfs.Db.Refinement.Steps.{
  files_of, insert_file-Simulates, insert_file-IsKeyed, delete_file-Simulates, unseen,
}

-- A consistent database whose keys differ
record IsSound (db : Db) : Type 0 where
  consistent : IsConsistent db
  keyed : IsKeyed db

after : {A : Type 0} (p : Result A × Db) → IsConsistent p.1 → IsKeyed p.1 → IsSound (succeeded p).1
after (ok a, db) c k = record { consistent = c; keyed = k }
after (err e, db) c k = record { consistent = c; keyed = k }

apply-IsSound : (o : Operation) (db : Db) → IsSound db → IsSound (apply o db).1
unfolding apply
apply-IsSound (put_file f s) db k =
    after (insert_file f s db) (insert_file-IsConsistent f s db k.consistent)
      (insert_file-IsKeyed f s db k.keyed)
apply-IsSound (remove_file s) db k =
    after (delete_file s db) (delete_file-IsConsistent s db k.consistent)
      (delete_file-IsKeyed s db k.keyed)
apply-IsSound (put_pack index t) db k =
    after (insert_pack_index index t db) (insert_pack_index-IsConsistent index t db k.consistent)
      (insert_pack_index-IsKeyed index t db k.keyed)
apply-IsSound (move_pack index t s m) db k =
    after (update_index index t s m db) (update_index-IsConsistent index t s m db k.consistent)
      (update_index-IsKeyed index t s m db k.keyed)
apply-IsSound (remove_pack s) db k =
    after (delete_pack_index s db) (delete_pack_index-IsConsistent s db k.consistent)
      (delete_pack_index-IsKeyed s db k.keyed)
apply-IsSound (mark_blocks before) db k = record {
  consistent = get_zero_refcount-IsConsistent before db k.consistent;
  keyed = get_zero_refcount-IsKeyed before db k.keyed;
}

apply-Simulates :
    (o : Operation) (db : Db)
    → IsSound db
    → IsFit o db
    → Simulates o (files_of db) (apply o db).0 (files_of (apply o db).1)
unfolding apply
apply-Simulates (put_file f s) db k fit = insert_file-Simulates f s db k.consistent k.keyed fit
apply-Simulates (remove_file s) db k fit = delete_file-Simulates s db k.consistent k.keyed
apply-Simulates (put_pack index t) db k fit =
    pack_put index t _ _ _ (
      unseen db (insert_pack_index index t db)
        (insert_pack_index-SameFiles index t db k.consistent))
apply-Simulates (move_pack index t s m) db k fit = pack_moved index t s m _ _ _ (
    unseen db (update_index index t s m db)
      (update_index-SameFiles db index t s m db (SameFiles-refl db)))
apply-Simulates (remove_pack s) db k fit =
    pack_removed s _ _ _
      (unseen db (delete_pack_index s db) (delete_pack_index-SameFiles db s db (SameFiles-refl db)))
apply-Simulates (mark_blocks before) db k fit =
    marked before _ _ _ (λ t.
      get_file-SameFiles t db _ (get_zero_refcount-SameFiles db before db (SameFiles-refl db)))

run-IsSound :
    (os : List Operation) (db : Db)
    → IsSound db
    → AllFit os db
    → SimulatesAll os (files_of db) (run os db).0 (files_of (run os db).1)
unfolding run
run-IsSound [] db k fit = done (files_of db)
run-IsSound (o ∷ os) db k (here, fit) =
    step o os (files_of db) (files_of (apply o db).1) _ _ _ (apply-Simulates o db k here)
      (run-IsSound os (apply o db).1 (apply-IsSound o db k) fit)

-- A sequence of transactions on a consistent database whose keys differ is, for a reader of `GetFile`,
-- a sequence of steps of a map of files: `InsertFile` makes one new file appear under a checksum that
-- was free, or is refused and changes nothing; `DeleteFile` makes its file disappear, and fails only
-- where there is none; `InsertPackIndex`, `UpdateIndex`, `DeletePackIndex` and `GetZeroRefcount`
-- change nothing, whether they succeed or fail. Each file that is inserted has, when it is, its chunks
-- in order and of the sizes that the database has for their 32-byte checksums.
pub run-SimulatesAll :
    (os : List Operation) (db : Db)
    → IsConsistent db
    → IsKeyed db
    → AllFit os db
    → SimulatesAll os (files_of db) (run os db).0 (files_of (run os db).1)
run-SimulatesAll os db c k fit = run-IsSound os db (record { consistent = c; keyed = k }) fit
