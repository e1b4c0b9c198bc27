-- ===== src/Server/Vacuum/Readable.antt =====
-- `GetFile` before and after a vacuum.
use jotfs.Prelude.{ℕ, ◌≡◌}
use jotfs.Sum.{Sum, Hash}
use jotfs.Db.{Db}
use jotfs.Db.Contents.{get_file}
use jotfs.Db.Contents.Views.{SameFiles, SameFiles-refl, get_file-SameFiles}
use jotfs.Db.Contents.Kept.{
  update_index-SameFiles, delete_pack_index-SameFiles, get_zero_refcount-SameFiles,
}
use jotfs.Server.World.{Store, World}
use jotfs.Server.Vacuum.{run_vacuum}
use jotfs.Server.Vacuum.Steps.{KeptByVacuum, run_vacuum-Keeps}

abbrev vacuum-SameFiles : (db : Db) → KeptByVacuum (SameFiles db)
vacuum-SameFiles db = record {
  pick = get_zero_refcount-SameFiles db;
  move = update_index-SameFiles db;
  remove = delete_pack_index-SameFiles db;
}

-- A vacuum does not change what `GetFile` returns for any checksum, an error included, wherever the
-- vacuum stops and whatever the store's operations do.
pub get_file-run_vacuum :
    (st : Store) (h : Hash) (times : ℕ → ℕ) (before : ℕ) (w : World st) (s : Sum)
    → get_file s (run_vacuum st h times before w).1.db ≡ get_file s w.db
get_file-run_vacuum st h times before w s = get_file-SameFiles s w.db _ (
    run_vacuum-Keeps st (SameFiles w.db) (vacuum-SameFiles w.db) h times before w
      (SameFiles-refl w.db))
