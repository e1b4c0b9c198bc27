-- ===== src/Server/Vacuum/Integrity.antt =====
-- The consistency of the database over the run of a vacuum.
use jotfs.Prelude.{ℕ}
use jotfs.Sum.{Hash}
use jotfs.Db.Integrity.{IsConsistent}
use jotfs.Db.Integrity.Packs.{update_index-IsConsistent, delete_pack_index-IsConsistent}
use jotfs.Db.Integrity.Marks.{get_zero_refcount-IsConsistent}
use jotfs.Server.World.{Store, World}
use jotfs.Server.Vacuum.{run_vacuum}
use jotfs.Server.Vacuum.Steps.{KeptByVacuum, run_vacuum-Keeps}

abbrev vacuum-IsConsistent : KeptByVacuum IsConsistent
vacuum-IsConsistent = record {
  pick = get_zero_refcount-IsConsistent;
  move = update_index-IsConsistent;
  remove = delete_pack_index-IsConsistent;
}

-- A vacuum leaves a consistent database consistent, wherever it stops and whatever the store's
-- operations do: no reference is without its row, and the counts are right.
pub run_vacuum-IsConsistent :
    (st : Store) (h : Hash) (times : ℕ → ℕ) (before : ℕ) (w : World st)
    → IsConsistent w.db
    → IsConsistent (run_vacuum st h times before w).1.db
run_vacuum-IsConsistent st h times before w c =
    run_vacuum-Keeps st IsConsistent vacuum-IsConsistent h times before w c
