-- ===== src/Server/Vacuum.antt =====
-- internal/server/vacuum.go: the run of a vacuum, as a request on the database and the store. The
-- temporary file is in memory: what was filtered, whose writes and reads do not fail.
pub mod Steps
pub mod Integrity
pub mod Readable
use jotfs.Prelude.{ℕ, ◌+◌, Bool, List, [], ◌∷◌, length, ltb, ◌==◌, ◌||◌, if◌then◌else◌}
use jotfs.Errors.{Result, ok, err, panic, message, wrapped, map_err, merge_errors}
use jotfs.Step.{Step, pure, fail, lift, ◌>>=◌, ◌>>◌}
use jotfs.Bytes.{Bytes}
use jotfs.Sum.{Sum, Hash, zero_sum}
use jotfs.Table.{exists}
use jotfs.Object.PackIndex.{PackIndex, marshal_binary, unmarshal_binary}
use jotfs.Object.Packfile.{Writer}
use jotfs.Object.Packfile.Filter.{filter_packfile}
use jotfs.Db.Packs.{update_index, delete_pack_index}
use jotfs.Db.Vacuums.{ZeroRefcount, get_zero_refcount}
use jotfs.Server.World.{
  Store, Handler, on_db, on_store, and_close, get_object, attempt, undo, with_err, pack_key,
  index_key,
}
use jotfs.Server.Rebuild.{Rebuilding, is_kept, rebuild, new_index}

-- `index.UnmarshalBinary(b)` on a new index, with its error dropped
unfoldable pub or_empty : Result PackIndex → PackIndex
or_empty (ok index) = index
or_empty (err e) = record { blocks = []; sum = zero_sum; size = 0 }

-- The number of keys of the map `remove`
unfoldable pub num_keys : List ℕ → ℕ
num_keys [] = 0
num_keys (i ∷ is) = let n = num_keys is in if exists (λ j. j == i) is then n else n + 1

-- The capacity of the new blocks would be negative, or there is no first block.
unfoldable pub out_of_range : List ℕ → PackIndex → Bool
out_of_range remove index = ltb (length index.blocks) (num_keys remove) || length index.blocks == 0

-- `FilterPackfile` on what can be read of the packfile, which fails where the reader does
unfoldable pub filter_object : (ℕ → Bool) → Result Bytes → Result ℕ × Writer
filter_object f (ok packfile) = filter_packfile f packfile
filter_object f (err e) = (err e, record { written = []; bytes_written = 0 })

module _ (st : Store) where
  -- `getPackIndex`
  unfoldable pub get_pack_index : Sum → Handler st PackIndex
  get_pack_index s = do
    b ← with_err st (wrapped "getting object") (get_object st (index_key s))
    pure (or_empty (unmarshal_binary b))

  -- The new index and the new packfile are put to the store.
  unfoldable pub put_rebuilt : PackIndex → Bytes → Handler st (Unit {0})
  put_rebuilt index packfile = do
    with_err st (wrapped "saving the index to store")
        (on_store st (st.put (index_key index.sum) (marshal_binary index)))
    r ← attempt st (on_store st (st.put (pack_key index.sum) packfile))
    undo st (map_err (wrapped "saving the packfile to store") r) (index_key index.sum ∷ [])

  unfoldable pub replace_index : PackIndex → ℕ → PackIndex → (ℕ → Bool) → Handler st (Unit {0})
  replace_index new now index f = do
    r ← attempt st (on_db st (update_index new now index.sum (rebuild f index.blocks).m))
    undo st (map_err (wrapped "db UpdateIndex") r) (index_key new.sum ∷ pack_key new.sum ∷ [])

  -- What follows the filtering of the packfile
  unfoldable pub save_rebuilt :
      Hash → ℕ → List ℕ → PackIndex → Result ℕ → Bytes → Handler st (Unit {0})
  save_rebuilt h now remove index filtered packfile = do
    size ← lift filtered
    lift (if out_of_range remove index then err panic else ok tt)
    put_rebuilt (new_index h (is_kept remove) index packfile size) packfile
    replace_index (new_index h (is_kept remove) index packfile size) now index (is_kept remove)

  -- `rebuildPackfile` at the time `now`
  unfoldable pub rebuild_packfile : Hash → ℕ → ZeroRefcount → PackIndex → Handler st (Unit {0})
  rebuild_packfile h now zr index = do
    r ← with_err st (wrapped "store get") (on_store st (st.get (pack_key index.sum)))
    save_rebuilt h now zr.sequences index
        (and_close
          (map_err (wrapped "filtering packfile")
            (filter_object (is_kept zr.sequences) r.contents).0)
          r.closed)
        (filter_object (is_kept zr.sequences) r.contents).1.written

  -- The old index and packfile are deleted, each whether the other was or not. The errors of that wrap
  -- `err`, which is nil there.
  unfoldable pub delete_old : PackIndex → Handler st (Unit {0})
  delete_old index = do
    e1 ← attempt st (on_store st (st.delete (index_key index.sum)))
    e2 ← attempt st (on_store st (st.delete (pack_key index.sum)))
    lift (
        merge_errors (map_err (λ e. message "deleting the index") e1)
          (map_err (λ e. message "deleting the packfile") e2))

  -- One round of `runVacuum`
  unfoldable pub vacuum_pack : Hash → ℕ → ZeroRefcount → Handler st (Unit {0})
  vacuum_pack h now zr = do
    index ← get_pack_index zr.pack_id
    if length index.blocks == length zr.sequences
        then pure tt
        else with_err st (wrapped "rebuilding pack index") (rebuild_packfile h now zr index)
    delete_old index
    r ← attempt st (on_db st (delete_pack_index index.sum))
    pure tt

  -- The loop of `runVacuum`; `times i` is the time in round `i`.
  unfoldable pub vacuum_packs : Hash → (ℕ → ℕ) → ℕ → List ZeroRefcount → Handler st (Unit {0})
  vacuum_packs h times i [] = pure tt
  vacuum_packs h times i (zr ∷ zrs) = do
    vacuum_pack h (times i) zr
    vacuum_packs h times (i + 1) zrs

  -- The packfiles that `GetZeroRefcount` picks out
  unfoldable pub pick_out : ℕ → Handler st (List ZeroRefcount)
  pick_out before w =
      let (zrs, db) = get_zero_refcount before w.db in (ok zrs, record w { db = db })

  -- `runVacuum`
  unfoldable pub run_vacuum : Hash → (ℕ → ℕ) → ℕ → Handler st (Unit {0})
  run_vacuum h times before = do zrs ← pick_out before; vacuum_packs h times 0 zrs
