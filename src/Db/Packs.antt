-- ===== src/Db/Packs.antt =====
-- adapter.go: packfiles and their blocks.
use jotfs.Prelude.{
  ℕ, Bool, ◌&&◌, Option, none, some, List, [], ◌∷◌, ◌++◌, length, ltb, ◌==◌, if◌then◌else◌,
}
use jotfs.Errors.{Error, ok, err, no_rows, constraint, message, wrapped, map_err}
use jotfs.Step.{◌>>=◌, ◌>>◌, pure, fail, lift}
use jotfs.Sum.{Sum, sum_eq}
use jotfs.Compress.{as_uint8}
use jotfs.Object.PackIndex.{BlockInfo, PackIndex}
use jotfs.Table.{first, exists, update_rows, delete_rows, next_id}
use jotfs.Db.{Db, IndexRow, ContentRow, Tx, update, check, uint64_arg, is_positive}

-- An error of a statement, wrapped by the transaction
unfoldable pub with_error : {A : Type 0} → (Error → Error) → Tx A → Tx A
with_error f m db = let (r, db') = m db in (map_err f r, db')

unfoldable pub add_pack : PackIndex → ℕ → Tx ℕ
add_pack index created_at db =
    let id = next_id (λ p. p.id) db.packs in
    (
      ok id,
      record db {
        packs =
            db.packs
            ++ (record {
              id = id;
              sum = index.sum;
              num_chunks = length index.blocks;
              size = index.size;
              created_at = created_at;
            }
                ∷ []);
      },
    )

-- `insertPackfile`
unfoldable pub insert_packfile : PackIndex → ℕ → Tx ℕ
insert_packfile index created_at = do
  lift (uint64_arg index.size)
  lift (
      check (
        length index.sum == 32
        && ltb 0 (length index.blocks)
        && ltb 0 index.size
        && is_positive created_at))
  add_pack index created_at

unfoldable pub add_block : ℕ → BlockInfo → Tx (Unit {0})
add_block pack_id b db = (
  ok tt,
  record db {
    indexes =
        db.indexes
        ++ (record {
          id = next_id (λ i. i.id) db.indexes;
          pack = pack_id;
          sequence = b.sequence;
          sum = b.sum;
          chunk_size = b.chunk_size;
          mode = as_uint8 b.mode;
          offset = b.offset;
          size = b.size;
          refcount = 0;
          delete_marker = 0;
        }
            ∷ []);
  },
)

unfoldable pub check_block_row : BlockInfo → Bool
check_block_row b = length b.sum == 32 && ltb 0 b.chunk_size && ltb 0 b.size

unfoldable pub insert_block : ℕ → BlockInfo → Tx (Unit {0})
insert_block pack_id b = do
  lift (uint64_arg b.sequence)
  lift (uint64_arg b.chunk_size)
  lift (uint64_arg b.offset)
  lift (uint64_arg b.size)
  lift (check (check_block_row b))
  add_block pack_id b

-- `insertPackBlocks`
unfoldable pub insert_pack_blocks : ℕ → List BlockInfo → Tx (Unit {0})
insert_pack_blocks pack_id [] = pure tt
insert_pack_blocks pack_id (b ∷ bs) = do insert_block pack_id b; insert_pack_blocks pack_id bs

unfoldable pub insert_pack_tx : PackIndex → ℕ → Tx (Unit {0})
insert_pack_tx index created_at = do
  pack_id ← with_error (wrapped "inserting packfile") (insert_packfile index created_at)
  with_error (wrapped "insert pack blocks") (insert_pack_blocks pack_id index.blocks)

-- `InsertPackIndex`
unfoldable pub insert_pack_index : PackIndex → ℕ → Tx (Unit {0})
insert_pack_index index created_at db =
    if length index.blocks == 0
    then (err (message "pack index is empty"), db)
    else update (insert_pack_tx index created_at) db

unfoldable pub find_pack : Sum → Tx ℕ
find_pack s db = elim (first (λ p. sum_eq p.sum s) db.packs) [
  | none ↦ (err no_rows, db)
  | some p ↦ (ok p.id, db)
]

unfoldable pub or_no_mapping : Option ℕ → Tx ℕ
or_no_mapping none = fail (message "no sequence mapping for block")
or_no_mapping (some seq) = pure seq

-- UPDATE indexes SET pack = ?, sequence = ?, offset = ? WHERE pack = ? AND sequence = ?
unfoldable pub set_block : ℕ → ℕ → ℕ → ℕ → ℕ → Tx (Unit {0})
set_block new_pack seq offset old_pack old_seq db = (
  ok tt,
  record db {
    indexes =
        update_rows (λ i. i.pack == old_pack && i.sequence == old_seq)
          (λ i. record i { pack = new_pack; sequence = seq; offset = offset }) db.indexes;
  },
)

-- One statement of `UpdateIndex`, with the sequence of the block in the old index
unfoldable pub move_block : ℕ → ℕ → (ℕ → Option ℕ) → BlockInfo → Tx (Unit {0})
move_block new_pack old_pack m b = do
  old_seq ← or_no_mapping (m b.sequence)
  lift (uint64_arg b.sequence)
  lift (uint64_arg b.offset)
  lift (uint64_arg old_seq)
  set_block new_pack b.sequence b.offset old_pack old_seq

unfoldable pub move_blocks : ℕ → ℕ → (ℕ → Option ℕ) → List BlockInfo → Tx (Unit {0})
move_blocks new_pack old_pack m [] = pure tt
move_blocks new_pack old_pack m (b ∷ bs) = do
  move_block new_pack old_pack m b
  move_blocks new_pack old_pack m bs

unfoldable pub update_index_tx : PackIndex → ℕ → Sum → (ℕ → Option ℕ) → Tx (Unit {0})
update_index_tx new_index created_at old_sum m = do
  new_pack ← with_error (wrapped "insertPackfile") (insert_packfile new_index created_at)
  old_pack ← with_error (wrapped "getting old pack row ID") (find_pack old_sum)
  move_blocks new_pack old_pack m new_index.blocks

-- `UpdateIndex`; the map `m` is a function that is `none` outside its keys.
unfoldable pub update_index : PackIndex → ℕ → Sum → (ℕ → Option ℕ) → Tx (Unit {0})
update_index new_index created_at old_sum m =
    update (update_index_tx new_index created_at old_sum m)

-- The blocks of the packfiles with a checksum, which ON DELETE CASCADE deletes with them
unfoldable pub is_cascaded : Db → Sum → IndexRow → Bool
is_cascaded db s i = exists (λ p. sum_eq p.sum s && p.id == i.pack) db.packs

-- A chunk of a file that stands in such a block
unfoldable pub is_orphaned : Db → Sum → ContentRow → Bool
is_orphaned db s c = exists (λ i. is_cascaded db s i && i.id == c.idx) db.indexes

-- DELETE FROM packs WHERE sum = ?, refused by the foreign key of `file_contents`
unfoldable pub delete_packs : Sum → Tx (Unit {0})
delete_packs s db = if exists (is_orphaned db s) db.file_contents then (err constraint, db) else (
  ok tt,
  record db {
    packs = delete_rows (λ p. sum_eq p.sum s) db.packs;
    indexes = delete_rows (is_cascaded db s) db.indexes;
  },
)

-- `DeletePackIndex`
unfoldable pub delete_pack_index : Sum → Tx (Unit {0})
delete_pack_index s = update (delete_packs s)
