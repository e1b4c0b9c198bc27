-- ===== src/Db/Files.antt =====
-- adapter.go: files and their versions.
use jotfs.Prelude.{
  ℕ, ◌+◌, ◌-◌, Bool, false, not, ◌&&◌, Option, none, some, List, [], ◌∷◌, ◌++◌, length, ◌==◌,
  if◌then◌else◌,
}
use jotfs.Errors.{ok, err, db_not_found, constraint, message, wrapped}
use jotfs.Step.{◌>>=◌, ◌>>◌, pure, lift, gets}
use jotfs.Bytes.{Bytes}
use jotfs.Sum.{Sum, sum_eq}
use jotfs.Object.File.{Chunk, File, file_size, version_tag}
use jotfs.Table.{rows, first, exists, count, update_rows, delete_rows, next_id}
use jotfs.Db.{Db, IndexRow, VersionRow, ContentRow, Tx, update, check, uint64_arg, is_positive}
use jotfs.Db.Packs.{with_error}

-- CHECK (length(name) > 0), where a text ends at its first NUL
unfoldable pub has_length : Bytes → Bool
has_length [] = false
has_length (c ∷ cs) = not (c == 0)

-- `=` on two texts
unfoldable pub name_eq : Bytes → Bytes → Bool
name_eq a b = sum_eq a b

unfoldable pub add_file : Bytes → Tx ℕ
add_file name db =
    let id = next_id (λ f. f.id) db.files in
    (ok id, record db { files = db.files ++ (record { id = id; name = name } ∷ []) })

unfoldable pub insert_name : Bytes → Tx ℕ
insert_name name = do lift (check (has_length name)); add_file name

-- `insertFileIfNotExists`
unfoldable pub insert_file_if_not_exists : Bytes → Tx ℕ
insert_file_if_not_exists name db = elim (first (λ f. name_eq f.name name) db.files) [
  | none ↦ insert_name name db
  | some f ↦ (ok f.id, db)
]

unfoldable pub add_version : ℕ → File → Sum → Tx ℕ
add_version file_id f s db =
    let id = next_id (λ v. v.id) db.file_versions in
    (
      ok id,
      record db {
        file_versions =
            db.file_versions
            ++ (record {
              id = id;
              file = file_id;
              created_at = f.created_at;
              size = file_size f;
              num_chunks = length f.chunks;
              sum = s;
              versioned = version_tag f.versioned;
            }
                ∷ []);
      },
    )

-- The unique index `file_versions_sum_index`
unfoldable pub is_taken : Sum → Db → Bool
is_taken s db = exists (λ v. sum_eq v.sum s) db.file_versions

-- `insertFileVersion`
unfoldable pub insert_file_version : ℕ → File → Sum → Tx ℕ
insert_file_version file_id f s = do
  lift (uint64_arg (file_size f))
  taken ← gets (is_taken s)
  lift (check (is_positive f.created_at && length s == 32 && not taken))
  add_version file_id f s

-- `getPackIndexID`: the first of the chunk's blocks, by row id.
unfoldable pub get_pack_index_id : Sum → Db → Option IndexRow
get_pack_index_id s db = first (λ i. sum_eq i.sum s) db.indexes

unfoldable pub find_chunk : Sum → Tx ℕ
find_chunk s db = elim (get_pack_index_id s db) [
  | none ↦ (err (message "no pack index for chunk"), db)
  | some i ↦ (ok i.id, db)
]

-- The row of `file_contents`, and the reference count of its block
unfoldable pub refer : ℕ → ℕ → ℕ → Tx (Unit {0})
refer ver_id idx_id seq db = (
  ok tt,
  record db {
    file_contents =
        db.file_contents ++ (record { file_version = ver_id; idx = idx_id; sequence = seq } ∷ []);
    indexes =
        update_rows (λ i. i.id == idx_id) (λ i. record i { refcount = i.refcount + 1 }) db.indexes;
  },
)

unfoldable pub insert_chunk : ℕ → Chunk → Tx (Unit {0})
insert_chunk ver_id c = do
  idx_id ← find_chunk c.sum
  lift (uint64_arg c.sequence)
  refer ver_id idx_id c.sequence

-- `insertFileChunks`
unfoldable pub insert_file_chunks : ℕ → List Chunk → Tx (Unit {0})
insert_file_chunks ver_id [] = pure tt
insert_file_chunks ver_id (c ∷ cs) = do insert_chunk ver_id c; insert_file_chunks ver_id cs

unfoldable pub insert_file_tx : File → Sum → Tx (Unit {0})
insert_file_tx f s = do
  file_id ← with_error (wrapped "inserting file") (insert_file_if_not_exists f.name)
  ver_id ← with_error (wrapped "inserting file version") (insert_file_version file_id f s)
  with_error (wrapped "inserting file chunks") (insert_file_chunks ver_id f.chunks)

-- `InsertFile`
unfoldable pub insert_file : File → Sum → Tx (Unit {0})
insert_file f s = update (insert_file_tx f s)

-- CHECK (refcount >= 0), which the statement below would break at a count of 0
unfoldable pub can_decrement : ℕ → IndexRow → Bool
can_decrement idx_id i = not (i.id == idx_id && i.refcount == 0)

-- UPDATE indexes SET refcount = refcount - 1 WHERE id = ?
unfoldable pub decrement : ℕ → Tx (Unit {0})
decrement idx_id db =
    if exists (λ i. not (can_decrement idx_id i)) db.indexes then (err constraint, db) else (
      ok tt,
      record db {
        indexes =
            update_rows (λ i. i.id == idx_id) (λ i. record i { refcount = i.refcount - 1 })
              db.indexes;
      },
    )

unfoldable pub decrement_all : List ContentRow → Tx (Unit {0})
decrement_all [] = pure tt
decrement_all (c ∷ cs) = do decrement c.idx; decrement_all cs

-- The rows of a version and of its chunks, and the name of the file with its last version
unfoldable pub delete_version : VersionRow → Tx (Unit {0})
delete_version v db =
    let versions = delete_rows (λ w. w.id == v.id) db.file_versions in
    (
      ok tt,
      record db {
        file_contents = delete_rows (λ c. c.file_version == v.id) db.file_contents;
        file_versions = versions;
        files =
            if count (λ w. w.file == v.file) versions == 0
            then delete_rows (λ f. f.id == v.file) db.files
            else db.files;
      },
    )

unfoldable pub delete_found : Option VersionRow → Tx (Unit {0})
delete_found none db = (err db_not_found, db)
delete_found (some v) db =
    (decrement_all (rows (λ c. c.file_version == v.id) db.file_contents) >> delete_version v) db

-- `DeleteFile`
unfoldable pub delete_file : Sum → Tx (Unit {0})
delete_file s = update (λ db. delete_found (first (λ v. sum_eq v.sum s) db.file_versions) db)
