-- ===== src/Db/Contents.antt =====
-- `GetFile` and `GetFileChunks` of internal/db/adapter.go.
pub mod Views
pub mod Kept
pub mod Chunks
pub mod Added
pub mod Scanned
pub mod Inserted
pub mod RoundTrip
pub mod Removed
pub mod Grown
use jotfs.Prelude.{
  ℕ, ◌+◌, ◌-◌, none, some, List, [], ◌∷◌, ◌++◌, replicate, leb, ◌==◌, if◌then◌else◌,
}
use jotfs.Errors.{Result, ok, err, db_not_found, no_rows, message, map_err, ◌>>=◌, ◌>>◌}
use jotfs.Sum.{Sum, sum_eq, from_bytes, zero_sum}
use jotfs.Compress.{from_uint8}
use jotfs.Object.PackIndex.{BlockInfo, zero_block}
use jotfs.Object.File.{Chunk, File}
use jotfs.Table.{rows, first}
use jotfs.Table.Sort.{ascending}
use jotfs.Db.{Db, PackRow, IndexRow, VersionRow, ContentRow}
use jotfs.Db.Queries.{parse_vflag}

-- `ChunkIndex`: a chunk of the file, and where its block stands
pub record ChunkIndex : Type 0 where
  pub sequence : ℕ
  pub pack_sum : Sum
  pub block : BlockInfo

abbrev pub zero_chunk_index : ChunkIndex
zero_chunk_index = record { sequence = 0; pack_sum = zero_sum; block = zero_block }

-- file_contents JOIN indexes: the chunks with their blocks
unfoldable pub with_index : ContentRow → List IndexRow → List (ContentRow × IndexRow)
with_index c [] = []
with_index c (i ∷ is) = let rest = with_index c is in if i.id == c.idx then (c, i) ∷ rest else rest

unfoldable pub join_indexes : List ContentRow → List IndexRow → List (ContentRow × IndexRow)
join_indexes [] is = []
join_indexes (c ∷ cs) is = with_index c is ++ join_indexes cs is

-- The chunks of a version in the order of their sequence
unfoldable pub version_chunks : ℕ → Db → List (ContentRow × IndexRow)
version_chunks ver_id db =
    ascending (λ r. r.0.sequence)
      (join_indexes (rows (λ c. c.file_version == ver_id) db.file_contents) db.indexes)

unfoldable pub scan_chunks : List (ContentRow × IndexRow) → Result (List Chunk)
scan_chunks [] = ok []
scan_chunks ((c, i) ∷ rs) = do
  s ← from_bytes i.sum
  chunks ← scan_chunks rs
  ok (record { sequence = c.sequence; size = i.chunk_size; sum = s } ∷ chunks)

unfoldable pub file_name : ℕ → Db → Result (List ℕ)
file_name file_id db = elim (first (λ f. f.id == file_id) db.files) [
  | none ↦ err no_rows
  | some f ↦ ok f.name
]

unfoldable pub read_file : VersionRow → Db → Result File
read_file v db = do
  versioned ← map_err (λ e. message "invalid version flag") (parse_vflag v.versioned)
  name ← file_name v.file db
  chunks ← scan_chunks (version_chunks v.id db)
  ok (record { name = name; created_at = v.created_at; chunks = chunks; versioned = versioned })

-- `GetFile`
unfoldable pub get_file : Sum → Db → Result File
get_file s db = elim (first (λ v. sum_eq v.sum s) db.file_versions) [
  | none ↦ err db_not_found
  | some v ↦ read_file v db
]

-- The join with packs
unfoldable pub with_pack :
    ContentRow × IndexRow → List PackRow → List (ContentRow × IndexRow × PackRow)
with_pack (c, i) [] = []
with_pack (c, i) (p ∷ ps) =
    let rest = with_pack (c, i) ps in if p.id == i.pack then (c, i, p) ∷ rest else rest

unfoldable pub join_packs :
    List (ContentRow × IndexRow) → List PackRow → List (ContentRow × IndexRow × PackRow)
join_packs [] ps = []
join_packs (r ∷ rs) ps = with_pack r ps ++ join_packs rs ps

-- One row of the result, at its place `i`
unfoldable pub scan_index : ℕ → ContentRow × IndexRow × PackRow → Result ChunkIndex
scan_index i (c, x, p) = do
  mode ← from_uint8 x.mode
  if i == c.sequence then ok tt else err (message "unexpected chunk sequence")
  cs ← from_bytes x.sum
  ps ← from_bytes p.sum
  ok (record {
    sequence = c.sequence;
    pack_sum = ps;
    block = record {
      sum = cs;
      chunk_size = x.chunk_size;
      sequence = x.sequence;
      offset = x.offset;
      size = x.size;
      mode = mode;
    };
  })

-- The loop of `GetFileChunks`: the elements of `chunks` from place `i` on
unfoldable pub scan_indexes :
    ℕ → ℕ → List (ContentRow × IndexRow × PackRow) → Result (List ChunkIndex)
scan_indexes n i [] = ok (replicate (n - i) zero_chunk_index)
scan_indexes n i (r ∷ rs) = do
  if leb n i then err (message "number of chunks greater than expected") else ok tt
  c ← scan_index i r
  cs ← scan_indexes n (i + 1) rs
  ok (c ∷ cs)

-- `GetFileChunks`
unfoldable pub get_file_chunks : Sum → Db → Result (List ChunkIndex)
get_file_chunks s db = elim (first (λ v. sum_eq v.sum s) db.file_versions) [
  | none ↦ err db_not_found
  | some v ↦ scan_indexes v.num_chunks 0 (join_packs (version_chunks v.id db) db.packs)
]
