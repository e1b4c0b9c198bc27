-- ===== src/Db/Queries.antt =====
-- adapter.go: the queries that change nothing. A query that SQLite cannot run is not modelled.
pub mod Latest
pub mod Chunks
use jotfs.Prelude.{
  ℕ, Bool, true, false, not, ◌&&◌, ◌||◌, none, some, List, [], ◌∷◌, ◌++◌, take, ltb, ◌==◌, map,
  if◌then◌else◌,
}
use jotfs.Errors.{Result, ok, err, db_not_found, message, ◌>>=◌}
use jotfs.Bytes.{Bytes}
use jotfs.Sum.{Sum, sum_eq, from_bytes}
use jotfs.Table.{rows, first, exists}
use jotfs.Table.Sort.{ascending, descending}
use jotfs.Db.{Db, FileRow, VersionRow, IndexRow}
use jotfs.Db.Files.{name_eq}

pub record FileInfo : Type 0 where
  pub name : Bytes
  pub created_at : ℕ
  pub size : ℕ
  pub sum : Sum
  pub versioned : Bool

-- `parseVFlag`
unfoldable pub parse_vflag : ℕ → Result Bool
parse_vflag vflag =
    if vflag == 1
    then ok true
    else if vflag == 0
    then ok false
    else err (message "invalid version flag")

-- `GetChunkSize`
unfoldable pub get_chunk_size : Sum → Db → Result ℕ
get_chunk_size s db = elim (first (λ i. sum_eq i.sum s) db.indexes) [
  | none ↦ err db_not_found
  | some i ↦ ok i.chunk_size
]

-- The rows that `ChunksExist` selects
unfoldable pub is_selected : List Sum → IndexRow → Bool
is_selected sums i = exists (λ s. sum_eq i.sum s) sums && not (i.delete_marker == 1)

unfoldable pub scan_sums : List IndexRow → Result (List Sum)
scan_sums [] = ok []
scan_sums (i ∷ is) = do s ← from_bytes i.sum; found ← scan_sums is; ok (s ∷ found)

-- `ChunksExist`; `exists` of the source is the list of its keys.
unfoldable pub chunks_exist : List Sum → Db → Result (List Bool)
chunks_exist [] db = ok []
chunks_exist (s ∷ ss) db = do
  found ← scan_sums (rows (is_selected (s ∷ ss)) db.indexes)
  ok (map (λ t. exists (λ f. sum_eq f t) found) (s ∷ ss))

-- files JOIN file_versions: the versions with the name of their file
unfoldable pub with_name : VersionRow → List FileRow → List (Bytes × VersionRow)
with_name v [] = []
with_name v (f ∷ fs) =
    let rest = with_name v fs in if f.id == v.file then (f.name, v) ∷ rest else rest

unfoldable pub join_files : List FileRow → List VersionRow → List (Bytes × VersionRow)
join_files fs [] = []
join_files fs (v ∷ vs) = with_name v fs ++ join_files fs vs

-- One row of a result
unfoldable pub scan_info : Bytes × VersionRow → Result FileInfo
scan_info (name, v) = do
  s ← from_bytes v.sum
  flag ← parse_vflag v.versioned
  ok (record { name = name; created_at = v.created_at; size = v.size; sum = s; versioned = flag })

unfoldable pub scan_infos : List (Bytes × VersionRow) → Result (List FileInfo)
scan_infos [] = ok []
scan_infos (r ∷ rs) = do info ← scan_info r; infos ← scan_infos rs; ok (info ∷ infos)

-- `GetFileInfo`
unfoldable pub get_file_info : Sum → Db → Result FileInfo
get_file_info s db = elim (first (λ r. sum_eq r.1.sum s) (join_files db.files db.file_versions)) [
  | none ↦ err db_not_found
  | some r ↦ scan_info r
]

abbrev pub created : Bytes × VersionRow → ℕ
created r = r.1.created_at

-- ORDER BY created_at ASC or DESC
unfoldable pub order_by_created : Bool → List (Bytes × VersionRow) → List (Bytes × VersionRow)
order_by_created asc rs = if asc then ascending created rs else descending created rs

-- SELECT … WHERE p AND created_at > offset ORDER BY created_at … LIMIT limit
unfoldable pub select_page : (Bytes → Bool) → ℕ → ℕ → Bool → Db → List (Bytes × VersionRow)
select_page p offset limit asc db = take limit (
    order_by_created asc
      (rows (λ r. p r.0 && ltb offset r.1.created_at) (join_files db.files db.file_versions)))

-- `GetFileVersions`
unfoldable pub get_file_versions : Bytes → ℕ → ℕ → Bool → Db → Result (List FileInfo)
get_file_versions name offset limit asc db =
    scan_infos (select_page (λ n. name_eq n name) offset limit asc db)

first_info : List FileInfo → Result FileInfo
first_info [] = err db_not_found
first_info (i ∷ is) = ok i

-- `GetLatestFileVersion`
unfoldable pub get_latest_file_version : Bytes → Db → Result FileInfo
unfolding first_info
get_latest_file_version name db = get_file_versions name 0 1 false db >>= first_info

-- SQLite's LIKE and GLOB: the pattern, then the text
pub record Patterns : Type 0 where
  pub like : Bytes → Bytes → Bool
  pub glob : Bytes → Bytes → Bool

is_empty : Bytes → Bool
is_empty [] = true
is_empty (c ∷ cs) = false

-- The tests of the query, by whether the patterns are given. The code of `%` is 37.
unfoldable pub is_listed : Patterns → Bytes → Bytes → Bytes → Bytes → Bool
unfolding is_empty
is_listed q prefix exclude include name =
    q.like (prefix ++ (37 ∷ [])) name
    && (if is_empty exclude
        then true
        else if is_empty include
        then not (q.glob exclude name)
        else not (q.glob exclude name) || q.glob include name)

-- `ListFiles`
unfoldable pub list_files :
    Patterns → Bytes → ℕ → ℕ → Bytes → Bytes → Bool → Db → Result (List FileInfo)
list_files q prefix offset limit exclude include asc db =
    scan_infos (select_page (is_listed q prefix exclude include) offset limit asc db)
