-- ===== src/Db/Contents/Views.antt =====
-- What `GetFile` reads of a block: its checksum and the size of its chunk.
use jotfs.Prelude.{
  ℕ, ◌≡◌, refl, sym, ◌∙◌, ap, inl, inr, List, [], ◌∷◌, ◌++◌, map, All, ◌==◌, Option-cases,
}
use mathlib.Core.List.{map-append}
use jotfs.Errors.{Result, ok, ◌>>=◌}
use jotfs.Sum.{Sum, sum_eq, from_bytes}
use jotfs.Object.File.{Chunk}
use jotfs.Table.{rows, first}
use jotfs.Table.Laws.{All-every, All-rows}
use jotfs.Table.Sort.{ascending}
use jotfs.Table.Sort.Mapped.{map-ascending}
use jotfs.Db.{Db, IndexRow, VersionRow, ContentRow}
use jotfs.Db.Contents.{
  with_index, join_indexes, version_chunks, scan_chunks, file_name, read_file, get_file,
}

abbrev pub View : Type 0
View = ContentRow × Sum × ℕ

abbrev pub view : ContentRow × IndexRow → View
view (c, i) = (c, i.sum, i.chunk_size)

-- The blocks that a chunk of a file refers to
unfoldable pub views : List IndexRow → ContentRow → List View
views is c = map view (with_index c is)

unfoldable pub scan_views : List View → Result (List Chunk)
scan_views [] = ok []
scan_views ((c, s, n) ∷ rs) = do
  sum ← from_bytes s
  chunks ← scan_views rs
  ok (record { sequence = c.sequence; size = n; sum = sum } ∷ chunks)

pub scan_chunks-view :
    (rs : List (ContentRow × IndexRow)) → scan_chunks rs ≡ scan_views (map view rs)
unfolding scan_chunks scan_views
scan_chunks-view [] = refl
scan_chunks-view ((c, i) ∷ rs) = rw (scan_chunks-view rs) refl

-- The same files, with the same blocks in what a reader sees of them
pub record SameFiles (db db' : Db) : Type 0 where
  pub files : db'.files ≡ db.files
  pub versions : db'.file_versions ≡ db.file_versions
  pub contents : db'.file_contents ≡ db.file_contents
  pub blocks : All (λ c. views db'.indexes c ≡ views db.indexes c) db.file_contents

pub join_indexes-view :
    (is is' : List IndexRow) (cs : List ContentRow)
    → All (λ c. views is' c ≡ views is c) cs
    → map view (join_indexes cs is') ≡ map view (join_indexes cs is)
unfolding join_indexes views
join_indexes-view is is' [] h = refl
join_indexes-view is is' (c ∷ cs) (hc, h) =
    map-append view (with_index c is') (join_indexes cs is')
    ∙ ap (λ t. t ++ map view (join_indexes cs is')) hc
    ∙ ap (λ t. map view (with_index c is) ++ t) (join_indexes-view is is' cs h)
    ∙ sym (map-append view (with_index c is) (join_indexes cs is))

abbrev pub sequence_of : View → ℕ
sequence_of r = r.0.sequence

pub sorted_chunks-view :
    (is is' : List IndexRow) (cs : List ContentRow)
    → All (λ c. views is' c ≡ views is c) cs
    → scan_chunks (ascending (λ r. r.0.sequence) (join_indexes cs is'))
      ≡ scan_chunks (ascending (λ r. r.0.sequence) (join_indexes cs is))
sorted_chunks-view is is' cs h =
    scan_chunks-view (ascending (λ r. r.0.sequence) (join_indexes cs is'))
    ∙ ap scan_views (
        map-ascending sequence_of view (join_indexes cs is')
        ∙ ap (ascending sequence_of) (join_indexes-view is is' cs h)
        ∙ sym (map-ascending sequence_of view (join_indexes cs is)))
    ∙ sym (scan_chunks-view (ascending (λ r. r.0.sequence) (join_indexes cs is)))

version_chunks-view :
    (v : ℕ) (db db' : Db)
    → SameFiles db db'
    → scan_chunks (version_chunks v db') ≡ scan_chunks (version_chunks v db)
unfolding version_chunks
version_chunks-view v db db' k =
    ap
      (λ t. scan_chunks (
        ascending (λ r. r.0.sequence)
          (join_indexes (rows (λ c. c.file_version == v) t) db'.indexes)))
      k.contents
    ∙ sorted_chunks-view db.indexes db'.indexes (rows (λ c. c.file_version == v) db.file_contents)
        (All-rows _ (λ c. c.file_version == v) db.file_contents k.blocks)

file_name-SameFiles : (f : ℕ) (db db' : Db) → SameFiles db db' → file_name f db' ≡ file_name f db
unfolding file_name
file_name-SameFiles f db db' k = cc (k.files)

read_file-SameFiles :
    (v : VersionRow) (db db' : Db) → SameFiles db db' → read_file v db' ≡ read_file v db
unfolding read_file
read_file-SameFiles v db db' k =
    rw (file_name-SameFiles v.file db db' k, version_chunks-view v.id db db' k) refl

-- `GetFile` of the same files returns the same.
pub get_file-SameFiles : (s : Sum) (db db' : Db) → SameFiles db db' → get_file s db' ≡ get_file s db
unfolding get_file
get_file-SameFiles s db db' k = elim (Option-cases (first (λ v. sum_eq v.sum s) db.file_versions)) [
  | inl e ↦ rw ((same ∙ e), get_file, e) refl
  | inr (v, e) ↦ rw ((same ∙ e), get_file, e) (read_file-SameFiles v db db' k)
]
  where
    same :
        first (λ v. sum_eq v.sum s) db'.file_versions ≡ first (λ v. sum_eq v.sum s) db.file_versions
    same = ap (first (λ v. sum_eq v.sum s)) k.versions

pub SameFiles-refl : (db : Db) → SameFiles db db
SameFiles-refl db = record {
  files = refl;
  versions = refl;
  contents = refl;
  blocks = All-every _ db.file_contents (λ c. refl);
}
