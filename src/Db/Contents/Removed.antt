-- ===== src/Db/Contents/Removed.antt =====
-- `GetFile` after `DeleteFile`.
use jotfs.Prelude.{
  ℕ, ◌≡◌, ◌≢◌, refl, sym, ◌∙◌, ap, subst, arith, Bool, true, false, Bool-cases, inl, inr, none,
  some, Option-cases, List, [], ◌∷◌, ◌==◌, ==_iff, not, if◌then◌else◌,
}
use jotfs.Errors.{ok, err, db_not_found}
use jotfs.Step.Keeps.{Keeps, Keeps-pure, Keeps-bind}
use jotfs.Step.Returns.{bind-ok}
use jotfs.Sum.{Sum, sum_eq, eq_of_sum_eq}
use jotfs.Table.{first, exists, rows, count, delete_rows}
use jotfs.Table.Laws.{All-first, All-map, All-every, All-of_count, delete_rows-rejects}
use jotfs.Table.Keys.{first_holds}
use jotfs.Table.Removed.{
  first-only_id, first-only, first-delete_rows, first-delete_rows-none, rows-delete_rows,
}
use jotfs.Table.Sort.{ascending}
use jotfs.Db.{Db, FileRow, VersionRow, ContentRow}
use jotfs.Db.Files.{
  can_decrement, decrement, decrement_all, delete_version, delete_found, delete_file,
}
use jotfs.Step.{◌>>◌}
use jotfs.Db.Keys.Kept.{decrement_all-IsKeyed}
use jotfs.Db.Keys.{IsKeyed, same_sum}
use jotfs.Db.Contents.{join_indexes, version_chunks, scan_chunks, file_name, read_file, get_file}
use jotfs.Db.Contents.Views.{SameFiles, SameFiles-refl, get_file-SameFiles}
use jotfs.Db.Contents.Kept.{views-update_rows, same_blocks, Kept-of_Same}
use jotfs.Db.Contents.Added.{file_name-same}
use jotfs.Db.Contents.Inserted.{update-ok}

decrement-Same : (k : ℕ) (db : Db) → SameFiles db (decrement k db).1
unfolding decrement
decrement-Same k db = elim (Bool-cases (exists (λ i. not (can_decrement k i)) db.indexes)) [
  | inl e ↦ rw e (SameFiles-refl db)
  | inr e ↦ rw e (
      same_blocks db db.packs _ (λ c.
        views-update_rows _ _ db.indexes c
          (record { id = λ i. refl; sum = λ i. refl; chunk_size = λ i. refl })))
]

decrement_all-Kept : (db0 : Db) (cs : List ContentRow) → Keeps (SameFiles db0) (decrement_all cs)
unfolding decrement_all
decrement_all-Kept db0 [] = Keeps-pure (SameFiles db0) tt
decrement_all-Kept db0 (c ∷ cs) =
    Keeps-bind (Kept-of_Same db0 (decrement c.idx) (decrement-Same c.idx))
      (λ u. decrement_all-Kept db0 cs)

-- A version of another id after the deletion of `v`
module _ (v : VersionRow) (db : Db) where
  abbrev left : Db
  left = (delete_version v db).1

  abbrev left_versions : List VersionRow
  left_versions = delete_rows (λ w. w.id == v.id) db.file_versions

  other_id :
      (a b : ℕ) (c : ContentRow)
      → (a == b) ≡ false
      → (c.file_version == b) ≡ true
      → (c.file_version == a) ≡ false
  other_id a b c e k = ground arith

  left_chunks :
      (k : ℕ)
      → (k == v.id) ≡ false
      → scan_chunks (version_chunks k left) ≡ scan_chunks (version_chunks k db)
  unfolding version_chunks delete_version
  left_chunks k n =
      ap (λ t. scan_chunks (ascending (λ r. r.0.sequence) (join_indexes t db.indexes)))
        (rows-delete_rows (λ c. c.file_version == k) (λ c. c.file_version == v.id) db.file_contents
          (λ c. other_id k v.id c n))

  other_file : (a b : ℕ) (f : FileRow) → (a == b) ≡ false → (f.id == b) ≡ true → (f.id == a) ≡ false
  other_file a b f e k = ground arith

  kept_name :
      (k : ℕ) (b : Bool)
      → (b ≡ true → (k == v.file) ≡ false)
      → first (λ f. f.id == k) (if b then delete_rows (λ f. f.id == v.file) db.files else db.files)
        ≡ first (λ f. f.id == k) db.files
  kept_name k true n =
      first-delete_rows (λ f. f.id == k) (λ f. f.id == v.file) db.files
        (All-every _ db.files (λ f e. other_file k v.file f (n refl) e))
  kept_name k false n = refl

  left_name :
      (w : VersionRow) (t : Sum)
      → first (λ u. sum_eq u.sum t) left_versions ≡ some w
      → file_name w.file left ≡ file_name w.file db
  unfolding delete_version
  left_name w t e = file_name-same w.file db left (
      kept_name w.file (count (λ u. u.file == v.file) left_versions == 0) (λ z.
        All-first (λ u. (u.file == v.file) ≡ false) (λ u. sum_eq u.sum t) left_versions w
          (All-of_count (λ u. u.file == v.file) left_versions ((==_iff _ 0).0 z)) e))

  left_version :
      (w : VersionRow) (t : Sum)
      → first (λ u. sum_eq u.sum t) left_versions ≡ some w
      → read_file w left ≡ read_file w db
  unfolding read_file
  left_version w t e =
      rw
        (
          left_name w t e,
          left_chunks w.id (
              All-first (λ u. (u.id == v.id) ≡ false) (λ u. sum_eq u.sum t) left_versions w
                (delete_rows-rejects (λ u. u.id == v.id) db.file_versions) e),
        )
        refl

  module _ (s : Sum) (k : IsKeyed db)
      (found : first (λ u. sum_eq u.sum s) db.file_versions ≡ some v) where
    v_sum : v.sum ≡ s
    v_sum = eq_of_sum_eq v.sum s (first_holds (λ u. sum_eq u.sum s) db.file_versions v found)

    no_version : first (λ u. sum_eq u.sum s) left_versions ≡ none
    no_version =
        first-delete_rows-none (λ u. sum_eq u.sum s) (λ u. u.id == v.id) db.file_versions
          (All-map _ _ db.file_versions
            (λ u only e. (==_iff u.id v.id).1 (ap (λ (w : VersionRow). w.id) (only e)))
            (first-only same_sum (λ u. sum_eq u.sum s) db.file_versions v both k.sums found))
      where
        both :
            (x y : VersionRow) → sum_eq x.sum s ≡ true → sum_eq y.sum s ≡ true → same_sum x y ≡ true
        both x y ex ey = subst (λ z. sum_eq x.sum z ≡ true) (sym (eq_of_sum_eq y.sum s ey)) ex

    same_version :
        (t : Sum)
        → t ≢ s
        → first (λ u. sum_eq u.sum t) left_versions ≡ first (λ u. sum_eq u.sum t) db.file_versions
    same_version t n =
        first-delete_rows (λ u. sum_eq u.sum t) (λ u. u.id == v.id) db.file_versions
          (All-map _ _ db.file_versions (λ u only e. not_found u (only e))
            (first-only_id (λ u. u.id) (λ u. sum_eq u.sum s) db.file_versions v k.versions found))
      where
        not_found : (u : VersionRow) → u ≡ v → sum_eq u.sum t ≡ false
        not_found u same = elim (Bool-cases (sum_eq u.sum t)) [
          | inl b ↦
              absurd
                (n (sym (eq_of_sum_eq u.sum t b) ∙ ap (λ (w : VersionRow). w.sum) same ∙ v_sum))
          | inr b ↦ b
        ]

    gone : get_file s left ≡ err db_not_found
    unfolding get_file delete_version
    gone = rw (no_version, get_file) refl

    others : (t : Sum) → t ≢ s → get_file t left ≡ get_file t db
    unfolding get_file delete_version
    others t n = elim (Option-cases (first (λ u. sum_eq u.sum t) left_versions)) [
      | inl e ↦ rw (e, get_file, sym (same_version t n) ∙ e) refl
      | inr (w, e) ↦ rw (e, get_file, sym (same_version t n) ∙ e) (left_version w t e)
    ]

delete_version-ok :
    (v : VersionRow) (db db' : Db)
    → delete_version v db ≡ (ok tt, db')
    → (delete_version v db).1 ≡ db'
unfolding delete_version
delete_version-ok v db db' e = λ i. (e i).1

-- What `DeleteFile` found where it returned, and the database before its version goes
record Found (s : Sum) (db db' : Db) : Type 0 where
  version : VersionRow
  counted : Db
  found : first (λ u. sum_eq u.sum s) counted.file_versions ≡ some version
  same : SameFiles db counted
  keyed : IsKeyed counted
  rest : (delete_version version counted).1 ≡ db'

delete_file-Found :
    (s : Sum) (db db' : Db) → IsKeyed db → delete_file s db ≡ (ok tt, db') → Found s db db'
unfolding delete_file delete_found
delete_file-Found s db db' k e =
    elim (Option-cases (first (λ u. sum_eq u.sum s) db.file_versions)) [
      | inl none_found ↦ absurd (cc (rw (none_found, delete_found) at (update-ok _ db db' e)))
      | inr (v, found) ↦
          let inside : (decrement_all (rows (λ c. c.file_version == v.id) db.file_contents)
                  >> delete_version v)
                db
              ≡ (ok tt, db') =
            rw (found, delete_found) at (update-ok _ db db' e) in
          let (u, d, counted, rest) = bind-ok _ _ db db' inside in
          let states : (decrement_all (rows (λ c. c.file_version == v.id) db.file_contents) db).1
              ≡ d =
            λ i. (counted i).1 in
          let same =
            subst (SameFiles db) states ((decrement_all-Kept db _).holds db (SameFiles-refl db)) in
          record {
            version = v;
            counted = d;
            found = ap (first (λ w. sum_eq w.sum s)) same.versions ∙ found;
            same = same;
            keyed = subst IsKeyed states ((decrement_all-IsKeyed _).holds db k);
            rest = delete_version-ok v d db' rest;
          }
    ]

-- Where the keys of the database differ and `DeleteFile` returns without an error, `GetFile` finds no
-- file with the checksum any more, and returns what it did for every other checksum.
pub get_file-delete_file :
    (s : Sum) (db db' : Db)
    → IsKeyed db
    → delete_file s db ≡ (ok tt, db')
    → (get_file s db' ≡ err db_not_found) × ((t : Sum) → t ≢ s → get_file t db' ≡ get_file t db)
get_file-delete_file s db db' k e =
    let x = delete_file-Found s db db' k e in
    (
      subst (λ d. get_file s d ≡ err db_not_found) x.rest
          (gone x.version x.counted s x.keyed x.found),
      λ t n.
          subst (λ d. get_file t d ≡ get_file t db) x.rest
            (others x.version x.counted s x.keyed x.found t n
              ∙ get_file-SameFiles t db x.counted x.same),
    )
