-- ===== src/Db/Integrity/Deletes.antt =====
-- Integrity under `DeleteFile`, and the reference counts that it decrements.
use jotfs.Prelude.{
  ℕ, ◌+◌, ◌-◌, ◌≡◌, refl, sym, ◌∙◌, subst, arith, true, false, not, some, List, [], ◌∷◌, All, ◌==◌,
  ==_iff, Option-cases, Bool-cases, inl, inr, if◌then◌else◌,
}
use jotfs.Errors.{ok}
use jotfs.Step.{◌>>=◌}
use jotfs.Sum.{Sum, sum_eq}
use jotfs.Table.{rows, first, count, update_rows, delete_rows}
use jotfs.Table.Laws.{
  All-map, All-both, All-delete_rows, All-update_rows, All-of_count, exists-update_rows,
  exists-delete_rows, exists_of_All, count-delete_rows, delete_rows-rejects,
}
use jotfs.Db.{Db, IndexRow, FileRow, VersionRow, ContentRow, update}
use jotfs.Db.Files.{
  can_decrement, decrement, decrement_all, delete_version, delete_found, delete_file,
}
use jotfs.Db.Integrity.{has_index, has_file, has_version, has_pack, references, IsConsistent}

-- While the chunks `rest` of a deleted version are counted down and `kept` is to stay: each count
-- is that of both.
record IsCounting (kept rest : List ContentRow) (db : Db) : Type 0 where
  refs : All (λ i. i.refcount ≡ references kept i.id + references rest i.id) db.indexes
  content_index : All (λ c. has_index db.indexes c.idx ≡ true) db.file_contents
  index_pack : All (λ i. has_pack db.packs i.pack ≡ true) db.indexes

-- A chunk that is still to be counted down has a count above zero.
can_decrement_rest :
    (kept cs : List ContentRow) (c : ContentRow) (i : IndexRow)
    → i.refcount ≡ references kept i.id + references (c ∷ cs) i.id
    → not (can_decrement c.idx i) ≡ false
unfolding can_decrement count
can_decrement_rest kept cs c i h = ground arith

abbrev decremented : ContentRow → Db → Db
decremented c db = record db {
  indexes =
      update_rows (λ i. i.id == c.idx) (λ i. record i { refcount = i.refcount - 1 }) db.indexes;
}

decrement-ok :
    (kept cs : List ContentRow) (c : ContentRow) (db : Db)
    → IsCounting kept (c ∷ cs) db
    → decrement c.idx db ≡ (ok tt, decremented c db)
unfolding decrement
decrement-ok kept cs c db h = rw (
    exists_of_All (λ i. not (can_decrement c.idx i)) db.indexes
      (All-map _ _ db.indexes (can_decrement_rest kept cs c) h.refs))

decremented-IsCounting :
    (kept cs : List ContentRow) (c : ContentRow) (db : Db)
    → IsCounting kept (c ∷ cs) db
    → IsCounting kept cs (decremented c db)
unfolding count
decremented-IsCounting kept cs c db h = record {
  refs = All-update_rows _ _ _ _ db.indexes (λ i e m. ground arith) (λ i e m. ground arith) h.refs;
  content_index =
      All-map _ _ db.file_contents
        (λ r e. exists-update_rows (λ i. i.id == r.idx) _ _ db.indexes (λ i. refl) ∙ e)
        h.content_index;
  index_pack = All-update_rows _ _ _ _ db.indexes (λ i e _. e) (λ i e _. e) h.index_pack;
}

-- Everything but the blocks of `db'` is as in `db`.
record SameBut (db db' : Db) : Type 0 where
  contents : db'.file_contents ≡ db.file_contents
  versions : db'.file_versions ≡ db.file_versions
  files : db'.files ≡ db.files
  packs : db'.packs ≡ db.packs

decrement_all-ok :
    (kept cs : List ContentRow) (db : Db)
    → IsCounting kept cs db
    → (db' : Db) × (decrement_all cs db ≡ (ok tt, db')) × IsCounting kept [] db' × SameBut db db'
unfolding decrement_all ◌>>=◌
decrement_all-ok kept [] db h =
    (db, refl, h, record { contents = refl; versions = refl; files = refl; packs = refl })
decrement_all-ok kept (c ∷ cs) db h =
    let (db', e, h', s) =
      decrement_all-ok kept cs (decremented c db) (decremented-IsCounting kept cs c db h) in
    (
      db',
      rw (decrement-ok kept cs c db h) e,
      h',
      record { contents = s.contents; versions = s.versions; files = s.files; packs = s.packs },
    )

-- What `rows` takes of the version and what `delete_rows` leaves are all its references.
start-IsCounting :
    (v : VersionRow) (db : Db)
    → IsConsistent db
    → IsCounting
        (delete_rows (λ c. c.file_version == v.id) db.file_contents)
        (rows (λ c. c.file_version == v.id) db.file_contents)
        db
start-IsCounting v db c = record {
  refs =
      All-map _ _ db.indexes
        (λ i e.
          e ∙ count-delete_rows (λ r. r.idx == i.id) (λ r. r.file_version == v.id) db.file_contents)
        c.refs;
  content_index = c.content_index;
  index_pack = c.index_pack;
}

other_version :
    (v : VersionRow) (k : ℕ) (w : VersionRow)
    → (k == v.id) ≡ false
    → (w.id == v.id) ≡ true
    → (w.id == k) ≡ false
other_version v k w h e = ground arith

other_file : (k j : ℕ) (f : FileRow) → (j == k) ≡ false → (f.id == k) ≡ true → (f.id == j) ≡ false
other_file k j f h e = ground arith

kept_version :
    (v : VersionRow) (db : Db) (r : ContentRow)
    → (r.file_version == v.id) ≡ false × (has_version db.file_versions r.file_version ≡ true)
    → has_version (delete_rows (λ w. w.id == v.id) db.file_versions) r.file_version ≡ true
kept_version v db r (n, h) =
    exists-delete_rows (λ w. w.id == r.file_version) (λ w. w.id == v.id) db.file_versions
      (λ w e. other_version v r.file_version w n e)
    ∙ h

-- The name of a file goes with its last version.
kept_files :
    (k : ℕ) (files : List FileRow) (vs : List VersionRow)
    → All (λ w. has_file files w.file ≡ true) vs
    → All
        (λ w.
          has_file
            (if count (λ w. w.file == k) vs == 0 then delete_rows (λ f. f.id == k) files else files)
            w.file
          ≡ true)
        vs
kept_files k files vs h = elim (Bool-cases (count (λ w. w.file == k) vs == 0)) [
  | inl e ↦ rw e (
      All-map _ _ vs
        (λ w n.
          exists-delete_rows (λ f. f.id == w.file) (λ f. f.id == k) files
            (λ f m. other_file k w.file f n.0 m)
          ∙ n.1)
        (All-both _ _ vs (All-of_count (λ w. w.file == k) vs ((==_iff _ 0).0 e)) h))
  | inr e ↦ rw e h
]

deleted : VersionRow → Db → Db
deleted v db = (delete_version v db).1

delete_version_lem : (v : VersionRow) (db : Db) → delete_version v db ≡ (ok tt, deleted v db)
unfolding deleted delete_version
delete_version_lem v db = refl

deleted-IsConsistent :
    (v : VersionRow) (db : Db)
    → IsCounting (delete_rows (λ c. c.file_version == v.id) db.file_contents) [] db
    → All (λ c. has_version db.file_versions c.file_version ≡ true) db.file_contents
    → All (λ w. has_file db.files w.file ≡ true) db.file_versions
    → IsConsistent (deleted v db)
unfolding deleted delete_version count
deleted-IsConsistent v db h cv vf = record {
  refs = All-map _ _ db.indexes (λ i e. omega arith) h.refs;
  content_index = All-delete_rows _ _ db.file_contents h.content_index;
  content_version =
      All-map _ _ (delete_rows (λ c. c.file_version == v.id) db.file_contents) (kept_version v db) (
        All-both _ _ _ (delete_rows-rejects (λ c. c.file_version == v.id) db.file_contents)
          (All-delete_rows _ _ db.file_contents cv));
  version_file =
      kept_files v.file db.files (delete_rows (λ w. w.id == v.id) db.file_versions)
        (All-delete_rows _ _ db.file_versions vf);
  index_pack = h.index_pack;
}

-- What is known of `db` is known of a database with the same other tables.
carry_over :
    (v : VersionRow) (db db' : Db)
    → IsConsistent db
    → SameBut db db'
    → IsCounting (delete_rows (λ c. c.file_version == v.id) db.file_contents) [] db'
    → IsConsistent (deleted v db')
carry_over v db db' c s h =
    deleted-IsConsistent v db'
      (subst (λ t. IsCounting (delete_rows (λ c. c.file_version == v.id) t) [] db') (sym s.contents)
        h)
      (rw (s.contents, s.versions) c.content_version) (rw (s.versions, s.files) c.version_file)

-- In a consistent database a file version that exists is deleted without an error: no reference
-- count is decremented at zero. The database stays consistent.
pub delete_file-ok :
    (s : Sum) (db : Db) (v : VersionRow)
    → IsConsistent db
    → first (λ w. sum_eq w.sum s) db.file_versions ≡ some v
    → (db' : Db) × (delete_file s db ≡ (ok tt, db')) × IsConsistent db'
unfolding delete_file update delete_found ◌>>=◌
delete_file-ok s db v c e =
    let (db', d, h, same) = decrement_all-ok _ _ db (start-IsCounting v db c) in
    (deleted v db', rw (e, d, delete_version_lem v db') refl, carry_over v db db' c same h)

-- `DeleteFile` leaves a consistent database consistent, whether the file is there or not.
pub delete_file-IsConsistent :
    (s : Sum) (db : Db) → IsConsistent db → IsConsistent (delete_file s db).1
delete_file-IsConsistent s db c =
    elim (Option-cases (first (λ w. sum_eq w.sum s) db.file_versions)) [
      | inl e ↦ unfold delete_file update delete_found in rw e c
      | inr (v, e) ↦ let (db', d, c') = delete_file-ok s db v c e in rw d c'
    ]
