-- ===== src/Db/Contents/RoundTrip.antt =====
-- `GetFile` after `InsertFile`.
use jotfs.Prelude.{
  ℕ, ◌≡◌, ◌≢◌, refl, sym, ◌∙◌, ap, subst, arith, Bool, true, false, Bool-cases, inl, inr, some,
  Option-cases, List, [], ◌∷◌, ◌++◌, append-nil, All, ◌==◌, ==_iff,
}
use jotfs.Errors.{ok}
use jotfs.Sum.{Sum, sum_eq, sum_eq_refl, eq_of_sum_eq}
use jotfs.Object.File.{Chunk, File, version_tag}
use jotfs.Table.{first, rows}
use jotfs.Table.Laws.{All-first, All-map, All-every, exists-next_id}
use jotfs.Table.Keys.{
  first-append_new, first-append_none, rows-append, rows_none, rows-All, ne-next_id,
}
use jotfs.Table.Sort.{ascending}
use jotfs.Table.Sort.Pages.{Distinct}
use jotfs.Db.{Db, IndexRow, VersionRow, ContentRow}
use jotfs.Db.Files.{insert_file}
use jotfs.Db.Queries.{parse_vflag}
use jotfs.Db.Keys.{IsKeyed}
use jotfs.Db.Integrity.{IsConsistent, has_file, has_version}
use jotfs.Db.Contents.{join_indexes, version_chunks, scan_chunks, read_file, get_file}
use jotfs.Db.Contents.Views.{sorted_chunks-view}
use jotfs.Db.Contents.Chunks.{Stand}
use jotfs.Db.Contents.Scanned.{Fits, scan_chunks-Stand}
use jotfs.Db.Contents.Added.{new_version}
use jotfs.Db.Contents.Inserted.{Inserted, insert_file-Inserted}

parse_vflag-version_tag : (b : Bool) → parse_vflag (version_tag b) ≡ ok b
unfolding parse_vflag
parse_vflag-version_tag true = ground arith
parse_vflag-version_tag false = ground arith

of_version :
    (v w : ℕ) (cs : List ContentRow)
    → All (λ c. c.file_version ≡ v) cs
    → w ≡ v
    → All (λ c. (c.file_version == w) ≡ true) cs
of_version v w cs h e = All-map _ _ cs (λ c k. (==_iff c.file_version w).1 (k ∙ sym e)) h

of_another :
    (v w : ℕ) (cs : List ContentRow)
    → All (λ c. c.file_version ≡ v) cs
    → w ≢ v
    → All (λ c. (c.file_version == w) ≡ false) cs
of_another v w cs h n = All-map _ _ cs (λ c k. differs c.file_version w (λ e. n (sym e ∙ k))) h
  where
    differs : (a b : ℕ) → a ≢ b → (a == b) ≡ false
    differs a b k = ground arith

Stand-version :
    (ver : ℕ) (is : List IndexRow) (cs : List Chunk) (rs : List ContentRow)
    → Stand ver is cs rs
    → All (λ r. r.file_version ≡ ver) rs
Stand-version ver is [] [] k = tt
Stand-version ver is [] (r ∷ rs) k = absurd k
Stand-version ver is (c ∷ cs) [] k = absurd k
Stand-version ver is (c ∷ cs) (r ∷ rs) ((v, q, n, b), k) = (v, Stand-version ver is cs rs k)

-- No row of the contents belongs to a version that does not exist.
before_version :
    (ver : ℕ) (vs : List VersionRow) (cs : List ContentRow)
    → has_version vs ver ≡ false
    → All (λ c. has_version vs c.file_version ≡ true) cs
    → All (λ c. (c.file_version == ver) ≡ false) cs
before_version ver vs cs e h = All-map _ _ cs one h
  where
    one : (c : ContentRow) → has_version vs c.file_version ≡ true → (c.file_version == ver) ≡ false
    one c k = elim (Bool-cases (c.file_version == ver)) [
      | inl b ↦
          let same : has_version vs c.file_version ≡ has_version vs ver =
            ap (has_version vs) ((==_iff c.file_version ver).0 b) in
          absurd (cc (same, k, e))
      | inr b ↦ b
    ]

module _ (f : File) (s : Sum) (db db' : Db) (c : IsConsistent db) (x : Inserted f s db db') where
  abbrev row : VersionRow
  row = new_version x.ver x.k f s

  no_version : has_version db.file_versions x.ver ≡ false
  no_version =
      ap (has_version db.file_versions) x.fresh ∙ exists-next_id (λ v. v.id) db.file_versions

  not_next : All (λ v. v.id ≢ x.ver) db.file_versions
  not_next =
      subst (λ n. All (λ v. v.id ≢ n) db.file_versions) (sym x.fresh)
        (ne-next_id (λ v. v.id) db.file_versions)

  new_chunks :
      Distinct (λ i. i.id) db.indexes
      → Fits f.chunks db
      → scan_chunks (version_chunks x.ver db') ≡ ok f.chunks
  unfolding version_chunks
  new_chunks d fits =
      ap (λ t. scan_chunks (ascending (λ r. r.0.sequence) (join_indexes t db'.indexes))) only
      ∙ scan_chunks-Stand x.ver db db'.indexes f.chunks x.added d x.same_views fits x.stand
    where
      only : rows (λ r. r.file_version == x.ver) db'.file_contents ≡ x.added
      only =
          ap (rows (λ r. r.file_version == x.ver)) x.contents
          ∙ rows-append _ db.file_contents x.added
          ∙ ap (λ t. t ++ rows (λ r. r.file_version == x.ver) x.added)
              (rows_none _ db.file_contents (
                before_version x.ver db.file_versions db.file_contents no_version
                  c.content_version))
          ∙ rows-All _ x.added (
              of_version x.ver x.ver x.added
                (Stand-version x.ver db.indexes f.chunks x.added x.stand) refl)

  old_chunks :
      (v : ℕ) → v ≢ x.ver → scan_chunks (version_chunks v db') ≡ scan_chunks (version_chunks v db)
  unfolding version_chunks
  old_chunks v n =
      ap (λ t. scan_chunks (ascending (λ r. r.0.sequence) (join_indexes t db'.indexes))) only
      ∙ sorted_chunks-view db.indexes db'.indexes (rows (λ r. r.file_version == v) db.file_contents)
          (All-every _ _ x.same_views)
    where
      only :
          rows (λ r. r.file_version == v) db'.file_contents
          ≡ rows (λ r. r.file_version == v) db.file_contents
      only =
          ap (rows (λ r. r.file_version == v)) x.contents
          ∙ rows-append _ db.file_contents x.added
          ∙ ap (λ t. rows (λ r. r.file_version == v) db.file_contents ++ t)
              (rows_none _ x.added (
                of_another x.ver v x.added (Stand-version x.ver db.indexes f.chunks x.added x.stand)
                  n))
          ∙ append-nil _

  new_file : Distinct (λ i. i.id) db.indexes → Fits f.chunks db → get_file s db' ≡ ok f
  unfolding get_file
  new_file d fits =
      rw
        (
          ap (first (λ v. sum_eq v.sum s)) x.versions
              ∙ first-append_new (λ v. sum_eq v.sum s) db.file_versions row x.free (sum_eq_refl s),
          get_file,
        )
        (unfold read_file in
          rw (parse_vflag-version_tag f.versioned, x.named, new_chunks d fits) refl)

  old_version :
      (t : Sum) (v : VersionRow)
      → first (λ w. sum_eq w.sum t) db.file_versions ≡ some v
      → read_file v db' ≡ read_file v db
  unfolding read_file
  old_version t v e =
      rw
        (
          x.others v.file (
              All-first (λ w. has_file db.files w.file ≡ true) (λ w. sum_eq w.sum t)
                db.file_versions v c.version_file e),
          old_chunks v.id
              (All-first (λ w. w.id ≢ x.ver) (λ w. sum_eq w.sum t) db.file_versions v not_next e),
        )
        refl

  old_file : (t : Sum) → t ≢ s → get_file t db' ≡ get_file t db
  unfolding get_file
  old_file t n = elim (Option-cases (first (λ w. sum_eq w.sum t) db.file_versions)) [
    | inl e ↦ rw ((same ∙ e), get_file, e) refl
    | inr (v, e) ↦ rw ((same ∙ e), get_file, e) (old_version t v e)
  ]
    where
      not_new : sum_eq s t ≡ false
      not_new = elim (Bool-cases (sum_eq s t)) [
        | inl b ↦ absurd (n (sym (eq_of_sum_eq s t b)))
        | inr b ↦ b
      ]

      same :
          first (λ w. sum_eq w.sum t) db'.file_versions
          ≡ first (λ w. sum_eq w.sum t) db.file_versions
      same =
          ap (first (λ w. sum_eq w.sum t)) x.versions
          ∙ first-append_none (λ w. sum_eq w.sum t) db.file_versions row not_new

-- In a consistent database whose keys differ, where `InsertFile` of a file returns without an error,
-- `GetFile` of its checksum returns the file, and `GetFile` of every other checksum returns what it
-- did. The chunks of the file are in order, and have the sizes that the database has for their
-- 32-byte checksums.
pub get_file-insert_file :
    (f : File) (s : Sum) (db db' : Db)
    → IsConsistent db
    → IsKeyed db
    → Fits f.chunks db
    → insert_file f s db ≡ (ok tt, db')
    → (get_file s db' ≡ ok f) × ((t : Sum) → t ≢ s → get_file t db' ≡ get_file t db)
get_file-insert_file f s db db' c d fits e =
    let x = insert_file-Inserted f s db db' d.files e in
    (new_file f s db db' c x d.indexes fits, old_file f s db db' c x)
