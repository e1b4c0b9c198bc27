-- ===== src/Db/Integrity/Files.antt =====
-- Integrity under `InsertFile`.
use jotfs.Prelude.{
  ℕ, ◌+◌, ◌≡◌, refl, ◌∙◌, arith, true, List, [], ◌∷◌, ◌++◌, ◌==◌, Option-cases, inl, inr,
  if◌then◌else◌,
}
use jotfs.Step.Ensures.{
  Ensures, Ensures-pure, Ensures-gets, Ensures-map, Ensures-bind, Ensures-guard,
}
use jotfs.Bytes.{Bytes}
use jotfs.Sum.{Sum, sum_eq}
use jotfs.Object.File.{Chunk, File}
use jotfs.Table.{first, count, update_rows, next_id}
use jotfs.Table.Laws.{
  exists-append_old, exists-append_new, exists-first, count-append, All-append, All-map,
  All-update_rows, exists-update_rows,
}
use jotfs.Db.{Db, FileRow, VersionRow, ContentRow}
use jotfs.Db.Files.{
  name_eq, add_file, insert_name, insert_file_if_not_exists, add_version, insert_file_version,
  get_pack_index_id, find_chunk, refer, insert_chunk, insert_file_chunks, insert_file_tx,
  insert_file,
}
use jotfs.Db.Integrity.{
  has_index, has_file, has_version, references, IsConsistent, update-IsConsistent,
  Ensures-with_error,
}

abbrev HasFile : ℕ → Db → Type 0
HasFile k db = IsConsistent db × (has_file db.files k ≡ true)

abbrev HasVersion : ℕ → Db → Type 0
HasVersion k db = IsConsistent db × (has_version db.file_versions k ≡ true)

same_id : (k : ℕ) → (k == k) ≡ true
same_id k = ground arith

add_file-HasFile : (name : Bytes) (db : Db) → IsConsistent db → Ensures HasFile (add_file name) db
unfolding add_file
add_file-HasFile name db c = record {
  holds = (
    record {
      refs = c.refs;
      content_index = c.content_index;
      content_version = c.content_version;
      version_file =
          All-map _ _ db.file_versions (λ v e. exists-append_old _ db.files _ e) c.version_file;
      index_pack = c.index_pack;
    },
    exists-append_new _ db.files _ (same_id (next_id (λ (f : FileRow). f.id) db.files)),
  );
}

insert_name-HasFile :
    (name : Bytes) (db : Db) → IsConsistent db → Ensures HasFile (insert_name name) db
unfolding insert_name
insert_name-HasFile name db c = Ensures-guard (λ _ _. add_file-HasFile name db c)

insert_file_if_not_exists-HasFile :
    (name : Bytes) (db : Db) → IsConsistent db → Ensures HasFile (insert_file_if_not_exists name) db
unfolding insert_file_if_not_exists
insert_file_if_not_exists-HasFile name db c =
    elim (Option-cases (first (λ f. name_eq f.name name) db.files)) [
      | inl e ↦ record {
        holds = rw (e, insert_file_if_not_exists) (insert_name-HasFile name db c).holds;
      }
      | inr (f, e) ↦ record {
        holds =
            rw (e, insert_file_if_not_exists)
              (c, exists-first _ (λ g. g.id == f.id) db.files f e (same_id f.id));
      }
    ]

add_version-HasVersion :
    (k : ℕ) (f : File) (s : Sum) (db : Db)
    → HasFile k db
    → Ensures HasVersion (add_version k f s) db
unfolding add_version
add_version-HasVersion k f s db (c, has) = record {
  holds = (
    record {
      refs = c.refs;
      content_index = c.content_index;
      content_version =
          All-map _ _ db.file_contents (λ r e. exists-append_old _ db.file_versions _ e)
            c.content_version;
      version_file = All-append _ db.file_versions _ c.version_file (has, tt);
      index_pack = c.index_pack;
    },
    exists-append_new _ db.file_versions _
        (same_id (next_id (λ (v : VersionRow). v.id) db.file_versions)),
  );
}

insert_file_version-HasVersion :
    (k : ℕ) (f : File) (s : Sum) (db : Db)
    → HasFile k db
    → Ensures HasVersion (insert_file_version k f s) db
unfolding insert_file_version
insert_file_version-HasVersion k f s db h = Ensures-guard (λ _ _.
    Ensures-bind (λ _. HasFile k) (Ensures-gets _ db h)
      (λ _ db' h'. Ensures-guard (λ _ _. add_version-HasVersion k f s db' h')))

-- The reference of one more chunk
count_one_more :
    (cs : List ContentRow) (c : ContentRow) (k : ℕ)
    → references (cs ++ (c ∷ [])) k ≡ references cs k + (if c.idx == k then 1 else 0)
unfolding count
count_one_more cs c k = rw count-append (omega arith)

refer-HasVersion :
    (ver idx seq : ℕ) (db : Db)
    → HasVersion ver db
    → has_index db.indexes idx ≡ true
    → Ensures (λ _. HasVersion ver) (refer ver idx seq) db
unfolding refer
refer-HasVersion ver idx seq db (c, has) found = record {
  holds = (
    record {
      refs =
          All-update_rows _ _ _ _ db.indexes
            (λ i h e. ground (arith, h, count_one_more db.file_contents added i.id))
            (λ i h e. ground (arith, h, count_one_more db.file_contents added i.id)) c.refs;
      content_index =
          All-append _ db.file_contents _
            (All-map _ _ db.file_contents (λ r e. still r.idx ∙ e) c.content_index)
            (still idx ∙ found, tt);
      content_version = All-append _ db.file_contents _ c.content_version (has, tt);
      version_file = c.version_file;
      index_pack = All-update_rows _ _ _ _ db.indexes (λ i h _. h) (λ i h _. h) c.index_pack;
    },
    has,
  );
}
  where
    added : ContentRow
    added = record { file_version = ver; idx = idx; sequence = seq }

    still :
        (k : ℕ)
        → has_index
            (update_rows
              (λ i. i.id == idx)
              (λ i. record i { refcount = i.refcount + 1 })
              db.indexes)
            k
          ≡ has_index db.indexes k
    still k = exists-update_rows (λ i. i.id == k) _ _ db.indexes (λ i. refl)

find_chunk-found :
    (ver : ℕ) (s : Sum) (db : Db)
    → HasVersion ver db
    → Ensures (λ idx db'. HasVersion ver db' × (has_index db'.indexes idx ≡ true)) (find_chunk s) db
unfolding find_chunk get_pack_index_id
find_chunk-found ver s db h = elim (Option-cases (first (λ i. sum_eq i.sum s) db.indexes)) [
  | inl e ↦ record { holds = rw (e, find_chunk) tt }
  | inr (i, e) ↦ record {
    holds =
        rw (e, find_chunk) (h, exists-first _ (λ j. j.id == i.id) db.indexes i e (same_id i.id));
  }
]

insert_file_chunks-HasVersion :
    (ver : ℕ) (cs : List Chunk) (db : Db)
    → HasVersion ver db
    → Ensures (λ _. HasVersion ver) (insert_file_chunks ver cs) db
unfolding insert_file_chunks insert_chunk
insert_file_chunks-HasVersion ver [] db h = Ensures-pure tt db h
insert_file_chunks-HasVersion ver (c ∷ cs) db h =
    Ensures-bind (λ _. HasVersion ver)
      (Ensures-bind (λ idx db'. HasVersion ver db' × (has_index db'.indexes idx ≡ true))
        (find_chunk-found ver c.sum db h)
        (λ idx db' h'. Ensures-guard (λ _ _. refer-HasVersion ver idx c.sequence db' h'.0 h'.1)))
      (λ _ db' h'. insert_file_chunks-HasVersion ver cs db' h')

insert_file_tx-IsConsistent :
    (f : File) (s : Sum) (db : Db)
    → IsConsistent db
    → Ensures (λ _. IsConsistent) (insert_file_tx f s) db
unfolding insert_file_tx
insert_file_tx-IsConsistent f s db c =
    Ensures-bind HasFile (Ensures-with_error _ (insert_file_if_not_exists-HasFile f.name db c))
      (λ k db' h.
        Ensures-bind HasVersion (Ensures-with_error _ (insert_file_version-HasVersion k f s db' h))
          (λ ver db'' h'. Ensures-with_error _ (
            Ensures-map _ (λ _ _ h''. h''.0) (insert_file_chunks-HasVersion ver f.chunks db'' h'))))

-- `InsertFile` leaves a consistent database consistent, whether it inserts the file or refuses it:
-- the reference counts are still those of the file contents, and every reference has its row.
pub insert_file-IsConsistent :
    (f : File) (s : Sum) (db : Db) → IsConsistent db → IsConsistent (insert_file f s db).1
unfolding insert_file
insert_file-IsConsistent f s db c =
    update-IsConsistent (insert_file_tx f s) db c (insert_file_tx-IsConsistent f s db c)
