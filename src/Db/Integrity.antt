-- ===== src/Db/Integrity.antt =====
-- The integrity of the database: its references, and the reference counts of the blocks.
pub mod Packs
pub mod Files
pub mod Deletes
pub mod Marks
use jotfs.Prelude.{ℕ, ◌≡◌, Bool, true, All, ◌==◌, List, refl}
use jotfs.Errors.{Error, Result, ok, err, map_err}
use jotfs.Step.Ensures.{Post, Ensures}
use jotfs.Table.{exists, count}
use jotfs.Db.Packs.{with_error}
use jotfs.Db.{
  Db, PackRow, IndexRow, FileRow, VersionRow, ContentRow, Tx, update, commit_or_rollback,
}

abbrev pub has_pack : List PackRow → ℕ → Bool
has_pack t k = exists (λ p. p.id == k) t

abbrev pub has_index : List IndexRow → ℕ → Bool
has_index t k = exists (λ i. i.id == k) t

abbrev pub has_file : List FileRow → ℕ → Bool
has_file t k = exists (λ f. f.id == k) t

abbrev pub has_version : List VersionRow → ℕ → Bool
has_version t k = exists (λ v. v.id == k) t

-- How often the chunks of the files refer to a block
abbrev pub references : List ContentRow → ℕ → ℕ
references t k = count (λ c. c.idx == k) t

-- Every reference of the schema has its row, and `refcount` counts the references to its block.
pub record IsConsistent (db : Db) : Type 0 where
  pub refs : All (λ i. i.refcount ≡ references db.file_contents i.id) db.indexes
  pub content_index : All (λ c. has_index db.indexes c.idx ≡ true) db.file_contents
  pub content_version :
      All (λ c. has_version db.file_versions c.file_version ≡ true) db.file_contents
  pub version_file : All (λ v. has_file db.files v.file ≡ true) db.file_versions
  pub index_pack : All (λ i. has_pack db.packs i.pack ≡ true) db.indexes

-- A transaction that keeps integrity where it returns keeps it also where it is rolled back.
pub update-IsConsistent :
    {A : Type 0} (f : Tx A) (db : Db)
    → IsConsistent db
    → Ensures (λ _ db'. IsConsistent db') f db
    → IsConsistent (update f db).1
unfolding update
update-IsConsistent {A} f db c h = go (f db) h.holds
  where
    go :
        (p : Result A × Db)
        → Post (λ _ db'. IsConsistent db') p
        → IsConsistent (commit_or_rollback db p).1
    go (ok a, db') k = k
    go (err e, db') k = c

pub Ensures-with_error :
    {A : Type 0} {Q : A → Db → Type 0} (f : Error → Error) {m : Tx A} {db : Db}
    → Ensures Q m db
    → Ensures Q (with_error f m) db
unfolding with_error
Ensures-with_error {A} {Q} f {m} {db} h = record { holds = go (m db) h.holds }
  where
    go : (p : Result A × Db) → Post Q p → Post Q (map_err f p.0, p.1)
    go (ok a, db') k = k
    go (err e, db') k = tt
