-- ===== src/Db/Keys.antt =====
-- The keys of the tables: row ids, and the unique index of `file_versions`.
pub mod Kept
use jotfs.Prelude.{Bool}
use jotfs.Sum.{sum_eq}
use jotfs.Table.Removed.{Unique}
use jotfs.Table.Sort.Pages.{Distinct}
use jotfs.Db.{Db, VersionRow}

abbrev pub same_sum : VersionRow → VersionRow → Bool
same_sum v w = sum_eq v.sum w.sum

pub record IsKeyed (db : Db) : Type 0 where
  pub files : Distinct (λ f. f.id) db.files
  pub versions : Distinct (λ v. v.id) db.file_versions
  pub indexes : Distinct (λ i. i.id) db.indexes
  pub sums : Unique same_sum db.file_versions
