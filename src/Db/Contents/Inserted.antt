-- ===== src/Db/Contents/Inserted.antt =====
-- What `InsertFile` added where it returned.
use jotfs.Prelude.{ℕ, ◌≡◌, sym, ◌∙◌, ap, subst, true, false, List, [], ◌∷◌, ◌++◌, ◌==◌}
use jotfs.Errors.{Result, ok, err}
use jotfs.Step.Returns.{bind-ok}
use jotfs.Sum.{Sum, sum_eq}
use jotfs.Object.File.{File}
use jotfs.Table.{first, exists, next_id}
use jotfs.Table.Sort.Pages.{Distinct}
use jotfs.Db.{Db, ContentRow, update, commit_or_rollback}
use jotfs.Db.Files.{insert_file_tx, insert_file}
use jotfs.Db.Integrity.{has_file}
use jotfs.Db.Contents.{file_name}
use jotfs.Db.Contents.Views.{views}
use jotfs.Db.Contents.Chunks.{Stand, insert_file_chunks-Extended}
use jotfs.Db.Contents.Added.{
  new_version, with_error-ok, file_name-same, insert_file_if_not_exists-Named,
  insert_file_version-Versioned,
}

-- The rows that were added
pub record Inserted (f : File) (s : Sum) (db db' : Db) : Type 0 where
  pub k : ℕ
  pub ver : ℕ
  pub added : List ContentRow
  pub named : file_name k db' ≡ ok f.name
  pub others : (j : ℕ) → has_file db.files j ≡ true → file_name j db' ≡ file_name j db
  pub fresh : ver ≡ next_id (λ v. v.id) db.file_versions
  pub free : exists (λ v. sum_eq v.sum s) db.file_versions ≡ false
  pub versions : db'.file_versions ≡ db.file_versions ++ (new_version ver k f s ∷ [])
  pub contents : db'.file_contents ≡ db.file_contents ++ added
  pub same_views : (c : ContentRow) → views db'.indexes c ≡ views db.indexes c
  pub stand : Stand ver db.indexes f.chunks added
  pub distinct_files : Distinct (λ g. g.id) db'.files
  pub distinct_indexes : Distinct (λ i. i.id) db.indexes → Distinct (λ i. i.id) db'.indexes

pub update-ok :
    {A : Type 0} (t : Db → Result A × Db) (db db' : Db) {a : A}
    → update t db ≡ (ok a, db')
    → t db ≡ (ok a, db')
unfolding update
update-ok {A} t db db' {a} e = go (t db) e
  where
    go : (p : Result A × Db) → commit_or_rollback db p ≡ (ok a, db') → p ≡ (ok a, db')
    go (ok x, d) e' = e'
    go (err x, d) e' = absurd (cc e')

pub insert_file-Inserted :
    (f : File) (s : Sum) (db db' : Db)
    → Distinct (λ g. g.id) db.files
    → insert_file f s db ≡ (ok tt, db')
    → Inserted f s db db'
unfolding insert_file insert_file_tx
insert_file-Inserted f s db db' d e =
    let (k, db1, e1, r1) = bind-ok _ _ db db' (update-ok (insert_file_tx f s) db db' e) in
    let (ver, db2, e2, r2) = bind-ok _ _ db1 db' r1 in
    let n = insert_file_if_not_exists-Named k f.name db db1 d (with_error-ok _ _ db db1 e1) in
    let v = insert_file_version-Versioned ver k f s db1 db2 (with_error-ok _ _ db1 db2 e2) in
    let x = insert_file_chunks-Extended ver f.chunks db2 db' (with_error-ok _ _ db2 db' r2) in
    let files : db'.files ≡ db1.files = x.files ∙ v.files in
    let indexes : db2.indexes ≡ db.indexes = v.indexes ∙ n.indexes in
    record {
      k = k;
      ver = ver;
      added = x.added;
      named = file_name-same k db1 db' (ap (first (λ g. g.id == k)) files) ∙ n.named;
      others =
          λ j has. file_name-same j db1 db' (ap (first (λ g. g.id == j)) files) ∙ n.others j has;
      fresh = v.fresh ∙ ap (next_id (λ w. w.id)) n.versions;
      free = sym (ap (exists (λ w. sum_eq w.sum s)) n.versions) ∙ v.free;
      versions = x.versions ∙ v.versions ∙ ap (λ t. t ++ (new_version ver k f s ∷ [])) n.versions;
      contents = x.contents ∙ ap (λ t. t ++ x.added) (v.contents ∙ n.contents);
      same_views = λ c. x.same_views c ∙ ap (λ is. views is c) indexes;
      stand = subst (λ is. Stand ver is f.chunks x.added) indexes x.stand;
      distinct_files = subst (Distinct (λ g. g.id)) (sym files) n.distinct;
      distinct_indexes = λ di. x.distinct (subst (Distinct (λ i. i.id)) (sym indexes) di);
    }
