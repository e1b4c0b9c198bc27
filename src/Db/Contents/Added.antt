-- ===== src/Db/Contents/Added.antt =====
-- What `insertFileIfNotExists` and `insertFileVersion` did where they returned.
use jotfs.Prelude.{
  ℕ, ◌≡◌, refl, ◌∙◌, ap, subst, arith, Bool, true, false, inl, inr, some, Option-cases, [], ◌∷◌,
  ◌++◌, length, ◌==◌, ==_iff, not, ◌&&◌,
}
use jotfs.Errors.{Error, Result, ok, err, map_err}
use jotfs.Step.{lift, gets}
use jotfs.Step.Returns.{bind-ok, lift-ok}
use jotfs.Bytes.{Bytes}
use jotfs.Sum.{Sum, sum_eq, eq_of_sum_eq}
use jotfs.Object.File.{File, file_size, version_tag}
use jotfs.Table.{first, exists, next_id}
use jotfs.Table.Laws.{exists-next_id}
use jotfs.Table.Keys.{
  first-append_new, first-append_old, first-by_id, first_holds, Distinct-next_id,
}
use jotfs.Table.Sort.Pages.{Distinct}
use jotfs.Db.{Db, FileRow, VersionRow, Tx, uint64_arg, is_positive, check}
use jotfs.Db.Packs.{with_error}
use jotfs.Db.Files.{
  name_eq, has_length, add_file, insert_name, insert_file_if_not_exists, is_taken, add_version,
  insert_file_version,
}
use jotfs.Db.Integrity.{has_file}
use jotfs.Db.Contents.{file_name}

pub with_error-ok :
    {A : Type 0} (f : Error → Error) (m : Tx A) (db db' : Db) {a : A}
    → with_error f m db ≡ (ok a, db')
    → m db ≡ (ok a, db')
unfolding with_error
with_error-ok {A} f m db db' {a} e = go (m db) e
  where
    go :
        (p : Result A × Db)
        → ◌≡◌ {A = Result A × Db} (map_err f p.0, p.1) (ok a, db')
        → p ≡ (ok a, db')
    go (ok x, t) e' = cc e'
    go (err x, t) e' = absurd (cc e')

-- A file of this name has the row id `k`, and the names of the other files are as they were.
pub record Named (k : ℕ) (name : Bytes) (db db' : Db) : Type 0 where
  pub named : file_name k db' ≡ ok name
  pub others : (j : ℕ) → has_file db.files j ≡ true → file_name j db' ≡ file_name j db
  pub versions : db'.file_versions ≡ db.file_versions
  pub contents : db'.file_contents ≡ db.file_contents
  pub indexes : db'.indexes ≡ db.indexes
  pub distinct : Distinct (λ f. f.id) db'.files

file_name-first :
    (k : ℕ) (db : Db) (f : FileRow)
    → first (λ g. g.id == k) db.files ≡ some f
    → file_name k db ≡ ok f.name
unfolding file_name
file_name-first k db f e = rw (e, file_name) refl

pub file_name-same :
    (k : ℕ) (db db' : Db)
    → first (λ g. g.id == k) db'.files ≡ first (λ g. g.id == k) db.files
    → file_name k db' ≡ file_name k db
unfolding file_name
file_name-same k db db' e = cc e

add_file-Named :
    (name : Bytes) (db : Db)
    → Distinct (λ f. f.id) db.files
    → Named (next_id (λ f. f.id) db.files) name db (add_file name db).1
unfolding add_file
add_file-Named name db d = record {
  named =
      file_name-first id (record db { files = db.files ++ (row ∷ []) }) row
        (first-append_new (λ f. f.id == id) db.files row (exists-next_id (λ f. f.id) db.files)
          ((==_iff id id).1 refl));
  others = λ j has.
      file_name-same j db (record db { files = db.files ++ (row ∷ []) })
        (first-append_old (λ f. f.id == j) db.files (row ∷ []) has);
  versions = refl;
  contents = refl;
  indexes = refl;
  distinct = Distinct-next_id (λ f. f.id) db.files row refl d;
}
  where
    id : ℕ
    id = next_id (λ (f : FileRow). f.id) db.files

    row : FileRow
    row = record { id = id; name = name }

insert_name-Named :
    (k : ℕ) (name : Bytes) (db db' : Db)
    → Distinct (λ f. f.id) db.files
    → insert_name name db ≡ (ok k, db')
    → Named k name db db'
unfolding insert_name add_file
insert_name-Named k name db db' d e =
    let (u, db1, checked, added) = bind-ok (lift (check (has_length name))) _ db db' e in
    let same = (lift-ok (check (has_length name)) db db1 checked).1 in
    let whole : add_file name db ≡ (ok k, db') = ap (add_file name) same ∙ added in
    let id_eq : next_id (λ (f : FileRow). f.id) db.files ≡ k = cc whole in
    subst (λ j. Named j name db db') id_eq
      (subst (Named (next_id (λ (f : FileRow). f.id) db.files) name db) (λ i. (whole i).1)
        (add_file-Named name db d))

known-Named :
    (name : Bytes) (db : Db) (f : FileRow)
    → Distinct (λ g. g.id) db.files
    → first (λ g. name_eq g.name name) db.files ≡ some f
    → Named f.id name db db
unfolding name_eq
known-Named name db f d found = record {
  named =
      file_name-first f.id db f
        (first-by_id (λ g. g.id) (λ g. sum_eq g.name name) db.files f d found)
      ∙ ap (λ (n : Bytes). ok n)
          (eq_of_sum_eq f.name name (first_holds (λ g. sum_eq g.name name) db.files f found));
  others = λ j has. refl;
  versions = refl;
  contents = refl;
  indexes = refl;
  distinct = d;
}

pub insert_file_if_not_exists-Named :
    (k : ℕ) (name : Bytes) (db db' : Db)
    → Distinct (λ f. f.id) db.files
    → insert_file_if_not_exists name db ≡ (ok k, db')
    → Named k name db db'
unfolding insert_file_if_not_exists
insert_file_if_not_exists-Named k name db db' d e =
    elim (Option-cases (first (λ f. name_eq f.name name) db.files)) [
      | inl none_found ↦
          insert_name-Named k name db db' d (rw (none_found, insert_file_if_not_exists) at e)
      | inr (f, found) ↦
          let here : (ok f.id, db) ≡ (ok k, db') = rw (found, insert_file_if_not_exists) at e in
          let id_eq : f.id ≡ k = cc here in
          subst (λ j. Named j name db db') id_eq
            (subst (Named f.id name db) (λ i. (here i).1) (known-Named name db f d found))
    ]

abbrev pub new_version : ℕ → ℕ → File → Sum → VersionRow
new_version id file_id f s = record {
  id = id;
  file = file_id;
  created_at = f.created_at;
  size = file_size f;
  num_chunks = length f.chunks;
  sum = s;
  versioned = version_tag f.versioned;
}

-- The version of the file is new, and the last row.
pub record Versioned (ver k : ℕ) (f : File) (s : Sum) (db db' : Db) : Type 0 where
  pub fresh : ver ≡ next_id (λ v. v.id) db.file_versions
  pub free : exists (λ v. sum_eq v.sum s) db.file_versions ≡ false
  pub versions : db'.file_versions ≡ db.file_versions ++ (new_version ver k f s ∷ [])
  pub files : db'.files ≡ db.files
  pub contents : db'.file_contents ≡ db.file_contents
  pub indexes : db'.indexes ≡ db.indexes

free_of_check : (a b t : Bool) → check (a && b && not t) ≡ ok tt → t ≡ false
free_of_check a b t e = ground arith

add_version-Versioned :
    (k : ℕ) (f : File) (s : Sum) (db : Db)
    → exists (λ v. sum_eq v.sum s) db.file_versions ≡ false
    → Versioned (next_id (λ v. v.id) db.file_versions) k f s db (add_version k f s db).1
unfolding add_version
add_version-Versioned k f s db free = record {
  fresh = refl;
  free = free;
  versions = refl;
  files = refl;
  contents = refl;
  indexes = refl;
}

pub insert_file_version-Versioned :
    (ver k : ℕ) (f : File) (s : Sum) (db db' : Db)
    → insert_file_version k f s db ≡ (ok ver, db')
    → Versioned ver k f s db db'
unfolding insert_file_version add_version gets is_taken
insert_file_version-Versioned ver k f s db db' e =
    let (u, db1, sized, e1) = bind-ok (lift (uint64_arg (file_size f))) _ db db' e in
    let (taken, db2, got, e2) = bind-ok (gets (is_taken s)) _ db1 db' e1 in
    let (u', db3, checked, e3) =
      bind-ok (lift (check (is_positive f.created_at && length s == 32 && not taken))) _ db2 db'
        e2 in
    let same1 : db ≡ db1 = (lift-ok _ db db1 sized).1 in
    let same2 : db1 ≡ db2 = (λ i. (got i).1) in
    let (passed, same3) = lift-ok _ db2 db3 checked in
    let whole : add_version k f s db ≡ (ok ver, db') =
      ap (add_version k f s) (same1 ∙ same2 ∙ same3) ∙ e3 in
    let id_eq : next_id (λ (v : VersionRow). v.id) db.file_versions ≡ ver = cc whole in
    let answer : is_taken s db1 ≡ taken = cc got in
    let free : is_taken s db ≡ false =
      ap (is_taken s) same1
      ∙ answer
      ∙ free_of_check (is_positive f.created_at) (length s == 32) taken passed in
    subst (λ j. Versioned j k f s db db') id_eq
      (subst (Versioned (next_id (λ (v : VersionRow). v.id) db.file_versions) k f s db)
        (λ i. (whole i).1) (add_version-Versioned k f s db free))
