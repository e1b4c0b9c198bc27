-- ===== src/Db/Refinement/Steps.antt =====
-- What `GetFile` returns after a transaction.
use jotfs.Prelude.{
  ◌≡◌, ◌≢◌, refl, sym, ◌∙◌, ap, subst, false, Bool-cases, inl, inr, none, Option-cases,
}
use jotfs.Errors.{Error, Result, ok, err, db_not_found}
use jotfs.Sum.{Sum, sum_eq, sum_eq_refl, eq_of_sum_eq}
use jotfs.Object.File.{File}
use jotfs.Table.{first, exists}
use jotfs.Table.Keys.{Distinct-next_id}
use jotfs.Table.Removed.{Unique, Unique-append, first-exists}
use jotfs.Table.Sort.Pages.{Distinct}
use jotfs.Db.{Db, update, commit_or_rollback}
use jotfs.Db.Files.{insert_file_tx, insert_file, delete_file, delete_found}
use jotfs.Db.Keys.{IsKeyed, same_sum}
use jotfs.Db.Integrity.{IsConsistent}
use jotfs.Db.Integrity.Deletes.{delete_file-ok}
use jotfs.Db.Contents.{get_file}
use jotfs.Db.Contents.Views.{SameFiles, get_file-SameFiles}
use jotfs.Db.Contents.Scanned.{Fits}
use jotfs.Db.Contents.Added.{new_version}
use jotfs.Db.Contents.Inserted.{insert_file-Inserted}
use jotfs.Db.Contents.RoundTrip.{get_file-insert_file}
use jotfs.Db.Contents.Removed.{get_file-delete_file}
use jotfs.Db.Refinement.{
  put_file, remove_file, succeeded, FileMap, set, Simulates, new_file, refused, removed, missing,
}

abbrev pub files_of : Db → FileMap
files_of db t = get_file t db

set_lem :
    (s : Sum) (r : Result File) (m m' : FileMap)
    → m' s ≡ r
    → ((t : Sum) → t ≢ s → m' t ≡ m t)
    → (t : Sum) → m' t ≡ set s r m t
unfolding set
set_lem s r m m' here others t = elim (Bool-cases (sum_eq t s)) [
  | inl e ↦ rw e (ap m' (eq_of_sum_eq t s e) ∙ here)
  | inr e ↦ rw e (others t (λ k. absurd (cc (ap (λ x. sum_eq x s) k, sum_eq_refl s, e))))
]

pub get_file_none :
    (s : Sum) (db : Db)
    → exists (λ v. sum_eq v.sum s) db.file_versions ≡ false
    → get_file s db ≡ err db_not_found
unfolding get_file
get_file_none s db e = rw (first-exists (λ v. sum_eq v.sum s) db.file_versions e, get_file) refl

insert_file-err :
    (f : File) (s : Sum) (db db' : Db) (x : Error) → insert_file f s db ≡ (err x, db') → db ≡ db'
unfolding insert_file update
insert_file-err f s db db' x e = go (insert_file_tx f s db) e
  where
    go : (p : Result (Unit {0}) × Db) → commit_or_rollback db p ≡ (err x, db') → db ≡ db'
    go (ok u, d) k = absurd (cc k)
    go (err y, d) k = λ i. (k i).1

pub insert_file-Simulates :
    (f : File) (s : Sum) (db : Db)
    → IsConsistent db
    → IsKeyed db
    → Fits f.chunks db
    → Simulates
        (put_file f s)
        (files_of db)
        (succeeded (insert_file f s db)).0
        (files_of (succeeded (insert_file f s db)).1)
insert_file-Simulates f s db c k fits = go (insert_file f s db) refl
  where
    go :
        (p : Result (Unit {0}) × Db)
        → insert_file f s db ≡ p
        → Simulates (put_file f s) (files_of db) (succeeded p).0 (files_of (succeeded p).1)
    go (ok u, db') e =
        let (here, others) = get_file-insert_file f s db db' c k fits e in
        new_file f s (files_of db) (files_of db')
          (get_file_none s db (insert_file-Inserted f s db db' k.files e).free)
          (set_lem s (ok f) (files_of db) (files_of db') here others)
    go (err x, db') e =
        refused f s (files_of db) (files_of db')
          (λ t. ap (get_file t) (sym (insert_file-err f s db db' x e)))

pub insert_file-IsKeyed :
    (f : File) (s : Sum) (db : Db) → IsKeyed db → IsKeyed (insert_file f s db).1
insert_file-IsKeyed f s db k = go (insert_file f s db) refl
  where
    go : (p : Result (Unit {0}) × Db) → insert_file f s db ≡ p → IsKeyed p.1
    go (ok u, db') e =
        let x = insert_file-Inserted f s db db' k.files e in
        record {
          files = x.distinct_files;
          versions = subst (Distinct (λ v. v.id)) (sym x.versions) (
              Distinct-next_id (λ v. v.id) db.file_versions (new_version x.ver x.k f s) x.fresh
                k.versions);
          indexes = x.distinct_indexes k.indexes;
          sums =
              subst (Unique same_sum) (sym x.versions)
                (Unique-append same_sum db.file_versions (new_version x.ver x.k f s) x.free k.sums);
        }
    go (err x, db') e = subst IsKeyed (insert_file-err f s db db' x e) k

pub delete_file-Simulates :
    (s : Sum) (db : Db)
    → IsConsistent db
    → IsKeyed db
    → Simulates
        (remove_file s)
        (files_of db)
        (succeeded (delete_file s db)).0
        (files_of (succeeded (delete_file s db)).1)
delete_file-Simulates s db c k =
    elim (Option-cases (first (λ v. sum_eq v.sum s) db.file_versions)) [
      | inl e ↦
          subst
            (λ p.
              Simulates (remove_file s) (files_of db) (succeeded p).0 (files_of (succeeded p).1))
            (sym (not_there e)) (missing s (files_of db) (files_of db) (no_file e) (λ t. refl))
      | inr (v, e) ↦
          let (db', d, c') = delete_file-ok s db v c e in
          let (here, others) = get_file-delete_file s db db' k d in
          subst
            (λ p.
              Simulates (remove_file s) (files_of db) (succeeded p).0 (files_of (succeeded p).1))
            (sym d)
            (removed s (files_of db) (files_of db')
              (set_lem s (err db_not_found) (files_of db) (files_of db') here others))
    ]
  where
    not_there :
        first (λ v. sum_eq v.sum s) db.file_versions ≡ none
        → delete_file s db ≡ (err db_not_found, db)
    not_there e = unfold delete_file update delete_found in rw e refl

    no_file : first (λ v. sum_eq v.sum s) db.file_versions ≡ none → get_file s db ≡ err db_not_found
    no_file e = unfold get_file in rw (e, get_file) refl

-- A transaction that does not touch the files
pub unseen :
    {A : Type 0} (db : Db) (p : Result A × Db)
    → SameFiles db p.1
    → (t : Sum) → files_of (succeeded p).1 t ≡ files_of db t
unseen db (ok a, db') k t = get_file-SameFiles t db db' k
unseen db (err e, db') k t = get_file-SameFiles t db db' k
