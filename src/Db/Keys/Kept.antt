-- ===== src/Db/Keys/Kept.antt =====
-- The keys after the transactions on packfiles, their blocks and files.
use jotfs.Prelude.{
  ℕ, refl, Bool, true, false, Bool-cases, inl, inr, List, [], ◌∷◌, length, ◌==◌, not, Option, none,
  some, Option-cases, if◌then◌else◌,
}
use jotfs.Errors.{Error, Result, ok, err}
use jotfs.Step.{◌>>◌}
use jotfs.Step.Keeps.{Keeps, Keeps-pure, Keeps-fail, Keeps-lift, Keeps-bind}
use jotfs.Sum.{Sum, sum_eq}
use jotfs.Object.PackIndex.{BlockInfo, PackIndex}
use jotfs.Table.{rows, first, exists, count, delete_rows}
use jotfs.Table.Keys.{Distinct-update_rows, Distinct-next_id}
use jotfs.Table.Removed.{Distinct-delete_rows, Unique-delete_rows}
use jotfs.Table.Sort.Pages.{Distinct}
use jotfs.Db.{Db, IndexRow, VersionRow, ContentRow, Tx, update, commit_or_rollback}
use jotfs.Db.Packs.{
  with_error, add_pack, insert_packfile, find_pack, or_no_mapping, set_block, move_block,
  move_blocks, update_index_tx, update_index, is_orphaned, delete_packs, delete_pack_index,
  add_block, insert_block, insert_pack_blocks, insert_pack_tx, insert_pack_index,
}
use jotfs.Db.Files.{
  can_decrement, decrement, decrement_all, delete_version, delete_found, delete_file,
}
use jotfs.Db.Vacuums.{Grouping, close_last, mark_all, mark_groups, get_zero_refcount}
use jotfs.Db.Keys.{IsKeyed}

Keyed-with_error :
    {A : Type 0} (f : Error → Error) {m : Tx A} → Keeps IsKeyed m → Keeps IsKeyed (with_error f m)
unfolding with_error
Keyed-with_error f k = record { holds = λ db s. k.holds db s }

update-IsKeyed :
    {A : Type 0} (m : Tx A) (db : Db) → Keeps IsKeyed m → IsKeyed db → IsKeyed (update m db).1
unfolding update
update-IsKeyed {A} m db k s = go (m db) (k.holds db s)
  where
    go : (p : Result A × Db) → IsKeyed p.1 → IsKeyed (commit_or_rollback db p).1
    go (ok a, db') s' = s'
    go (err e, db') s' = s

with_indexes :
    (db : Db) (is : List IndexRow)
    → IsKeyed db
    → Distinct (λ i. i.id) is
    → IsKeyed (record db { indexes = is })
with_indexes db is k d = record {
  files = k.files;
  versions = k.versions;
  indexes = d;
  sums = k.sums;
}

insert_packfile-IsKeyed : (index : PackIndex) (t : ℕ) → Keeps IsKeyed (insert_packfile index t)
unfolding insert_packfile
insert_packfile-IsKeyed index t =
    Keeps-bind (Keeps-lift IsKeyed _) (λ u. Keeps-bind (Keeps-lift IsKeyed _) (λ v. added))
  where
    added : Keeps IsKeyed (add_pack index t)
    added = record {
      holds = λ db k.
          unfold add_pack in
          record { files = k.files; versions = k.versions; indexes = k.indexes; sums = k.sums };
    }

insert_block-IsKeyed : (p : ℕ) (b : BlockInfo) → Keeps IsKeyed (insert_block p b)
unfolding insert_block
insert_block-IsKeyed p b = Keeps-bind (Keeps-lift IsKeyed _) (λ u.
    Keeps-bind (Keeps-lift IsKeyed _) (λ v. Keeps-bind (Keeps-lift IsKeyed _) (λ w.
      Keeps-bind (Keeps-lift IsKeyed _) (λ x. Keeps-bind (Keeps-lift IsKeyed _) (λ y. added)))))
  where
    added : Keeps IsKeyed (add_block p b)
    added = record {
      holds = λ db k.
          unfold add_block in
          with_indexes db _ k (Distinct-next_id (λ i. i.id) db.indexes _ refl k.indexes);
    }

insert_pack_blocks-IsKeyed : (p : ℕ) (bs : List BlockInfo) → Keeps IsKeyed (insert_pack_blocks p bs)
unfolding insert_pack_blocks
insert_pack_blocks-IsKeyed p [] = Keeps-pure IsKeyed tt
insert_pack_blocks-IsKeyed p (b ∷ bs) =
    Keeps-bind (insert_block-IsKeyed p b) (λ u. insert_pack_blocks-IsKeyed p bs)

pub insert_pack_index-IsKeyed :
    (index : PackIndex) (t : ℕ) (db : Db) → IsKeyed db → IsKeyed (insert_pack_index index t db).1
unfolding insert_pack_index insert_pack_tx
insert_pack_index-IsKeyed index t db k = elim (Bool-cases (length index.blocks == 0)) [
  | inl e ↦ rw e k
  | inr e ↦ rw e (
      update-IsKeyed _ db
        (Keeps-bind (Keyed-with_error _ (insert_packfile-IsKeyed index t))
          (λ p. Keyed-with_error _ (insert_pack_blocks-IsKeyed p index.blocks)))
        k)
]

find_pack-IsKeyed : (s : Sum) → Keeps IsKeyed (find_pack s)
unfolding find_pack
find_pack-IsKeyed s = record { holds = λ db k. found db k }
  where
    found : (db : Db) → IsKeyed db → IsKeyed (find_pack s db).1
    found db k = elim (Option-cases (first (λ p. sum_eq p.sum s) db.packs)) [
      | inl e ↦ rw (e, find_pack) k
      | inr (p, e) ↦ rw (e, find_pack) k
    ]

move_block-IsKeyed :
    (new old : ℕ) (m : ℕ → Option ℕ) (b : BlockInfo) → Keeps IsKeyed (move_block new old m b)
unfolding move_block
move_block-IsKeyed new old m b = Keeps-bind (mapped (m b.sequence)) (λ seq.
    Keeps-bind (Keeps-lift IsKeyed _) (λ u.
      Keeps-bind (Keeps-lift IsKeyed _) (λ v. Keeps-bind (Keeps-lift IsKeyed _) (λ w. moved seq))))
  where
    mapped : (o : Option ℕ) → Keeps IsKeyed (or_no_mapping o)
    mapped none = unfold or_no_mapping in Keeps-fail IsKeyed _
    mapped (some seq) = unfold or_no_mapping in Keeps-pure IsKeyed seq

    moved : (seq : ℕ) → Keeps IsKeyed (set_block new b.sequence b.offset old seq)
    moved seq = record {
      holds = λ db k.
          unfold set_block in
          with_indexes db _ k
            (Distinct-update_rows (λ i. i.id) _ _ db.indexes (λ i. refl) k.indexes);
    }

move_blocks-IsKeyed :
    (new old : ℕ) (m : ℕ → Option ℕ) (bs : List BlockInfo)
    → Keeps IsKeyed (move_blocks new old m bs)
unfolding move_blocks
move_blocks-IsKeyed new old m [] = Keeps-pure IsKeyed tt
move_blocks-IsKeyed new old m (b ∷ bs) =
    Keeps-bind (move_block-IsKeyed new old m b) (λ u. move_blocks-IsKeyed new old m bs)

pub update_index-IsKeyed :
    (index : PackIndex) (t : ℕ) (s : Sum) (m : ℕ → Option ℕ) (db : Db)
    → IsKeyed db
    → IsKeyed (update_index index t s m db).1
unfolding update_index update_index_tx
update_index-IsKeyed index t s m db k =
    update-IsKeyed _ db
      (Keeps-bind (Keyed-with_error _ (insert_packfile-IsKeyed index t)) (λ new.
        Keeps-bind (Keyed-with_error _ (find_pack-IsKeyed s))
          (λ old. move_blocks-IsKeyed new old m index.blocks)))
      k

pub delete_pack_index-IsKeyed :
    (s : Sum) (db : Db) → IsKeyed db → IsKeyed (delete_pack_index s db).1
unfolding delete_pack_index delete_packs
delete_pack_index-IsKeyed s db k = update-IsKeyed (delete_packs s) db (record { holds = gone }) k
  where
    gone : (d : Db) → IsKeyed d → IsKeyed (delete_packs s d).1
    gone d j = elim (Bool-cases (exists (is_orphaned d s) d.file_contents)) [
      | inl e ↦ rw e j
      | inr e ↦ rw e (record {
        files = j.files;
        versions = j.versions;
        indexes = Distinct-delete_rows (λ i. i.id) _ d.indexes j.indexes;
        sums = j.sums;
      })
    ]

mark_all-Distinct :
    (ks : List ℕ) (is : List IndexRow)
    → Distinct (λ i. i.id) is
    → Distinct (λ i. i.id) (mark_all ks is)
unfolding mark_all
mark_all-Distinct [] is d = d
mark_all-Distinct (k ∷ ks) is d =
    mark_all-Distinct ks _ (Distinct-update_rows (λ i. i.id) _ _ is (λ i. refl) d)

mark_groups-IsKeyed :
    (r : Result (Unit {0}) × Grouping) (db : Db) → IsKeyed db → IsKeyed (mark_groups r db).1
unfolding mark_groups
mark_groups-IsKeyed (ok u, g) db k =
    with_indexes db _ k (mark_all-Distinct (close_last g).index_ids db.indexes k.indexes)
mark_groups-IsKeyed (err e, g) db k = k

pub get_zero_refcount-IsKeyed :
    (before : ℕ) (db : Db) → IsKeyed db → IsKeyed (get_zero_refcount before db).1
unfolding get_zero_refcount
get_zero_refcount-IsKeyed before db k = mark_groups-IsKeyed _ db k

decrement-IsKeyed : (i : ℕ) → Keeps IsKeyed (decrement i)
unfolding decrement
decrement-IsKeyed i = record { holds = λ db k. down db k }
  where
    down : (db : Db) → IsKeyed db → IsKeyed (decrement i db).1
    down db k = elim (Bool-cases (exists (λ j. not (can_decrement i j)) db.indexes)) [
      | inl e ↦ rw e k
      | inr e ↦ rw e (
          with_indexes db _ k
            (Distinct-update_rows (λ j. j.id) _ _ db.indexes (λ j. refl) k.indexes))
    ]

pub decrement_all-IsKeyed : (cs : List ContentRow) → Keeps IsKeyed (decrement_all cs)
unfolding decrement_all
decrement_all-IsKeyed [] = Keeps-pure IsKeyed tt
decrement_all-IsKeyed (c ∷ cs) =
    Keeps-bind (decrement-IsKeyed c.idx) (λ u. decrement_all-IsKeyed cs)

delete_version-IsKeyed : (v : VersionRow) → Keeps IsKeyed (delete_version v)
unfolding delete_version
delete_version-IsKeyed v = record {
  holds = λ db k. record {
    files =
        names
          (count (λ w. w.file == v.file) (delete_rows (λ w. w.id == v.id) db.file_versions) == 0) db
          k;
    versions = Distinct-delete_rows (λ w. w.id) _ db.file_versions k.versions;
    indexes = k.indexes;
    sums = Unique-delete_rows _ _ db.file_versions k.sums;
  };
}
  where
    names :
        (b : Bool) (db : Db)
        → IsKeyed db
        → Distinct (λ f. f.id) (if b then delete_rows (λ f. f.id == v.file) db.files else db.files)
    names true db k = Distinct-delete_rows (λ f. f.id) _ db.files k.files
    names false db k = k.files

delete_found-IsKeyed : (o : Option VersionRow) → Keeps IsKeyed (delete_found o)
unfolding delete_found
delete_found-IsKeyed none = record { holds = λ db k. k }
delete_found-IsKeyed (some v) = record { holds = λ db k. (gone db).holds db k }
  where
    gone :
        (db : Db)
        → Keeps IsKeyed (
            decrement_all (rows (λ c. c.file_version == v.id) db.file_contents) >> delete_version v)
    gone db = Keeps-bind (decrement_all-IsKeyed _) (λ u. delete_version-IsKeyed v)

pub delete_file-IsKeyed : (s : Sum) (db : Db) → IsKeyed db → IsKeyed (delete_file s db).1
unfolding delete_file
delete_file-IsKeyed s db k =
    update-IsKeyed (λ d. delete_found (first (λ v. sum_eq v.sum s) d.file_versions) d) db
      (record {
        holds =
            λ d j. (delete_found-IsKeyed (first (λ v. sum_eq v.sum s) d.file_versions)).holds d j;
      })
      k
