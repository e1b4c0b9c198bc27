-- ===== src/Tests/Database.antt =====
-- Transactions on a stored packfile and a file of two chunks.
use jotfs.Prelude.{ℕ, ◌≢◌, ap, arith, [], ◌∷◌, ◌≡◌, refl, some}
use jotfs.Errors.{ok}
use jotfs.Table.{first, count, exists}
use jotfs.Sum.{sum_eq}
use jotfs.Db.{Db}
use jotfs.Db.Packs.{insert_pack_index, update_index, delete_pack_index}
use jotfs.Db.Files.{insert_file, delete_file}
use jotfs.Db.Integrity.{IsConsistent}
use jotfs.Db.Integrity.Packs.{
  insert_pack_index-IsConsistent, update_index-IsConsistent, delete_pack_index-IsConsistent,
}
use jotfs.Db.Integrity.Files.{insert_file-IsConsistent}
use jotfs.Db.Integrity.Deletes.{delete_file-ok}
use jotfs.Db.{VacuumRow}
use jotfs.Bytes.{Bytes}
use jotfs.Db.Vacuums.{
  insert_vacuum, insert_vacuum_tx, add_vacuum, update_vacuum, get_vacuum, vacuum_running, vacuum_ok,
}
use jotfs.Db.Vacuums.Status.{get_vacuum-insert_vacuum, get_vacuum-update_vacuum, finished}
use jotfs.Step.{◌>>=◌}
use jotfs.Db.{update}
use jotfs.Prelude.{false}
use jotfs.Errors.{err, constraint}
use jotfs.Server.StartVacuum.{
  Vacuuming, start_server, compare_and_swap, after_insert, swap, Reach, here, next,
}
use jotfs.Server.StartVacuum.Exclusive.{IsExclusive, Reach-IsExclusive, after_insert-refused}
use jotfs.Prelude.{All, map}
use jotfs.Db.Queries.{chunks_exist}
use jotfs.Db.Queries.Chunks.{HasSum, is_live, chunks_exist_lem}
use jotfs.Tests.Data.{sum_b, sum_p, sum_v, two_blocks, file_a, stored}

pub stored-IsConsistent : IsConsistent stored
unfolding count exists
stored-IsConsistent = record {
  refs = (refl, (refl, tt));
  content_index = (refl, (refl, tt));
  content_version = (refl, (refl, tt));
  version_file = (refl, tt);
  index_pack = (refl, (refl, tt));
}

first_version :
    first (λ w. sum_eq w.sum sum_v) stored.file_versions
    ≡ some (record {
      id = 1;
      file = 1;
      created_at = 1_000;
      size = 200;
      num_chunks = 2;
      sum = sum_v;
      versioned = 1;
    })
unfolding first sum_eq
first_version = refl

delete_file-ok_example : (db' : Db) × (delete_file sum_v stored ≡ (ok tt, db')) × IsConsistent db'
delete_file-ok_example = delete_file-ok sum_v stored _ stored-IsConsistent first_version

insert_file-IsConsistent_example : IsConsistent (insert_file file_a sum_b stored).1
insert_file-IsConsistent_example = insert_file-IsConsistent file_a sum_b stored stored-IsConsistent

insert_pack_index-IsConsistent_example : IsConsistent (insert_pack_index two_blocks 950 stored).1
insert_pack_index-IsConsistent_example =
    insert_pack_index-IsConsistent two_blocks 950 stored stored-IsConsistent

update_index-IsConsistent_example :
    IsConsistent (update_index two_blocks 950 sum_p (λ k. some k) stored).1
update_index-IsConsistent_example =
    update_index-IsConsistent two_blocks 950 sum_p (λ k. some k) stored stored-IsConsistent

delete_pack_index-IsConsistent_example : IsConsistent (delete_pack_index sum_p stored).1
delete_pack_index-IsConsistent_example =
    delete_pack_index-IsConsistent sum_p stored stored-IsConsistent

abbrev id_7 : Bytes
id_7 = 7 ∷ []

abbrev id_8 : Bytes
id_8 = 8 ∷ []

abbrev head_of : Bytes → ℕ
head_of [] = 0
head_of (b ∷ bs) = b

abbrev running : VacuumRow
running = record { id = 7 ∷ []; started_at = 3_000; status = vacuum_running; completed_at = 0 }

abbrev vacuuming : Db
vacuuming = record stored { vacuums = running ∷ [] }

inserted : insert_vacuum id_7 3_000 stored ≡ (ok id_7, vacuuming)
unfolding insert_vacuum insert_vacuum_tx add_vacuum update exists ◌>>=◌
inserted = refl

get_vacuum-insert_vacuum_example : get_vacuum id_7 vacuuming ≡ ok running
get_vacuum-insert_vacuum_example = get_vacuum-insert_vacuum id_7 3_000 stored vacuuming inserted

different_ids : id_7 ≢ id_8
different_ids e = absurd (omega (arith, ap head_of e))

get_vacuum-update_vacuum_example :
    (get_vacuum id_7 (update_vacuum id_7 4_000 vacuum_ok vacuuming).1
      ≡ ok (finished 4_000 vacuum_ok running))
    × (get_vacuum id_8 (update_vacuum id_7 4_000 vacuum_ok vacuuming).1 ≡ get_vacuum id_8 vacuuming)
get_vacuum-update_vacuum_example =
    get_vacuum-update_vacuum id_7 id_8 4_000 vacuum_ok vacuuming running different_ids
      get_vacuum-insert_vacuum_example

-- A server after its first call of `StartVacuum`
abbrev started : Vacuuming
started = (compare_and_swap (start_server stored)).1

abbrev one_started : Reach (start_server stored) started
one_started = next here (swap (start_server stored))

Reach-IsExclusive_example : IsExclusive started
Reach-IsExclusive_example = Reach-IsExclusive stored started one_started

one_starting : started.starting ≡ 1
unfolding compare_and_swap
one_starting = refl

after_insert-refused_example :
    (compare_and_swap (after_insert (err constraint, stored) (record started { starting = 0 }))).0
    ≡ false
after_insert-refused_example =
    after_insert-refused stored started
      (after_insert (err constraint, stored) (record started { starting = 0 })) 0 constraint stored
      one_started one_starting here

stored-HasSum : All HasSum stored.indexes
stored-HasSum = (refl, (refl, tt))

chunks_exist_lem_example :
    chunks_exist (sum_b ∷ sum_p ∷ []) stored
    ≡ ok (map (λ t. exists (is_live t) stored.indexes) (sum_b ∷ sum_p ∷ []))
chunks_exist_lem_example = chunks_exist_lem (sum_b ∷ sum_p ∷ []) stored stored-HasSum
