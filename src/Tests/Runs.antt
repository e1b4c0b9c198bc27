-- ===== src/Tests/Runs.antt =====
-- Sequences of transactions on a stored packfile.
use jotfs.Prelude.{◌≡◌, ◌≢◌, refl, arith, [], ◌∷◌, List, ℕ}
use jotfs.Errors.{ok, err, db_not_found}
use jotfs.Sum.{Sum, sum_eq, IsSum}
use jotfs.Table.{exists, first, max_id, next_id, rows, update_rows}
use jotfs.Db.{Db, update}
use jotfs.Db.Files.{
  add_file, add_version, can_decrement, decrement, decrement_all, delete_file, delete_found,
  delete_version, find_chunk, get_pack_index_id, has_length, insert_chunk, insert_file,
  insert_file_chunks, insert_file_if_not_exists, insert_file_tx, insert_file_version, insert_name,
  is_taken, name_eq, refer,
}
use jotfs.Step.{gets, lift, pure, ◌>>=◌}
use jotfs.Db.Packs.{with_error}
use jotfs.Object.File.{file_size}
use jotfs.Db.Queries.{get_chunk_size}
use jotfs.Db.Contents.{get_file}
use jotfs.Db.Contents.Scanned.{Fits}
use jotfs.Db.Contents.RoundTrip.{get_file-insert_file}
use jotfs.Db.Contents.Removed.{get_file-delete_file}
use jotfs.Db.Keys.{IsKeyed}
use jotfs.Db.Refinement.{Operation, put_file, remove_file, put_pack, mark_blocks, run, SimulatesAll}
use jotfs.Db.Refinement.Runs.{run-SimulatesAll}
use jotfs.Db.Refinement.Steps.{files_of}
use jotfs.Tests.Database.{stored-IsConsistent}
use jotfs.Tests.Data.{sum_a, sum_b, sum_p, sum_v, two_blocks, file_a, stored}

differ : ◌≢◌ {A = ℕ} 1 2
differ e = absurd (omega (arith, e))

pub stored-IsKeyed : IsKeyed stored
unfolding sum_eq
stored-IsKeyed = record {
  files = (tt, tt);
  versions = (tt, tt);
  indexes = ((differ, tt), (tt, tt));
  sums = (tt, tt);
}

size_a : get_chunk_size sum_a stored ≡ ok 100
unfolding sum_eq get_chunk_size first
size_a = refl

pub file_a-Fits : Fits file_a.chunks stored
file_a-Fits = record {
  ordered = ((omega arith, tt), (tt, tt));
  sums = (sum_a-IsSum, (sum_a-IsSum, tt));
  sizes = (size_a, (size_a, tt));
}
  where
    sum_a-IsSum : IsSum sum_a
    sum_a-IsSum = refl

abbrev inserted : Db
inserted = (insert_file file_a sum_b stored).1

insert_succeeds : (insert_file file_a sum_b stored).0 ≡ ok tt
unfolding sum_eq insert_file update insert_file_tx ◌>>=◌ with_error insert_file_if_not_exists first
    name_eq insert_file_version file_size is_taken exists add_version insert_file_chunks
    insert_chunk find_chunk get_pack_index_id add_file has_length insert_name refer gets lift pure
    max_id next_id update_rows
insert_succeeds = refl

get_file-insert_file_example :
    (get_file sum_b inserted ≡ ok file_a)
    × ((t : Sum) → t ≢ sum_b → get_file t inserted ≡ get_file t stored)
get_file-insert_file_example =
    get_file-insert_file file_a sum_b stored inserted stored-IsConsistent stored-IsKeyed file_a-Fits
      (λ i. (insert_succeeds i, inserted))

abbrev deleted : Db
deleted = (delete_file sum_v stored).1

delete_succeeds : (delete_file sum_v stored).0 ≡ ok tt
unfolding sum_eq delete_file update delete_found first ◌>>=◌ decrement_all rows decrement exists
    can_decrement update_rows delete_version
delete_succeeds = refl

get_file-delete_file_example :
    (get_file sum_v deleted ≡ err db_not_found)
    × ((t : Sum) → t ≢ sum_v → get_file t deleted ≡ get_file t stored)
get_file-delete_file_example =
    get_file-delete_file sum_v stored deleted stored-IsKeyed (λ i. (delete_succeeds i, deleted))

abbrev transactions : List Operation
transactions =
    put_file file_a sum_b
    ∷ remove_file sum_v
    ∷ put_pack two_blocks 950
    ∷ mark_blocks 5_000
    ∷ remove_file sum_p
    ∷ []

run-SimulatesAll_example :
    SimulatesAll transactions
      (files_of stored)
      (run transactions stored).0
      (files_of (run transactions stored).1)
run-SimulatesAll_example =
    run-SimulatesAll transactions stored stored-IsConsistent stored-IsKeyed
      (file_a-Fits, (tt, (tt, (tt, (tt, tt)))))
