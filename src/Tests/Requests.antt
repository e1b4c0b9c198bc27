-- ===== src/Tests/Requests.antt =====
-- Requests on the stored file, with a store in memory.
use jotfs.Prelude.{ℕ, ◌≡◌, ◌++◌, refl, arith, Bool, true, false, some, [], ◌∷◌}
use jotfs.Errors.{ok, err, message, not_found}
use jotfs.Bytes.{Bytes}
use jotfs.Sum.{sum_eq, from_bytes, compute}
use jotfs.Db.{Db, VersionRow}
use jotfs.Db.Integrity.{IsConsistent}
use jotfs.Db.Queries.{FileInfo, created, join_files, with_name, select_page, scan_infos}
use jotfs.Table.Sort.Pages.{Distinct}
use jotfs.Server.World.{World}
use jotfs.Server.Files.{create_file, copy, delete}
use jotfs.Server.Files.Integrity.{create_file-IsConsistent}
use jotfs.Server.Files.Atomic.{create_file-unchanged, copy-unchanged, delete-unchanged}
use jotfs.Server.Listing.{next_token}
use jotfs.Server.Listing.Pages.{select_page-next_token}
use jotfs.Tests.Database.{stored-IsConsistent}
use jotfs.Tests.Data.{sum_a, sum_b, sum_v, length_hash, stored, two_versions, memory, config}

abbrev world : (works : Bool) → World (memory works)
world works = record { db = stored; objects = [] }

create_file-IsConsistent_example :
    IsConsistent
      (create_file
        (memory true)
        config
        length_hash
        5_000
        (47 ∷ 98 ∷ [])
        (sum_a ∷ sum_b ∷ [])
        (world true)).1.db
create_file-IsConsistent_example =
    create_file-IsConsistent (memory true) config length_hash 5_000 (47 ∷ 98 ∷ [])
      (sum_a ∷ sum_b ∷ []) (world true) stored-IsConsistent

put_fails :
    (create_file
      (memory false)
      config
      length_hash
      5_000
      (47 ∷ 98 ∷ [])
      (sum_a ∷ [])
      (world false)).0
    ≡ err (message "put")
unfolding create_file jotfs.Step.◌>>=◌ jotfs.Server.Names.validate_filename
    jotfs.Server.Names.clean_filename jotfs.Server.Names.trim_slash jotfs.Server.Names.with_root
    jotfs.Server.Names.path_clean jotfs.Server.Names.trim_space jotfs.Server.Names.reverse_onto
    jotfs.Server.Names.trim_right jotfs.Server.Names.trim_left jotfs.Server.Names.is_space_2
    jotfs.Server.Names.is_space_3 jotfs.Server.Names.join jotfs.Server.Names.clean_elements
    jotfs.Server.Names.split jotfs.Server.Names.clean_element jotfs.Server.Names.go_up sum_eq
    from_bytes compute jotfs.Server.World.on_store jotfs.Server.World.query jotfs.Table.first
    jotfs.Table.rows jotfs.Table.Sort.ascending jotfs.Table.Sort.insert jotfs.Errors.is_db_not_found
    jotfs.Server.Files.save_file jotfs.Server.Files.create_named jotfs.Server.Files.prev_version
    jotfs.Server.Files.find_chunks jotfs.Db.Queries.get_latest_file_version
    jotfs.Db.Queries.get_file_versions jotfs.Db.Queries.select_page
    jotfs.Db.Queries.order_by_created jotfs.Db.Queries.get_chunk_size jotfs.Table.Sort.descending
    jotfs.Db.Files.name_eq join_files with_name scan_infos
put_fails = refl

create_file-unchanged_example :
    (create_file
      (memory false)
      config
      length_hash
      5_000
      (47 ∷ 98 ∷ [])
      (sum_a ∷ [])
      (world false)).1.db
    ≡ stored
create_file-unchanged_example =
    create_file-unchanged (memory false) config length_hash 5_000 (47 ∷ 98 ∷ []) (sum_a ∷ [])
      (world false) (message "put") put_fails

copy_fails :
    (copy (memory false) length_hash 5_000 (some sum_v) (47 ∷ 98 ∷ []) (world false)).0
    ≡ err (message "put")
unfolding copy jotfs.Step.◌>>=◌ jotfs.Server.Names.validate_filename
    jotfs.Server.Names.clean_filename jotfs.Server.Names.trim_slash jotfs.Server.Names.with_root
    jotfs.Server.Names.path_clean jotfs.Server.Names.trim_space jotfs.Server.Names.reverse_onto
    jotfs.Server.Names.trim_right jotfs.Server.Names.trim_left jotfs.Server.Names.is_space_2
    jotfs.Server.Names.is_space_3 jotfs.Server.Names.join jotfs.Server.Names.clean_elements
    jotfs.Server.Names.split jotfs.Server.Names.clean_element jotfs.Server.Names.go_up sum_eq
    from_bytes compute jotfs.Server.World.on_store jotfs.Server.World.query jotfs.Table.first
    jotfs.Table.rows jotfs.Table.Sort.ascending jotfs.Table.Sort.insert jotfs.Errors.is_db_not_found
    jotfs.Server.Files.save_file jotfs.Server.Files.copy_named jotfs.Db.Contents.get_file
    jotfs.Db.Contents.read_file jotfs.Db.Contents.file_name jotfs.Db.Contents.version_chunks
    jotfs.Db.Contents.join_indexes jotfs.Db.Contents.with_index jotfs.Db.Contents.scan_chunks
    jotfs.Db.Queries.parse_vflag
copy_fails = refl

copy-unchanged_example :
    (copy (memory false) length_hash 5_000 (some sum_v) (47 ∷ 98 ∷ []) (world false)).1.db ≡ stored
copy-unchanged_example =
    copy-unchanged (memory false) length_hash 5_000 (some sum_v) (47 ∷ 98 ∷ []) (world false)
      (message "put") copy_fails

no_file : (delete (memory true) (some sum_b) (world true)).0 ≡ err (not_found "file")
unfolding delete jotfs.Step.◌>>=◌ from_bytes jotfs.Server.World.query jotfs.Db.Queries.get_file_info
    jotfs.Table.first join_files with_name sum_eq jotfs.Errors.is_db_not_found
no_file = refl

delete-unchanged_example : (delete (memory true) (some sum_b) (world true)).1.db ≡ stored
delete-unchanged_example =
    delete-unchanged (memory true) (some sum_b) (world true) (not_found "file") no_file

abbrev oldest : Bytes × VersionRow
oldest = (
  47 ∷ 97 ∷ [],
  record {
    id = 1;
    file = 1;
    created_at = 1_000;
    size = 200;
    num_chunks = 2;
    sum = sum_v;
    versioned = 1;
  },
)

abbrev info : FileInfo
info = record { name = 47 ∷ 97 ∷ []; created_at = 1_000; size = 200; sum = sum_v; versioned = true }

one_page : select_page (λ n. true) 0 1 true two_versions ≡ oldest ∷ []
unfolding select_page jotfs.Db.Queries.order_by_created jotfs.Table.Sort.ascending jotfs.Table.rows
    join_files with_name
one_page = refl

scanned : scan_infos (oldest ∷ []) ≡ ok (info ∷ [])
unfolding scan_infos jotfs.Db.Queries.scan_info from_bytes jotfs.Db.Queries.parse_vflag
scanned = refl

distinct : Distinct created (join_files two_versions.files two_versions.file_versions)
unfolding join_files with_name
distinct = (((λ e. absurd (omega (arith, e))), tt), (tt, tt))

select_page-next_token_example :
    (token : ℕ) × (next_token 1 (info ∷ []) ≡ some token)
    × (select_page (λ n. true) 0 1 true two_versions
          ++ select_page (λ n. true) token 1 true two_versions
        ≡ select_page (λ n. true) 0 2 true two_versions)
select_page-next_token_example =
    select_page-next_token (λ n. true) 0 1 two_versions [] oldest (info ∷ []) distinct one_page refl
      scanned
