-- ===== src/Tests/Readable.antt =====
-- A file that replaces an unversioned one, whose version before is deleted, and a copy of a file.
use jotfs.Prelude.{◌≡◌, ◌≢◌, refl, map, some, true, false, [], ◌∷◌}
use jotfs.Errors.{Result, ok, err}
use jotfs.Bytes.{Bytes}
use jotfs.Sum.{Sum, sum_eq, compute}
use jotfs.Object.File.{File, marshal_binary}
use jotfs.Db.{Db}
use jotfs.Db.Contents.{get_file}
use jotfs.Db.Integrity.{IsConsistent}
use jotfs.Db.Keys.{IsKeyed}
use jotfs.Server.Names.{clean_filename}
use jotfs.Server.World.{World}
use jotfs.Server.Files.{create_file, copy}
use jotfs.Server.Files.Readable.{get_file-create_file}
use jotfs.Server.Files.Copied.{copy_of, get_file-copy}
use jotfs.Tests.Database.{stored-IsConsistent}
use jotfs.Tests.Runs.{stored-IsKeyed, file_a-Fits}
use jotfs.Tests.Data.{file_a, sum_b, sum_v, length_hash, stored, memory, config}

abbrev unversioned : Db
unversioned = record stored {
  file_versions =
      record {
        id = 1;
        file = 1;
        created_at = 1_000;
        size = 200;
        num_chunks = 2;
        sum = sum_v;
        versioned = 0;
      }
      ∷ [];
}

unversioned-IsConsistent : IsConsistent unversioned
unfolding jotfs.Table.exists
unversioned-IsConsistent = record {
  refs = stored-IsConsistent.refs;
  content_index = stored-IsConsistent.content_index;
  content_version = stored-IsConsistent.content_version;
  version_file = stored-IsConsistent.version_file;
  index_pack = stored-IsConsistent.index_pack;
}

unversioned-IsKeyed : IsKeyed unversioned
unversioned-IsKeyed = record {
  files = stored-IsKeyed.files;
  versions = stored-IsKeyed.versions;
  indexes = stored-IsKeyed.indexes;
  sums = stored-IsKeyed.sums;
}

abbrev before : World (memory true)
before = record { db = unversioned; objects = [] }

abbrev name_a : Bytes
name_a = 47 ∷ 97 ∷ []

abbrev new_sum : Sum
new_sum = compute length_hash (
    marshal_binary (record {
      name = name_a;
      created_at = 5_000;
      chunks = record { sequence = 0; size = 200; sum = sum_b } ∷ [];
      versioned = false;
    }))

abbrev after : World (memory true)
after = (create_file (memory true) config length_hash 5_000 name_a (sum_b ∷ []) before).1

creates :
    (create_file (memory true) config length_hash 5_000 name_a (sum_b ∷ []) before).0 ≡ ok new_sum
unfolding sum_eq create_file jotfs.Server.Files.create_named jotfs.Step.◌>>=◌
    jotfs.Server.Names.validate_filename clean_filename jotfs.Server.Names.trim_slash
    jotfs.Server.Names.with_root jotfs.Server.Names.path_clean jotfs.Server.Names.trim_space
    jotfs.Server.Names.reverse_onto jotfs.Server.Names.trim_right jotfs.Server.Names.trim_left
    jotfs.Server.Names.is_space_2 jotfs.Server.Names.join jotfs.Server.Names.clean_elements
    jotfs.Server.Names.split jotfs.Server.Names.clean_element jotfs.Server.World.query
    jotfs.Server.Files.prev_version jotfs.Db.Queries.get_latest_file_version
    jotfs.Db.Queries.get_file_versions jotfs.Db.Queries.scan_infos jotfs.Db.Queries.select_page
    jotfs.Db.Queries.order_by_created jotfs.Table.Sort.descending jotfs.Table.rows
    jotfs.Db.Queries.join_files jotfs.Db.Queries.with_name jotfs.Db.Files.name_eq
    jotfs.Db.Queries.scan_info jotfs.Sum.from_bytes jotfs.Db.Queries.parse_vflag
    jotfs.Server.Files.find_chunks jotfs.Bytes.put_le jotfs.Bytes.uint64_binary
    jotfs.Db.Files.add_file jotfs.Db.Files.add_version jotfs.Db.Files.can_decrement
    jotfs.Db.Files.decrement jotfs.Db.Files.decrement_all jotfs.Db.Files.delete_file
    jotfs.Db.Files.delete_found jotfs.Db.Files.delete_version jotfs.Db.Files.find_chunk
    jotfs.Db.Files.get_pack_index_id jotfs.Db.Files.has_length jotfs.Db.Files.insert_chunk
    jotfs.Db.Files.insert_file jotfs.Db.Files.insert_file_chunks
    jotfs.Db.Files.insert_file_if_not_exists jotfs.Db.Files.insert_file_tx
    jotfs.Db.Files.insert_file_version jotfs.Db.Files.insert_name jotfs.Db.Files.is_taken
    jotfs.Db.Files.refer jotfs.Db.Packs.with_error jotfs.Db.Queries.get_chunk_size
    jotfs.Db.Queries.get_file_info jotfs.Db.update jotfs.Errors.is_db_not_found
    jotfs.Errors.merge_errors jotfs.Object.File.file_size marshal_binary
    jotfs.Object.File.marshal_chunk jotfs.Object.File.marshal_chunks jotfs.Server.Files.delete
    jotfs.Server.Files.delete_prev jotfs.Server.Files.save_file jotfs.Server.Files.undo_put
    jotfs.Server.Names.go_up jotfs.Server.Names.is_space_3 jotfs.Server.World.attempt
    jotfs.Server.World.clean_up jotfs.Server.World.on_db jotfs.Server.World.on_store
    jotfs.Server.World.with_err jotfs.Step.gets jotfs.Step.lift jotfs.Step.pure jotfs.Sum.Hex.as_hex
    compute jotfs.Table.Sort.ascending jotfs.Table.Sort.insert jotfs.Table.Sort.insert_down
    jotfs.Table.count jotfs.Table.delete_rows jotfs.Table.exists jotfs.Table.first
    jotfs.Table.max_id jotfs.Table.next_id jotfs.Table.update_rows
creates = refl

get_file-create_file_example :
    (f : File) × (get_file new_sum after.db ≡ ok f)
    × (new_sum ≡ compute length_hash (marshal_binary f))
    × (f.name ≡ clean_filename name_a)
    × (f.created_at ≡ 5_000)
    × (map (λ c. c.sum) f.chunks ≡ sum_b ∷ [])
    × (f.versioned ≡ false)
get_file-create_file_example =
    get_file-create_file (memory true) config length_hash 5_000 name_a (sum_b ∷ []) before after
      new_sum unversioned-IsConsistent unversioned-IsKeyed (λ i. (creates i, after))

abbrev start : World (memory true)
start = record { db = stored; objects = [] }

abbrev name_b : Bytes
name_b = 47 ∷ 98 ∷ []

abbrev copied : World (memory true)
copied = (copy (memory true) length_hash 5_000 (some sum_v) name_b start).1

abbrev copied_sum : Sum
copied_sum = compute length_hash (marshal_binary (copy_of file_a name_b 5_000))

reads_source : get_file sum_v stored ≡ ok file_a
unfolding copy jotfs.Server.Files.copy_named jotfs.Step.◌>>=◌ jotfs.Server.Names.validate_filename
    clean_filename jotfs.Server.Names.trim_slash jotfs.Server.Names.with_root
    jotfs.Server.Names.path_clean jotfs.Server.Names.trim_space jotfs.Server.Names.reverse_onto
    jotfs.Server.Names.trim_right jotfs.Server.Names.trim_left jotfs.Server.Names.is_space_2
    jotfs.Server.Names.join jotfs.Server.Names.clean_elements jotfs.Server.Names.split
    jotfs.Server.Names.clean_element sum_eq jotfs.Bytes.put_le jotfs.Bytes.uint64_binary
    jotfs.Db.Contents.file_name get_file jotfs.Db.Contents.join_indexes jotfs.Db.Contents.read_file
    jotfs.Db.Contents.scan_chunks jotfs.Db.Contents.version_chunks jotfs.Db.Contents.with_index
    jotfs.Db.Files.add_file jotfs.Db.Files.add_version jotfs.Db.Files.find_chunk
    jotfs.Db.Files.get_pack_index_id jotfs.Db.Files.has_length jotfs.Db.Files.insert_chunk
    jotfs.Db.Files.insert_file jotfs.Db.Files.insert_file_chunks
    jotfs.Db.Files.insert_file_if_not_exists jotfs.Db.Files.insert_file_tx
    jotfs.Db.Files.insert_file_version jotfs.Db.Files.insert_name jotfs.Db.Files.is_taken
    jotfs.Db.Files.name_eq jotfs.Db.Files.refer jotfs.Db.Packs.with_error
    jotfs.Db.Queries.parse_vflag jotfs.Db.update jotfs.Errors.is_db_not_found
    jotfs.Errors.merge_errors jotfs.Object.File.file_size marshal_binary
    jotfs.Object.File.marshal_chunk jotfs.Object.File.marshal_chunks jotfs.Server.Files.save_file
    jotfs.Server.Files.undo_put jotfs.Server.Names.go_up jotfs.Server.Names.is_space_3
    jotfs.Server.World.attempt jotfs.Server.World.clean_up jotfs.Server.World.on_db
    jotfs.Server.World.on_store jotfs.Server.World.query jotfs.Server.World.with_err jotfs.Step.gets
    jotfs.Step.lift jotfs.Step.pure jotfs.Sum.Hex.as_hex compute jotfs.Sum.from_bytes
    jotfs.Table.Sort.ascending jotfs.Table.Sort.insert jotfs.Table.exists jotfs.Table.first
    jotfs.Table.max_id jotfs.Table.next_id jotfs.Table.rows jotfs.Table.update_rows
reads_source = refl

copies : (copy (memory true) length_hash 5_000 (some sum_v) name_b start).0 ≡ ok copied_sum
unfolding copy jotfs.Server.Files.copy_named jotfs.Step.◌>>=◌ jotfs.Server.Names.validate_filename
    clean_filename jotfs.Server.Names.trim_slash jotfs.Server.Names.with_root
    jotfs.Server.Names.path_clean jotfs.Server.Names.trim_space jotfs.Server.Names.reverse_onto
    jotfs.Server.Names.trim_right jotfs.Server.Names.trim_left jotfs.Server.Names.is_space_2
    jotfs.Server.Names.join jotfs.Server.Names.clean_elements jotfs.Server.Names.split
    jotfs.Server.Names.clean_element sum_eq jotfs.Bytes.put_le jotfs.Bytes.uint64_binary
    jotfs.Db.Contents.file_name get_file jotfs.Db.Contents.join_indexes jotfs.Db.Contents.read_file
    jotfs.Db.Contents.scan_chunks jotfs.Db.Contents.version_chunks jotfs.Db.Contents.with_index
    jotfs.Db.Files.add_file jotfs.Db.Files.add_version jotfs.Db.Files.find_chunk
    jotfs.Db.Files.get_pack_index_id jotfs.Db.Files.has_length jotfs.Db.Files.insert_chunk
    jotfs.Db.Files.insert_file jotfs.Db.Files.insert_file_chunks
    jotfs.Db.Files.insert_file_if_not_exists jotfs.Db.Files.insert_file_tx
    jotfs.Db.Files.insert_file_version jotfs.Db.Files.insert_name jotfs.Db.Files.is_taken
    jotfs.Db.Files.name_eq jotfs.Db.Files.refer jotfs.Db.Packs.with_error
    jotfs.Db.Queries.parse_vflag jotfs.Db.update jotfs.Errors.is_db_not_found
    jotfs.Errors.merge_errors jotfs.Object.File.file_size marshal_binary
    jotfs.Object.File.marshal_chunk jotfs.Object.File.marshal_chunks jotfs.Server.Files.save_file
    jotfs.Server.Files.undo_put jotfs.Server.Names.go_up jotfs.Server.Names.is_space_3
    jotfs.Server.World.attempt jotfs.Server.World.clean_up jotfs.Server.World.on_db
    jotfs.Server.World.on_store jotfs.Server.World.query jotfs.Server.World.with_err jotfs.Step.gets
    jotfs.Step.lift jotfs.Step.pure jotfs.Sum.Hex.as_hex compute jotfs.Sum.from_bytes
    jotfs.Table.Sort.ascending jotfs.Table.Sort.insert jotfs.Table.exists jotfs.Table.first
    jotfs.Table.max_id jotfs.Table.next_id jotfs.Table.rows jotfs.Table.update_rows
copies = refl

get_file-copy_example :
    (get_file copied_sum copied.db ≡ ok (copy_of file_a (clean_filename name_b) 5_000))
    × (copied_sum
        ≡ compute length_hash (marshal_binary (copy_of file_a (clean_filename name_b) 5_000)))
    × (sum_v ≢ copied_sum)
    × ((t : Sum) → t ≢ copied_sum → get_file t copied.db ≡ get_file t stored)
get_file-copy_example =
    get_file-copy (memory true) length_hash 5_000 sum_v name_b start copied copied_sum file_a
      stored-IsConsistent stored-IsKeyed reads_source file_a-Fits (λ i. (copies i, copied))
