-- ===== src/Tests/Vacuums.antt =====
-- A vacuum of the stored packfile, one of whose two blocks no file refers to.
use jotfs.Prelude.{ℕ, ◌≡◌, refl, [], ◌∷◌, map}
use jotfs.Errors.{ok}
use jotfs.Object.PackIndex.{marshal_binary}
use jotfs.Db.Integrity.{IsConsistent}
use jotfs.Db.Contents.{get_file}
use jotfs.Server.World.{World, pack_key, index_key}
use jotfs.Server.Vacuum.{run_vacuum}
use jotfs.Server.Vacuum.Integrity.{run_vacuum-IsConsistent}
use jotfs.Server.Vacuum.Readable.{get_file-run_vacuum}
use jotfs.Tests.Database.{stored-IsConsistent}
use jotfs.Tests.Data.{sum_p, sum_v, two_blocks, packfile, length_hash, stored, shelf}

abbrev stocked : World shelf
stocked = record {
  db = stored;
  objects = (index_key sum_p, marshal_binary two_blocks) ∷ (pack_key sum_p, packfile) ∷ [];
}

run_vacuum-IsConsistent_example :
    IsConsistent (run_vacuum shelf length_hash (λ i. 6_000) 5_000 stocked).1.db
run_vacuum-IsConsistent_example =
    run_vacuum-IsConsistent shelf length_hash (λ i. 6_000) 5_000 stocked stored-IsConsistent

get_file-run_vacuum_example :
    get_file sum_v (run_vacuum shelf length_hash (λ i. 6_000) 5_000 stocked).1.db
    ≡ get_file sum_v stored
get_file-run_vacuum_example = get_file-run_vacuum shelf length_hash (λ i. 6_000) 5_000 stocked sum_v

-- The block that is referred to is moved, and the other one goes with the old packfile.
vacuumed :
    map {B = ℕ × ℕ × ℕ × ℕ}
      (λ i. (i.id, i.pack, i.sequence, i.offset))
      (run_vacuum shelf length_hash (λ i. 6_000) 5_000 stocked).1.db.indexes
    ≡ (1, 2, 0, 1) ∷ []
unfolding run_vacuum jotfs.Step.◌>>=◌ jotfs.Server.Vacuum.pick_out jotfs.Server.Vacuum.vacuum_packs
    jotfs.Db.Vacuums.get_zero_refcount jotfs.Db.Vacuums.mark_groups jotfs.Db.Vacuums.group_loop
    jotfs.Db.Vacuums.unreferenced jotfs.Table.Sort.ascending jotfs.Table.rows
    jotfs.Db.Vacuums.join_packs jotfs.Db.Vacuums.with_pack jotfs.Sum.from_bytes
    jotfs.Db.Vacuums.close_last jotfs.Db.Vacuums.add_row jotfs.Db.Vacuums.close_group
    jotfs.Sum.sum_eq jotfs.Server.Vacuum.vacuum_pack jotfs.Server.Vacuum.get_pack_index
    jotfs.Server.World.with_err jotfs.Server.World.on_store jotfs.Sum.Hex.as_hex
    jotfs.Server.Vacuum.or_empty jotfs.Object.PackIndex.unmarshal_binary
    jotfs.Object.PackIndex.unmarshal_body jotfs.Object.PackIndex.unmarshal_head jotfs.Reader.read
    marshal_binary jotfs.Object.PackIndex.marshal_blocks jotfs.Object.PackIndex.marshal_block
    jotfs.Reader.get_binary_uint64 jotfs.Reader.read_full jotfs.Bytes.uint64_binary
    jotfs.Bytes.put_le jotfs.Bytes.le_value jotfs.Compress.as_uint8 jotfs.Compress.from_uint8
    jotfs.Db.Packs.add_pack jotfs.Db.Packs.delete_pack_index jotfs.Db.Packs.delete_packs
    jotfs.Db.Packs.find_pack jotfs.Db.Packs.insert_packfile jotfs.Db.Packs.is_cascaded
    jotfs.Db.Packs.is_orphaned jotfs.Db.Packs.move_block jotfs.Db.Packs.move_blocks
    jotfs.Db.Packs.or_no_mapping jotfs.Db.Packs.set_block jotfs.Db.Packs.update_index
    jotfs.Db.Packs.update_index_tx jotfs.Db.Packs.with_error jotfs.Db.Vacuums.mark_all
    jotfs.Db.update jotfs.Errors.merge_errors jotfs.Object.PackIndex.unmarshal_block
    jotfs.Object.PackIndex.unmarshal_blocks jotfs.Object.Packfile.Filter.after_copy
    jotfs.Object.Packfile.Filter.begin_block jotfs.Object.Packfile.Filter.copy_block
    jotfs.Object.Packfile.Filter.copy_count jotfs.Object.Packfile.Filter.copy_n
    jotfs.Object.Packfile.Filter.copy_sized jotfs.Object.Packfile.Filter.filter_blocks
    jotfs.Object.Packfile.Filter.filter_loop jotfs.Object.Packfile.Filter.filter_packfile
    jotfs.Object.Packfile.write jotfs.Reader.pad jotfs.Reader.read_uint8
    jotfs.Server.Rebuild.is_kept jotfs.Server.Rebuild.keep_block jotfs.Server.Rebuild.new_index
    jotfs.Server.Rebuild.rebuild jotfs.Server.Rebuild.rebuild_loop jotfs.Server.Vacuum.delete_old
    jotfs.Server.Vacuum.num_keys jotfs.Server.Vacuum.out_of_range jotfs.Server.Vacuum.put_rebuilt
    jotfs.Server.Vacuum.rebuild_packfile jotfs.Server.Vacuum.replace_index
    jotfs.Server.Vacuum.save_rebuilt jotfs.Server.World.attempt jotfs.Server.World.clean_up
    jotfs.Server.World.on_db jotfs.Server.World.undo jotfs.Step.fail jotfs.Step.lift jotfs.Step.pure
    jotfs.Sum.compute jotfs.Table.Sort.insert jotfs.Table.delete_rows jotfs.Table.exists
    jotfs.Table.first jotfs.Table.max_id jotfs.Table.next_id jotfs.Table.update_rows
    jotfs.Server.World.get_object jotfs.Server.World.and_close jotfs.Server.Vacuum.filter_object
vacuumed = refl
