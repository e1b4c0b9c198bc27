-- ===== src/Tests/Uploads.antt =====
-- An upload of a packfile of two blocks.
use jotfs.Prelude.{◌≡◌, ◌≢◌, ◌<◌, ◌≤◌, refl, false, [], ◌∷◌, replicate, arith, length, ◌%◌, ◌^◌}
use jotfs.Errors.{Error, Result, ok, err, out_of_fuel, http, message}
use jotfs.Sum.{compute}
use jotfs.Sum.Base64.{from_base64, encode, from_base64-encode}
use jotfs.Object.PackIndex.{PackIndex, marshal_binary}
use jotfs.Object.Packfile.Load.{load_pack_index}
use jotfs.Object.Packfile.Total.{load_pack_index_total}
use jotfs.Object.Packfile.Whole.{load_pack_index-whole}
use jotfs.Compress.{plain}
use jotfs.Db.Packs.{insert_pack_index}
use jotfs.Server.World.{World, pack_key, index_key}
use jotfs.Server.Upload.{Upload, contents, upload}
use jotfs.Server.Upload.Atomic.{upload-unchanged}
use jotfs.Server.Upload.Accepted.{upload-accepted}
use jotfs.Tests.Data.{packfile, length_hash, marking, stored, shelf, config}

abbrev empty_shelf : World shelf
empty_shelf = record { db = stored; objects = [] }

abbrev request : Upload
request = record { content_length = 87; checksum = encode (87 ∷ replicate 31 7); body = packfile }

load_pack_index_total_example : load_pack_index marking length_hash packfile ≢ err out_of_fuel
load_pack_index_total_example = load_pack_index_total marking length_hash packfile

accepted : (upload shelf config marking length_hash false 950 request empty_shelf).0 ≡ ok tt
unfolding upload jotfs.Step.◌>>=◌ jotfs.Server.Upload.check_upload encode from_base64
    jotfs.Sum.from_bytes jotfs.Server.Upload.save_packfile jotfs.Server.Upload.check_index
    load_pack_index jotfs.Object.Packfile.Load.finish jotfs.Object.Packfile.Load.read_type
    jotfs.Object.Packfile.Stream.counting jotfs.Reader.read_uint8 jotfs.Reader.read_full
    jotfs.Bytes.le_value jotfs.Object.Packfile.Load.load_blocks jotfs.Object.Packfile.Load.load_loop
    jotfs.Object.Packfile.Load.check_alloc jotfs.Object.Packfile.Load.after_read
    jotfs.Object.Packfile.Load.read_block jotfs.Reader.get_binary_uint64
    jotfs.Object.Packfile.Stream.advance jotfs.Compress.from_uint8
    jotfs.Object.Packfile.Load.after_check jotfs.Object.Packfile.Load.check_block
    jotfs.Compress.decompress jotfs.Object.Packfile.Load.check_chunk jotfs.Sum.sum_eq compute
    jotfs.Server.Upload.match_sum jotfs.Server.Upload.finish_put jotfs.Server.World.with_err
    jotfs.Server.World.on_store jotfs.Server.Upload.put_index jotfs.Server.World.attempt
    jotfs.Bytes.put_le jotfs.Bytes.uint64_binary jotfs.Compress.as_uint8 jotfs.Db.Packs.add_block
    jotfs.Db.Packs.add_pack jotfs.Db.Packs.check_block_row jotfs.Db.Packs.insert_block
    jotfs.Db.Packs.insert_pack_blocks insert_pack_index jotfs.Db.Packs.insert_pack_tx
    jotfs.Db.Packs.insert_packfile jotfs.Db.Packs.with_error jotfs.Db.update
    jotfs.Errors.merge_errors marshal_binary jotfs.Object.PackIndex.marshal_block
    jotfs.Object.PackIndex.marshal_blocks jotfs.Server.Upload.cancel_put
    jotfs.Server.Upload.insert_index jotfs.Server.World.clean_up jotfs.Server.World.on_db
    jotfs.Server.World.undo jotfs.Step.fail jotfs.Step.gets jotfs.Step.lift jotfs.Step.pure
    jotfs.Sum.Hex.as_hex jotfs.Table.max_id jotfs.Table.next_id
accepted = refl

abbrev after : World shelf
after = (upload shelf config marking length_hash false 950 request empty_shelf).1

upload-accepted_example :
    (0 < 87)
    × (87 ≤ 1_000)
    × (from_base64 request.checksum ≡ ok (compute length_hash (contents request)))
    × (index : PackIndex) × (load_pack_index marking length_hash (contents request) ≡ ok index)
    × (objects : shelf.Objects) × (shelf.put (pack_key index.sum) (contents request) []
        ≡ (ok tt, objects))
    × (shelf.put (index_key index.sum) (marshal_binary index) objects ≡ (ok tt, after.objects))
    × (insert_pack_index index 950 stored ≡ (ok tt, after.db))
upload-accepted_example =
    upload-accepted shelf config marking length_hash false 950 request empty_shelf after
      (λ i. (accepted i, after))

-- A request of no length
abbrev no_length : Upload
no_length = record request { content_length = 0 }

refused :
    (upload shelf config marking length_hash false 950 no_length empty_shelf).0
    ≡ err (http 400 (message "content-length required"))
unfolding upload jotfs.Step.◌>>=◌ jotfs.Step.lift jotfs.Server.Upload.check_upload
refused = refl

upload-unchanged_example :
    (upload shelf config marking length_hash false 950 no_length empty_shelf).1.db ≡ stored
upload-unchanged_example =
    upload-unchanged shelf config marking length_hash false 950 no_length empty_shelf
      (http 400 (message "content-length required")) refused

from_base64-encode_example : from_base64 (encode (87 ∷ replicate 31 7)) ≡ ok (87 ∷ replicate 31 7)
from_base64-encode_example = from_base64-encode (87 ∷ replicate 31 7) refl (omega arith)

abbrev loaded_index : PackIndex
loaded_index = record {
  blocks =
      record {
        sum = 2 ∷ replicate 31 7;
        chunk_size = 2;
        sequence = 0;
        offset = 1;
        size = 43;
        mode = plain;
      }
      ∷ record {
        sum = 2 ∷ replicate 31 7;
        chunk_size = 2;
        sequence = 1;
        offset = 44;
        size = 43;
        mode = plain;
      }
      ∷ [];
  sum = 87 ∷ replicate 31 7;
  size = 87;
}

loaded : load_pack_index marking length_hash packfile ≡ ok loaded_index
unfolding load_pack_index jotfs.Object.Packfile.Load.finish jotfs.Object.Packfile.Load.read_type
    jotfs.Object.Packfile.Stream.counting jotfs.Reader.read_uint8 jotfs.Reader.read_full
    jotfs.Bytes.le_value jotfs.Object.Packfile.Load.load_blocks jotfs.Object.Packfile.Load.load_loop
    jotfs.Object.Packfile.Load.check_alloc jotfs.Object.Packfile.Load.after_read
    jotfs.Object.Packfile.Load.read_block jotfs.Reader.get_binary_uint64
    jotfs.Object.Packfile.Stream.advance jotfs.Compress.from_uint8
    jotfs.Object.Packfile.Load.after_check jotfs.Object.Packfile.Load.check_block
    jotfs.Compress.decompress jotfs.Object.Packfile.Load.check_chunk jotfs.Step.fail jotfs.Step.gets
    jotfs.Step.lift jotfs.Step.pure jotfs.Step.◌>>=◌ compute jotfs.Sum.sum_eq
loaded = refl

load_pack_index-whole_example :
    (loaded_index.sum ≡ compute length_hash packfile)
    × (loaded_index.size ≡ length packfile % 2 ^ 64)
load_pack_index-whole_example =
    load_pack_index-whole marking length_hash packfile loaded_index loaded
