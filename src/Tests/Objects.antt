-- ===== src/Tests/Objects.antt =====
-- Objects and checksums that are written and read back.
use jotfs.Prelude.{
  Bool, not, ◌==◌, ap, ◌≢◌, ◌^◌, ℕ, zero, suc, All, replicate, ◌≡◌, refl, List, [], ◌∷◌, ◌++◌,
  length, arith,
}
use jotfs.Errors.{ok, err, panic}
use jotfs.Bytes.{Bytes, IsByte, uint64_binary, put_le}
use jotfs.Sum.{compute}
use jotfs.Sum.Hex.{as_hex, from_hex, from_hex-as_hex}
use jotfs.Object.Packfile.Oversized.{head, load_pack_index-oversized}
use jotfs.Compress.{Mode, zstd, plain, as_uint8, compress}
use jotfs.Object.PackIndex.{IsIndex, IsBlock}
use jotfs.Object.PackIndex
use jotfs.Object.PackIndex.Codec.{unmarshal_binary-marshal_binary}
use jotfs.Object.File.{IsFile, IsChunk}
use jotfs.Object.File
use jotfs.Object.File.Codec.{unmarshal_binary-marshal_binary_file}
use jotfs.Object.Packfile.{
  PackfileBuilder, new_packfile_builder, write, write_type, make_block, append_block, append, build,
}
use jotfs.Object.Packfile.Written.{append_all}
use jotfs.Object.Packfile.Load.{load_pack_index}
use jotfs.Object.Packfile.RoundTrip.{load_pack_index-build}
use jotfs.Object.PackIndex.{BlockInfo}
use jotfs.Object.Packfile.Filter.{filter_packfile}
use jotfs.Server.Rebuild.{keep_block, rebuild_loop, rebuild, new_index}
use jotfs.Server.Rebuild.Kept.{load_pack_index-filter_packfile}
use jotfs.Object.Packfile.Cut.{load_pack_index-cut}
use jotfs.Prelude.{◌+◌}
use jotfs.Tests.Data.{marking, length_hash, sum_a, two_blocks, file_a}

two_blocks-IsIndex : IsIndex two_blocks
two_blocks-IsIndex = record {
  sum_size = refl;
  size_fits = ground arith;
  block_count = ground arith;
  each_block = (
    record {
      sum_size = refl;
      chunk_size_fits = ground arith;
      sequence_fits = ground arith;
      offset_fits = ground arith;
      size_fits = ground arith;
    },
    (
      record {
        sum_size = refl;
        chunk_size_fits = ground arith;
        sequence_fits = ground arith;
        offset_fits = ground arith;
        size_fits = ground arith;
      },
      tt,
    ),
  );
}

unmarshal_binary-marshal_binary_example :
    PackIndex.unmarshal_binary (PackIndex.marshal_binary two_blocks ++ (1 ∷ [])) ≡ ok two_blocks
unmarshal_binary-marshal_binary_example =
    unmarshal_binary-marshal_binary two_blocks (1 ∷ []) two_blocks-IsIndex

file_a-IsFile : IsFile file_a
file_a-IsFile = record {
  name_size = ground arith;
  created_at_fits = ground arith;
  chunk_count = ground arith;
  each_chunk = (
    record { sequence_fits = ground arith; size_fits = ground arith; sum_size = refl },
    (record { sequence_fits = ground arith; size_fits = ground arith; sum_size = refl }, tt),
  );
}

unmarshal_binary-marshal_binary_file_example :
    File.unmarshal_binary (File.marshal_binary file_a ++ []) ≡ ok file_a
unmarshal_binary-marshal_binary_file_example =
    unmarshal_binary-marshal_binary_file file_a [] file_a-IsFile

abbrev two_chunks : List (Bytes × Mode)
two_chunks = (1 ∷ 2 ∷ 3 ∷ [], plain) ∷ (4 ∷ [], zstd) ∷ []

abbrev built : PackfileBuilder
built = (append_all marking length_hash two_chunks new_packfile_builder).1

built_lem : append_all marking length_hash two_chunks new_packfile_builder ≡ (ok tt, built)
unfolding append_all append append_block make_block compress write_type write
built_lem = refl

built_size : length built.w.written ≡ 88
unfolding append_all append append_block make_block compress write_type write uint64_binary put_le
    compute as_uint8
built_size = refl

some_chunk : two_chunks ≢ []
some_chunk e = absurd (omega (arith, ap (λ (cs : List (Bytes × Mode)). length cs) e))

load_pack_index-build_example :
    load_pack_index marking length_hash built.w.written ≡ ok (build length_hash built).0
load_pack_index-build_example =
    load_pack_index-build marking length_hash two_chunks built built_lem some_chunk
      (ground arith, (ground arith, tt)) (omega (arith, built_size))

abbrev after_first : ℕ → Bool
after_first i = not (i == 0)

one_kept : length (rebuild after_first built.idx).blocks ≡ 1
unfolding append_all append append_block make_block compress write_type write uint64_binary put_le
    compute as_uint8 rebuild rebuild_loop keep_block
one_kept = refl

some_kept : (rebuild after_first built.idx).blocks ≢ []
some_kept e = absurd (omega (arith, one_kept, ap (λ (bs : List BlockInfo). length bs) e))

load_pack_index-filter_packfile_example :
    (size : ℕ) × ((filter_packfile after_first built.w.written).0 ≡ ok size)
    × (load_pack_index marking length_hash (filter_packfile after_first built.w.written).1.written
        ≡ ok (
            new_index length_hash after_first
              (build length_hash built).0
              (filter_packfile after_first built.w.written).1.written
              size))
load_pack_index-filter_packfile_example =
    load_pack_index-filter_packfile marking length_hash after_first two_chunks built built_lem
      (ground arith, (ground arith, tt)) (omega (arith, built_size)) some_kept

zeros-IsByte : (n : ℕ) → All IsByte (replicate n 0)
zeros-IsByte zero = tt
zeros-IsByte (suc n) = (ground arith, zeros-IsByte n)

from_hex-as_hex_example : from_hex (as_hex sum_a) ≡ ok sum_a
from_hex-as_hex_example = from_hex-as_hex sum_a refl (ground arith, zeros-IsByte 31)

marked : compress marking zstd (1 ∷ 2 ∷ []) ≡ ok (40 ∷ 1 ∷ 2 ∷ [])
unfolding compress
marked = refl

load_pack_index-cut_example :
    load_pack_index marking length_hash (built.w.written ++ uint64_binary 100)
    ≡ ok (record {
      blocks = built.idx;
      sum = compute length_hash (built.w.written ++ uint64_binary 100);
      size = length built.w.written + 8;
    })
load_pack_index-cut_example =
    load_pack_index-cut marking length_hash (1 ∷ 2 ∷ 3 ∷ [], plain) ((4 ∷ [], zstd) ∷ []) built 100
      built_lem (ground arith, (ground arith, tt)) (omega arith) (omega (arith, built_size))

-- A size of 2 ^ 63 after the packfile
load_pack_index-oversized_example :
    load_pack_index marking length_hash (built.w.written ++ (head (2 ^ 63) zstd sum_a ++ []))
    ≡ err panic
load_pack_index-oversized_example =
    load_pack_index-oversized marking length_hash (2 ^ 63) zstd sum_a [] (1 ∷ 2 ∷ 3 ∷ [], plain)
      ((4 ∷ [], zstd) ∷ []) built built_lem (ground arith, (ground arith, tt)) (omega arith)
      (omega arith) refl (omega (arith, built_size))
