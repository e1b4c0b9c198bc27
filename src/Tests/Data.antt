-- ===== src/Tests/Data.antt =====
-- The inputs of the tests.
use jotfs.Prelude.{
  ℕ, ◌++◌, List, ◌%◌, [], ◌∷◌, length, replicate, Bool, true, false, if◌then◌else◌, refl, arith,
}
use jotfs.Errors.{Result, ok, err, message, store_not_found}
use jotfs.Bytes.{Bytes}
use jotfs.Sum.{Sum, Hash, sum_eq}
use jotfs.Compress.{plain, Zstd}
use jotfs.Object.PackIndex.{BlockInfo, PackIndex}
use jotfs.Object.File.{File}
use jotfs.Db.{Db}
use jotfs.Server.World.{Object, Store, Config}

-- A compression that puts a mark in front
abbrev strip : Bytes → Bytes
strip [] = []
strip (b ∷ bs) = bs

abbrev pub marking : Zstd
marking = record {
  deflate = λ src. ok (40 ∷ src);
  inflate = λ c. ok (strip c);
  inflate-deflate = λ src c h. ground arith;
}

abbrev pub length_hash : Hash
length_hash = record { digest = λ b. (length b % 256) ∷ replicate 31 7; digest-IsSum = λ b. refl }

abbrev pub sum_a : Sum
sum_a = 1 ∷ replicate 31 0

abbrev pub sum_b : Sum
sum_b = 2 ∷ replicate 31 0

abbrev pub sum_p : Sum
sum_p = 9 ∷ replicate 31 0

abbrev pub sum_v : Sum
sum_v = 5 ∷ replicate 31 0

abbrev pub block_a : BlockInfo
block_a = record {
  sum = sum_a;
  chunk_size = 100;
  sequence = 0;
  offset = 1;
  size = 141;
  mode = plain;
}

abbrev pub block_b : BlockInfo
block_b = record {
  sum = sum_b;
  chunk_size = 200;
  sequence = 1;
  offset = 142;
  size = 241;
  mode = plain;
}

abbrev pub two_blocks : PackIndex
two_blocks = record { blocks = block_a ∷ block_b ∷ []; sum = sum_p; size = 383 }

abbrev pub file_a : File
file_a = record {
  name = 47 ∷ 97 ∷ [];
  created_at = 1_000;
  chunks =
      record { sequence = 0; size = 100; sum = sum_a }
      ∷ record { sequence = 1; size = 100; sum = sum_a }
      ∷ [];
  versioned = true;
}

-- A packfile of two blocks, and a file whose two chunks are the first of them.
abbrev pub stored : Db
stored = record {
  packs = record { id = 1; sum = sum_p; num_chunks = 2; size = 383; created_at = 900 } ∷ [];
  indexes =
      record {
        id = 1;
        pack = 1;
        sequence = 0;
        sum = sum_a;
        chunk_size = 100;
        mode = 1;
        offset = 1;
        size = 141;
        refcount = 2;
        delete_marker = 0;
      }
      ∷ record {
        id = 2;
        pack = 1;
        sequence = 1;
        sum = sum_b;
        chunk_size = 200;
        mode = 1;
        offset = 142;
        size = 241;
        refcount = 0;
        delete_marker = 0;
      }
      ∷ [];
  files = record { id = 1; name = 47 ∷ 97 ∷ [] } ∷ [];
  file_versions =
      record {
        id = 1;
        file = 1;
        created_at = 1_000;
        size = 200;
        num_chunks = 2;
        sum = sum_v;
        versioned = 1;
      }
      ∷ [];
  file_contents =
      record { file_version = 1; idx = 1; sequence = 0 }
      ∷ record { file_version = 1; idx = 1; sequence = 1 }
      ∷ [];
  vacuums = [];
}

-- Two versions of the file, the newer with a sum of its own
abbrev pub two_versions : Db
two_versions = record stored {
  file_versions =
      record {
        id = 1;
        file = 1;
        created_at = 1_000;
        size = 200;
        num_chunks = 2;
        sum = sum_v;
        versioned = 1;
      }
      ∷ record {
        id = 2;
        file = 1;
        created_at = 2_000;
        size = 0;
        num_chunks = 0;
        sum = sum_b;
        versioned = 1;
      }
      ∷ [];
}

-- A store in memory, whose `put` can be made to fail
abbrev pub memory : Bool → Store
memory works = record {
  Objects = List Bytes;
  put = λ k b o. if works then (ok tt, k ∷ o) else (err (message "put"), o);
  cancelled_put = λ k b o. o;
  get = λ k o. (err store_not_found, o);
  delete = λ k o. (ok tt, o);
  presign_get_url = λ k expires from to o. (ok k, o);
}

-- A block of a chunk of two bytes that is not compressed, and a packfile of two such blocks
abbrev pub bytes_of_block : ℕ → Bytes
bytes_of_block b = 2 ∷ 0 ∷ 0 ∷ 0 ∷ 0 ∷ 0 ∷ 0 ∷ 0 ∷ 1 ∷ ((2 ∷ replicate 31 7) ++ (b ∷ b ∷ []))

abbrev pub packfile : Bytes
packfile = 1 ∷ (bytes_of_block 65 ++ bytes_of_block 66)

abbrev readable : Bytes → Object
readable b = record { contents = ok b; closed = ok tt }

abbrev lookup : Bytes → List (Bytes × Bytes) → Result Object
lookup k [] = err store_not_found
lookup k ((j, b) ∷ o) = if sum_eq j k then ok (readable b) else lookup k o

-- A store in memory that gives back what was put
abbrev pub shelf : Store
shelf = record {
  Objects = List (Bytes × Bytes);
  put = λ k b o. (ok tt, (k, b) ∷ o);
  cancelled_put = λ k b o. o;
  get = λ k o. (lookup k o, o);
  delete = λ k o. (ok tt, o);
  presign_get_url = λ k expires from to o. (ok k, o);
}

abbrev pub config : Config
config = record { versioning_enabled = false; max_packfile_size = 1_000; download_timeout = 0 }
