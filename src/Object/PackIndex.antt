-- ===== src/Object/PackIndex.antt =====
-- internal/object/packindex.go
pub mod Codec
use jotfs.Prelude.{ℕ, zero, suc, ◌+◌, List, [], ◌∷◌, ◌++◌, ◌≤◌, length, All, ltb, if◌then◌else◌}
use jotfs.Errors.{Result, ok, err, message}
use jotfs.Bytes.{Bytes, IsU64, uint64_binary}
use jotfs.Step.{lift, continue, ◌>>=◌, pure}
use jotfs.Reader.{Reader, read, get_binary_uint64}
use jotfs.Sum.{Sum, IsSum, size, zero_sum}
use jotfs.Compress.{Mode, zstd, as_uint8, from_uint8}
use jotfs.Bytes.{le_value}

-- An upper limit on the blocks of a pack index that is read.
abbrev pub max_blocks : ℕ
max_blocks = 10_000

pub record BlockInfo : Type 0 where
  pub sum : Sum
  pub chunk_size : ℕ
  pub sequence : ℕ
  pub offset : ℕ
  pub size : ℕ
  pub mode : Mode

pub record PackIndex : Type 0 where
  pub blocks : List BlockInfo
  pub sum : Sum
  pub size : ℕ

-- Go's zero values
abbrev pub zero_block : BlockInfo
zero_block = record {
  sum = zero_sum;
  chunk_size = 0;
  sequence = 0;
  offset = 0;
  size = 0;
  mode = zstd;
}

abbrev pub zero_index : PackIndex
zero_index = record { blocks = []; sum = zero_sum; size = 0 }

-- `(*BlockInfo).marshalBinary`: the block's fields, appended to `buf`.
unfoldable pub marshal_block : BlockInfo → Bytes → Bytes
marshal_block b buf =
    buf
    ++ (b.sum
        ++ (uint64_binary b.chunk_size
            ++ (uint64_binary b.sequence
                ++ (uint64_binary b.offset ++ (uint64_binary b.size ++ (as_uint8 b.mode ∷ []))))))

-- The loop of `MarshalBinary`
unfoldable pub marshal_blocks : List BlockInfo → Bytes → Bytes
marshal_blocks [] b = b
marshal_blocks (bck ∷ rest) b = marshal_blocks rest (marshal_block bck b)

-- `(*PackIndex).MarshalBinary`
unfoldable pub marshal_binary : PackIndex → Bytes
marshal_binary p =
    marshal_blocks p.blocks (p.sum ++ (uint64_binary p.size ++ uint64_binary (length p.blocks)))

-- `(*BlockInfo).unmarshalBinary`: the block that it sets, if it returns no error.
unfoldable pub unmarshal_block : Reader BlockInfo
unfolding ◌>>=◌
unmarshal_block = do
  s ← read size
  csize ← get_binary_uint64
  seq ← get_binary_uint64
  offset ← get_binary_uint64
  bsize ← get_binary_uint64
  m ← read 1
  mode ← lift (from_uint8 (le_value m))
  pure (record {
    sum = s;
    chunk_size = csize;
    sequence = seq;
    offset = offset;
    size = bsize;
    mode = mode;
  })

-- `block.unmarshalBinary(b)` with its error dropped: the block stays zero then.
abbrev pub or_zero : Result BlockInfo → BlockInfo
or_zero (ok b) = b
or_zero (err e) = zero_block

-- The loop of `UnmarshalBinary`, over the number of blocks left.
unfoldable pub unmarshal_blocks : ℕ → Bytes → List BlockInfo
unmarshal_blocks zero bs = []
unmarshal_blocks (suc n) bs =
    let (r, rest) = unmarshal_block bs in or_zero r ∷ unmarshal_blocks n rest

-- The sum, the size and the number of blocks
unfoldable pub unmarshal_head : Reader (Sum × ℕ × ℕ)
unfolding ◌>>=◌
unmarshal_head = do
  psum ← read size
  psize ← get_binary_uint64
  n ← get_binary_uint64
  pure (psum, psize, n)

unfoldable pub unmarshal_body : Result (Sum × ℕ × ℕ) → Bytes → Result PackIndex
unmarshal_body (err e) bs = err e
unmarshal_body (ok (psum, psize, n)) bs =
    if ltb max_blocks n
    then err (message "number of blocks exceeds limit")
    else ok (record { blocks = unmarshal_blocks n bs; sum = psum; size = psize })

-- `(*PackIndex).UnmarshalBinary`: the index that it sets; on an error the receiver is unchanged.
unfoldable pub unmarshal_binary : Bytes → Result PackIndex
unmarshal_binary bs = let (head, rest) = unmarshal_head bs in unmarshal_body head rest

-- What the fields of a block and of an index must satisfy to be stored in their widths.
pub record IsBlock (b : BlockInfo) : Type 0 where
  pub sum_size : IsSum b.sum
  pub chunk_size_fits : IsU64 b.chunk_size
  pub sequence_fits : IsU64 b.sequence
  pub offset_fits : IsU64 b.offset
  pub size_fits : IsU64 b.size

pub record IsIndex (p : PackIndex) : Type 0 where
  pub sum_size : IsSum p.sum
  pub size_fits : IsU64 p.size
  pub block_count : length p.blocks ≤ max_blocks
  pub each_block : All IsBlock p.blocks
