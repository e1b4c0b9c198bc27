-- ===== src/Object/Packfile/Load.antt =====
-- `readBlock` and `LoadPackIndex` of internal/object/packfile.go.
use jotfs.Prelude.{
  ℕ, zero, suc, ◌+◌, ◌-◌, ◌%◌, ◌^◌, List, [], ◌∷◌, ◌++◌, length, ltb, ◌==◌, if◌then◌else◌,
}
use jotfs.Errors.{Result, ok, err, eof, out_of_fuel, panic, message, wrapped, map_err}
use jotfs.Errors
use jotfs.Bytes.{Bytes}
use jotfs.Step.{Step, ◌>>=◌, ◌>>◌, pure, fail, lift, gets}
use jotfs.Reader.{read_full, read_uint8, get_binary_uint64}
use jotfs.Sum.{Sum, Hash, compute, sum_eq}
use jotfs.Sum
use jotfs.Compress.{Mode, Zstd, from_uint8, decompress}
use jotfs.Object.PackIndex.{BlockInfo, PackIndex}
use jotfs.Object.Packfile.{packfile_object}
use jotfs.Object.Packfile.Stream.{Stream, start, counting}

pub record Block : Type 0 where
  pub sum : Sum
  pub mode : Mode
  pub contents : Bytes
  pub offset : ℕ
  pub size : ℕ

-- The most that Go allocates on a 64-bit machine: `make` panics where a slice would be longer.
abbrev pub max_alloc : ℕ
max_alloc = 281_474_976_710_656

-- make([]byte, size)
unfoldable pub check_alloc : ℕ → Result (Unit {0})
check_alloc size = if ltb max_alloc size then err panic else ok tt

-- `readBlock`
unfoldable pub read_block : Step Stream Block
read_block = do
  offset ← gets (λ st. st.bytes_read)
  size ← counting get_binary_uint64
  m ← counting read_uint8
  mode ← lift (from_uint8 m)
  s ← counting (read_full Sum.size)
  lift (check_alloc size)
  compressed ← counting (read_full size)
  end ← gets (λ st. st.bytes_read)
  pure (record {
    sum = s;
    mode = mode;
    contents = compressed;
    offset = offset;
    size = (end + 2 ^ 64 - offset) % 2 ^ 64;
  })

module _ (z : Zstd) (h : Hash) where
  -- The chunk of a block, decompressed and compared with the block's checksum.
  unfoldable pub check_chunk : ℕ → Block → Bytes → Result BlockInfo
  check_chunk seq b chunk =
      if sum_eq (compute h chunk) b.sum
      then ok (record {
        sum = b.sum;
        chunk_size = length chunk % 2 ^ 64;
        sequence = seq;
        offset = b.offset;
        size = b.size;
        mode = b.mode;
      })
      else err (message "invalid chunk data")

  unfoldable pub check_block : ℕ → Block → Result BlockInfo
  check_block seq b =
      Errors.◌>>=◌ (map_err (wrapped "decompressing chunk data") (decompress z b.mode b.contents))
        (check_chunk seq b)

  abbrev pub Next : Type 0
  Next = List BlockInfo → Step Stream (List BlockInfo)

  unfoldable pub after_check :
      List BlockInfo → Next → Result BlockInfo → Step Stream (List BlockInfo)
  after_check idx next (ok info) st = next (idx ++ (info ∷ [])) st
  after_check idx next (err e) st = (err e, st)

  -- The loop ends at `io.EOF`, wherever in a block that was met. A panic is no error that it wraps.
  unfoldable pub after_read :
      ℕ → List BlockInfo → Next → Result Block × Stream → Result (List BlockInfo) × Stream
  after_read seq idx next (ok b, st) = after_check idx next (check_block seq b) st
  after_read seq idx next (err eof, st) = (ok idx, st)
  after_read seq idx next (err panic, st) = (err panic, st)
  after_read seq idx next (err e, st) = (err (wrapped "reading block" e), st)

  -- The loop of `LoadPackIndex`
  unfoldable pub load_loop : ℕ → ℕ → Next
  load_loop zero seq idx st = (err out_of_fuel, st)
  load_loop (suc fuel) seq idx st =
      after_read seq idx (load_loop fuel ((seq + 1) % 2 ^ 64)) (read_block st)

  unfoldable pub load_blocks : ℕ → Step Stream (List BlockInfo)
  load_blocks fuel = load_loop fuel 0 []

  unfoldable pub read_type : Step Stream (Unit {0})
  unfolding ◌>>=◌
  read_type = do
    t ← (λ st.
        let (r, st') = counting read_uint8 st in (map_err (wrapped "reading object type") r, st'))
    if t == packfile_object then pure tt else fail (message "expected packfile object")

  unfoldable pub finish : Result (List BlockInfo) × Stream → Result PackIndex
  finish (ok idx, st) =
      ok (record { blocks = idx; sum = compute h st.hashed; size = st.bytes_read })
  finish (err e, st) = err e

  -- `LoadPackIndex`. A round of the loop takes a byte at least, or is the last.
  unfoldable pub load_pack_index : Bytes → Result PackIndex
  unfolding ◌>>=◌
  load_pack_index bs =
      let run : Step Stream (List BlockInfo) = (do read_type; load_blocks (suc (length bs))) in
      finish (run (start bs))
