-- ===== src/Object/Packfile.antt =====
-- internal/object/packfile.go: writing packfiles. The modules below read and filter them.
pub mod Load
pub mod Stream
pub mod Entries
pub mod Loaded
pub mod Written
pub mod RoundTrip
pub mod Filter
pub mod Cut
pub mod Oversized
pub mod Total
pub mod Whole
pub mod Copied
pub mod Filtered
use jotfs.Prelude.{ℕ, ◌+◌, ◌%◌, ◌^◌, Bool, true, false, List, [], ◌∷◌, ◌++◌, length, if◌then◌else◌}
use jotfs.Errors.{Result, ok, err, message, ◌>>=◌}
use jotfs.Bytes.{Bytes, uint64_binary}
use jotfs.Sum.{Sum, Hash, compute}
use jotfs.Compress.{Mode, Zstd, as_uint8, compress}
use jotfs.Object.PackIndex.{BlockInfo, PackIndex}

-- objects.go: `PackfileObject`, the first of the object types
abbrev pub packfile_object : ℕ
packfile_object = 1

-- A `countingWriter` over a bytes.Buffer, whose writes do not fail: what was written, and how much.
pub record Writer : Type 0 where
  pub written : Bytes
  pub bytes_written : ℕ

-- `(*countingWriter).Write`
unfoldable pub write : Writer → Bytes → Writer
write w p = record {
  written = w.written ++ p;
  bytes_written = (w.bytes_written + length p) % 2 ^ 64;
}

-- `PackfileBuilder`. Its hash was given what was written, so it is not kept beside it.
pub record PackfileBuilder : Type 0 where
  pub w : Writer
  pub idx : List BlockInfo
  pub seq : ℕ
  pub closed : Bool

-- `NewPackfileBuilder` on an empty buffer
abbrev pub new_packfile_builder : PackfileBuilder
new_packfile_builder = record {
  w = record { written = []; bytes_written = 0 };
  idx = [];
  seq = 0;
  closed = false;
}

-- `makeBlock`
unfoldable pub make_block : Zstd → Bytes → Sum → Mode → Result Bytes
make_block z chunk s mode = do
  compressed ← compress z mode chunk
  ok (uint64_binary (length compressed) ++ (as_uint8 mode ∷ (s ++ compressed)))

-- The object type is written before the first block.
unfoldable pub write_type : List BlockInfo → Writer → Writer
write_type [] w = write w (packfile_object ∷ [])
write_type (i ∷ is) w = w

unfoldable pub append_block :
    Bytes → Sum → Mode → Result Bytes → PackfileBuilder → Result (Unit {0}) × PackfileBuilder
append_block chunk s mode (err e) b = (err e, b)
append_block chunk s mode (ok block) b =
    let info : BlockInfo = record {
      sum = s;
      chunk_size = length chunk;
      sequence = b.seq;
      offset = b.w.bytes_written;
      size = length block;
      mode = mode;
    } in
    (
      ok tt,
      record b { w = write b.w block; idx = b.idx ++ (info ∷ []); seq = (b.seq + 1) % 2 ^ 64 },
    )

-- `(*PackfileBuilder).Append`
unfoldable pub append :
    Zstd → PackfileBuilder → Bytes → Sum → Mode → Result (Unit {0}) × PackfileBuilder
append z b chunk s mode =
    let b' : PackfileBuilder = record b { w = write_type b.idx b.w } in
    if b'.closed
    then (err (message "packfile builder is closed"), b')
    else append_block chunk s mode (make_block z chunk s mode) b'

-- `(*PackfileBuilder).Build`
unfoldable pub build : Hash → PackfileBuilder → PackIndex × PackfileBuilder
build h b = (
  record { blocks = b.idx; sum = compute h b.w.written; size = b.w.bytes_written },
  record b { closed = true },
)
