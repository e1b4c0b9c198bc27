-- ===== src/Server/Sections.antt =====
-- `Download` of internal/server/server.go: how the chunks of a file are gathered into sections, each
-- a contiguous slice of a packfile.
pub mod Layout
pub mod Open
pub mod Ranges
use jotfs.Prelude.{
  ℕ, ◌+◌, ◌-◌, ◌%◌, ◌^◌, Bool, true, false, ◌&&◌, List, [], ◌∷◌, ◌++◌, leb, ◌==◌, if◌then◌else◌,
}
use jotfs.Db.Contents.{ChunkIndex}
use jotfs.Sum.{Sum, sum_eq, zero_sum}
use jotfs.Object.PackIndex.{BlockInfo, zero_block}

-- `chunk`
pub record SectionChunk : Type 0 where
  pub sequence : ℕ
  pub sum : Sum
  pub size : ℕ
  pub block_offset : ℕ

-- `section`; both ends of the range are in it.
pub record Section : Type 0 where
  pub chunks : List SectionChunk
  pub pack_sum : Sum
  pub start : ℕ
  pub end : ℕ

-- The variables of the loop
pub record Gathering : Type 0 where
  pub sections : List Section
  pub pack_sum : Sum
  pub block_start : BlockInfo
  pub block_end : BlockInfo
  pub chunks : List SectionChunk

abbrev pub gathering_start : Gathering
gathering_start = record {
  sections = [];
  pack_sum = zero_sum;
  block_start = zero_block;
  block_end = zero_block;
  chunks = [];
}

-- `a + b - 1` on uint64
abbrev pub range_end : ℕ → ℕ → ℕ
range_end a b = (a + b + 2 ^ 64 - 1) % 2 ^ 64

-- The section that is open
abbrev pub open_section : Gathering → Section
open_section g = record {
  chunks = g.chunks;
  pack_sum = g.pack_sum;
  start = g.block_start.offset;
  end = range_end g.block_end.offset g.block_end.size;
}

-- Whether a chunk goes on in the open section
unfoldable pub continues : Gathering → ChunkIndex → Bool
continues g idx =
    sum_eq g.pack_sum idx.pack_sum
    && (leb g.block_start.sequence idx.block.sequence
        && leb idx.block.sequence ((g.block_end.sequence + 1) % 2 ^ 64))

unfoldable pub extend : Gathering → ChunkIndex → Gathering
extend g idx = record g {
  block_end =
      if idx.block.sequence == (g.block_end.sequence + 1) % 2 ^ 64 then idx.block else g.block_end;
}

-- The open section is closed, unless this is the first chunk.
unfoldable pub new_section : ℕ → Gathering → ChunkIndex → Gathering
new_section i g idx = record {
  sections = if i == 0 then g.sections else g.sections ++ (open_section g ∷ []);
  pack_sum = idx.pack_sum;
  block_start = idx.block;
  block_end = idx.block;
  chunks = [];
}

unfoldable pub add_chunk : ChunkIndex → Gathering → Gathering
add_chunk idx g = record g {
  chunks =
      g.chunks
      ++ (record {
        sequence = idx.sequence;
        sum = idx.block.sum;
        size = idx.block.chunk_size;
        block_offset = (idx.block.offset + 2 ^ 64 - g.block_start.offset) % 2 ^ 64;
      }
          ∷ []);
}

-- One round of the loop
unfoldable pub gather_step : ℕ → Gathering → ChunkIndex → Gathering
gather_step i g idx = add_chunk idx (if continues g idx then extend g idx else new_section i g idx)

unfoldable pub gather_loop : ℕ → Gathering → List ChunkIndex → Gathering
gather_loop i g [] = g
gather_loop i g (idx ∷ rest) = gather_loop (i + 1) (gather_step i g idx) rest

-- The sections of `Download`, the final one included
unfoldable pub gather : List ChunkIndex → List Section
gather indices =
    let g = gather_loop 0 gathering_start indices in g.sections ++ (open_section g ∷ [])
