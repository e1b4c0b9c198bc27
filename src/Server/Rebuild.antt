-- ===== src/Server/Rebuild.antt =====
-- `rebuildPackfile` of internal/server/vacuum.go: the index of the packfile that a vacuum leaves.
pub mod Kept
use jotfs.Prelude.{
  ℕ, ◌+◌, ◌%◌, ◌^◌, Bool, true, false, not, Option, none, some, List, [], ◌∷◌, ◌++◌, ◌==◌,
  if◌then◌else◌,
}
use jotfs.Bytes.{Bytes}
use jotfs.Sum.{Hash, compute}
use jotfs.Table.{exists}
use jotfs.Object.PackIndex.{BlockInfo, PackIndex}

-- `filter`: the map `remove` is the list of its keys.
unfoldable pub is_kept : List ℕ → ℕ → Bool
is_kept remove i = not (exists (λ j. j == i) remove)

-- The variables of the loop; the map `m` is a function that is `none` outside its keys.
pub record Rebuilding : Type 0 where
  pub m : ℕ → Option ℕ
  pub blocks : List BlockInfo
  pub offset : ℕ
  pub seq : ℕ

abbrev pub set_key : ℕ → ℕ → (ℕ → Option ℕ) → ℕ → Option ℕ
set_key seq old m k = if k == seq then some old else m k

-- One round of the loop on a block that is kept
unfoldable pub keep_block : BlockInfo → Rebuilding → Rebuilding
keep_block block r = record {
  m = set_key r.seq block.sequence r.m;
  blocks = r.blocks ++ (record block { offset = r.offset; sequence = r.seq } ∷ []);
  offset = (r.offset + block.size) % 2 ^ 64;
  seq = (r.seq + 1) % 2 ^ 64;
}

unfoldable pub rebuild_loop : (ℕ → Bool) → Rebuilding → List BlockInfo → Rebuilding
rebuild_loop f r [] = r
rebuild_loop f r (block ∷ rest) =
    let r' = keep_block block r in rebuild_loop f (if f block.sequence then r' else r) rest

-- `index.Blocks[0].Offset`, where an index of no blocks would panic
first_offset : List BlockInfo → ℕ
first_offset [] = 0
first_offset (block ∷ rest) = block.offset

unfoldable pub rebuild : (ℕ → Bool) → List BlockInfo → Rebuilding
unfolding first_offset
rebuild f blocks =
    rebuild_loop f (record { m = λ k. none; blocks = []; offset = first_offset blocks; seq = 0 })
      blocks

-- `newIndex`, from the packfile that was filtered and its size
unfoldable pub new_index : Hash → (ℕ → Bool) → PackIndex → Bytes → ℕ → PackIndex
new_index h f index filtered size = record {
  blocks = (rebuild f index.blocks).blocks;
  sum = compute h filtered;
  size = size;
}
