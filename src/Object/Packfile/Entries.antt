-- ===== src/Object/Packfile/Entries.antt =====
-- What a packfile holds: the entries that were appended, their bytes, and their place in an index.
use jotfs.Prelude.{ℕ, ◌+◌, ◌%◌, ◌^◌, ◌≡◌, arith, List, [], ◌∷◌, ◌++◌, length, length-append}
use jotfs.Errors.{ok}
use jotfs.Bytes.{Bytes, IsU64, uint64_binary}
use jotfs.Bytes.Laws.{length-uint64_binary}
use jotfs.Sum.{Sum, IsSum, Hash, compute, compute-IsSum}
use jotfs.Compress.{Mode, Zstd, as_uint8, compress}
use jotfs.Object.PackIndex.{BlockInfo}

-- A block as `makeBlock` lays it out
abbrev pub block_bytes : Mode → Sum → Bytes → Bytes
block_bytes mode s c = uint64_binary (length c) ++ (as_uint8 mode ∷ (s ++ c))

pub length-block_bytes :
    (mode : Mode) (s : Sum) (c : Bytes) → IsSum s → length (block_bytes mode s c) ≡ 41 + length c
length-block_bytes mode s c h =
    rw length-append (omega (arith, length-uint64_binary (length c), length-append s c))

-- A chunk, and what its mode compressed it to
pub record Entry : Type 0 where
  pub chunk : Bytes
  pub mode : Mode
  pub packed : Bytes

pub record IsEntry (z : Zstd) (e : Entry) : Type 0 where
  pub compressed : compress z e.mode e.chunk ≡ ok e.packed
  pub chunk_fits : IsU64 (length e.chunk)

-- The sequence number after the entries
unfoldable pub last_seq : ℕ → List Entry → ℕ
last_seq seq [] = seq
last_seq seq (e ∷ es) = last_seq ((seq + 1) % 2 ^ 64) es

module _ (h : Hash) where
  abbrev pub entry_sum : Entry → Sum
  entry_sum e = compute h e.chunk

  abbrev pub entry_bytes : Entry → Bytes
  entry_bytes e = block_bytes e.mode (compute h e.chunk) e.packed

  unfoldable pub body : List Entry → Bytes
  body [] = []
  body (e ∷ es) = entry_bytes e ++ body es

  -- The block of `e` behind `n` bytes and `seq` blocks
  abbrev pub info : ℕ → ℕ → Entry → BlockInfo
  info n seq e = record {
    sum = compute h e.chunk;
    chunk_size = length e.chunk;
    sequence = seq;
    offset = n;
    size = 41 + length e.packed;
    mode = e.mode;
  }

  unfoldable pub infos : ℕ → ℕ → List Entry → List BlockInfo
  infos n seq [] = []
  infos n seq (e ∷ es) = info n seq e ∷ infos (n + (41 + length e.packed)) ((seq + 1) % 2 ^ 64) es

  pub length-entry_bytes : (e : Entry) → length (entry_bytes e) ≡ 41 + length e.packed
  length-entry_bytes e =
      length-block_bytes e.mode (compute h e.chunk) e.packed (compute-IsSum h e.chunk)

  pub length-body :
      (e : Entry) (es : List Entry)
      → length (body (e ∷ es)) ≡ 41 + length e.packed + length (body es)
  unfolding body
  length-body e es = rw length-append (omega (arith, length-entry_bytes e))
