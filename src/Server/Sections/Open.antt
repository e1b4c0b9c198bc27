-- ===== src/Server/Sections/Open.antt =====
-- The open section of the loop of `Download`, and what holds when a chunk joins it or opens it.
use jotfs.Prelude.{
  ℕ, suc, ◌+◌, ◌-◌, ◌%◌, ◌^◌, ◌≤◌, ◌<◌, ◌≡◌, refl, sym, ap, arith, true, List, [], ◌∷◌, ◌++◌, ltb,
  ◌==◌, Bool-cases, inl, inr,
}
use jotfs.Sum.{Sum, eq_of_sum_eq}
use jotfs.Object.PackIndex.{BlockInfo}
use jotfs.Db.Contents.{ChunkIndex}
use jotfs.Server.Sections.{SectionChunk, Gathering, open_section, continues, extend}
use jotfs.Server.Sections.Layout.{
  Layout, IsLaidOut, IsInRange, All₂, All₂-append, All₂-map, placed, placed-append, Places,
  with_section-Places,
}

module _ (l : Layout) where
  -- Blocks further on do not begin earlier.
  pub offset_mono :
      (p : Sum) (j k : ℕ) → j ≤ k → k ≤ l.num_blocks p → l.offset_of p j ≤ l.offset_of p k
  offset_mono p j k h m = elim (Bool-cases (ltb j k)) [
    | inl e ↦ omega (arith, l.ascending p j k (ground arith) m)
    | inr e ↦ let same : j ≡ k = ground arith in rw same (omega arith)
  ]

  -- A chunk of the open section
  pub record IsOpen (p : Sum) (first last : BlockInfo) (c : SectionChunk) (i : ChunkIndex)
      : Type 0 where
    pub sequence : c.sequence ≡ i.sequence
    pub sum : c.sum ≡ i.block.sum
    pub size : c.size ≡ i.block.chunk_size
    pub pack : i.pack_sum ≡ p
    pub from : first.sequence ≤ i.block.sequence
    pub upto : i.block.sequence ≤ last.sequence
    pub laid_out : IsLaidOut l i
    pub offset : first.offset + c.block_offset ≡ i.block.offset

  -- The first and the last block of the open section
  pub record IsBounded (p : Sum) (first last : BlockInfo) : Type 0 where
    pub start_offset : first.offset ≡ l.offset_of p first.sequence
    pub end_offset : last.offset + last.size ≡ l.offset_of p (suc last.sequence)
    pub ordered : first.sequence ≤ last.sequence
    pub in_pack : suc last.sequence ≤ l.num_blocks p

  pub record Invariant (done : List ChunkIndex) (g : Gathering) : Type 0 where
    pub closed : List ChunkIndex
    pub pending : List ChunkIndex
    pub all : done ≡ closed ++ pending
    pub closed_places : All₂ Places (placed g.sections) closed
    pub open_chunks : All₂ (IsOpen g.pack_sum g.block_start g.block_end) g.chunks pending
    pub bounded : IsBounded g.pack_sum g.block_start g.block_end

  -- When a section is closed, its chunks are in its range.
  pub close_chunk :
      (g : Gathering)
      → IsBounded g.pack_sum g.block_start g.block_end
      → (c : SectionChunk) (i : ChunkIndex) → IsOpen g.pack_sum g.block_start g.block_end c i
      → IsInRange (open_section g) c i
  close_chunk g b c i o = record {
    sequence = o.sequence;
    sum = o.sum;
    size = o.size;
    pack = sym o.pack;
    offset = o.offset;
    within = omega (
      arith,
      o.laid_out.size,
      b.end_offset,
      ap (λ (p : Sum). l.offset_of p (suc i.block.sequence)) o.pack,
      l.ascending g.pack_sum g.block_end.sequence (suc g.block_end.sequence) (omega arith)
          b.in_pack,
      l.fits g.pack_sum (suc g.block_end.sequence) b.in_pack,
      offset_mono g.pack_sum (suc i.block.sequence) (suc g.block_end.sequence)
          (omega (arith, o.upto)) b.in_pack,
    );
  }

  pub close_section :
      (done : List ChunkIndex) (g : Gathering)
      → Invariant done g
      → All₂ Places (placed (g.sections ++ (open_section g ∷ []))) done
  close_section done g v =
      rw (placed-append g.sections (open_section g), v.all)
        (All₂-append Places _ _ v.closed v.pending v.closed_places (
          with_section-Places (open_section g) g.chunks v.pending
            (All₂-map _ _ g.chunks v.pending (close_chunk g v.bounded) v.open_chunks)))

  module _ (g : Gathering) (idx : ChunkIndex) (laid : IsLaidOut l idx) where
    unfoldable pub new_chunk : BlockInfo → SectionChunk
    new_chunk first = record {
      sequence = idx.sequence;
      sum = idx.block.sum;
      size = idx.block.chunk_size;
      block_offset = (idx.block.offset + 2 ^ 64 - first.offset) % 2 ^ 64;
    }

    -- A chunk that opens a section is its first and its last block.
    pub first-IsOpen : IsOpen idx.pack_sum idx.block idx.block (new_chunk idx.block) idx
    unfolding new_chunk
    first-IsOpen = record {
      sequence = refl;
      sum = refl;
      size = refl;
      pack = refl;
      from = omega arith;
      upto = omega arith;
      laid_out = laid;
      offset = omega (
        arith,
        laid.offset,
        l.fits idx.pack_sum idx.block.sequence (omega (arith, laid.sequence)),
      );
    }

    pub first-IsBounded : IsBounded idx.pack_sum idx.block idx.block
    first-IsBounded = record {
      start_offset = laid.offset;
      end_offset = laid.size;
      ordered = omega arith;
      in_pack = laid.sequence;
    }

    module _ (b : IsBounded g.pack_sum g.block_start g.block_end)
        (goes_on : continues g idx ≡ true) where
      pub end_fits : suc g.block_end.sequence < 2 ^ 64
      end_fits = omega (arith, b.in_pack, l.num_blocks_fits g.pack_sum)

      pub same_pack : g.pack_sum ≡ idx.pack_sum
      unfolding continues
      same_pack = eq_of_sum_eq g.pack_sum idx.pack_sum (ground arith)

      pub not_before : g.block_start.sequence ≤ idx.block.sequence
      unfolding continues
      not_before = ground arith

      pub not_after : idx.block.sequence ≤ suc g.block_end.sequence
      unfolding continues
      not_after = ground (arith, end_fits)

      pub extended-IsBounded : IsBounded g.pack_sum g.block_start (extend g idx).block_end
      unfolding extend
      extended-IsBounded =
          elim (Bool-cases (idx.block.sequence == (g.block_end.sequence + 1) % 2 ^ 64)) [
            | inl e ↦ rw e (record {
              start_offset = b.start_offset;
              end_offset = rw same_pack laid.size;
              ordered = not_before;
              in_pack = rw same_pack laid.sequence;
            })
            | inr e ↦ rw e b
          ]

      pub reaches :
          (idx.block.sequence ≤ (extend g idx).block_end.sequence)
          × (g.block_end.sequence ≤ (extend g idx).block_end.sequence)
      unfolding extend
      reaches = elim (Bool-cases (idx.block.sequence == (g.block_end.sequence + 1) % 2 ^ 64)) [
        | inl e ↦ rw e (ground (arith, end_fits))
        | inr e ↦ rw e (ground (arith, end_fits, not_after))
      ]

      pub next-IsOpen :
          IsOpen g.pack_sum g.block_start (extend g idx).block_end (new_chunk g.block_start) idx
      unfolding new_chunk
      next-IsOpen = record {
        sequence = refl;
        sum = refl;
        size = refl;
        pack = sym same_pack;
        from = not_before;
        upto = reaches.0;
        laid_out = laid;
        offset = omega (
          arith,
          laid.offset,
          b.start_offset,
          l.fits idx.pack_sum idx.block.sequence (omega (arith, laid.sequence)),
          ap (λ (p : Sum). l.offset_of p g.block_start.sequence) same_pack,
          offset_mono idx.pack_sum g.block_start.sequence idx.block.sequence not_before
              (omega (arith, laid.sequence)),
        );
      }

      pub still-IsOpen :
          (c : SectionChunk) (i : ChunkIndex)
          → IsOpen g.pack_sum g.block_start g.block_end c i
          → IsOpen g.pack_sum g.block_start (extend g idx).block_end c i
      still-IsOpen c i o = record {
        sequence = o.sequence;
        sum = o.sum;
        size = o.size;
        pack = o.pack;
        from = o.from;
        upto = omega (arith, o.upto, reaches);
        laid_out = o.laid_out;
        offset = o.offset;
      }
