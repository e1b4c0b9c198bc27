-- ===== src/Server/Sections/Ranges.antt =====
-- The chunks of a file and the ranges of their sections.
use jotfs.Prelude.{
  ℕ, ◌+◌, ◌<◌, ◌≡◌, ◌≢◌, refl, sym, arith, false, List, [], ◌∷◌, ◌++◌, append_assoc, append-nil,
  All, ◌==◌, Bool-cases, inl, inr,
}
use jotfs.Sum.{eq_of_sum_eq, zero_sum}
use jotfs.Db.Contents.{ChunkIndex}
use jotfs.Server.Sections.{
  Gathering, gathering_start, continues, extend, new_section, add_chunk, gather_step, gather_loop,
  gather,
}
use jotfs.Server.Sections.Layout.{Layout, IsLaidOut, All₂, All₂-append, All₂-map, placed, Places}
use jotfs.Server.Sections.Open.{
  Invariant, close_section, first-IsOpen, first-IsBounded, extended-IsBounded, next-IsOpen,
  still-IsOpen, new_chunk,
}

module _ (l : Layout) where
  -- A later round of the loop: the chunk joins the open section, or closes it and opens its own.
  gather_step-Invariant :
      (i : ℕ) (done : List ChunkIndex) (g : Gathering) (idx : ChunkIndex)
      → 0 < i
      → IsLaidOut l idx
      → Invariant l done g
      → Invariant l (done ++ (idx ∷ [])) (gather_step i g idx)
  unfolding gather_step add_chunk new_section extend new_chunk
  gather_step-Invariant i done g idx pos laid v = elim (Bool-cases (continues g idx)) [
    | inl e ↦ rw e (record {
      closed = v.closed;
      pending = v.pending ++ (idx ∷ []);
      all = rw v.all (append_assoc v.closed v.pending (idx ∷ []));
      closed_places = v.closed_places;
      open_chunks =
          All₂-append _ g.chunks _ v.pending _
            (All₂-map _ _ g.chunks v.pending (still-IsOpen l g idx laid v.bounded e) v.open_chunks)
            (next-IsOpen l g idx laid v.bounded e, tt);
      bounded = extended-IsBounded l g idx laid v.bounded e;
    })
    | inr e ↦ rw e (record {
      closed = done;
      pending = idx ∷ [];
      all = refl;
      closed_places = rw not_first (close_section l done g v);
      open_chunks = (first-IsOpen l g idx laid, tt);
      bounded = first-IsBounded l g idx laid;
    })
  ]
    where
      not_first : (i == 0) ≡ false
      not_first = ground arith

  gather_loop-Invariant :
      (i : ℕ) (done : List ChunkIndex) (g : Gathering) (rest : List ChunkIndex)
      → 0 < i
      → All (IsLaidOut l) rest
      → Invariant l done g
      → Invariant l (done ++ rest) (gather_loop i g rest)
  unfolding gather_loop
  gather_loop-Invariant i done g [] pos h v = rw append-nil v
  gather_loop-Invariant i done g (idx ∷ rest) pos (hi, h) v =
      rw (← append_assoc done (idx ∷ []) rest) (
        gather_loop-Invariant (i + 1) (done ++ (idx ∷ [])) (gather_step i g idx) rest (omega arith)
          h (gather_step-Invariant i done g idx pos hi v))

  -- The first round opens a section, since no packfile has the zero checksum.
  first_step-Invariant :
      (idx : ChunkIndex)
      → idx.pack_sum ≢ zero_sum
      → IsLaidOut l idx
      → Invariant l (idx ∷ []) (gather_step 0 gathering_start idx)
  unfolding gather_step add_chunk new_section new_chunk
  first_step-Invariant idx nonzero laid = rw opens (record {
    closed = [];
    pending = idx ∷ [];
    all = refl;
    closed_places = tt;
    open_chunks = (first-IsOpen l gathering_start idx laid, tt);
    bounded = first-IsBounded l gathering_start idx laid;
  })
    where
      opens : continues gathering_start idx ≡ false
      opens = elim (Bool-cases (continues gathering_start idx)) [
        | inl e ↦
            absurd (
              nonzero (sym (unfold continues in eq_of_sum_eq zero_sum idx.pack_sum (ground arith))))
        | inr e ↦ e
      ]

  -- For a file of one chunk or more, whose packfiles have their blocks one behind the other and whose
  -- first chunk is not in a packfile with the zero checksum, the sections hold the file's chunks in
  -- their order and no others. Each section is of the packfile of its chunks, and its range has the
  -- whole block of each at the offset that it says.
  pub gather-Places :
      (idx : ChunkIndex) (rest : List ChunkIndex)
      → idx.pack_sum ≢ zero_sum
      → All (IsLaidOut l) (idx ∷ rest)
      → All₂ Places (placed (gather (idx ∷ rest))) (idx ∷ rest)
  unfolding gather gather_loop
  gather-Places idx rest nonzero (hi, h) = close_section l (idx ∷ rest) _ (
      gather_loop-Invariant 1 (idx ∷ []) (gather_step 0 gathering_start idx) rest (omega arith) h
        (first_step-Invariant idx nonzero hi))
