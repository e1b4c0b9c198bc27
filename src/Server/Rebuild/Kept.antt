-- ===== src/Server/Rebuild/Kept.antt =====
-- The rebuilt index and the filtered packfile.
use jotfs.Prelude.{
  ℕ, ◌+◌, ◌%◌, ◌^◌, ◌<◌, ◌≤◌, ◌≡◌, ◌≢◌, refl, sym, ap, ◌∙◌, arith, Bool, true, false, Bool-cases,
  inl, inr, List, [], ◌∷◌, ◌++◌, append_assoc, append-nil, length, All, if◌then◌else◌,
}
use jotfs.Errors.{Result, ok}
use jotfs.Bytes.{Bytes}
use jotfs.Sum.{Hash, compute}
use jotfs.Compress.{Mode, Zstd}
use jotfs.Object.PackIndex.{BlockInfo}
use jotfs.Object.Packfile.{packfile_object, PackfileBuilder, new_packfile_builder, build}
use jotfs.Object.Packfile.Entries.{Entry, IsEntry, body, info, infos, length-body}
use jotfs.Object.Packfile.Written.{append_all, IsSmall}
use jotfs.Object.Packfile.RoundTrip.{IsBuilt, append_all-IsBuilt}
use jotfs.Object.Packfile.Load.{load_pack_index}
use jotfs.Object.Packfile.Loaded.{load_pack_index-body}
use jotfs.Object.Packfile.Filter.{filter_packfile}
use jotfs.Object.Packfile.Filtered.{kept, filter_packfile-body}
use jotfs.Server.Rebuild.{Rebuilding, keep_block, rebuild_loop, rebuild, new_index}

All-kept :
    (P : Entry → Type 0) (f : ℕ → Bool) (i : ℕ) (es : List Entry) → All P es → All P (kept f i es)
All-kept P f i [] v = tt
All-kept P f i (e ∷ es) (ve, v) = elim (Bool-cases (f i)) [
  | inl keep ↦ rw keep (ve, All-kept P f ((i + 1) % 2 ^ 64) es v)
  | inr skip ↦ rw skip (All-kept P f ((i + 1) % 2 ^ 64) es v)
]

module _ (h : Hash) where
  length-kept :
      (f : ℕ → Bool) (i : ℕ) (es : List Entry) → length (body h (kept f i es)) ≤ length (body h es)
  length-kept f i [] = omega arith
  length-kept f i (e ∷ es) = elim (Bool-cases (f i)) [
    | inl keep ↦ rw keep (
        omega (
          arith,
          length-body h e es,
          length-body h e (kept f ((i + 1) % 2 ^ 64) es),
          length-kept f ((i + 1) % 2 ^ 64) es,
        ))
    | inr skip ↦ rw skip (omega (arith, length-body h e es, length-kept f ((i + 1) % 2 ^ 64) es))
  ]

  rebuild_loop-step :
      (f : ℕ → Bool) (b : BlockInfo) (bs : List BlockInfo) (r : Rebuilding) (k : Bool)
      → f b.sequence ≡ k
      → rebuild_loop f r (b ∷ bs) ≡ rebuild_loop f (if k then keep_block b r else r) bs
  unfolding rebuild_loop
  rebuild_loop-step f b bs r k e =
      ap (λ (k : Bool). rebuild_loop f (if k then keep_block b r else r) bs) e

  -- The loop on the blocks of a packfile's entries
  rebuild_loop-infos :
      (f : ℕ → Bool) (es : List Entry) (n i : ℕ) (r : Rebuilding)
      → r.offset + length (body h es) < 2 ^ 64
      → (rebuild_loop f r (infos h n i es)).blocks
        ≡ r.blocks ++ infos h r.offset r.seq (kept f i es)
  unfolding infos rebuild_loop keep_block
  rebuild_loop-infos f [] n i r fits = sym (append-nil r.blocks)
  rebuild_loop-infos f (e ∷ es) n i r fits = elim (Bool-cases (f i)) [
    | inl keep ↦
        ap (λ (t : Rebuilding). t.blocks)
          (rebuild_loop-step f (info h n i e)
            (infos h (n + (41 + length e.packed)) ((i + 1) % 2 ^ 64) es) r true keep)
        ∙ rebuild_loop-infos f es (n + (41 + length e.packed)) ((i + 1) % 2 ^ 64)
            (keep_block (info h n i e) r) (omega (arith, length-body h e es))
        ∙ after_kept
        ∙ rw keep refl
    | inr skip ↦
        ap (λ (t : Rebuilding). t.blocks)
          (rebuild_loop-step f (info h n i e)
            (infos h (n + (41 + length e.packed)) ((i + 1) % 2 ^ 64) es) r false skip)
        ∙ rebuild_loop-infos f es (n + (41 + length e.packed)) ((i + 1) % 2 ^ 64) r
            (omega (arith, length-body h e es))
        ∙ rw skip refl
  ]
    where
      offset_eq : (r.offset + (41 + length e.packed)) % 2 ^ 64 ≡ r.offset + (41 + length e.packed)
      offset_eq = omega (arith, length-body h e es)

      after_kept :
          (keep_block (info h n i e) r).blocks
            ++ infos h
                (keep_block (info h n i e) r).offset
                (keep_block (info h n i e) r).seq
                (kept f ((i + 1) % 2 ^ 64) es)
          ≡ r.blocks ++ infos h r.offset r.seq (e ∷ kept f ((i + 1) % 2 ^ 64) es)
      after_kept = rw (offset_eq, append_assoc) refl

  rebuild-infos :
      (f : ℕ → Bool) (es : List Entry)
      → 1 + length (body h es) < 2 ^ 64
      → (rebuild f (infos h 1 0 es)).blocks ≡ infos h 1 0 (kept f 0 es)
  unfolding rebuild rebuild_loop infos
  rebuild-infos f [] fits = refl
  rebuild-infos f (e ∷ es) fits = rebuild_loop-infos f (e ∷ es) 1 0 _ fits

module _ (z : Zstd) (h : Hash) where
  load-kept :
      (f : ℕ → Bool) (b : PackfileBuilder)
      → IsBuilt z h b
      → length b.w.written < 2 ^ 48
      → (rebuild f b.idx).blocks ≢ []
      → (size : ℕ) × ((filter_packfile f b.w.written).0 ≡ ok size)
        × (load_pack_index z h (filter_packfile f b.w.written).1.written
            ≡ ok (new_index h f (build h b).0 (filter_packfile f b.w.written).1.written size))
  unfolding new_index build infos
  load-kept f b k fits some_kept = (
    length (packfile_object ∷ body h (kept f 0 k.entries)),
    cc (k.written, filtered.0),
    cc (k.written, k.indexed, filtered.1, blocks, loaded),
  )
    where
      whole : length b.w.written ≡ length (packfile_object ∷ body h k.entries)
      whole = ap (λ (t : Bytes). length t) k.written

      blocks : (rebuild f b.idx).blocks ≡ infos h 1 0 (kept f 0 k.entries)
      blocks = rw k.indexed (rebuild-infos h f k.entries (omega (arith, whole)))

      no_blocks : kept f 0 k.entries ≡ [] → (rebuild f b.idx).blocks ≡ []
      no_blocks e = blocks ∙ ap (λ (t : List Entry). infos h 1 0 t) e

      filtered :
          ((filter_packfile f (packfile_object ∷ body h k.entries)).0
            ≡ ok (length (packfile_object ∷ body h (kept f 0 k.entries))))
          × ((filter_packfile f (packfile_object ∷ body h k.entries)).1.written
              ≡ packfile_object ∷ body h (kept f 0 k.entries))
      filtered =
          filter_packfile-body h f k.entries (λ e. some_kept (no_blocks e)) (omega (arith, whole))

      loaded :
          load_pack_index z h (packfile_object ∷ body h (kept f 0 k.entries))
          ≡ ok (record {
            blocks = infos h 1 0 (kept f 0 k.entries);
            sum = compute h (packfile_object ∷ body h (kept f 0 k.entries));
            size = length (packfile_object ∷ body h (kept f 0 k.entries));
          })
      loaded =
          load_pack_index-body z h (kept f 0 k.entries) (All-kept (IsEntry z) f 0 k.entries k.valid)
            (omega (arith, whole, length-kept h f 0 k.entries))

  none_kept :
      (f : ℕ → Bool) (b : PackfileBuilder)
      → append_all z h [] new_packfile_builder ≡ (ok tt, b)
      → (rebuild f b.idx).blocks ≡ []
  unfolding append_all rebuild rebuild_loop
  none_kept f b r =
      ap (λ (p : Result (Unit {0}) × PackfileBuilder). (rebuild f p.1.idx).blocks) (sym r)

  -- Where chunks were appended to a new builder with their checksums and without an error, the chunks are
  -- shorter than 2 ^ 64 bytes and the packfile than 2 ^ 48, and one block at least is kept: filtering
  -- the packfile succeeds, and what it writes loads to the index that the vacuum builds from the old
  -- one and stores in its place.
  pub load_pack_index-filter_packfile :
      (f : ℕ → Bool) (cs : List (Bytes × Mode)) (b : PackfileBuilder)
      → append_all z h cs new_packfile_builder ≡ (ok tt, b)
      → All IsSmall cs
      → length b.w.written < 2 ^ 48
      → (rebuild f b.idx).blocks ≢ []
      → (size : ℕ) × ((filter_packfile f b.w.written).0 ≡ ok size)
        × (load_pack_index z h (filter_packfile f b.w.written).1.written
            ≡ ok (new_index h f (build h b).0 (filter_packfile f b.w.written).1.written size))
  load_pack_index-filter_packfile f [] b r small fits some_kept =
      absurd (some_kept (none_kept f b r))
  load_pack_index-filter_packfile f (c ∷ cs) b r small fits some_kept =
      load-kept f b (append_all-IsBuilt z h c cs b r small (omega arith)) fits some_kept
