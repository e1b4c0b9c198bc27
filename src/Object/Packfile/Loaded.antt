-- ===== src/Object/Packfile/Loaded.antt =====
-- What `LoadPackIndex` makes of the bytes of given entries.
use jotfs.Prelude.{
  ℕ, suc, ◌+◌, ◌-◌, ◌%◌, ◌^◌, ◌≤◌, ◌<◌, ◌≡◌, refl, ap, arith, List, [], ◌∷◌, ◌++◌, append_assoc,
  append-nil, length, All,
}
use native.Mathlib.Nat.{mod-eq_of_lt, add-zero, zero-add}
use jotfs.Errors.{ok}
use jotfs.Bytes.{Bytes, uint64_binary}
use jotfs.Reader.{read_full, get_binary_uint64}
use jotfs.Sum.{Sum, IsSum, Hash, compute, compute-IsSum, sum_eq_refl}
use jotfs.Sum
use jotfs.Compress.{Mode, Zstd, as_uint8, from_uint8-as_uint8, decompress-compress}
use jotfs.Object.PackIndex.{BlockInfo}
use jotfs.Object.Packfile.{packfile_object}
use jotfs.Object.Packfile.Stream.{
  Stream, at, advance, counting, counting_uint64, counting_uint8, counting_full,
}
use jotfs.Object.Packfile.Entries.{
  block_bytes, length-block_bytes, Entry, IsEntry, entry_bytes, body, info, infos, last_seq,
  length-entry_bytes, length-body,
}
use jotfs.Object.Packfile.Load.{
  check_alloc, read_block, check_chunk, check_block, after_check, after_read, load_loop, read_type,
  load_blocks, finish, load_pack_index,
}

can_alloc : (n : ℕ) → n < 2 ^ 48 → check_alloc n ≡ ok tt
unfolding check_alloc
can_alloc n h = ground arith

read_block_front :
    (mode : Mode) (s : Sum) (c tail hashed : Bytes) (n : ℕ)
    → IsSum s
    → n + length (block_bytes mode s c) < 2 ^ 48
    → read_block (at (block_bytes mode s c ++ tail) hashed n) ≡ (
      ok (record { sum = s; mode = mode; contents = c; offset = n; size = 41 + length c }),
      at tail (hashed ++ block_bytes mode s c) (n + (41 + length c)),
    )
unfolding read_block jotfs.Step.◌>>=◌ uint64_binary
read_block_front mode s c tail hashed n hs fits = simp append_assoc (
    rw
      (
        counting_uint64 (length c) (as_uint8 mode ∷ (s ++ (c ++ tail))) hashed n
            (omega (arith, fits')) (omega (arith, fits')),
        counting_uint8 (as_uint8 mode) (s ++ (c ++ tail)) _ (n + 8) (omega (arith, fits')),
        from_uint8-as_uint8 mode,
        counting_full Sum.size s (c ++ tail) _ (n + 8 + 1) hs (omega (arith, fits')),
        can_alloc (length c) (omega (arith, fits')),
        counting_full (length c) c tail _ (n + 8 + 1 + 32) refl (omega (arith, fits')),
      )
      (cc (size_eq, count_eq, bytes_eq)))
  where
    fits' : n + (41 + length c) < 2 ^ 48
    fits' = omega (arith, length-block_bytes mode s c hs)

    size_eq : (n + 8 + 1 + 32 + length c + 2 ^ 64 - n) % 2 ^ 64 ≡ 41 + length c
    size_eq = omega (arith, fits')

    count_eq : n + 8 + 1 + 32 + length c ≡ n + (41 + length c)
    count_eq = omega arith

    bytes_eq :
        ((((hashed ++ uint64_binary (length c)) ++ (as_uint8 mode ∷ [])) ++ s) ++ c)
        ≡ hashed ++ block_bytes mode s c
    bytes_eq = simp append_assoc

pub at_end : (n : ℕ) (hashed : Bytes) → n < 2 ^ 64 → advance (at [] hashed n) [] ≡ at [] hashed n
unfolding advance
at_end n hashed h = rw append-nil (ground arith)

-- One round of the loop takes the entry in front of the stream.
module _ (z : Zstd) (h : Hash) where
  check_block_entry :
      (e : Entry) (n seq : ℕ)
      → IsEntry z e
      → check_block z h seq (record {
        sum = compute h e.chunk;
        mode = e.mode;
        contents = e.packed;
        offset = n;
        size = 41 + length e.packed;
      })
        ≡ ok (info h n seq e)
  unfolding check_block check_chunk
  check_block_entry e n seq v =
      rw
        (
          decompress-compress z e.mode e.chunk e.packed v.compressed,
          sum_eq_refl (compute h e.chunk),
        )
        (ap (λ (k : ℕ). ok (record (info h n seq e) { chunk_size = k }))
          (mod-eq_of_lt v.chunk_fits))

  load_loop_entry :
      (e : Entry) (fuel n seq : ℕ) (idx : List BlockInfo) (tail hashed : Bytes)
      → IsEntry z e
      → n + (41 + length e.packed) < 2 ^ 48
      → load_loop z h (suc fuel) seq idx (at (entry_bytes h e ++ tail) hashed n)
        ≡ load_loop z h fuel
            ((seq + 1) % 2 ^ 64)
            (idx ++ (info h n seq e ∷ []))
            (at tail (hashed ++ entry_bytes h e) (n + (41 + length e.packed)))
  unfolding load_loop after_read after_check
  load_loop_entry e fuel n seq idx tail hashed v fits = rw (
    read_block_front e.mode (compute h e.chunk) e.packed tail hashed n (compute-IsSum h e.chunk)
        (rw length-entry_bytes fits),
    check_block_entry e n seq v,
  )

  pub load_loop-body :
      (es : List Entry) (fuel n seq : ℕ) (idx : List BlockInfo) (tail hashed : Bytes)
      → All (IsEntry z) es
      → n + length (body h es) < 2 ^ 48
      → load_loop z h (length es + fuel) seq idx (at (body h es ++ tail) hashed n)
        ≡ load_loop z h fuel
            (last_seq seq es)
            (idx ++ infos h n seq es)
            (at tail (hashed ++ body h es) (n + length (body h es)))
  unfolding body infos last_seq
  load_loop-body [] fuel n seq idx tail hashed v fits =
      rw (append-nil, append-nil, add-zero, zero-add)
  load_loop-body (e ∷ es) fuel n seq idx tail hashed (ve, v) fits =
      let rest =
        load_loop-body es fuel (n + (41 + length e.packed)) ((seq + 1) % 2 ^ 64)
          (idx ++ (info h n seq e ∷ [])) tail (hashed ++ entry_bytes h e) v
          (omega (arith, fits, length-body h e es)) in
      cc (
        load_loop_entry e (length es + fuel) n seq idx (body h es ++ tail) hashed ve
            (omega (arith, fits, length-body h e es)),
        rest,
        append_assoc (entry_bytes h e) (body h es) tail,
        append_assoc hashed (entry_bytes h e) (body h es),
        append_assoc idx (info h n seq e ∷ [])
            (infos h (n + (41 + length e.packed)) ((seq + 1) % 2 ^ 64) es),
        fuel_eq,
        count_eq,
      )
    where
      fuel_eq : suc (length es) + fuel ≡ suc (length es + fuel)
      fuel_eq = omega arith

      count_eq : n + length (body h (e ∷ es)) ≡ n + (41 + length e.packed) + length (body h es)
      count_eq = omega (arith, length-body h e es)

  -- At the end of the input the loop stops.
  load_loop_end :
      (fuel n seq : ℕ) (idx : List BlockInfo) (hashed : Bytes)
      → n < 2 ^ 64
      → load_loop z h (suc fuel) seq idx (at [] hashed n) ≡ (ok idx, at [] hashed n)
  unfolding load_loop after_read read_block counting advance read_full get_binary_uint64
  load_loop_end fuel n seq idx hashed fits = ap (λ (t : Stream). (ok idx, t)) (at_end n hashed fits)

  pub body_len : (es : List Entry) → length es ≤ length (body h es)
  unfolding body
  body_len [] = omega arith
  body_len (e ∷ es) = omega (arith, length-body h e es, body_len es)

  load_loop-All :
      (es : List Entry) (fuel n : ℕ) (hashed : Bytes)
      → All (IsEntry z) es
      → n + length (body h es) < 2 ^ 48
      → length es < fuel
      → load_loop z h fuel 0 [] (at (body h es) hashed n)
        ≡ (ok (infos h n 0 es), at [] (hashed ++ body h es) (n + length (body h es)))
  load_loop-All es fuel n hashed v fits enough = cc (
    load_loop-body es (suc left) n 0 [] [] hashed v fits,
    append-nil (body h es),
    split,
    load_loop_end left (n + length (body h es)) (last_seq 0 es) (infos h n 0 es)
        (hashed ++ body h es) (omega (arith, fits)),
  )
    where
      left : ℕ
      left = fuel - length es - 1

      split : fuel ≡ length es + suc left
      split = omega arith

  -- The bytes of a packfile load to the index of its entries.
  pub load_pack_index-body :
      (es : List Entry)
      → All (IsEntry z) es
      → length (packfile_object ∷ body h es) < 2 ^ 48
      → load_pack_index z h (packfile_object ∷ body h es)
        ≡ ok (record {
          blocks = infos h 1 0 es;
          sum = compute h (packfile_object ∷ body h es);
          size = length (packfile_object ∷ body h es);
        })
  unfolding load_pack_index read_type load_blocks finish
  load_pack_index-body es v fits =
      rw
        (
          counting_uint8 1 (body h es) [] 0 (omega arith),
          load_loop-All es (suc (suc (length (body h es)))) 1 (1 ∷ []) v (omega arith)
              (omega (arith, body_len es)),
        )
        (ap
          (λ (k : ℕ). ok (record {
            blocks = infos h 1 0 es;
            sum = compute h (packfile_object ∷ body h es);
            size = k;
          }))
          (omega arith))
