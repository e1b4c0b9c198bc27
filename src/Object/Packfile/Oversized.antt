-- ===== src/Object/Packfile/Oversized.antt =====
-- A packfile whose last block announces more than Go can allocate.
use jotfs.Prelude.{
  ℕ, suc, ◌+◌, ◌-◌, ◌^◌, ◌<◌, ◌≡◌, refl, ◌∙◌, ap, arith, List, [], ◌∷◌, ◌++◌, append_assoc, length,
  length-append, All,
}
use jotfs.Errors.{Result, ok, err, panic}
use jotfs.Step.{◌>>=◌}
use jotfs.Bytes.{Bytes, IsU64, uint64_binary}
use jotfs.Sum.{Sum, IsSum, Hash}
use jotfs.Sum
use jotfs.Compress.{Mode, Zstd, as_uint8, from_uint8-as_uint8}
use jotfs.Object.PackIndex.{BlockInfo}
use jotfs.Object.Packfile.{packfile_object, PackfileBuilder, new_packfile_builder}
use jotfs.Object.Packfile.Stream.{Stream, at, counting_uint64, counting_uint8, counting_full}
use jotfs.Object.Packfile.Entries.{Entry, IsEntry, body, infos, last_seq}
use jotfs.Object.Packfile.Load.{
  max_alloc, check_alloc, read_block, after_read, load_loop, read_type, load_blocks, finish,
  load_pack_index,
}
use jotfs.Object.Packfile.Loaded.{body_len, load_loop-body}
use jotfs.Object.Packfile.Written.{append_all, IsSmall}
use jotfs.Object.Packfile.RoundTrip.{IsBuilt, append_all-IsBuilt}

cannot_alloc : (n : ℕ) → max_alloc < n → check_alloc n ≡ err panic
unfolding check_alloc
cannot_alloc n h = ground arith

-- The head of a block: the size of its data, the mode and the checksum
abbrev pub head : ℕ → Mode → Sum → Bytes
head v mode s = uint64_binary v ++ (as_uint8 mode ∷ s)

finish-panic :
    (z : Zstd) (h : Hash) (p : Result (List BlockInfo) × Stream)
    → p.0 ≡ err panic
    → finish z h p ≡ err panic
unfolding finish
finish-panic z h (ok idx, st) e = absurd (cc e)
finish-panic z h (err x, st) e = cc e

module _ (z : Zstd) (h : Hash) (v : ℕ) (mode : Mode) (s : Sum) (tail : Bytes) where
  load_loop-oversized :
      (fuel n seq : ℕ) (idx : List BlockInfo) (hashed : Bytes)
      → IsU64 v
      → max_alloc < v
      → IsSum s
      → n + 41 < 2 ^ 64
      → (load_loop z h (suc fuel) seq idx (at (head v mode s ++ tail) hashed n)).0 ≡ err panic
  unfolding load_loop after_read read_block ◌>>=◌
  load_loop-oversized fuel n seq idx hashed hv large hs fits = simp append_assoc (
      rw
        (
          counting_uint64 v (as_uint8 mode ∷ (s ++ tail)) hashed n hv (omega (arith, fits)),
          counting_uint8 (as_uint8 mode) (s ++ tail) _ (n + 8) (omega (arith, fits)),
          from_uint8-as_uint8 mode,
          counting_full Sum.size s tail _ (n + 8 + 1) hs (omega (arith, fits)),
          cannot_alloc v large,
        )
        refl)

  load_loop-body_oversized :
      (es : List Entry) (fuel : ℕ)
      → All (IsEntry z) es
      → IsU64 v
      → max_alloc < v
      → IsSum s
      → 1 + length (body h es) + 41 < 2 ^ 48
      → length es < fuel
      → (load_loop z h fuel 0 []
          (at (body h es ++ (head v mode s ++ tail)) (packfile_object ∷ []) 1)).0
        ≡ err panic
  load_loop-body_oversized es fuel valid hv large hs fits enough = cc (
    load_loop-body z h es (suc left) 1 0 [] (head v mode s ++ tail) (packfile_object ∷ []) valid
        (omega arith),
    split,
    load_loop-oversized left (1 + length (body h es)) (last_seq 0 es) (infos h 1 0 es)
        (packfile_object ∷ body h es) hv large hs (omega (arith, fits)),
  )
    where
      left : ℕ
      left = fuel - length es - 1

      split : fuel ≡ length es + suc left
      split = omega arith

  load_pack_index-body_oversized :
      (es : List Entry)
      → All (IsEntry z) es
      → IsU64 v
      → max_alloc < v
      → IsSum s
      → 1 + length (body h es) + 41 < 2 ^ 48
      → load_pack_index z h (packfile_object ∷ (body h es ++ (head v mode s ++ tail))) ≡ err panic
  unfolding load_pack_index read_type load_blocks finish ◌>>=◌
  load_pack_index-body_oversized es valid hv large hs fits =
      let rest = body h es ++ (head v mode s ++ tail) in
      rw (counting_uint8 1 rest [] 0 (omega arith)) (
        finish-panic z h _ (
          load_loop-body_oversized es (suc (suc (length rest))) valid hv large hs fits
            (omega (arith, body_len z h es, length-append (body h es) (head v mode s ++ tail)))))

  -- Where one chunk or more were appended to a new builder without an error, and the packfile that was
  -- written is followed by the head of one more block, whose size is above 2 ^ 48, and anything else,
  -- `LoadPackIndex` panics. The packfile and this head are shorter than 2 ^ 48 bytes.
  pub load_pack_index-oversized :
      (c : Bytes × Mode) (cs : List (Bytes × Mode)) (b : PackfileBuilder)
      → append_all z h (c ∷ cs) new_packfile_builder ≡ (ok tt, b)
      → All IsSmall (c ∷ cs)
      → IsU64 v
      → max_alloc < v
      → IsSum s
      → length b.w.written + 41 < 2 ^ 48
      → load_pack_index z h (b.w.written ++ (head v mode s ++ tail)) ≡ err panic
  load_pack_index-oversized c cs b r small hv large hs fits =
      over b (append_all-IsBuilt z h c cs b r small (omega arith)) fits
    where
      over :
          (b : PackfileBuilder)
          → IsBuilt z h b
          → length b.w.written + 41 < 2 ^ 48
          → load_pack_index z h (b.w.written ++ (head v mode s ++ tail)) ≡ err panic
      over b k fits' =
          let whole : length b.w.written ≡ 1 + length (body h k.entries) =
            ap (λ (t : Bytes). length t) k.written ∙ omega arith in
          ap (λ (t : Bytes). load_pack_index z h (t ++ (head v mode s ++ tail))) k.written
          ∙ load_pack_index-body_oversized k.entries k.valid hv large hs
              (omega (arith, whole, fits'))
