-- ===== src/Object/Packfile/Cut.antt =====
-- A packfile that is cut off between two fields of its last block.
use jotfs.Prelude.{
  ℕ, suc, ◌+◌, ◌-◌, ◌^◌, ◌<◌, ◌≡◌, refl, ◌∙◌, ap, arith, List, [], ◌∷◌, ◌++◌, append-nil, length,
  length-append, All,
}
use jotfs.Errors.{ok, err, eof}
use jotfs.Step.{◌>>=◌}
use jotfs.Bytes.{Bytes, IsU64, uint64_binary}
use jotfs.Reader.{read_full, read_uint8}
use jotfs.Sum.{Hash, compute}
use jotfs.Compress.{Mode, Zstd}
use jotfs.Object.PackIndex.{BlockInfo}
use jotfs.Object.Packfile.{packfile_object, PackfileBuilder, new_packfile_builder}
use jotfs.Object.Packfile.Stream.{Stream, at, advance, counting, counting_uint64}
use jotfs.Object.Packfile.Entries.{Entry, IsEntry, body, infos, last_seq}
use jotfs.Object.Packfile.Load.{read_block, after_read, load_loop, load_pack_index}
use jotfs.Object.Packfile.Loaded.{at_end, body_len, load_loop-body}
use jotfs.Object.Packfile.Stream.{counting_uint8}
use jotfs.Object.Packfile.Load.{read_type, load_blocks, finish}
use jotfs.Object.Packfile.Written.{append_all, IsSmall}
use jotfs.Object.Packfile.RoundTrip.{IsBuilt, append_all-IsBuilt}

counting_uint8_end :
    (hashed : Bytes) (n : ℕ)
    → n < 2 ^ 64
    → counting read_uint8 (at [] hashed n) ≡ (err eof, at [] hashed n)
unfolding counting advance read_uint8 read_full ◌>>=◌
counting_uint8_end hashed n fits = ap (λ (t : Stream). (err eof, t)) (at_end n hashed fits)

module _ (z : Zstd) (h : Hash) where
  -- The size of a block is there, and nothing of the block.
  load_loop-cut :
      (fuel n seq v : ℕ) (idx : List BlockInfo) (hashed : Bytes)
      → IsU64 v
      → n + 8 < 2 ^ 64
      → load_loop z h (suc fuel) seq idx (at (uint64_binary v ++ []) hashed n)
        ≡ (ok idx, at [] (hashed ++ uint64_binary v) (n + 8))
  unfolding load_loop after_read read_block ◌>>=◌
  load_loop-cut fuel n seq v idx hashed hv fits =
      rw
        (
          counting_uint64 v [] hashed n hv fits,
          counting_uint8_end (hashed ++ uint64_binary v) (n + 8) fits,
        )
        refl

  load_loop-body_cut :
      (es : List Entry) (v fuel : ℕ)
      → All (IsEntry z) es
      → IsU64 v
      → 1 + length (body h es) + 8 < 2 ^ 48
      → length es < fuel
      → load_loop z h fuel 0 [] (at (body h es ++ uint64_binary v) (packfile_object ∷ []) 1) ≡ (
        ok (infos h 1 0 es),
        at [] (packfile_object ∷ (body h es ++ uint64_binary v)) (1 + length (body h es) + 8),
      )
  load_loop-body_cut es v fuel valid hv fits enough = cc (
    load_loop-body z h es (suc left) 1 0 [] (uint64_binary v ++ []) (packfile_object ∷ []) valid
        (omega arith),
    append-nil (uint64_binary v),
    split,
    load_loop-cut left (1 + length (body h es)) (last_seq 0 es) v (infos h 1 0 es)
        (packfile_object ∷ body h es) hv (omega (arith, fits)),
  )
    where
      left : ℕ
      left = fuel - length es - 1

      split : fuel ≡ length es + suc left
      split = omega arith

  load_pack_index-body_cut :
      (es : List Entry) (v : ℕ)
      → All (IsEntry z) es
      → IsU64 v
      → 1 + length (body h es) + 8 < 2 ^ 48
      → load_pack_index z h (packfile_object ∷ (body h es ++ uint64_binary v))
        ≡ ok (record {
          blocks = infos h 1 0 es;
          sum = compute h (packfile_object ∷ (body h es ++ uint64_binary v));
          size = 1 + length (body h es) + 8;
        })
  unfolding load_pack_index read_type load_blocks finish ◌>>=◌
  load_pack_index-body_cut es v valid hv fits =
      rw
        (
          counting_uint8 1 (body h es ++ uint64_binary v) [] 0 (omega arith),
          load_loop-body_cut es v (suc (suc (length (body h es ++ uint64_binary v)))) valid hv fits
              (omega (arith, body_len z h es, length-append (body h es) (uint64_binary v))),
        )
        refl

  -- Where one chunk or more were appended to a new builder without an error, and the packfile that was
  -- written is followed by the size of one more block and then ends, within 2 ^ 48 bytes, it loads
  -- without an error to an index of the whole blocks only.
  pub load_pack_index-cut :
      (c : Bytes × Mode) (cs : List (Bytes × Mode)) (b : PackfileBuilder) (v : ℕ)
      → append_all z h (c ∷ cs) new_packfile_builder ≡ (ok tt, b)
      → All IsSmall (c ∷ cs)
      → IsU64 v
      → length b.w.written + 8 < 2 ^ 48
      → load_pack_index z h (b.w.written ++ uint64_binary v)
        ≡ ok (record {
          blocks = b.idx;
          sum = compute h (b.w.written ++ uint64_binary v);
          size = length b.w.written + 8;
        })
  load_pack_index-cut c cs b v r small hv fits =
      cut b (append_all-IsBuilt z h c cs b r small (omega arith)) fits
    where
      cut :
          (b : PackfileBuilder)
          → IsBuilt z h b
          → length b.w.written + 8 < 2 ^ 48
          → load_pack_index z h (b.w.written ++ uint64_binary v)
            ≡ ok (record {
              blocks = b.idx;
              sum = compute h (b.w.written ++ uint64_binary v);
              size = length b.w.written + 8;
            })
      cut b k fits' =
          let whole : length b.w.written ≡ 1 + length (body h k.entries) =
            ap (λ (t : Bytes). length t) k.written ∙ omega arith in
          cc (
            k.written,
            k.indexed,
            whole,
            load_pack_index-body_cut k.entries v k.valid hv (omega (arith, whole)),
          )
