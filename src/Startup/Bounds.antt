-- ===== src/Startup/Bounds.antt =====
-- The chunker parameters of a configuration that `validate` accepts.
use jotfs.Prelude.{
  ◌+◌, ◌*◌, ◌≤◌, ◌≡◌, ◌↔◌, ◌∷◌, ◌++◌, arith, Bool-cases, inl, inr, ◌||◌, ltb, length, length-append,
}
use jotfs.Errors.{ok}
use jotfs.Bytes.{Bytes, uint64_binary}
use jotfs.Bytes.Laws.{length-uint64_binary}
use jotfs.Sum.{IsSum}
use jotfs.Compress.{Zstd, plain, compress, as_uint8}
use jotfs.Object.Packfile.{
  append, append_block, make_block, new_packfile_builder, write, write_type,
}
use jotfs.Startup.{
  ServerConfig, validate, UintSize, bits_32, bits_64, chunker_params, kib, min_avg_kib, max_avg_kib,
  max_packfile_size,
}

validate-range :
    (c : ServerConfig) → validate c ≡ ok tt → (64 ≤ c.avg_chunk_kib) × (c.avg_chunk_kib ≤ 65_536)
unfolding validate
validate-range c e =
    elim (Bool-cases (ltb c.avg_chunk_kib min_avg_kib || ltb max_avg_kib c.avg_chunk_kib)) [
      | inl b ↦ absurd (cc (rw b at e))
      | inr b ↦ (ground arith, ground arith)
    ]

length-largest :
    (z : Zstd) (chunk s : Bytes)
    → IsSum s
    → length (append z new_packfile_builder chunk s plain).1.w.written ≡ 42 + length chunk
unfolding append append_block make_block compress write_type write
length-largest z chunk s h = omega (
  arith,
  length-append (uint64_binary (length chunk)) (as_uint8 plain ∷ (s ++ chunk)),
  length-append s chunk,
  length-uint64_binary (length chunk),
  h,
)

-- Where `validate` accepts the configuration, the chunker parameters that `run` makes of it do not wrap
-- around, in 32 or in 64 bits: the average is the one of the flag, the smallest size is a quarter of
-- it, at least 16 KiB, and the largest is four times the average. The packfile of one uncompressed
-- chunk of the largest size is at most as large as a packfile may be exactly where the average is at
-- most 32767 KiB.
pub chunker_params_lem :
    (w : UintSize) (c : ServerConfig) (z : Zstd) (chunk s : Bytes)
    → validate c ≡ ok tt
    → IsSum s
    → length chunk ≡ (chunker_params w c).max_chunk_size
    → ((chunker_params w c).avg_chunk_size ≡ c.avg_chunk_kib * kib)
      × ((chunker_params w c).min_chunk_size * 4 ≡ c.avg_chunk_kib * kib)
      × ((chunker_params w c).max_chunk_size ≡ c.avg_chunk_kib * kib * 4)
      × (16 * kib ≤ (chunker_params w c).min_chunk_size)
      × (length (append z new_packfile_builder chunk s plain).1.w.written ≤ max_packfile_size
          ↔ c.avg_chunk_kib ≤ 32_767)
unfolding chunker_params
chunker_params_lem w c z chunk s e hs l = go w l
  where
    r : (64 ≤ c.avg_chunk_kib) × (c.avg_chunk_kib ≤ 65_536)
    r = validate-range c e

    whole : length (append z new_packfile_builder chunk s plain).1.w.written ≡ 42 + length chunk
    whole = length-largest z chunk s hs

    go :
        (w : UintSize)
        → length chunk ≡ (chunker_params w c).max_chunk_size
        → ((chunker_params w c).avg_chunk_size ≡ c.avg_chunk_kib * kib)
          × ((chunker_params w c).min_chunk_size * 4 ≡ c.avg_chunk_kib * kib)
          × ((chunker_params w c).max_chunk_size ≡ c.avg_chunk_kib * kib * 4)
          × (16 * kib ≤ (chunker_params w c).min_chunk_size)
          × (length (append z new_packfile_builder chunk s plain).1.w.written ≤ max_packfile_size
              ↔ c.avg_chunk_kib ≤ 32_767)
    go bits_32 l' = (
      omega (arith, r.0, r.1),
      omega (arith, r.0, r.1),
      omega (arith, r.0, r.1),
      omega (arith, r.0, r.1),
      (λ h. omega (arith, r.0, r.1, l', whole), λ h. omega (arith, r.0, r.1, l', whole)),
    )
    go bits_64 l' = (
      omega (arith, r.0, r.1),
      omega (arith, r.0, r.1),
      omega (arith, r.0, r.1),
      omega (arith, r.0, r.1),
      (λ h. omega (arith, r.0, r.1, l', whole), λ h. omega (arith, r.0, r.1, l', whole)),
    )
