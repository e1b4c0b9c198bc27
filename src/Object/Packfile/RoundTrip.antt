-- ===== src/Object/Packfile/RoundTrip.antt =====
-- Loading what a builder wrote.
use jotfs.Prelude.{ℕ, suc, ◌^◌, ◌<◌, ◌≡◌, ◌≢◌, refl, ap, arith, List, [], ◌∷◌, length, All}
use jotfs.Errors.{ok}
use jotfs.Bytes.{Bytes}
use jotfs.Sum.{Hash}
use jotfs.Compress.{Mode, Zstd}
use jotfs.Object.Packfile.{
  packfile_object, Writer, PackfileBuilder, write, write_type, new_packfile_builder, build,
}
use jotfs.Object.Packfile.Entries.{Entry, IsEntry, body, infos}
use jotfs.Object.Packfile.Written.{append_all, IsSmall, Holds, append_all-Holds}
use jotfs.Object.Packfile.Load.{load_pack_index}
use jotfs.Object.Packfile.Loaded.{load_pack_index-body}

-- A builder that has blocks writes no second object type.
write_type-infos :
    (h : Hash) (es : List Entry) (k n : ℕ) (w : Writer)
    → length es ≡ suc n
    → write_type (infos h k 0 es) w ≡ w
unfolding write_type infos
write_type-infos h [] k n w e = absurd (omega arith)
write_type-infos h (x ∷ es) k n w e = refl

-- The builder has written a packfile of these entries, and indexed them.
pub record IsBuilt (z : Zstd) (h : Hash) (b : PackfileBuilder) : Type 0 where
  pub entries : List Entry
  pub valid : All (IsEntry z) entries
  pub written : b.w.written ≡ packfile_object ∷ body h entries
  pub counted : b.w.bytes_written ≡ length b.w.written
  pub indexed : b.idx ≡ infos h 1 0 entries

module _ (z : Zstd) (h : Hash) where
  Holds-IsBuilt :
      (n : ℕ) (b : PackfileBuilder)
      → Holds z h (suc n) (write_type [] new_packfile_builder.w) 0 [] b
      → IsBuilt z h b
  unfolding write_type write
  Holds-IsBuilt n b k = record {
    entries = k.entries;
    valid = k.valid;
    written = rw settled at k.written;
    counted = rw settled at k.counted;
    indexed = k.indexed;
  }
    where
      settled : write_type b.idx b.w ≡ b.w
      settled = rw k.indexed (write_type-infos h k.entries 1 n b.w k.size)

  pub append_all-IsBuilt :
      (c : Bytes × Mode) (cs : List (Bytes × Mode)) (b : PackfileBuilder)
      → append_all z h (c ∷ cs) new_packfile_builder ≡ (ok tt, b)
      → All IsSmall (c ∷ cs)
      → length b.w.written < 2 ^ 64
      → IsBuilt z h b
  append_all-IsBuilt c cs b r s fits = Holds-IsBuilt (length cs) b (
      append_all-Holds z h (c ∷ cs) new_packfile_builder b r refl s
        (unfold write_type write in refl) fits)

  load-IsBuilt :
      (b : PackfileBuilder)
      → IsBuilt z h b
      → length b.w.written < 2 ^ 48
      → load_pack_index z h b.w.written ≡ ok (build h b).0
  unfolding build
  load-IsBuilt b k fits = cc (
    k.written,
    k.counted,
    k.indexed,
    load_pack_index-body z h k.entries k.valid
        (rw (ap (λ (t : Bytes). length t) k.written) at fits),
    ap (λ (t : Bytes). length t) k.written,
  )

  -- Where one chunk or more were appended to a new builder with their checksums and without an
  -- error, the chunks are shorter than 2 ^ 64 bytes and the packfile is shorter than 2 ^ 48, which is
  -- the most that the reader allocates for a block, the packfile that was written loads to the index that the builder builds.
  pub load_pack_index-build :
      (cs : List (Bytes × Mode)) (b : PackfileBuilder)
      → append_all z h cs new_packfile_builder ≡ (ok tt, b)
      → cs ≢ []
      → All IsSmall cs
      → length b.w.written < 2 ^ 48
      → load_pack_index z h b.w.written ≡ ok (build h b).0
  load_pack_index-build [] b r some_chunk s fits = absurd (some_chunk refl)
  load_pack_index-build (c ∷ cs) b r some_chunk s fits =
      load-IsBuilt b (append_all-IsBuilt c cs b r s (omega arith)) fits
