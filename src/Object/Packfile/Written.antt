-- ===== src/Object/Packfile/Written.antt =====
-- What a builder has written after a run of appends.
use jotfs.Prelude.{
  ℕ, suc, ◌+◌, ◌%◌, ◌^◌, ◌≤◌, ◌<◌, ◌≡◌, refl, inl, inr, arith, false, List, [], ◌∷◌, ◌++◌,
  append_assoc, append-nil, ◌∙◌, sym, ap, subst, length, length-append, All,
}
use jotfs.Errors.{Error, Result, Result-cases, ok, err}
use jotfs.Bytes.{Bytes, IsU64}
use jotfs.Sum.{Sum, Hash, compute}
use jotfs.Compress.{Mode, Zstd, compress}
use jotfs.Object.PackIndex.{BlockInfo}
use jotfs.Object.Packfile.{
  Writer, write, PackfileBuilder, make_block, write_type, append_block, append,
}
use jotfs.Object.Packfile.Entries.{
  block_bytes, Entry, IsEntry, entry_bytes, body, infos, length-entry_bytes,
}

abbrev after_append :
    (PackfileBuilder → Result (Unit {0}) × PackfileBuilder)
    → Result (Unit {0}) × PackfileBuilder
    → Result (Unit {0}) × PackfileBuilder
after_append next (ok u, b) = next b
after_append next (err e, b) = (err e, b)

-- A client that appends chunks with their checksums, until one fails.
unfoldable pub append_all :
    Zstd → Hash → List (Bytes × Mode) → PackfileBuilder → Result (Unit {0}) × PackfileBuilder
append_all z h [] b = (ok tt, b)
append_all z h ((c, m) ∷ cs) b = after_append (append_all z h cs) (append z b c (compute h c) m)

abbrev pub IsSmall : Bytes × Mode → Type 0
IsSmall (c, m) = IsU64 (length c)

-- The builder after a block was appended
abbrev appended : PackfileBuilder → Bytes → Sum → Mode → Bytes → PackfileBuilder
appended b chunk s mode packed = record b {
  w = write (write_type b.idx b.w) (block_bytes mode s packed);
  idx =
      b.idx
      ++ (record {
        sum = s;
        chunk_size = length chunk;
        sequence = b.seq;
        offset = (write_type b.idx b.w).bytes_written;
        size = length (block_bytes mode s packed);
        mode = mode;
      }
          ∷ []);
  seq = (b.seq + 1) % 2 ^ 64;
}

-- The two ways an open builder's `Append` ends
append-ok :
    (z : Zstd) (b : PackfileBuilder) (chunk : Bytes) (s : Sum) (mode : Mode) {packed : Bytes}
    → b.closed ≡ false
    → compress z mode chunk ≡ ok packed
    → append z b chunk s mode ≡ (ok tt, appended b chunk s mode packed)
unfolding append append_block make_block
append-ok z b chunk s mode o e = rw (e, o) refl

append-err :
    (z : Zstd) (b : PackfileBuilder) (chunk : Bytes) (s : Sum) (mode : Mode) {e : Error}
    → b.closed ≡ false
    → compress z mode chunk ≡ err e
    → append z b chunk s mode ≡ (err e, record b { w = write_type b.idx b.w })
unfolding append append_block make_block
append-err z b chunk s mode o e = rw (e, o) refl

write_type-snoc :
    (is : List BlockInfo) (i : BlockInfo) (w : Writer) → write_type (is ++ (i ∷ [])) w ≡ w
unfolding write_type
write_type-snoc [] i w = refl
write_type-snoc (j ∷ is) i w = refl

length-write_type :
    (is : List BlockInfo) (w : Writer) → length w.written ≤ length (write_type is w).written
unfolding write_type write
length-write_type [] w = rw length-append (omega arith)
length-write_type (i ∷ is) w = omega arith

length-appended :
    (b : PackfileBuilder) (chunk : Bytes) (s : Sum) (mode : Mode) (packed : Bytes)
    → length (appended b chunk s mode packed).w.written
      ≡ length (write_type b.idx b.w).written + length (block_bytes mode s packed)
unfolding write
length-appended b chunk s mode packed = length-append (write_type b.idx b.w).written _

module _ (z : Zstd) (h : Hash) where
  -- No append takes back what was written.
  length-append_all :
      (cs : List (Bytes × Mode)) (b : PackfileBuilder)
      → b.closed ≡ false
      → length b.w.written ≤ length (append_all z h cs b).1.w.written
  unfolding append_all
  length-append_all [] b o = omega arith
  length-append_all ((c, m) ∷ cs) b o = elim (Result-cases (compress z m c)) [
    | inl (packed, e) ↦ rw (append-ok z b c (compute h c) m o e) (
        omega (
          arith,
          length-write_type b.idx b.w,
          length-appended b c (compute h c) m packed,
          length-append_all cs (appended b c (compute h c) m packed) o,
        ))
    | inr (x, e) ↦ rw (append-err z b c (compute h c) m o e) (length-write_type b.idx b.w)
  ]

-- `b` has written `w` and then the entries, and indexed them behind `idx`.
pub record Holds (z : Zstd) (h : Hash) (count : ℕ) (w : Writer) (seq : ℕ) (idx : List BlockInfo)
    (b : PackfileBuilder) : Type 0 where
  pub entries : List Entry
  pub valid : All (IsEntry z) entries
  pub size : length entries ≡ count
  pub written : (write_type b.idx b.w).written ≡ w.written ++ body h entries
  pub counted : (write_type b.idx b.w).bytes_written ≡ length (write_type b.idx b.w).written
  pub indexed : b.idx ≡ idx ++ infos h (length w.written) seq entries

abbrev IsCounted : Writer → Type 0
IsCounted w = w.bytes_written ≡ length w.written

write-IsCounted :
    (w : Writer) (p : Bytes)
    → IsCounted w
    → length w.written + length p < 2 ^ 64
    → IsCounted (write w p)
unfolding write
write-IsCounted w p c h = rw (length-append w.written p) (omega arith)

module _ (z : Zstd) (h : Hash) where
  -- One more entry in front
  Holds-cons :
      (n : ℕ) (b b' : PackfileBuilder) (e : Entry)
      → IsCounted (write_type b.idx b.w)
      → IsEntry z e
      → Holds z h n
          (appended b e.chunk (compute h e.chunk) e.mode e.packed).w
          ((b.seq + 1) % 2 ^ 64)
          (appended b e.chunk (compute h e.chunk) e.mode e.packed).idx
          b'
      → Holds z h (suc n) (write_type b.idx b.w) b.seq b.idx b'
  unfolding body infos write
  Holds-cons n b b' e c v k = record {
    size = ap suc k.size;
    entries = e ∷ k.entries;
    valid = (v, k.valid);
    written =
        k.written
        ∙ append_assoc (write_type b.idx b.w).written (entry_bytes h e) (body h k.entries);
    counted = k.counted;
    indexed = k.indexed ∙ rw (append_assoc, c, after, length-entry_bytes h e) refl;
  }
    where
      after :
          length ((write_type b.idx b.w).written ++ entry_bytes h e)
          ≡ length (write_type b.idx b.w).written + (41 + length e.packed)
      after = rw length-append (omega (arith, length-entry_bytes h e))

  Holds-refl :
      (b : PackfileBuilder)
      → IsCounted (write_type b.idx b.w)
      → Holds z h 0 (write_type b.idx b.w) b.seq b.idx b
  unfolding body infos
  Holds-refl b c = record {
    entries = [];
    size = refl;
    valid = tt;
    written = sym (append-nil (write_type b.idx b.w).written);
    counted = c;
    indexed = sym (append-nil b.idx);
  }

  -- After a successful run of appends, what was written is the entries, in the order of the chunks.
  pub append_all-Holds :
      (cs : List (Bytes × Mode)) (b b' : PackfileBuilder)
      → append_all z h cs b ≡ (ok tt, b')
      → b.closed ≡ false
      → All IsSmall cs
      → IsCounted (write_type b.idx b.w)
      → length b'.w.written < 2 ^ 64
      → Holds z h (length cs) (write_type b.idx b.w) b.seq b.idx b'
  unfolding append_all
  append_all-Holds [] b b' r o s c l =
      subst (λ t. Holds z h 0 (write_type b.idx b.w) b.seq b.idx t) (ap (λ p. p.1) r)
        (Holds-refl b c)
  append_all-Holds ((chunk, m) ∷ cs) b b' r o (s, ss) c l =
      elim (Result-cases (compress z m chunk)) [
        | inl (packed, e) ↦ step packed e (append_all-Holds cs (next packed) b')
        | inr (x, e) ↦ absurd (cc (append-err z b chunk (compute h chunk) m o e))
      ]
    where
      next : Bytes → PackfileBuilder
      next packed = appended b chunk (compute h chunk) m packed

      later : (packed : Bytes) → write_type (next packed).idx (next packed).w ≡ (next packed).w
      later packed = write_type-snoc b.idx _ (next packed).w

      room :
          (packed : Bytes)
          → append_all z h cs (next packed) ≡ (ok tt, b')
          → length (write_type b.idx b.w).written + length (block_bytes m (compute h chunk) packed)
            < 2 ^ 64
      room packed r' = omega (
        arith,
        length-appended b chunk (compute h chunk) m packed,
        length-append_all z h cs (next packed) o,
        ap (λ (t : Result (Unit {0}) × PackfileBuilder). length t.1.w.written) r',
      )

      step :
          (packed : Bytes)
          → compress z m chunk ≡ ok packed
          → (append_all z h cs (next packed) ≡ (ok tt, b')
              → (next packed).closed ≡ false
              → All IsSmall cs
              → IsCounted (write_type (next packed).idx (next packed).w)
              → length b'.w.written < 2 ^ 64
              → Holds z h
                  (length cs)
                  (write_type (next packed).idx (next packed).w)
                  (next packed).seq
                  (next packed).idx
                  b')
          → Holds z h (suc (length cs)) (write_type b.idx b.w) b.seq b.idx b'
      step packed e rest =
          let r' : append_all z h cs (next packed) ≡ (ok tt, b') =
            rw (append-ok z b chunk (compute h chunk) m o e) at r in
          Holds-cons (length cs) b b' (record { chunk = chunk; mode = m; packed = packed }) c
            (record { compressed = e; chunk_fits = s })
            (rw (later packed) at (
              rest r' o ss
                (rw (later packed) (write-IsCounted (write_type b.idx b.w) _ c (room packed r')))
                l))
