-- ===== src/Object/Packfile/Whole.antt =====
-- The checksum and the size in the index that `LoadPackIndex` returns.
use jotfs.Prelude.{
  ℕ, zero, suc, ◌+◌, ◌-◌, ◌%◌, ◌^◌, ◌≡◌, refl, sym, subst, ◌∙◌, ap, arith, List, [], ◌∷◌, ◌++◌,
  length, take, drop, length-take, length-drop, length-append, take-append-drop, append_assoc,
  append-nil, Bool-cases, inl, inr, leb, leb→le,
}
use jotfs.Errors.{Result, ok, err, eof, panic}
use jotfs.Bytes.{Bytes}
use jotfs.Step.{Step, ◌>>=◌, continue, pure, lift, gets}
use jotfs.Reader.{Reader, read_full, read_uint8, get_binary_uint64}
use jotfs.Sum.{Hash, compute}
use jotfs.Sum
use jotfs.Compress.{Zstd, from_uint8}
use jotfs.Object.PackIndex.{BlockInfo, PackIndex}
use jotfs.Object.Packfile.Stream.{Stream, start, advance, counting}
use jotfs.Object.Packfile.Total.{load_pack_index-cases}
use jotfs.Object.Packfile.Load.{
  Block, Next, check_alloc, read_block, after_check, after_read, load_loop, check_block, finish,
  load_pack_index,
}

-- What a read takes from its input, and that `io.EOF` leaves nothing
record Drops {A : Type 0} (bs : Bytes) (p : Result A × Bytes) : Type 0 where
  left : p.1 ≡ drop (length bs - length p.1) bs
  at_end : p.0 ≡ err eof → p.1 ≡ []

drop_none : (bs : Bytes) → [] ≡ drop (length bs) bs
drop_none [] = refl
drop_none (b ∷ bs) = drop_none bs

drop_all : (bs : Bytes) → [] ≡ drop (length bs - 0) bs
drop_all [] = refl
drop_all (b ∷ bs) =
    let same : length (b ∷ bs) ≡ length (b ∷ bs) - 0 = omega arith in
    drop_none bs ∙ ap (λ k. drop k (b ∷ bs)) same

read_full-Drops : (n : ℕ) (bs : Bytes) → Drops bs (read_full n bs)
unfolding read_full
read_full-Drops n bs = elim (Bool-cases (leb n (length bs))) [
  | inl e ↦
      rw (e, read_full)
        (record {
          left = ap (λ k. drop k bs) (omega (arith, leb→le n (length bs) e, length-drop n bs));
          at_end = λ k. absurd (cc k);
        })
  | inr e ↦ rw (e, read_full) (record { left = drop_all bs; at_end = λ k. refl })
]

read_full-then :
    {A : Type 0} (n : ℕ) (f : Bytes → A) (bs : Bytes)
    → Drops bs ((read_full n >>= λ b. pure (f b)) bs)
unfolding ◌>>=◌ pure
read_full-then {A} n f bs = go (read_full n bs) (read_full-Drops n bs)
  where
    go : (p : Result Bytes × Bytes) → Drops bs p → Drops bs (continue p.0 (λ b. pure (f b)) p.1)
    go (ok b, rest) d = record { left = d.left; at_end = λ k. absurd (cc k) }
    go (err e, rest) d = record { left = d.left; at_end = λ k. d.at_end (cc k) }

-- The hash has seen what is not left of the input, and its length was counted.
record IsCounted (bs : Bytes) (st : Stream) : Type 0 where
  whole : st.hashed ++ st.rest ≡ bs
  count : st.bytes_read ≡ length st.hashed % 2 ^ 64

record Counted {A : Type 0} (bs : Bytes) (p : Result A × Stream) : Type 0 where
  counted : IsCounted bs p.1
  at_end : p.0 ≡ err eof → p.1.rest ≡ []

record Counts {A : Type 0} (bs : Bytes) (m : Step Stream A) (st : Stream) : Type 0 where
  holds : Counted bs (m st)

advance-IsCounted :
    (bs : Bytes) (st : Stream) (rest : Bytes)
    → rest ≡ drop (length st.rest - length rest) st.rest
    → IsCounted bs st
    → IsCounted bs (advance st rest)
unfolding advance
advance-IsCounted bs st rest d c =
    let taken = length st.rest - length rest in
    record {
      whole =
          append_assoc st.hashed (take taken st.rest) rest
          ∙ ap (λ t. st.hashed ++ t)
              (ap (λ t. take taken st.rest ++ t) d ∙ take-append-drop taken st.rest)
          ∙ c.whole;
      count =
          omega (
            arith,
            c.count,
            length-append st.hashed (take taken st.rest),
            length-take taken st.rest,
          );
    }

counting-Counts :
    {A : Type 0} (bs : Bytes) (m : Reader A) (st : Stream)
    → ((r : Bytes) → Drops r (m r))
    → IsCounted bs st
    → Counts bs (counting m) st
unfolding counting advance
counting-Counts bs m st d c = record {
  holds = record {
    counted = advance-IsCounted bs st (m st.rest).1 (d st.rest).left c;
    at_end = λ e. (d st.rest).at_end e;
  };
}

Counts-gets :
    {A : Type 0} {bs : Bytes} (f : Stream → A) {st : Stream}
    → IsCounted bs st
    → Counts bs (gets f) st
unfolding gets
Counts-gets f c = record { holds = record { counted = c; at_end = λ e. absurd (cc e) } }

Counts-bind :
    {A B : Type 0} {bs : Bytes} {m : Step Stream A} {f : A → Step Stream B} {st : Stream}
    → Counts bs m st
    → ((a : A) (st' : Stream) → IsCounted bs st' → Counts bs (f a) st')
    → Counts bs (m >>= f) st
unfolding ◌>>=◌
Counts-bind {A} {B} {bs} {m} {f} {st} h k = record { holds = go (m st) h.holds }
  where
    go : (p : Result A × Stream) → Counted bs p → Counted bs (continue p.0 f p.1)
    go (ok a, st') c = (k a st' c.counted).holds
    go (err e, st') c = record { counted = c.counted; at_end = λ e'. c.at_end (cc e') }

get_binary_uint64-Drops : (bs : Bytes) → Drops bs (get_binary_uint64 bs)
unfolding get_binary_uint64
get_binary_uint64-Drops bs = read_full-then 8 _ bs

read_uint8-Drops : (bs : Bytes) → Drops bs (read_uint8 bs)
unfolding read_uint8
read_uint8-Drops bs = read_full-then 1 _ bs

from_uint8-Counts :
    (bs : Bytes) (m : ℕ) (st : Stream) → IsCounted bs st → Counts bs (lift (from_uint8 m)) st
unfolding lift from_uint8
from_uint8-Counts bs m st c = record {
  holds = record { counted = c; at_end = λ e. absurd (ground arith) };
}

check_alloc-Counts :
    (bs : Bytes) (n : ℕ) (st : Stream) → IsCounted bs st → Counts bs (lift (check_alloc n)) st
unfolding lift check_alloc
check_alloc-Counts bs n st c = record {
  holds = record { counted = c; at_end = λ e. absurd (ground arith) };
}

read_block-Counts : (bs : Bytes) (st : Stream) → IsCounted bs st → Counts bs read_block st
unfolding read_block pure
read_block-Counts bs st h = Counts-bind (Counts-gets (λ (s : Stream). s.bytes_read) h) (λ o s1 h1.
    Counts-bind (counting-Counts bs _ s1 get_binary_uint64-Drops h1) (λ size s2 h2.
      Counts-bind (counting-Counts bs _ s2 read_uint8-Drops h2) (λ m s3 h3.
        Counts-bind (from_uint8-Counts bs m s3 h3) (λ mode s4 h4.
          Counts-bind (counting-Counts bs _ s4 (read_full-Drops Sum.size) h4) (λ s s5 h5.
            Counts-bind (check_alloc-Counts bs size s5 h5) (λ u s5' h5'.
              Counts-bind (counting-Counts bs _ s5' (read_full-Drops size) h5') (λ c s6 h6.
                Counts-bind (Counts-gets (λ (s : Stream). s.bytes_read) h6) (λ e s7 h7. record {
                  holds = record { counted = h7; at_end = λ e'. absurd (cc e') };
                }))))))))

-- All of the input was read where the result is no error.
record ReadsAll {A : Type 0} (bs : Bytes) (p : Result A × Stream) : Type 0 where
  holds : (a : A) → p.0 ≡ ok a → IsCounted bs p.1 × (p.1.rest ≡ [])

module _ (z : Zstd) (h : Hash) (bs : Bytes) where
  Reads : Next z h → Stream → Type 0
  Reads next st = (idx : List BlockInfo) → ReadsAll bs (next idx st)

  after_check-ReadsAll :
      (next : Next z h) (st : Stream) (idx : List BlockInfo) (r : Result BlockInfo)
      → Reads next st
      → ReadsAll bs (after_check z h idx next r st)
  unfolding after_check Reads
  after_check-ReadsAll next st idx (ok info) k = k (idx ++ (info ∷ []))
  after_check-ReadsAll next st idx (err e) k = record { holds = λ a e'. absurd (cc e') }

  after_read-ReadsAll :
      (next : Next z h) (seq : ℕ) (idx : List BlockInfo) (p : Result Block × Stream)
      → Counted bs p
      → Reads next p.1
      → ReadsAll bs (after_read z h seq idx next p)
  unfolding after_read
  after_read-ReadsAll next seq idx (ok b, st) c k =
      after_check-ReadsAll next st idx (check_block z h seq b) k
  after_read-ReadsAll next seq idx (err eof, st) c k = record {
    holds = λ a e. (c.counted, c.at_end refl);
  }
  after_read-ReadsAll next seq idx (err panic, st) c k = record { holds = λ a e'. absurd (cc e') }
  after_read-ReadsAll next seq idx (err e, st) c k = record { holds = λ a e'. absurd (cc e') }

  load_loop-ReadsAll :
      (fuel seq : ℕ) (st : Stream) → IsCounted bs st → Reads (load_loop z h fuel seq) st
  unfolding load_loop Reads
  load_loop-ReadsAll zero seq st c idx = record { holds = λ a e. absurd (cc e) }
  load_loop-ReadsAll (suc fuel) seq st c idx =
      after_read-ReadsAll _ seq idx (read_block st) (read_block-Counts bs st c).holds (
        load_loop-ReadsAll fuel ((seq + 1) % 2 ^ 64) (read_block st).1
          (read_block-Counts bs st c).holds.counted)

  finish-ReadsAll :
      (p : Result (List BlockInfo) × Stream) (idx : PackIndex)
      → ReadsAll bs p
      → finish z h p ≡ ok idx
      → (idx.sum ≡ compute h bs) × (idx.size ≡ length bs % 2 ^ 64)
  unfolding finish
  finish-ReadsAll (ok bl, st) idx r e =
      let (c, none_left) = r.holds bl refl in
      let all : st.hashed ≡ bs =
        sym (append-nil st.hashed) ∙ ap (λ t. st.hashed ++ t) (sym none_left) ∙ c.whole in
      let made : record { blocks = bl; sum = compute h st.hashed; size = st.bytes_read } ≡ idx =
        cc e in
      (
        ap (λ (x : PackIndex). x.sum) (sym made) ∙ ap (compute h) all,
        ap (λ (x : PackIndex). x.size) (sym made)
            ∙ c.count
            ∙ ap (λ (t : Bytes). length t % 2 ^ 64) all,
      )
  finish-ReadsAll (err x, st) idx r e = absurd (cc e)

  -- Where `LoadPackIndex` returns an index, its checksum is that of the whole input, and its size the
  -- number of bytes of the input.
  pub load_pack_index-whole :
      (idx : PackIndex)
      → load_pack_index z h bs ≡ ok idx
      → (idx.sum ≡ compute h bs) × (idx.size ≡ length bs % 2 ^ 64)
  unfolding Reads
  load_pack_index-whole idx =
      load_pack_index-cases z h
        (λ r. r ≡ ok idx → (idx.sum ≡ compute h bs) × (idx.size ≡ length bs % 2 ^ 64)) bs
        (λ e e'. absurd (cc e')) (λ e'. absurd (cc e'))
        (λ t st r e.
          finish-ReadsAll _ idx (load_loop-ReadsAll (suc (length bs)) 0 st (begun st r) []) e)
    where
      begun : {t : ℕ} (st : Stream) → counting read_uint8 (start bs) ≡ (ok t, st) → IsCounted bs st
      begun st r =
          subst (λ (p : Result ℕ × Stream). IsCounted bs p.1) r
            (counting-Counts bs read_uint8 (start bs) read_uint8-Drops
              (record { whole = refl; count = refl })).holds.counted
