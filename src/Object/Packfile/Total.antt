-- ===== src/Object/Packfile/Total.antt =====
-- The rounds of the loop of `LoadPackIndex`, and what is left to read after each.
use jotfs.Prelude.{
  ℕ, zero, suc, ◌+◌, ◌-◌, ◌%◌, ◌^◌, List, [], ◌∷◌, ◌++◌, ◌==◌, ◌≤◌, ◌<◌, ◌≡◌, ◌≢◌, refl, subst,
  arith, List, length, length-drop, Bool-cases, inl, inr, leb, leb→le, if◌then◌else◌,
}
use jotfs.Errors.{Error, Result, ok, err, eof, out_of_fuel, panic, wrapped, message, map_err}
use jotfs.Errors
use jotfs.Bytes.{Bytes}
use jotfs.Step.{Step, continue, pure, fail}
use jotfs.Object.Packfile.{packfile_object}
use jotfs.Step.Ensures.{
  Post, Ensures, Ensures-map, Ensures-pure, Ensures-lift, Ensures-bind, Ensures-gets,
}
use jotfs.Reader.{Reader, read_full, read_uint8, get_binary_uint64}
use jotfs.Sum.{Hash}
use jotfs.Sum
use jotfs.Compress.{Zstd, from_uint8, decompress}
use jotfs.Object.PackIndex.{BlockInfo, PackIndex}
use jotfs.Object.Packfile.Stream.{Stream, start, advance, counting}
use jotfs.Object.Packfile.Load.{
  Block, Next, check_alloc, read_block, check_chunk, after_check, after_read, load_loop,
  check_block, load_blocks, read_type, finish, load_pack_index,
}

read_full-takes :
    (n : ℕ) (bs : Bytes) → Ensures (λ a rest. length rest + n ≤ length bs) (read_full n) bs
unfolding read_full
read_full-takes n bs = record { holds = go }
  where
    go : Post (λ a (rest : Bytes). length rest + n ≤ length bs) (read_full n bs)
    go = elim (Bool-cases (leb n (length bs))) [
      | inl e ↦ rw (e, read_full) (omega (arith, leb→le n (length bs) e, length-drop n bs))
      | inr e ↦ rw (e, read_full) tt
    ]

get_binary_uint64-takes :
    (bs : Bytes) → Ensures (λ a rest. length rest + 8 ≤ length bs) get_binary_uint64 bs
unfolding get_binary_uint64
get_binary_uint64-takes bs =
    Ensures-bind _ (read_full-takes 8 bs) (λ b rest h. Ensures-pure _ rest h)

read_uint8-takes : (bs : Bytes) → Ensures (λ a rest. length rest ≤ length bs) read_uint8 bs
unfolding read_uint8
read_uint8-takes bs =
    Ensures-bind _ (read_full-takes 1 bs) (λ b rest h. Ensures-pure _ rest (omega arith))

-- A read of the stream takes from it what the reader takes.
counting-takes :
    {A : Type 0} (n : ℕ) (m : Reader A) (st : Stream)
    → Ensures (λ a rest. length rest + n ≤ length st.rest) m st.rest
    → Ensures (λ a st'. length st'.rest + n ≤ length st.rest) (counting m) st
unfolding counting advance
counting-takes {A} n m st h = record { holds = go (m st.rest) h.holds }
  where
    go :
        (p : Result A × Bytes)
        → Post (λ a rest. length rest + n ≤ length st.rest) p
        → Post (λ a (st' : Stream). length st'.rest + n ≤ length st.rest) (p.0, advance st p.1)
    go (ok a, rest) k = k
    go (err e, rest) k = tt

-- What is left stays below a bound.
below :
    {A : Type 0} (k n : ℕ) {m : Reader A}
    → ((bs : Bytes) → Ensures (λ a rest. length rest + n ≤ length bs) m bs)
    → (st : Stream) → length st.rest ≤ k
    → Ensures (λ a st'. length st'.rest + n ≤ k) (counting m) st
below k n {m} takes st h =
    Ensures-map _ (λ a st' h'. omega arith) (counting-takes n m st (takes st.rest))

size_below :
    (k : ℕ) (st : Stream)
    → length st.rest ≤ k
    → Ensures (λ a st'. length st'.rest + 8 ≤ k) (counting get_binary_uint64) st
size_below k st h = below k 8 get_binary_uint64-takes st h

type_below :
    (k : ℕ) (st : Stream)
    → length st.rest ≤ k
    → Ensures (λ a st'. length st'.rest ≤ k) (counting read_uint8) st
type_below k st h =
    Ensures-map _ (λ a st' h'. omega arith)
      (below k 0 (λ bs. Ensures-map _ (λ a r h'. omega arith) (read_uint8-takes bs)) st h)

bytes_below :
    (n k : ℕ) (st : Stream)
    → length st.rest ≤ k
    → Ensures (λ a st'. length st'.rest ≤ k) (counting (read_full n)) st
bytes_below n k st h = Ensures-map _ (λ a st' h'. omega arith) (below k n (read_full-takes n) st h)

-- Less is left after a block.
read_block-takes :
    (k : ℕ) (st : Stream)
    → length st.rest ≤ k
    → Ensures (λ b st'. length st'.rest + 8 ≤ k) read_block st
unfolding read_block
read_block-takes k st h =
    Ensures-bind (λ _ s. length s.rest ≤ k) (Ensures-gets (λ (s : Stream). s.bytes_read) st h)
      (λ o s1 h1.
        Ensures-bind (λ _ s. length s.rest + 8 ≤ k) (size_below k s1 h1)
          (λ size s2 h2.
            Ensures-bind (λ _ s. length s.rest ≤ k - 8) (type_below (k - 8) s2 (omega arith))
              (λ m s3 h3.
                Ensures-bind (λ _ s. length s.rest ≤ k - 8)
                  (Ensures-lift (from_uint8 m) s3 (λ _ _. h3))
                  (λ mode s4 h4.
                    Ensures-bind (λ _ s. length s.rest ≤ k - 8) (bytes_below Sum.size (k - 8) s4 h4)
                      (λ sum s5 h5.
                        Ensures-bind (λ _ s. length s.rest ≤ k - 8)
                          (Ensures-lift (check_alloc size) s5 (λ _ _. h5))
                          (λ u s5' h5'.
                            Ensures-bind (λ _ s. length s.rest ≤ k - 8)
                              (bytes_below size (k - 8) s5' h5')
                              (λ c s6 h6.
                                Ensures-bind (λ _ s. length s.rest ≤ k - 8)
                                  (Ensures-gets (λ (s : Stream). s.bytes_read) s6 h6)
                                  (λ e s7 h7. Ensures-pure _ s7 (omega arith)))))))))

module _ (z : Zstd) (h : Hash) where
  check_chunk-ends :
      (seq : ℕ) (b : Block) (chunk : Bytes) → check_chunk z h seq b chunk ≢ err out_of_fuel
  unfolding check_chunk
  check_chunk-ends seq b chunk = ground arith

  check_block-ends : (seq : ℕ) (b : Block) → check_block z h seq b ≢ err out_of_fuel
  unfolding check_block
  check_block-ends seq b = go (decompress z b.mode b.contents)
    where
      go :
          (r : Result Bytes)
          → Errors.◌>>=◌ (map_err (wrapped "decompressing chunk data") r) (check_chunk z h seq b)
            ≢ err out_of_fuel
      go (ok chunk) = check_chunk-ends seq b chunk
      go (err e) = cc

  -- The loop ends if it does after what is left of the stream.
  Ends : Next z h → Stream → Type 0
  Ends next st = (idx : List BlockInfo) → (next idx st).0 ≢ err out_of_fuel

  after_check-Ends :
      (next : Next z h) (st : Stream) (idx : List BlockInfo) (r : Result BlockInfo)
      → Ends next st
      → r ≢ err out_of_fuel
      → (after_check z h idx next r st).0 ≢ err out_of_fuel
  unfolding after_check Ends
  after_check-Ends next st idx (ok info) ends h = ends (idx ++ (info ∷ []))
  after_check-Ends next st idx (err e) ends h = λ k. h (cc k)

  after_read-Ends :
      (next : Next z h) (seq : ℕ) (idx : List BlockInfo) (p : Result Block × Stream)
      → Post (λ b st'. Ends next st') p
      → (after_read z h seq idx next p).0 ≢ err out_of_fuel
  unfolding after_read
  after_read-Ends next seq idx (ok b, st) ends =
      after_check-Ends next st idx (check_block z h seq b) ends (check_block-ends seq b)
  after_read-Ends next seq idx (err eof, st) ends = cc
  after_read-Ends next seq idx (err panic, st) ends = cc
  after_read-Ends next seq idx (err e, st) ends = cc

  load_loop-Ends :
      (fuel seq : ℕ) (st : Stream) → length st.rest < fuel → Ends (load_loop z h fuel seq) st
  unfolding load_loop Ends
  load_loop-Ends zero seq st enough idx = elim enough [ ]
  load_loop-Ends (suc fuel) seq st enough idx =
      after_read-Ends (load_loop z h fuel ((seq + 1) % 2 ^ 64)) seq idx (read_block st)
        (Ensures-map _ (λ b st' k. load_loop-Ends fuel ((seq + 1) % 2 ^ 64) st' (omega arith))
          (read_block-takes (length st.rest) st (omega arith))).holds

  finish-ends :
      (p : Result (List BlockInfo) × Stream)
      → p.0 ≢ err out_of_fuel
      → finish z h p ≢ err out_of_fuel
  unfolding finish
  finish-ends (ok idx, st) k = cc
  finish-ends (err e, st) k = λ e'. k (cc e')

  -- `LoadPackIndex` fails at the object type, or returns what the loop after it does.
  pub load_pack_index-cases :
      (P : Result PackIndex → Type 0) (bs : Bytes)
      → ((e : Error) → P (err (wrapped "reading object type" e)))
      → P (err (message "expected packfile object"))
      → ((t : ℕ) (st : Stream)
          → counting read_uint8 (start bs) ≡ (ok t, st)
          → P (finish z h (load_loop z h (suc (length bs)) 0 [] st)))
      → P (load_pack_index z h bs)
  unfolding load_pack_index read_type load_blocks finish
  load_pack_index-cases P bs no_type other after = go (counting read_uint8 (start bs)) refl
    where
      typed : ℕ → Step Stream (Unit {0})
      typed t = if t == packfile_object then pure tt else fail (message "expected packfile object")

      read : Result ℕ × Stream → Result (Unit {0}) × Stream
      read p = continue (map_err (wrapped "reading object type") p.0) typed p.1

      go :
          (p : Result ℕ × Stream)
          → counting read_uint8 (start bs) ≡ p
          → P (
              finish z h
                (continue (read p).0 (λ u. load_loop z h (suc (length bs)) 0 []) (read p).1))
      go (err e, st) r = no_type e
      go (ok t, st) r = elim (Bool-cases (t == packfile_object)) [
        | inl e ↦ rw e (after t st r)
        | inr e ↦ rw e other
      ]

  -- `LoadPackIndex` ends on every input, with an index, an error or the panic of an allocation that is
  -- too large: the rounds that the model gives its loop are never used up.
  pub load_pack_index_total : (bs : Bytes) → load_pack_index z h bs ≢ err out_of_fuel
  unfolding Ends
  load_pack_index_total bs =
      load_pack_index-cases (λ r. r ≢ err out_of_fuel) bs (λ e. cc) (cc)
        (λ t st r. finish-ends _ (
          load_loop-Ends (suc (length bs)) 0 st
            (omega (
              arith,
              subst (Post (λ t (st' : Stream). length st'.rest ≤ length bs)) r
                  (type_below (length bs) (start bs) (omega arith)).holds,
            ))
            []))
