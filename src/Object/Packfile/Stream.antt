-- ===== src/Object/Packfile/Stream.antt =====
-- The reader of `LoadPackIndex`: a `countingReader` over a tee into the hash of the packfile.
use jotfs.Prelude.{
  ℕ, ◌∙◌, [], ◌∷◌, ◌<◌, ◌+◌, ◌-◌, ◌%◌, ◌^◌, ◌≡◌, ◌++◌, length, take, length-append, take_front,
  arith,
}
use jotfs.Errors.{Result, ok}
use jotfs.Bytes.{Bytes, IsU64, uint64_binary}
use jotfs.Bytes.Laws.{length-uint64_binary}
use jotfs.Step.{Step}
use jotfs.Reader.{Reader, read_full, read_uint8, get_binary_uint64}
use jotfs.Reader.Laws.{read_full_front, read_uint8_front, get_binary_uint64_front}

pub record Stream : Type 0 where
  pub rest : Bytes
  pub hashed : Bytes
  pub bytes_read : ℕ

abbrev pub start : Bytes → Stream
start bs = record { rest = bs; hashed = []; bytes_read = 0 }

-- The stream after a read that leaves `rest`: what was taken is hashed and counted.
unfoldable pub advance : Stream → Bytes → Stream
advance st rest =
    let taken = length st.rest - length rest in
    record {
      rest = rest;
      hashed = st.hashed ++ take taken st.rest;
      bytes_read = (st.bytes_read + taken) % 2 ^ 64;
    }

unfoldable pub counting : {A : Type 0} → Reader A → Step Stream A
counting m st = let (r, rest) = m st.rest in (r, advance st rest)

abbrev pub at : Bytes → Bytes → ℕ → Stream
at rest hashed n = record { rest = rest; hashed = hashed; bytes_read = n }

taken_front : (xs ys : Bytes) → length (xs ++ ys) - length ys ≡ length xs
taken_front xs ys = rw length-append (omega arith)

advance_front :
    (xs ys hashed : Bytes) (n : ℕ)
    → n + length xs < 2 ^ 64
    → advance (at (xs ++ ys) hashed n) ys ≡ at ys (hashed ++ xs) (n + length xs)
unfolding advance
advance_front xs ys hashed n h = rw (taken_front xs ys, take_front xs ys) (ground arith)

-- A reader that takes a front of the input takes it from the stream.
counting_front :
    {A : Type 0} (m : Reader A) (r : Result A) (xs ys hashed : Bytes) (n : ℕ)
    → m (xs ++ ys) ≡ (r, ys)
    → n + length xs < 2 ^ 64
    → counting m (at (xs ++ ys) hashed n) ≡ (r, at ys (hashed ++ xs) (n + length xs))
unfolding counting
counting_front m r xs ys hashed n e h = rw (e, advance_front xs ys hashed n h)

-- The three reads of a block, on a stream whose count does not wrap.
pub counting_uint64 :
    (v : ℕ) (ys hashed : Bytes) (n : ℕ)
    → IsU64 v
    → n + 8 < 2 ^ 64
    → counting get_binary_uint64 (at (uint64_binary v ++ ys) hashed n)
      ≡ (ok v, at ys (hashed ++ uint64_binary v) (n + 8))
counting_uint64 v ys hashed n hv h =
    counting_front get_binary_uint64 (ok v) (uint64_binary v) ys hashed n
      (get_binary_uint64_front v ys hv) (rw (length-uint64_binary v) h)
    ∙ rw (length-uint64_binary v)

pub counting_uint8 :
    (b : ℕ) (ys hashed : Bytes) (n : ℕ)
    → n + 1 < 2 ^ 64
    → counting read_uint8 (at (b ∷ ys) hashed n) ≡ (ok b, at ys (hashed ++ (b ∷ [])) (n + 1))
counting_uint8 b ys hashed n h =
    counting_front read_uint8 (ok b) (b ∷ []) ys hashed n (read_uint8_front b ys) h

pub counting_full :
    (k : ℕ) (xs ys hashed : Bytes) (n : ℕ)
    → length xs ≡ k
    → n + k < 2 ^ 64
    → counting (read_full k) (at (xs ++ ys) hashed n) ≡ (ok xs, at ys (hashed ++ xs) (n + k))
counting_full k xs ys hashed n e h =
    counting_front (read_full k) (ok xs) xs ys hashed n (read_full_front k xs ys e) (rw e h) ∙ rw e
