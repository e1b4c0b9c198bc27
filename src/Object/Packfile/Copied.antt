-- ===== src/Object/Packfile/Copied.antt =====
-- What `copyBlock` does with an entry of a packfile.
use jotfs.Prelude.{
  ℕ, ◌+◌, ◌^◌, ◌<◌, ◌≡◌, refl, ap, ◌∙◌, arith, Bool, true, ◌∷◌, ◌++◌, append_assoc, length,
  length-append, take_front, drop_front, leb,
}
use jotfs.Errors.{ok}
use jotfs.Bytes.{Bytes, uint64_binary}
use jotfs.Bytes.Laws.{length-uint64_binary}
use jotfs.Reader.Laws.{get_binary_uint64_front}
use jotfs.Sum.{Hash, compute, compute-IsSum}
use jotfs.Compress.{as_uint8}
use jotfs.Object.Packfile.{Writer, write}
use jotfs.Object.Packfile.Entries.{Entry, entry_bytes, length-entry_bytes}
use jotfs.Object.Packfile.Filter.{write_if, copy_count, copy_n, copy_sized, copy_block}

abbrev pub IsCounted : Writer → Type 0
IsCounted w = w.bytes_written ≡ length w.written

module _ (h : Hash) where
  -- What follows the size of an entry
  unfoldable pub tail_bytes : Entry → Bytes
  tail_bytes e = as_uint8 e.mode ∷ (compute h e.chunk ++ e.packed)

  pub length-tail_bytes : (e : Entry) → length (tail_bytes e) ≡ 33 + length e.packed
  unfolding tail_bytes
  length-tail_bytes e = rw length-append (omega (arith, compute-IsSum h e.chunk))

  abbrev pub wrote : Bool → Entry → Writer → Writer
  wrote keep e w = write_if keep (tail_bytes e) (write_if keep (uint64_binary (length e.packed)) w)

  pub copy_count-small : (n : ℕ) → 33 + n < 2 ^ 63 → copy_count n ≡ 33 + n
  unfolding copy_count
  copy_count-small n small = ground arith

  pub copy_n_front :
      (keep : Bool) (n : ℕ) (xs tail : Bytes) (w : Writer) (k : ℕ)
      → length xs ≡ n
      → copy_n keep n (record { rest = xs ++ tail; w = w; num_blocks = k })
        ≡ (ok tt, record { rest = tail; w = write_if keep xs w; num_blocks = k })
  unfolding copy_n
  copy_n_front keep n xs tail w k e =
      rw (← e, take_front xs tail, drop_front xs tail) (rw enough refl)
    where
      enough : leb (length xs) (length (xs ++ tail)) ≡ true
      enough = ground (arith, length-append xs tail)

  pub copy_block-entry :
      (keep : Bool) (e : Entry) (tail : Bytes) (w : Writer) (k : ℕ)
      → 33 + length e.packed < 2 ^ 63
      → copy_block keep (record { rest = entry_bytes h e ++ tail; w = w; num_blocks = k })
        ≡ (ok tt, record { rest = tail; w = wrote keep e w; num_blocks = k })
  unfolding copy_block copy_sized tail_bytes
  copy_block-entry keep e tail w k small =
      rw
        (
          append_assoc (uint64_binary (length e.packed)) (tail_bytes e) tail,
          get_binary_uint64_front (length e.packed) (tail_bytes e ++ tail) (omega arith),
          copy_count-small (length e.packed) small,
        )
        (copy_n_front keep (33 + length e.packed) (tail_bytes e) tail _ k (length-tail_bytes e))

  -- The writer after an entry that is kept
  pub wrote-written :
      (e : Entry) (w : Writer) → (wrote true e w).written ≡ w.written ++ entry_bytes h e
  unfolding write tail_bytes
  wrote-written e w = append_assoc w.written (uint64_binary (length e.packed)) (tail_bytes e)

  pub wrote-IsCounted :
      (e : Entry) (w : Writer)
      → IsCounted w
      → length w.written + length (entry_bytes h e) < 2 ^ 64
      → IsCounted (wrote true e w)
  unfolding write
  wrote-IsCounted e w c fits =
      rw (wrote-written e w, length-append)
        (omega (
          arith,
          c,
          length-tail_bytes e,
          length-uint64_binary (length e.packed),
          length-entry_bytes h e,
        ))

  pub wrote_out :
      (e : Entry) (w : Writer) (rest : Bytes)
      → (wrote true e w).written ++ rest ≡ w.written ++ (entry_bytes h e ++ rest)
  wrote_out e w rest = cc (wrote-written e w, append_assoc w.written (entry_bytes h e) rest)

  pub length-wrote :
      (e : Entry) (w : Writer)
      → length (wrote true e w).written ≡ length w.written + length (entry_bytes h e)
  length-wrote e w =
      ap (λ (t : Bytes). length t) (wrote-written e w) ∙ length-append w.written (entry_bytes h e)
