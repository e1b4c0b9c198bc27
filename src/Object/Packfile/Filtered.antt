-- ===== src/Object/Packfile/Filtered.antt =====
-- What `FilterPackfile` writes of a packfile's entries.
use jotfs.Prelude.{
  ℕ, zero, suc, ◌+◌, ◌-◌, ◌%◌, ◌^◌, ◌≤◌, ◌<◌, ◌≡◌, ◌≢◌, refl, ap, ◌∙◌, arith, Bool, true, false,
  Bool-cases, inl, inr, List, [], ◌∷◌, ◌++◌, append-nil, length, ◌==◌, if◌then◌else◌,
}
use jotfs.Errors.{Result, ok}
use jotfs.Bytes.{Bytes}
use jotfs.Reader.{read_full, get_binary_uint64}
use jotfs.Reader.Laws.{read_uint8_front}
use jotfs.Sum.{Hash}
use jotfs.Object.Packfile.{packfile_object, Writer, write}
use jotfs.Object.Packfile.Entries.{Entry, entry_bytes, body, length-entry_bytes, length-body}
use jotfs.Object.Packfile.Filter.{
  Filtering, copy_sized, copy_block, begin_block, after_copy, filter_loop, filter_blocks,
  filter_packfile,
}
use jotfs.Object.Packfile.Copied.{
  IsCounted, wrote, copy_block-entry, wrote-IsCounted, wrote_out, length-wrote,
}

-- The entries whose number the filter keeps
abbrev pub kept : (ℕ → Bool) → ℕ → List Entry → List Entry
kept f i [] = []
kept f i (e ∷ es) = let rest = kept f ((i + 1) % 2 ^ 64) es in if f i then e ∷ rest else rest

module _ (h : Hash) where
  -- The filter ends without an error, having written `out`.
  record Wrote (out : Bytes) (p : Result ℕ × Filtering) : Type 0 where
    result : p.0 ≡ ok (length out)
    written : p.1.w.written ≡ out

  Wrote-eq : {a b : Bytes} {p : Result ℕ × Filtering} → a ≡ b → Wrote a p → Wrote b p
  Wrote-eq e v = record {
    result = v.result ∙ ap (λ (t : Bytes). ok (length t)) e;
    written = v.written ∙ e;
  }

  begin_block_later :
      (keep : Bool) (rest : Bytes) (w : Writer) (k : ℕ)
      → 0 < k
      → begin_block keep (record { rest = rest; w = w; num_blocks = k })
        ≡ record { rest = rest; w = w; num_blocks = if keep then k + 1 else k }
  unfolding begin_block
  begin_block_later false rest w k pos = refl
  begin_block_later true rest w k pos = rw not_zero refl
    where
      not_zero : (k == 0) ≡ false
      not_zero = ground arith

  -- At the end of the input, with the object type already written
  filter_loop_end :
      (f : ℕ → Bool) (fuel i k : ℕ) (w : Writer)
      → 0 < k
      → IsCounted w
      → Wrote w.written (filter_loop f (suc fuel) i (record { rest = []; w = w; num_blocks = k }))
  unfolding filter_loop after_copy copy_block copy_sized get_binary_uint64 read_full
  filter_loop_end f fuel i k w pos c =
      rw (begin_block_later (f i) [] w k pos) (record { result = ap ok c; written = refl })

  -- One round on an entry, with the object type already written
  filter_loop-entry :
      (f : ℕ → Bool) (fuel i k : ℕ) (e : Entry) (tail : Bytes) (w : Writer)
      → 0 < k
      → 33 + length e.packed < 2 ^ 63
      → filter_loop f
          (suc fuel)
          i
          (record { rest = entry_bytes h e ++ tail; w = w; num_blocks = k })
        ≡ filter_loop f fuel
            ((i + 1) % 2 ^ 64)
            (record { rest = tail; w = wrote h (f i) e w; num_blocks = if f i then k + 1 else k })
  unfolding filter_loop after_copy
  filter_loop-entry f fuel i k e tail w pos small = rw (
    begin_block_later (f i) (entry_bytes h e ++ tail) w k pos,
    copy_block-entry h (f i) e tail w (if f i then k + 1 else k) small,
  )

  filter_loop_later :
      (f : ℕ → Bool) (es : List Entry) (fuel i k : ℕ) (w : Writer)
      → length es < fuel
      → 0 < k
      → IsCounted w
      → length w.written + length (body h es) < 2 ^ 63
      → Wrote
          (w.written ++ body h (kept f i es))
          (filter_loop f fuel i (record { rest = body h es; w = w; num_blocks = k }))
  unfolding body
  filter_loop_later f [] zero i k w enough pos c fits = elim enough [ ]
  filter_loop_later f (e ∷ es) zero i k w enough pos c fits = elim enough [ ]
  filter_loop_later f [] (suc fuel) i k w enough pos c fits =
      rw append-nil (filter_loop_end f fuel i k w pos c)
  filter_loop_later f (e ∷ es) (suc fuel) i k w enough pos c fits =
      rw (filter_loop-entry f fuel i k e (body h es) w pos (omega (arith, length-body h e es)))
        (elim (Bool-cases (f i)) [
          | inl keep ↦ rw keep (
              Wrote-eq (wrote_out h e w _) (
                filter_loop_later f es fuel ((i + 1) % 2 ^ 64) (k + 1) (wrote h true e w)
                  (omega arith) (omega arith)
                  (wrote-IsCounted h e w c
                    (omega (arith, length-body h e es, length-entry_bytes h e)))
                  (omega (arith, length-wrote h e w, length-body h e es, length-entry_bytes h e))))
          | inr skip ↦ rw skip (
              filter_loop_later f es fuel ((i + 1) % 2 ^ 64) k w (omega arith) pos c
                (omega (arith, length-body h e es)))
        ])

  abbrev empty_writer : Writer
  empty_writer = record { written = []; bytes_written = 0 }

  abbrev with_type : Writer
  with_type = record { written = packfile_object ∷ []; bytes_written = 1 }

  -- The first entry that is kept
  filter_loop-kept :
      (f : ℕ → Bool) (fuel i : ℕ) (e : Entry) (tail : Bytes)
      → f i ≡ true
      → 33 + length e.packed < 2 ^ 63
      → filter_loop f
          (suc fuel)
          i
          (record { rest = entry_bytes h e ++ tail; w = empty_writer; num_blocks = 0 })
        ≡ filter_loop f fuel
            ((i + 1) % 2 ^ 64)
            (record { rest = tail; w = wrote h true e with_type; num_blocks = 1 })
  unfolding filter_loop after_copy begin_block write
  filter_loop-kept f fuel i e tail keep small =
      rw (keep, copy_block-entry h true e tail with_type 1 small)

  -- An entry before it
  filter_loop-skipped :
      (f : ℕ → Bool) (fuel i : ℕ) (e : Entry) (tail : Bytes)
      → f i ≡ false
      → 33 + length e.packed < 2 ^ 63
      → filter_loop f
          (suc fuel)
          i
          (record { rest = entry_bytes h e ++ tail; w = empty_writer; num_blocks = 0 })
        ≡ filter_loop f fuel
            ((i + 1) % 2 ^ 64)
            (record { rest = tail; w = empty_writer; num_blocks = 0 })
  unfolding filter_loop after_copy begin_block
  filter_loop-skipped f fuel i e tail skip small =
      rw (skip, copy_block-entry h false e tail empty_writer 0 small)

  filter_loop-first :
      (f : ℕ → Bool) (es : List Entry) (fuel i : ℕ)
      → length es < fuel
      → kept f i es ≢ []
      → length (body h es) < 2 ^ 63 - 1
      → Wrote
          (packfile_object ∷ body h (kept f i es))
          (filter_loop f fuel i (record { rest = body h es; w = empty_writer; num_blocks = 0 }))
  unfolding body
  filter_loop-first f [] fuel i enough some_kept fits = absurd (some_kept refl)
  filter_loop-first f (e ∷ es) zero i enough some_kept fits = elim enough [ ]
  filter_loop-first f (e ∷ es) (suc fuel) i enough some_kept fits = elim (Bool-cases (f i)) [
    | inl keep ↦
        rw (keep, filter_loop-kept f fuel i e (body h es) keep (omega (arith, length-body h e es)))
          (Wrote-eq (wrote_out h e with_type _) (
            filter_loop_later f es fuel ((i + 1) % 2 ^ 64) 1 (wrote h true e with_type)
              (omega arith) (omega arith)
              (wrote-IsCounted h e with_type refl
                (omega (arith, length-body h e es, length-entry_bytes h e)))
              (omega
                (arith, length-wrote h e with_type, length-body h e es, length-entry_bytes h e))))
    | inr skip ↦
        rw
          (
            skip,
            filter_loop-skipped f fuel i e (body h es) skip (omega (arith, length-body h e es)),
          )
          (filter_loop-first f es fuel ((i + 1) % 2 ^ 64) (omega arith) (rw skip at some_kept)
            (omega (arith, length-body h e es)))
  ]

  length-entries : (es : List Entry) → length es ≤ length (body h es)
  unfolding body
  length-entries [] = omega arith
  length-entries (e ∷ es) = omega (arith, length-body h e es, length-entries es)

  -- The entries that a filter keeps, where it keeps one at least, are what is written of a packfile
  -- that is shorter than 2 ^ 63 bytes, and their size is returned.
  pub filter_packfile-body :
      (f : ℕ → Bool) (es : List Entry)
      → kept f 0 es ≢ []
      → length (packfile_object ∷ body h es) < 2 ^ 63
      → ((filter_packfile f (packfile_object ∷ body h es)).0
          ≡ ok (length (packfile_object ∷ body h (kept f 0 es))))
        × ((filter_packfile f (packfile_object ∷ body h es)).1.written
            ≡ packfile_object ∷ body h (kept f 0 es))
  unfolding filter_packfile filter_blocks
  filter_packfile-body f es some_kept fits =
      rw (read_uint8_front packfile_object (body h es)) (done.result, done.written)
    where
      done : Wrote (packfile_object ∷ body h (kept f 0 es)) (
          filter_loop f
            (suc (length (body h es)))
            0
            (record { rest = body h es; w = empty_writer; num_blocks = 0 }))
      done =
          filter_loop-first f es (suc (length (body h es))) 0 (omega (arith, length-entries es))
            some_kept (omega arith)
