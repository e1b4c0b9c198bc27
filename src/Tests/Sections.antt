-- ===== src/Tests/Sections.antt =====
-- The sections of a file of four chunks in two packfiles.
use jotfs.Prelude.{ℕ, ◌+◌, ◌*◌, ◌<◌, ◌≢◌, ap, List, [], ◌∷◌, refl, arith}
use jotfs.Sum.{Sum, zero_sum}
use jotfs.Compress.{plain}
use jotfs.Db.Contents.{ChunkIndex}
use jotfs.Server.Sections.{gather}
use jotfs.Server.Sections.Layout.{Layout, IsLaidOut, All₂, placed, Places}
use jotfs.Server.Sections.Ranges.{gather-Places}
use jotfs.Tests.Data.{sum_a, sum_b, sum_p}

-- Packfiles of five blocks of 41 bytes
abbrev lined_up : Layout
lined_up = record {
  num_blocks = λ p. 5;
  offset_of = λ p k. 1 + 41 * k;
  ascending = λ p j k h m. omega arith;
  fits = λ p k m. omega arith;
  num_blocks_fits = λ p. omega arith;
}

abbrev chunk_at : ℕ → Sum → ℕ → ChunkIndex
chunk_at i p k = record {
  sequence = i;
  pack_sum = p;
  block = record {
    sum = sum_a;
    chunk_size = 9;
    sequence = k;
    offset = 1 + 41 * k;
    size = 41;
    mode = plain;
  };
}

abbrev later_chunks : List ChunkIndex
later_chunks = chunk_at 1 sum_p 4 ∷ chunk_at 2 sum_b 0 ∷ chunk_at 3 sum_p 1 ∷ []

laid_out : (i : ℕ) (p : Sum) (k : ℕ) → k < 5 → IsLaidOut lined_up (chunk_at i p k)
laid_out i p k h = record { sequence = h; offset = refl; size = omega arith }

abbrev first_of : Sum → ℕ
first_of [] = 0
first_of (b ∷ s) = b

not_zero : sum_p ≢ zero_sum
not_zero e = absurd (omega (arith, ap first_of e))

gather-Places_example :
    All₂ Places
      (placed (gather (chunk_at 0 sum_p 3 ∷ later_chunks)))
      (chunk_at 0 sum_p 3 ∷ later_chunks)
gather-Places_example = gather-Places lined_up (chunk_at 0 sum_p 3) later_chunks not_zero (
  laid_out 0 sum_p 3 (omega arith),
  (
    laid_out 1 sum_p 4 (omega arith),
    (laid_out 2 sum_b 0 (omega arith), (laid_out 3 sum_p 1 (omega arith), tt)),
  ),
)
