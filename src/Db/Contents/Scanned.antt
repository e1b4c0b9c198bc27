-- ===== src/Db/Contents/Scanned.antt =====
-- What `GetFile` scans of the chunks that `insertFileChunks` added.
use jotfs.Prelude.{
  ℕ, ◌<◌, ◌≡◌, refl, sym, ◌∙◌, ap, subst, arith, inl, inr, some, Option-cases, List, [], ◌∷◌, ◌++◌,
  map, All,
}
use mathlib.Core.List.{map-append}
use jotfs.Errors.{ok}
use jotfs.Sum.{Sum, IsSum, sum_eq, from_bytes-ok}
use jotfs.Object.File.{Chunk}
use jotfs.Table.{first}
use jotfs.Table.Keys.{ascending_sorted}
use jotfs.Table.Sort.{ascending}
use jotfs.Table.Sort.Mapped.{map-ascending}
use jotfs.Table.Sort.Pages.{Distinct, Ascending}
use jotfs.Db.{Db, IndexRow, ContentRow}
use jotfs.Db.Queries.{get_chunk_size}
use jotfs.Db.Contents.{join_indexes, scan_chunks}
use jotfs.Db.Contents.Views.{View, view, views, sequence_of, scan_views, scan_chunks-view}
use jotfs.Db.Contents.Chunks.{block_of, block_of-first, views-block_of, Stand}

-- A file whose chunks are in order and have the sizes of their blocks
pub record Fits (cs : List Chunk) (db : Db) : Type 0 where
  pub ordered : Ascending (λ c. c.sequence) cs
  pub sums : All (λ c. IsSum c.sum) cs
  pub sizes : All (λ c. get_chunk_size c.sum db ≡ ok c.size) cs

size-block_of :
    (s : Sum) (db : Db) (k m n : ℕ)
    → get_chunk_size s db ≡ ok n
    → block_of s db.indexes ≡ some (k, m)
    → m ≡ n
unfolding get_chunk_size
size-block_of s db k m n e b = elim (Option-cases (first (λ i. sum_eq i.sum s) db.indexes)) [
  | inl none_found ↦ absurd (cc (rw (none_found, get_chunk_size) at e))
  | inr (i, found) ↦
      let size : ok i.chunk_size ≡ ok n = rw (found, get_chunk_size) at e in
      let both : some (i.id, i.chunk_size) ≡ some (k, m) =
        sym (block_of-first s db.indexes i found) ∙ b in
      cc (size, both)
]

-- The rows beside what a reader sees of their blocks
together : List Chunk → List ContentRow → List View
together [] rs = []
together (c ∷ cs) [] = []
together (c ∷ cs) (r ∷ rs) = (r, c.sum, c.size) ∷ together cs rs

join_indexes-together :
    (ver : ℕ) (db : Db) (is : List IndexRow) (cs : List Chunk) (rs : List ContentRow)
    → Distinct (λ i. i.id) db.indexes
    → ((r : ContentRow) → views is r ≡ views db.indexes r)
    → All (λ c. get_chunk_size c.sum db ≡ ok c.size) cs
    → Stand ver db.indexes cs rs
    → map view (join_indexes rs is) ≡ together cs rs
unfolding join_indexes together views
join_indexes-together ver db is [] [] d same sizes k = refl
join_indexes-together ver db is [] (r ∷ rs) d same sizes k = absurd k
join_indexes-together ver db is (c ∷ cs) [] d same sizes k = absurd k
join_indexes-together ver db is (c ∷ cs) (r ∷ rs) d same (size, sizes) ((v, q, n, b), k) =
    map-append view _ (join_indexes rs is)
    ∙ ap (λ t. t ++ map view (join_indexes rs is)) one
    ∙ ap (λ t. (r, c.sum, c.size) ∷ t) (join_indexes-together ver db is cs rs d same sizes k)
  where
    one : views is r ≡ (r, c.sum, c.size) ∷ []
    one =
        same r
        ∙ views-block_of c.sum db.indexes r n d b
        ∙ ap (λ (t : ℕ). (r, c.sum, t) ∷ []) (size-block_of c.sum db r.idx n c.size size b)

All-together :
    (ver n : ℕ) (is : List IndexRow) (cs : List Chunk) (rs : List ContentRow)
    → All (λ c. n < c.sequence) cs
    → Stand ver is cs rs
    → All (λ w. n < sequence_of w) (together cs rs)
unfolding together
All-together ver n is [] rs h k = tt
All-together ver n is (c ∷ cs) [] h k = tt
All-together ver n is (c ∷ cs) (r ∷ rs) (hc, h) ((v, q, m, b), k) =
    (omega (arith, q), All-together ver n is cs rs h k)

together-Ascending :
    (ver : ℕ) (is : List IndexRow) (cs : List Chunk) (rs : List ContentRow)
    → Ascending (λ c. c.sequence) cs
    → Stand ver is cs rs
    → Ascending sequence_of (together cs rs)
unfolding together
together-Ascending ver is [] rs h k = tt
together-Ascending ver is (c ∷ cs) [] h k = tt
together-Ascending ver is (c ∷ cs) (r ∷ rs) (hc, h) ((v, q, m, b), k) = (
  subst (λ n. All (λ w. n < sequence_of w) (together cs rs)) (sym q)
      (All-together ver c.sequence is cs rs hc k),
  together-Ascending ver is cs rs h k,
)

scan_views-together :
    (ver : ℕ) (is : List IndexRow) (cs : List Chunk) (rs : List ContentRow)
    → All (λ c. IsSum c.sum) cs
    → Stand ver is cs rs
    → scan_views (together cs rs) ≡ ok cs
unfolding together scan_views
scan_views-together ver is [] rs h k = refl
scan_views-together ver is (c ∷ cs) [] h k = absurd k
scan_views-together ver is (c ∷ cs) (r ∷ rs) (hc, h) ((v, q, m, b), k) =
    rw (from_bytes-ok c.sum hc, scan_views-together ver is cs rs h k, q) refl

-- The chunks are scanned as they were inserted.
pub scan_chunks-Stand :
    (ver : ℕ) (db : Db) (is : List IndexRow) (cs : List Chunk) (rs : List ContentRow)
    → Distinct (λ i. i.id) db.indexes
    → ((r : ContentRow) → views is r ≡ views db.indexes r)
    → Fits cs db
    → Stand ver db.indexes cs rs
    → scan_chunks (ascending (λ r. r.0.sequence) (join_indexes rs is)) ≡ ok cs
scan_chunks-Stand ver db is cs rs d same f k =
    scan_chunks-view (ascending (λ r. r.0.sequence) (join_indexes rs is))
    ∙ ap scan_views (
        map-ascending sequence_of view (join_indexes rs is)
        ∙ ap (ascending sequence_of) (join_indexes-together ver db is cs rs d same f.sizes k)
        ∙ ascending_sorted sequence_of (together cs rs)
            (together-Ascending ver db.indexes cs rs f.ordered k))
    ∙ scan_views-together ver db.indexes cs rs f.sums k
