-- ===== src/Db/Contents/Chunks.antt =====
-- The rows that `insertFileChunks` adds, and the blocks that they refer to.
use jotfs.Prelude.{
  ℕ, ◌+◌, ◌≡◌, ◌≢◌, refl, sym, ◌∙◌, ap, subst, arith, Bool, true, false, Bool-cases, inl, inr,
  Option, none, some, Option-cases, List, [], ◌∷◌, ◌++◌, append-nil, append_assoc, All, ◌==◌,
  ==_iff, if◌then◌else◌,
}
use jotfs.Errors.{ok}
use jotfs.Step.{lift, pure}
use jotfs.Step.Returns.{bind-ok, lift-ok}
use jotfs.Sum.{Sum, sum_eq, eq_of_sum_eq}
use jotfs.Object.File.{Chunk}
use jotfs.Table.{first, update_rows}
use jotfs.Table.Keys.{Distinct-update_rows}
use jotfs.Table.Sort.Pages.{Distinct}
use jotfs.Db.{Db, IndexRow, ContentRow, uint64_arg}
use jotfs.Db.Files.{get_pack_index_id, find_chunk, refer, insert_chunk, insert_file_chunks}
use jotfs.Db.Contents.{with_index}
use jotfs.Db.Contents.Views.{views}
use jotfs.Db.Contents.Kept.{KeepsView, views-update_rows}

-- The row id and the chunk size of the first block with a checksum
unfoldable pub block_of : Sum → List IndexRow → Option (ℕ × ℕ)
block_of s [] = none
block_of s (i ∷ is) = if sum_eq i.sum s then some (i.id, i.chunk_size) else block_of s is

pub block_of-first :
    (s : Sum) (is : List IndexRow) (i : IndexRow)
    → first (λ j. sum_eq j.sum s) is ≡ some i
    → block_of s is ≡ some (i.id, i.chunk_size)
unfolding block_of first
block_of-first s [] i e = absurd (cc e)
block_of-first s (j ∷ is) i e = elim (Bool-cases (sum_eq j.sum s)) [
  | inl b ↦
      let same : some j ≡ some i = rw b at e in
      let found : j ≡ i = cc same in rw b (ap (λ (k : IndexRow). some (k.id, k.chunk_size)) found)
  | inr b ↦ rw b (block_of-first s is i (rw b at e))
]

block_of-update_rows :
    (s : Sum) (p : IndexRow → Bool) (f : IndexRow → IndexRow) (is : List IndexRow)
    → KeepsView f
    → block_of s (update_rows p f is) ≡ block_of s is
unfolding block_of update_rows
block_of-update_rows s p f [] k = refl
block_of-update_rows s p f (i ∷ is) k =
    ground (arith, k.id i, k.sum i, k.chunk_size i, block_of-update_rows s p f is k)

no_block :
    (k : ℕ) (is : List IndexRow) (r : ContentRow)
    → All (λ j. k ≢ j.id) is
    → r.idx ≡ k
    → with_index r is ≡ []
unfolding with_index
no_block k [] r h e = refl
no_block k (i ∷ is) r (hi, h) e = ground (arith, no_block k is r h e)

not_its_block :
    (s : Sum) (is : List IndexRow) (m k n : ℕ)
    → All (λ j. m ≢ j.id) is
    → block_of s is ≡ some (k, n)
    → m ≢ k
unfolding block_of
not_its_block s [] m k n h e = absurd (cc e)
not_its_block s (i ∷ is) m k n (hi, h) e = elim (Bool-cases (sum_eq i.sum s)) [
  | inl b ↦
      let same : some (i.id, i.chunk_size) ≡ some (k, n) = rw b at e in λ q. hi (q ∙ sym (cc same))
  | inr b ↦ not_its_block s is m k n h (rw b at e)
]

other : (a b : ℕ) → a ≢ b → (a == b) ≡ false
other a b h = ground arith

-- Where the ids differ, a row of the contents refers to one block.
pub views-block_of :
    (s : Sum) (is : List IndexRow) (r : ContentRow) (n : ℕ)
    → Distinct (λ i. i.id) is
    → block_of s is ≡ some (r.idx, n)
    → views is r ≡ (r, s, n) ∷ []
unfolding block_of views with_index
views-block_of s [] r n d e = absurd (cc e)
views-block_of s (i ∷ is) r n (di, d) e = elim (Bool-cases (sum_eq i.sum s)) [
  | inl b ↦
      let same : some (i.id, i.chunk_size) ≡ some (r.idx, n) = rw b at e in
      let id_eq : i.id ≡ r.idx = cc same in
      let size_eq : i.chunk_size ≡ n = cc same in
      let test : (i.id == r.idx) ≡ true = (==_iff i.id r.idx).1 id_eq in
      rw (test, no_block i.id is r di (sym id_eq))
        (ap (λ (x : Sum × ℕ). (r, x.0, x.1) ∷ []) (λ j. (eq_of_sum_eq i.sum s b j, size_eq j)))
  | inr b ↦
      let later : block_of s is ≡ some (r.idx, n) = rw b at e in
      rw (other i.id r.idx (not_its_block s is i.id r.idx n di later))
        (views-block_of s is r n d later)
]

-- The rows of the contents that belong to the chunks
abbrev pub Stand : ℕ → List IndexRow → List Chunk → List ContentRow → Type 0
Stand ver is [] [] = Unit
Stand ver is (c ∷ cs) (r ∷ rs) =
    ((r.file_version ≡ ver)
      × (r.sequence ≡ c.sequence)
      × (n : ℕ) × (block_of c.sum is ≡ some (r.idx, n)))
    × Stand ver is cs rs
Stand ver is _ _ = ⊥

pub record Extended (ver : ℕ) (cs : List Chunk) (db db' : Db) : Type 0 where
  pub added : List ContentRow
  pub contents : db'.file_contents ≡ db.file_contents ++ added
  pub files : db'.files ≡ db.files
  pub versions : db'.file_versions ≡ db.file_versions
  pub same_views : (c : ContentRow) → views db'.indexes c ≡ views db.indexes c
  pub same_blocks : (s : Sum) → block_of s db'.indexes ≡ block_of s db.indexes
  pub stand : Stand ver db.indexes cs added
  pub distinct : Distinct (λ i. i.id) db.indexes → Distinct (λ i. i.id) db'.indexes

Extended-refl : (ver : ℕ) (db : Db) → Extended ver [] db db
Extended-refl ver db = record {
  added = [];
  contents = sym (append-nil db.file_contents);
  files = refl;
  versions = refl;
  same_views = λ c. refl;
  same_blocks = λ s. refl;
  stand = tt;
  distinct = λ d. d;
}

Stand-same :
    (ver : ℕ) (is is' : List IndexRow) (cs : List Chunk) (rs : List ContentRow)
    → ((s : Sum) → block_of s is' ≡ block_of s is)
    → Stand ver is' cs rs
    → Stand ver is cs rs
Stand-same ver is is' [] [] h k = tt
Stand-same ver is is' [] (r ∷ rs) h k = k
Stand-same ver is is' (c ∷ cs) [] h k = k
Stand-same ver is is' (c ∷ cs) (r ∷ rs) h ((v, q, n, b), k) =
    ((v, q, n, sym (h c.sum) ∙ b), Stand-same ver is is' cs rs h k)

Extended-cons :
    (ver : ℕ) (c : Chunk) (cs : List Chunk) (db db' db'' : Db)
    → Extended ver (c ∷ []) db db'
    → Extended ver cs db' db''
    → Extended ver (c ∷ cs) db db''
Extended-cons ver c cs db db' db'' x y = go x.added x.contents x.stand
  where
    go :
        (rs : List ContentRow)
        → db'.file_contents ≡ db.file_contents ++ rs
        → Stand ver db.indexes (c ∷ []) rs
        → Extended ver (c ∷ cs) db db''
    go [] e k = absurd k
    go (r ∷ []) e (k, t) = record {
      added = r ∷ y.added;
      contents =
          y.contents ∙ ap (λ l. l ++ y.added) e ∙ append_assoc db.file_contents (r ∷ []) y.added;
      files = y.files ∙ x.files;
      versions = y.versions ∙ x.versions;
      same_views = λ d. y.same_views d ∙ x.same_views d;
      same_blocks = λ s. y.same_blocks s ∙ x.same_blocks s;
      stand = (k, Stand-same ver db.indexes db'.indexes cs y.added x.same_blocks y.stand);
      distinct = λ d. y.distinct (x.distinct d);
    }
    go (r ∷ r' ∷ rs) e (k, t) = absurd t

refer-Extended :
    (ver : ℕ) (c : Chunk) (k n : ℕ) (db : Db)
    → block_of c.sum db.indexes ≡ some (k, n)
    → Extended ver (c ∷ []) db (refer ver k c.sequence db).1
unfolding refer
refer-Extended ver c k n db e = record {
  added = record { file_version = ver; idx = k; sequence = c.sequence } ∷ [];
  contents = refl;
  files = refl;
  versions = refl;
  same_views = λ d. views-update_rows _ _ db.indexes d counted;
  same_blocks = λ s. block_of-update_rows s _ _ db.indexes counted;
  stand = ((refl, refl, n, e), tt);
  distinct = λ d. Distinct-update_rows (λ i. i.id) _ _ db.indexes (λ i. refl) d;
}
  where
    counted : KeepsView (λ i. record i { refcount = i.refcount + 1 })
    counted = record { id = λ i. refl; sum = λ i. refl; chunk_size = λ i. refl }

find_chunk-ok :
    (s : Sum) (db db' : Db) (k : ℕ)
    → find_chunk s db ≡ (ok k, db')
    → (db ≡ db') × (n : ℕ) × (block_of s db.indexes ≡ some (k, n))
unfolding find_chunk get_pack_index_id
find_chunk-ok s db db' k e = elim (Option-cases (first (λ i. sum_eq i.sum s) db.indexes)) [
  | inl none_found ↦ absurd (cc (rw (none_found, find_chunk, get_pack_index_id) at e))
  | inr (i, found) ↦
      let here : (ok i.id, db) ≡ (ok k, db') = rw (found, find_chunk, get_pack_index_id) at e in
      let id_eq : i.id ≡ k = cc here in
      (
        (λ j. (here j).1),
        i.chunk_size,
        block_of-first s db.indexes i found ∙ ap (λ (t : ℕ). some (t, i.chunk_size)) id_eq,
      )
]

insert_chunk-Extended :
    (ver : ℕ) (c : Chunk) (db db' : Db)
    → insert_chunk ver c db ≡ (ok tt, db')
    → Extended ver (c ∷ []) db db'
unfolding insert_chunk
insert_chunk-Extended ver c db db' e =
    let (k, db1, found, rest) = bind-ok (find_chunk c.sum) _ db db' e in
    let (u, db2, checked, referred) = bind-ok (lift (uint64_arg c.sequence)) _ db1 db' rest in
    let (same1, n, block) = find_chunk-ok c.sum db db1 k found in
    let same2 = (lift-ok (uint64_arg c.sequence) db1 db2 checked).1 in
    let whole : refer ver k c.sequence db ≡ (ok tt, db') =
      ap (refer ver k c.sequence) (same1 ∙ same2) ∙ referred in
    subst (Extended ver (c ∷ []) db) (λ i. (whole i).1) (refer-Extended ver c k n db block)

pub insert_file_chunks-Extended :
    (ver : ℕ) (cs : List Chunk) (db db' : Db)
    → insert_file_chunks ver cs db ≡ (ok tt, db')
    → Extended ver cs db db'
unfolding insert_file_chunks pure
insert_file_chunks-Extended ver [] db db' e =
    subst (Extended ver [] db) (λ i. (e i).1) (Extended-refl ver db)
insert_file_chunks-Extended ver (c ∷ cs) db db' e =
    let (u, db1, first_in, rest) = bind-ok (insert_chunk ver c) _ db db' e in
    Extended-cons ver c cs db db1 db' (insert_chunk-Extended ver c db db1 first_in)
      (insert_file_chunks-Extended ver cs db1 db' rest)
