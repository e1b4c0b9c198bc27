-- ===== src/Server/Sections/Layout.antt =====
-- Packfiles whose blocks stand one behind the other, and sections that hold given chunks.
use jotfs.Prelude.{
  ℕ, suc, ◌+◌, ◌^◌, ◌≤◌, ◌<◌, ◌≡◌, List, [], ◌∷◌, ◌++◌, sym, append-nil, append_assoc,
}
use jotfs.Sum.{Sum}
use jotfs.Db.Contents.{ChunkIndex}
use jotfs.Server.Sections.{SectionChunk, Section}

-- Where block `k` of each packfile begins, and where its last block ends: each behind the one
-- before, none of them empty.
pub record Layout : Type 0 where
  pub num_blocks : Sum → ℕ
  pub offset_of : Sum → ℕ → ℕ
  pub ascending : (p : Sum) (j k : ℕ) → j < k → k ≤ num_blocks p → offset_of p j < offset_of p k
  pub fits : (p : Sum) (k : ℕ) → k ≤ num_blocks p → offset_of p k < 2 ^ 64
  pub num_blocks_fits : (p : Sum) → num_blocks p < 2 ^ 64

-- The index of a chunk agrees with the layout.
pub record IsLaidOut (l : Layout) (i : ChunkIndex) : Type 0 where
  pub sequence : i.block.sequence < l.num_blocks i.pack_sum
  pub offset : i.block.offset ≡ l.offset_of i.pack_sum i.block.sequence
  pub size : i.block.offset + i.block.size ≡ l.offset_of i.pack_sum (suc i.block.sequence)

-- The chunk is that of the index, and its block lies in the section's range, at its offset.
pub record IsInRange (s : Section) (c : SectionChunk) (i : ChunkIndex) : Type 0 where
  pub sequence : c.sequence ≡ i.sequence
  pub sum : c.sum ≡ i.block.sum
  pub size : c.size ≡ i.block.chunk_size
  pub pack : s.pack_sum ≡ i.pack_sum
  pub offset : s.start + c.block_offset ≡ i.block.offset
  pub within : i.block.offset + i.block.size ≤ s.end + 1

-- Two lists whose elements are related one by one
abbrev pub All₂ {ℓ κ} : {A : Type ℓ} {B : Type κ} → (A → B → Type 0) → List A → List B → Type 0
All₂ R [] [] = Unit
All₂ R [] (b ∷ bs) = ⊥
All₂ R (a ∷ xs) [] = ⊥
All₂ R (a ∷ xs) (b ∷ bs) = R a b × All₂ R xs bs

module _ {ℓ κ} {A : Type ℓ} {B : Type κ} where
  pub All₂-append :
      (R : A → B → Type 0) (xs ys : List A) (bs cs : List B)
      → All₂ R xs bs
      → All₂ R ys cs
      → All₂ R (xs ++ ys) (bs ++ cs)
  All₂-append R [] ys [] cs h k = k
  All₂-append R [] ys (b ∷ bs) cs h k = elim h [ ]
  All₂-append R (a ∷ xs) ys [] cs h k = elim h [ ]
  All₂-append R (a ∷ xs) ys (b ∷ bs) cs (r, h) k = (r, All₂-append R xs ys bs cs h k)

  pub All₂-map :
      (R Q : A → B → Type 0) (xs : List A) (bs : List B)
      → ((a : A) (b : B) → R a b → Q a b)
      → All₂ R xs bs
      → All₂ Q xs bs
  All₂-map R Q [] [] f h = tt
  All₂-map R Q [] (b ∷ bs) f h = elim h [ ]
  All₂-map R Q (a ∷ xs) [] f h = elim h [ ]
  All₂-map R Q (a ∷ xs) (b ∷ bs) f (r, h) = (f a b r, All₂-map R Q xs bs f h)

-- The chunks of a response in their order, each with its section
abbrev pub with_section : Section → List SectionChunk → List (Section × SectionChunk)
with_section s [] = []
with_section s (c ∷ cs) = (s, c) ∷ with_section s cs

abbrev pub placed : List Section → List (Section × SectionChunk)
placed [] = []
placed (s ∷ ss) = with_section s s.chunks ++ placed ss

pub placed-append :
    (ss : List Section) (s : Section)
    → placed (ss ++ (s ∷ [])) ≡ placed ss ++ with_section s s.chunks
placed-append [] s = append-nil (with_section s s.chunks)
placed-append (t ∷ ss) s =
    rw (placed-append ss s) (sym (append_assoc (with_section t t.chunks) (placed ss) _))

abbrev pub Places : Section × SectionChunk → ChunkIndex → Type 0
Places (s, c) i = IsInRange s c i

pub with_section-Places :
    (s : Section) (cs : List SectionChunk) (is : List ChunkIndex)
    → All₂ (IsInRange s) cs is
    → All₂ Places (with_section s cs) is
with_section-Places s [] [] h = tt
with_section-Places s [] (i ∷ is) h = elim h [ ]
with_section-Places s (c ∷ cs) [] h = elim h [ ]
with_section-Places s (c ∷ cs) (i ∷ is) (r, h) = (r, with_section-Places s cs is h)
