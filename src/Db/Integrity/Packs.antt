-- ===== src/Db/Integrity/Packs.antt =====
-- Integrity under `InsertPackIndex`, `UpdateIndex` and `DeletePackIndex`.
use jotfs.Prelude.{
  ℕ, subst, Option-cases, ◌≡◌, refl, sym, ◌∙◌, arith, true, false, Option, none, some, List, [],
  ◌∷◌, All, ◌==◌, length, ==_iff, Bool-cases, inl, inr,
}
use jotfs.Step.Ensures.{
  Ensures, Ensures-pure, Ensures-fail, Ensures-map, Ensures-bind, Ensures-guard,
}
use jotfs.Sum.{Sum, sum_eq}
use jotfs.Object.PackIndex.{BlockInfo, PackIndex}
use mathlib.Core.Bool.{false≢true}
use jotfs.Table.{first, exists, count, delete_rows, next_id}
use jotfs.Table.Laws.{
  All-append, All-map, All-delete_rows, delete_rows-rejects, All-update_rows, exists-update_rows,
  exists-next_id, exists-append_old, exists-append_new, exists-delete_rows_disjoint, All-of_exists,
  All-both,
}
use jotfs.Db.{Db, PackRow, IndexRow, ContentRow}
use jotfs.Db.Packs.{
  add_pack, insert_packfile, or_no_mapping, find_pack, set_block, move_block, move_blocks,
  update_index_tx, update_index, is_cascaded, is_orphaned, delete_packs, delete_pack_index,
  add_block, insert_block, insert_pack_blocks, insert_pack_tx, insert_pack_index,
}
use jotfs.Db.Integrity.{
  has_pack, has_index, references, IsConsistent, update-IsConsistent, Ensures-with_error,
}

-- A consistent database that has the pack
abbrev HasPack : ℕ → Db → Type 0
HasPack k db = IsConsistent db × (has_pack db.packs k ≡ true)

same_id : (k : ℕ) → (k == k) ≡ true
same_id k = ground arith

add_pack-HasPack :
    (index : PackIndex) (t : ℕ) (db : Db) → IsConsistent db → Ensures HasPack (add_pack index t) db
unfolding add_pack
add_pack-HasPack index t db c = record {
  holds = (
    record {
      refs = c.refs;
      content_index = c.content_index;
      content_version = c.content_version;
      version_file = c.version_file;
      index_pack = All-map _ _ db.indexes (λ i e. exists-append_old _ db.packs _ e) c.index_pack;
    },
    exists-append_new _ db.packs _ (same_id (next_id (λ (p : PackRow). p.id) db.packs)),
  );
}

insert_packfile-HasPack :
    (index : PackIndex) (t : ℕ) (db : Db)
    → IsConsistent db
    → Ensures HasPack (insert_packfile index t) db
unfolding insert_packfile
insert_packfile-HasPack index t db c =
    Ensures-guard (λ _ _. Ensures-guard (λ _ _. add_pack-HasPack index t db c))

-- No file refers to a block that is not there yet.
references-next_id :
    (t : List IndexRow) (cs : List ContentRow)
    → All (λ c. has_index t c.idx ≡ true) cs
    → references cs (next_id (λ i. i.id) t) ≡ 0
unfolding count
references-next_id t [] h = refl
references-next_id t (c ∷ cs) (hc, h) = elim (Bool-cases (c.idx == next_id (λ i. i.id) t)) [
  | inl e ↦ absurd (
      false≢true (
        sym (exists-next_id (λ (i : IndexRow). i.id) t)
        ∙ subst (λ k. has_index t k ≡ true) ((==_iff c.idx _).0 e) hc))
  | inr e ↦ rw e (omega (arith, references-next_id t cs h))
]

add_block-HasPack :
    (k : ℕ) (b : BlockInfo) (db : Db) → HasPack k db → Ensures (λ _. HasPack k) (add_block k b) db
unfolding add_block
add_block-HasPack k b db (c, has) = record {
  holds = (
    record {
      refs =
          All-append _ db.indexes _ c.refs
            (sym (references-next_id db.indexes db.file_contents c.content_index), tt);
      content_index =
          All-map _ _ db.file_contents (λ r e. exists-append_old _ db.indexes _ e) c.content_index;
      content_version = c.content_version;
      version_file = c.version_file;
      index_pack = All-append _ db.indexes _ c.index_pack (has, tt);
    },
    has,
  );
}

insert_pack_blocks-HasPack :
    (k : ℕ) (bs : List BlockInfo) (db : Db)
    → HasPack k db
    → Ensures (λ _. HasPack k) (insert_pack_blocks k bs) db
unfolding insert_pack_blocks insert_block
insert_pack_blocks-HasPack k [] db h = Ensures-pure tt db h
insert_pack_blocks-HasPack k (b ∷ bs) db h =
    Ensures-bind (λ _. HasPack k)
      (Ensures-guard (λ _ _. Ensures-guard (λ _ _.
        Ensures-guard
          (λ _ _. Ensures-guard (λ _ _. Ensures-guard (λ _ _. add_block-HasPack k b db h))))))
      (λ _ db' h'. insert_pack_blocks-HasPack k bs db' h')

insert_pack_tx-IsConsistent :
    (index : PackIndex) (t : ℕ) (db : Db)
    → IsConsistent db
    → Ensures (λ _. IsConsistent) (insert_pack_tx index t) db
unfolding insert_pack_tx
insert_pack_tx-IsConsistent index t db c =
    Ensures-bind HasPack (Ensures-with_error _ (insert_packfile-HasPack index t db c)) (λ k db' h.
      Ensures-with_error _
        (Ensures-map _ (λ _ _ h'. h'.0) (insert_pack_blocks-HasPack k index.blocks db' h)))

-- `InsertPackIndex` leaves a consistent database consistent, with an error or without.
pub insert_pack_index-IsConsistent :
    (index : PackIndex) (t : ℕ) (db : Db)
    → IsConsistent db
    → IsConsistent (insert_pack_index index t db).1
unfolding insert_pack_index
insert_pack_index-IsConsistent index t db c = elim (Bool-cases (length index.blocks == 0)) [
  | inl e ↦ rw e c
  | inr e ↦
      rw e (
        update-IsConsistent (insert_pack_tx index t) db c
          (insert_pack_tx-IsConsistent index t db c))
]

set_block-HasPack :
    (k seq offset old old_seq : ℕ) (db : Db)
    → HasPack k db
    → Ensures (λ _. HasPack k) (set_block k seq offset old old_seq) db
unfolding set_block
set_block-HasPack k seq offset old old_seq db (c, has) = record {
  holds = (
    record {
      refs = All-update_rows _ _ _ _ db.indexes (λ i h _. h) (λ i h _. h) c.refs;
      content_index =
          All-map _ _ db.file_contents
            (λ r e. exists-update_rows (λ i. i.id == r.idx) _ _ db.indexes (λ i. refl) ∙ e)
            c.content_index;
      content_version = c.content_version;
      version_file = c.version_file;
      index_pack = All-update_rows _ _ _ _ db.indexes (λ i h _. has) (λ i h _. h) c.index_pack;
    },
    has,
  );
}

move_block-HasPack :
    (k old : ℕ) (m : ℕ → Option ℕ) (b : BlockInfo) (db : Db)
    → HasPack k db
    → Ensures (λ _. HasPack k) (move_block k old m b) db
unfolding move_block
move_block-HasPack k old m b db h =
    Ensures-bind (λ _. HasPack k) (or_no_mapping-keeps (m b.sequence))
      (λ old_seq db' h'. Ensures-guard (λ _ _.
        Ensures-guard (λ _ _.
          Ensures-guard (λ _ _. set_block-HasPack k b.sequence b.offset old old_seq db' h'))))
  where
    or_no_mapping-keeps : (o : Option ℕ) → Ensures (λ _. HasPack k) (or_no_mapping o) db
    or_no_mapping-keeps none = unfold or_no_mapping in Ensures-fail _ db
    or_no_mapping-keeps (some seq) = unfold or_no_mapping in Ensures-pure seq db h

move_blocks-HasPack :
    (k old : ℕ) (m : ℕ → Option ℕ) (bs : List BlockInfo) (db : Db)
    → HasPack k db
    → Ensures (λ _. HasPack k) (move_blocks k old m bs) db
unfolding move_blocks
move_blocks-HasPack k old m [] db h = Ensures-pure tt db h
move_blocks-HasPack k old m (b ∷ bs) db h =
    Ensures-bind (λ _. HasPack k) (move_block-HasPack k old m b db h)
      (λ _ db' h'. move_blocks-HasPack k old m bs db' h')

find_pack-keeps : (P : Db → Type 0) (s : Sum) (db : Db) → P db → Ensures (λ _. P) (find_pack s) db
unfolding find_pack
find_pack-keeps P s db h = elim (Option-cases (first (λ p. sum_eq p.sum s) db.packs)) [
  | inl e ↦ record { holds = rw (e, find_pack) tt }
  | inr (p, e) ↦ record { holds = rw (e, find_pack) h }
]

update_index_tx-IsConsistent :
    (index : PackIndex) (t : ℕ) (s : Sum) (m : ℕ → Option ℕ) (db : Db)
    → IsConsistent db
    → Ensures (λ _. IsConsistent) (update_index_tx index t s m) db
unfolding update_index_tx
update_index_tx-IsConsistent index t s m db c =
    Ensures-bind HasPack (Ensures-with_error _ (insert_packfile-HasPack index t db c)) (λ k db' h.
      Ensures-bind (λ _. HasPack k) (Ensures-with_error _ (find_pack-keeps (HasPack k) s db' h))
        (λ old db'' h'.
          Ensures-map _ (λ _ _ h''. h''.0) (move_blocks-HasPack k old m index.blocks db'' h')))

-- `UpdateIndex` leaves a consistent database consistent, whatever its mapping of blocks is, with an
-- error or without.
pub update_index-IsConsistent :
    (index : PackIndex) (t : ℕ) (s : Sum) (m : ℕ → Option ℕ) (db : Db)
    → IsConsistent db
    → IsConsistent (update_index index t s m db).1
unfolding update_index
update_index-IsConsistent index t s m db c =
    update-IsConsistent (update_index_tx index t s m) db c
      (update_index_tx-IsConsistent index t s m db c)

-- A block that is not orphaned, and a pack of a block that is not cascaded, are still there.
kept_index :
    (s : Sum) (db : Db) (r : ContentRow)
    → (is_orphaned db s r ≡ false) × (has_index db.indexes r.idx ≡ true)
    → has_index (delete_rows (is_cascaded db s) db.indexes) r.idx ≡ true
unfolding is_orphaned
kept_index s db r (o, h) =
    exists-delete_rows_disjoint (is_cascaded db s) (λ i. i.id == r.idx) db.indexes o ∙ h

kept_pack :
    (s : Sum) (db : Db) (i : IndexRow)
    → (is_cascaded db s i ≡ false) × (has_pack db.packs i.pack ≡ true)
    → has_pack (delete_rows (λ p. sum_eq p.sum s) db.packs) i.pack ≡ true
unfolding is_cascaded
kept_pack s db i (o, h) =
    exists-delete_rows_disjoint (λ p. sum_eq p.sum s) (λ p. p.id == i.pack) db.packs o ∙ h

-- Where no chunk of a file is orphaned, the cascade takes only blocks that nothing refers to.
delete_packs-IsConsistent :
    (s : Sum) (db : Db) → IsConsistent db → Ensures (λ _. IsConsistent) (delete_packs s) db
unfolding delete_packs
delete_packs-IsConsistent s db c = elim (Bool-cases (exists (is_orphaned db s) db.file_contents)) [
  | inl e ↦ record { holds = rw e tt }
  | inr e ↦ record {
    holds = rw e (record {
      refs = All-delete_rows _ _ db.indexes c.refs;
      content_index = All-map _ _ db.file_contents (kept_index s db) (
          All-both _ _ db.file_contents (All-of_exists (is_orphaned db s) db.file_contents e)
            c.content_index);
      content_version = c.content_version;
      version_file = c.version_file;
      index_pack = All-map _ _ (delete_rows (is_cascaded db s) db.indexes) (kept_pack s db) (
          All-both _ _ (delete_rows (is_cascaded db s) db.indexes)
            (delete_rows-rejects (is_cascaded db s) db.indexes)
            (All-delete_rows _ _ db.indexes c.index_pack));
    });
  }
]

-- `DeletePackIndex` leaves a consistent database consistent: no chunk of a file loses its block to
-- the cascade.
pub delete_pack_index-IsConsistent :
    (s : Sum) (db : Db) → IsConsistent db → IsConsistent (delete_pack_index s db).1
unfolding delete_pack_index
delete_pack_index-IsConsistent s db c =
    update-IsConsistent (delete_packs s) db c (delete_packs-IsConsistent s db c)
