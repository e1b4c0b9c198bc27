-- ===== src/Db/Contents/Grown.antt =====
-- What `GetFile` reads after `InsertPackIndex`.
use jotfs.Prelude.{
  ℕ, ◌≡◌, refl, sym, ◌∙◌, subst, arith, true, false, Bool-cases, inl, inr, List, [], ◌∷◌, ◌++◌,
  length, All, ◌==◌, ==_iff,
}
use mathlib.Core.Bool.{false≢true}
use jotfs.Errors.{Error, Result, ok, err}
use jotfs.Step.Keeps.{Keeps, Keeps-pure, Keeps-lift, Keeps-bind}
use jotfs.Object.PackIndex.{BlockInfo, PackIndex}
use jotfs.Table.{next_id}
use jotfs.Table.Laws.{All-map, All-both, exists-append_old, exists-next_id}
use jotfs.Db.{Db, IndexRow, ContentRow, Tx, update, commit_or_rollback}
use jotfs.Db.Packs.{
  with_error, add_pack, insert_packfile, add_block, insert_block, insert_pack_blocks,
  insert_pack_tx, insert_pack_index,
}
use jotfs.Db.Integrity.{IsConsistent, has_index}
use jotfs.Db.Contents.{with_index}
use jotfs.Db.Contents.Views.{views, SameFiles, SameFiles-refl}

-- The same files, all of whose blocks are there
record Grown (db0 db : Db) : Type 0 where
  same : SameFiles db0 db
  there : All (λ c. has_index db.indexes c.idx ≡ true) db0.file_contents

views-append_new :
    (is : List IndexRow) (i : IndexRow) (c : ContentRow)
    → (i.id == c.idx) ≡ false
    → views (is ++ (i ∷ [])) c ≡ views is c
unfolding views with_index
views-append_new [] i c e = rw e refl
views-append_new (j ∷ is) i c e = ground (arith, views-append_new is i c e)

not_next :
    (is : List IndexRow) (k : ℕ) → has_index is k ≡ true → (next_id (λ i. i.id) is == k) ≡ false
not_next is k h = elim (Bool-cases (next_id (λ i. i.id) is == k)) [
  | inl e ↦ absurd (
      false≢true (
        sym (exists-next_id (λ (i : IndexRow). i.id) is)
        ∙ subst (λ j. has_index is j ≡ true) (sym ((==_iff _ k).0 e)) h))
  | inr e ↦ e
]

module _ (db0 : Db) where
  add_block-Grown : (p : ℕ) (b : BlockInfo) → Keeps (Grown db0) (add_block p b)
  unfolding add_block
  add_block-Grown p b = record {
    holds = λ db g. record {
      same = record {
        files = g.same.files;
        versions = g.same.versions;
        contents = g.same.contents;
        blocks =
            All-map _ _ db0.file_contents
              (λ c (has, old).
                views-append_new db.indexes _ c (not_next db.indexes c.idx has) ∙ old)
              (All-both _ _ db0.file_contents g.there g.same.blocks);
      };
      there = All-map _ _ db0.file_contents (λ c e. exists-append_old _ db.indexes _ e) g.there;
    };
  }

  insert_block-Grown : (p : ℕ) (b : BlockInfo) → Keeps (Grown db0) (insert_block p b)
  unfolding insert_block
  insert_block-Grown p b = Keeps-bind (Keeps-lift (Grown db0) _) (λ u.
      Keeps-bind (Keeps-lift (Grown db0) _) (λ v. Keeps-bind (Keeps-lift (Grown db0) _) (λ w.
        Keeps-bind (Keeps-lift (Grown db0) _)
          (λ x. Keeps-bind (Keeps-lift (Grown db0) _) (λ y. add_block-Grown p b)))))

  insert_pack_blocks-Grown :
      (p : ℕ) (bs : List BlockInfo) → Keeps (Grown db0) (insert_pack_blocks p bs)
  unfolding insert_pack_blocks
  insert_pack_blocks-Grown p [] = Keeps-pure (Grown db0) tt
  insert_pack_blocks-Grown p (b ∷ bs) =
      Keeps-bind (insert_block-Grown p b) (λ u. insert_pack_blocks-Grown p bs)

  insert_packfile-Grown : (index : PackIndex) (t : ℕ) → Keeps (Grown db0) (insert_packfile index t)
  unfolding insert_packfile
  insert_packfile-Grown index t =
      Keeps-bind (Keeps-lift (Grown db0) _)
        (λ u. Keeps-bind (Keeps-lift (Grown db0) _) (λ v. added))
    where
      added : Keeps (Grown db0) (add_pack index t)
      added = record {
        holds = λ db g.
            unfold add_pack in
            record {
              same = record {
                files = g.same.files;
                versions = g.same.versions;
                contents = g.same.contents;
                blocks = g.same.blocks;
              };
              there = g.there;
            };
      }

  with_error-Grown :
      {A : Type 0} (f : Error → Error) {m : Tx A}
      → Keeps (Grown db0) m
      → Keeps (Grown db0) (with_error f m)
  unfolding with_error
  with_error-Grown f k = record { holds = λ db s. k.holds db s }

  insert_pack_tx-Grown : (index : PackIndex) (t : ℕ) → Keeps (Grown db0) (insert_pack_tx index t)
  unfolding insert_pack_tx
  insert_pack_tx-Grown index t =
      Keeps-bind (with_error-Grown _ (insert_packfile-Grown index t))
        (λ p. with_error-Grown _ (insert_pack_blocks-Grown p index.blocks))

update-Grown :
    {A : Type 0} (m : Tx A) (db : Db)
    → IsConsistent db
    → Keeps (Grown db) m
    → SameFiles db (update m db).1
unfolding update
update-Grown {A} m db c k =
    go (m db) (k.holds db (record { same = SameFiles-refl db; there = c.content_index }))
  where
    go : (p : Result A × Db) → Grown db p.1 → SameFiles db (commit_or_rollback db p).1
    go (ok a, db') g = g.same
    go (err e, db') g = SameFiles-refl db

pub insert_pack_index-SameFiles :
    (index : PackIndex) (t : ℕ) (db : Db)
    → IsConsistent db
    → SameFiles db (insert_pack_index index t db).1
unfolding insert_pack_index
insert_pack_index-SameFiles index t db c = elim (Bool-cases (length index.blocks == 0)) [
  | inl e ↦ rw e (SameFiles-refl db)
  | inr e ↦ rw e (update-Grown (insert_pack_tx index t) db c (insert_pack_tx-Grown db index t))
]
