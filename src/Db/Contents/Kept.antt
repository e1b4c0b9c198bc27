-- ===== src/Db/Contents/Kept.antt =====
-- What `GetFile` reads after the operations of a vacuum.
use jotfs.Prelude.{
  ℕ, ◌≡◌, refl, subst, ◌∙◌, arith, Bool, false, Bool-cases, inl, inr, List, [], ◌∷◌, All, ◌==◌,
  ◌&&◌, Option, none, some, Option-cases,
}
use jotfs.Errors.{Error, Result, ok, err}
use jotfs.Step.Keeps.{Keeps, Keeps-pure, Keeps-fail, Keeps-lift, Keeps-bind}
use jotfs.Sum.{Sum, sum_eq}
use jotfs.Object.PackIndex.{BlockInfo, PackIndex}
use jotfs.Table.{first, exists, update_rows, delete_rows}
use jotfs.Table.Laws.{All-every, All-map, All-both, All-of_exists}
use jotfs.Db.{Db, PackRow, IndexRow, ContentRow, Tx, update, commit_or_rollback}
use jotfs.Db.Packs.{
  with_error, add_pack, insert_packfile, find_pack, or_no_mapping, set_block, move_block,
  move_blocks, update_index_tx, update_index, is_cascaded, is_orphaned, delete_packs,
  delete_pack_index,
}
use jotfs.Db.Vacuums.{Grouping, close_last, mark_all, mark_groups, get_zero_refcount}
use jotfs.Db.Contents.{with_index}
use jotfs.Db.Contents.Views.{views, SameFiles}

-- An update of other columns
pub record KeepsView (f : IndexRow → IndexRow) : Type 0 where
  pub id : (i : IndexRow) → (f i).id ≡ i.id
  pub sum : (i : IndexRow) → (f i).sum ≡ i.sum
  pub chunk_size : (i : IndexRow) → (f i).chunk_size ≡ i.chunk_size

pub views-update_rows :
    (p : IndexRow → Bool) (f : IndexRow → IndexRow) (is : List IndexRow) (c : ContentRow)
    → KeepsView f
    → views (update_rows p f is) c ≡ views is c
unfolding views with_index update_rows
views-update_rows p f [] c k = refl
views-update_rows p f (i ∷ is) c k =
    ground (arith, k.id i, k.sum i, k.chunk_size i, views-update_rows p f is c k)

views-delete_rows :
    (p : IndexRow → Bool) (is : List IndexRow) (c : ContentRow)
    → exists (λ i. p i && i.id == c.idx) is ≡ false
    → views (delete_rows p is) c ≡ views is c
unfolding views with_index delete_rows exists
views-delete_rows p [] c e = refl
views-delete_rows p (i ∷ is) c e = ground (arith, views-delete_rows p is c)

views-mark_all :
    (ks : List ℕ) (is : List IndexRow) (c : ContentRow) → views (mark_all ks is) c ≡ views is c
unfolding mark_all
views-mark_all [] is c = refl
views-mark_all (k ∷ ks) is c =
    views-mark_all ks _ c
    ∙ views-update_rows _ _ is c
        (record { id = λ i. refl; sum = λ i. refl; chunk_size = λ i. refl })

pub SameFiles-trans : (db0 db db' : Db) → SameFiles db0 db → SameFiles db db' → SameFiles db0 db'
SameFiles-trans db0 db db' k k' = record {
  files = k'.files ∙ k.files;
  versions = k'.versions ∙ k.versions;
  contents = k'.contents ∙ k.contents;
  blocks =
      All-map _ _ db0.file_contents (λ c (later, sooner). later ∙ sooner)
        (All-both _ _ db0.file_contents
          (subst (All (λ c. views db'.indexes c ≡ views db.indexes c)) k.contents k'.blocks)
          k.blocks);
}

-- A change of the packfiles and the blocks, in columns that are not read
pub same_blocks :
    (db : Db) (ps : List PackRow) (is : List IndexRow)
    → ((c : ContentRow) → views is c ≡ views db.indexes c)
    → SameFiles db (record db { packs = ps; indexes = is })
same_blocks db ps is h = record {
  files = refl;
  versions = refl;
  contents = refl;
  blocks = All-every _ db.file_contents h;
}

module _ (db0 : Db) where
  pub Kept-of_Same :
      {A : Type 0} (m : Tx A) → ((db : Db) → SameFiles db (m db).1) → Keeps (SameFiles db0) m
  Kept-of_Same m h = record { holds = λ db k. SameFiles-trans db0 db (m db).1 k (h db) }

  pub Kept-with_error :
      {A : Type 0} (f : Error → Error) {m : Tx A}
      → Keeps (SameFiles db0) m
      → Keeps (SameFiles db0) (with_error f m)
  unfolding with_error
  Kept-with_error f k = record { holds = λ db s. k.holds db s }

  pub update-Kept :
      {A : Type 0} (m : Tx A) (db : Db)
      → Keeps (SameFiles db0) m
      → SameFiles db0 db
      → SameFiles db0 (update m db).1
  unfolding update
  update-Kept {A} m db k s = go (m db) (k.holds db s)
    where
      go : (p : Result A × Db) → SameFiles db0 p.1 → SameFiles db0 (commit_or_rollback db p).1
      go (ok a, db') s' = s'
      go (err e, db') s' = s

  pub insert_packfile-Kept :
      (index : PackIndex) (t : ℕ) → Keeps (SameFiles db0) (insert_packfile index t)
  unfolding insert_packfile
  insert_packfile-Kept index t = Keeps-bind (Keeps-lift (SameFiles db0) _) (λ u.
      Keeps-bind (Keeps-lift (SameFiles db0) _) (λ v.
        Kept-of_Same (add_pack index t)
          (λ db. unfold add_pack in same_blocks db _ db.indexes (λ c. refl))))

  find_pack-Kept : (s : Sum) → Keeps (SameFiles db0) (find_pack s)
  unfolding find_pack
  find_pack-Kept s = record { holds = λ db k. found db k }
    where
      found : (db : Db) → SameFiles db0 db → SameFiles db0 (find_pack s db).1
      found db k = elim (Option-cases (first (λ p. sum_eq p.sum s) db.packs)) [
        | inl e ↦ rw (e, find_pack) k
        | inr (p, e) ↦ rw (e, find_pack) k
      ]

  move_block-Kept :
      (new old : ℕ) (m : ℕ → Option ℕ) (b : BlockInfo)
      → Keeps (SameFiles db0) (move_block new old m b)
  unfolding move_block
  move_block-Kept new old m b = Keeps-bind (mapped (m b.sequence)) (λ seq.
      Keeps-bind (Keeps-lift (SameFiles db0) _) (λ u.
        Keeps-bind (Keeps-lift (SameFiles db0) _) (λ v.
          Keeps-bind (Keeps-lift (SameFiles db0) _) (λ w.
            Kept-of_Same (set_block new b.sequence b.offset old seq) (λ db.
              unfold set_block in
              same_blocks db db.packs _ (λ c.
                views-update_rows _ _ db.indexes c
                  (record { id = λ i. refl; sum = λ i. refl; chunk_size = λ i. refl })))))))
    where
      mapped : (o : Option ℕ) → Keeps (SameFiles db0) (or_no_mapping o)
      mapped none = unfold or_no_mapping in Keeps-fail (SameFiles db0) _
      mapped (some seq) = unfold or_no_mapping in Keeps-pure (SameFiles db0) seq

  move_blocks-Kept :
      (new old : ℕ) (m : ℕ → Option ℕ) (bs : List BlockInfo)
      → Keeps (SameFiles db0) (move_blocks new old m bs)
  unfolding move_blocks
  move_blocks-Kept new old m [] = Keeps-pure (SameFiles db0) tt
  move_blocks-Kept new old m (b ∷ bs) =
      Keeps-bind (move_block-Kept new old m b) (λ u. move_blocks-Kept new old m bs)

  pub update_index-SameFiles :
      (index : PackIndex) (t : ℕ) (s : Sum) (m : ℕ → Option ℕ) (db : Db)
      → SameFiles db0 db
      → SameFiles db0 (update_index index t s m db).1
  unfolding update_index update_index_tx
  update_index-SameFiles index t s m db k =
      update-Kept _ db
        (Keeps-bind (Kept-with_error _ (insert_packfile-Kept index t)) (λ new.
          Keeps-bind (Kept-with_error _ (find_pack-Kept s))
            (λ old. move_blocks-Kept new old m index.blocks)))
        k

  views-delete_cascaded :
      (s : Sum) (db : Db) (c : ContentRow)
      → is_orphaned db s c ≡ false
      → views (delete_rows (is_cascaded db s) db.indexes) c ≡ views db.indexes c
  unfolding is_orphaned
  views-delete_cascaded s db c free = views-delete_rows (is_cascaded db s) db.indexes c free

  -- A packfile goes only where no chunk of a file stands in its blocks.
  delete_packs-Same : (s : Sum) (db : Db) → SameFiles db (delete_packs s db).1
  unfolding delete_packs
  delete_packs-Same s db = elim (Bool-cases (exists (is_orphaned db s) db.file_contents)) [
    | inl e ↦ rw e (same_blocks db db.packs db.indexes (λ c. refl))
    | inr e ↦ rw e (record {
      files = refl;
      versions = refl;
      contents = refl;
      blocks =
          All-map _ _ db.file_contents (λ c free. views-delete_cascaded s db c free)
            (All-of_exists (is_orphaned db s) db.file_contents e);
    })
  ]

  pub delete_pack_index-SameFiles :
      (s : Sum) (db : Db) → SameFiles db0 db → SameFiles db0 (delete_pack_index s db).1
  unfolding delete_pack_index
  delete_pack_index-SameFiles s db k =
      update-Kept (delete_packs s) db (Kept-of_Same (delete_packs s) (delete_packs-Same s)) k

  mark_groups-Same :
      (r : Result (Unit {0}) × Grouping) (db : Db) → SameFiles db (mark_groups r db).1
  unfolding mark_groups
  mark_groups-Same (ok u, g) db =
      same_blocks db db.packs _ (λ c. views-mark_all (close_last g).index_ids db.indexes c)
  mark_groups-Same (err e, g) db = same_blocks db db.packs db.indexes (λ c. refl)

  pub get_zero_refcount-SameFiles :
      (before : ℕ) (db : Db) → SameFiles db0 db → SameFiles db0 (get_zero_refcount before db).1
  unfolding get_zero_refcount
  get_zero_refcount-SameFiles before db k = SameFiles-trans db0 db _ k (mark_groups-Same _ db)
