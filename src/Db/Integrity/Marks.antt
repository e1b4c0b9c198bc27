-- ===== src/Db/Integrity/Marks.antt =====
-- Integrity under `GetZeroRefcount`.
use jotfs.Prelude.{ℕ, ◌≡◌, refl, ◌∙◌, List, [], ◌∷◌, All, ◌==◌}
use jotfs.Errors.{Result, ok, err}
use jotfs.Table.Laws.{All-map, All-update_rows, exists-update_rows}
use jotfs.Db.{Db, IndexRow}
use jotfs.Db.Vacuums.{Grouping, close_last, mark_all, mark_groups, get_zero_refcount}
use jotfs.Db.Integrity.{has_index, IsConsistent}

-- A mark changes no count, no reference and no id.
mark_all-keeps :
    (P : IndexRow → Type 0) (ks : List ℕ) (t : List IndexRow)
    → ((i : IndexRow) → P i → P (record i { delete_marker = 1 }))
    → All P t
    → All P (mark_all ks t)
unfolding mark_all
mark_all-keeps P [] t h a = a
mark_all-keeps P (k ∷ ks) t h a =
    mark_all-keeps P ks _ h (All-update_rows _ _ _ _ t (λ i p _. h i p) (λ i p _. p) a)

has_index-mark_all :
    (k : ℕ) (ks : List ℕ) (t : List IndexRow) → has_index (mark_all ks t) k ≡ has_index t k
unfolding mark_all
has_index-mark_all k [] t = refl
has_index-mark_all k (j ∷ ks) t =
    has_index-mark_all k ks _ ∙ exists-update_rows (λ i. i.id == k) _ _ t (λ i. refl)

mark_groups-IsConsistent :
    (r : Result (Unit {0}) × Grouping) (db : Db)
    → IsConsistent db
    → IsConsistent (mark_groups r db).1
unfolding mark_groups
mark_groups-IsConsistent (ok u, g) db c = record {
  refs = mark_all-keeps _ (close_last g).index_ids db.indexes (λ i e. e) c.refs;
  content_index =
      All-map _ _ db.file_contents
        (λ r e. has_index-mark_all r.idx (close_last g).index_ids db.indexes ∙ e) c.content_index;
  content_version = c.content_version;
  version_file = c.version_file;
  index_pack = mark_all-keeps _ (close_last g).index_ids db.indexes (λ i e. e) c.index_pack;
}
mark_groups-IsConsistent (err e, g) db c = c

-- `GetZeroRefcount` leaves a consistent database consistent, whether it marks blocks or fails.
pub get_zero_refcount-IsConsistent :
    (before : ℕ) (db : Db) → IsConsistent db → IsConsistent (get_zero_refcount before db).1
unfolding get_zero_refcount
get_zero_refcount-IsConsistent before db c = mark_groups-IsConsistent _ db c
