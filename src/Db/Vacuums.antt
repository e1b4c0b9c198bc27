-- ===== src/Db/Vacuums.antt =====
-- The vacuum of internal/db/adapter.go: the blocks that no file refers to, the table of vacuums, and
-- the statistics.
pub mod Status
use jotfs.Prelude.{
  ℕ, suc, ◌+◌, String, Bool, true, false, not, ◌&&◌, Option, none, some, List, [], ◌∷◌, ◌++◌,
  length, ltb, ◌==◌, if◌then◌else◌,
}
use jotfs.Errors.{Result, ok, err, db_not_found, constraint}
use jotfs.Step.{continue, ◌>>=◌, ◌>>◌, pure, lift, gets}
use jotfs.Bytes.{Bytes}
use jotfs.Sum.{Sum, sum_eq, from_bytes, zero_sum}
use jotfs.Table.{rows, first, exists, update_rows}
use jotfs.Table.Sort.{ascending}
use jotfs.Db.{Db, PackRow, IndexRow, FileRow, VersionRow, VacuumRow, Tx, update, check}
use jotfs.Db.Files.{name_eq}

-- `ZeroRefcount`
pub record ZeroRefcount : Type 0 where
  pub pack_id : Sum
  pub sequences : List ℕ

-- indexes JOIN packs
unfoldable pub with_pack : IndexRow → List PackRow → List (IndexRow × PackRow)
with_pack i [] = []
with_pack i (p ∷ ps) = let rest = with_pack i ps in if p.id == i.pack then (i, p) ∷ rest else rest

unfoldable pub join_packs : List IndexRow → List PackRow → List (IndexRow × PackRow)
join_packs [] ps = []
join_packs (i ∷ is) ps = with_pack i ps ++ join_packs is ps

-- WHERE refcount = 0 AND created_at < ? ORDER BY packs.id, indexes.sequence
unfoldable pub unreferenced : ℕ → Db → List (IndexRow × PackRow)
unreferenced before db =
    ascending (λ r. r.1.id)
      (ascending (λ r. r.0.sequence)
        (rows (λ r. r.0.refcount == 0 && ltb r.1.created_at before)
          (join_packs db.indexes db.packs)))

-- The variables of the loop of `GetZeroRefcount`
pub record Grouping : Type 0 where
  pub result : List ZeroRefcount
  pub index_ids : List ℕ
  pub prev_sum : Sum
  pub slice : List ℕ

abbrev pub group_of : Grouping → ZeroRefcount
group_of g = record { pack_id = g.prev_sum; sequences = g.slice }

-- The slice of one packfile ends where another begins.
unfoldable pub close_group : ℕ → Sum → Grouping → Grouping
close_group i s g = if sum_eq g.prev_sum s then g else record g {
  result = if i == 0 then g.result else g.result ++ (group_of g ∷ []);
  slice = if i == 0 then g.slice else [];
  prev_sum = s;
}

unfoldable pub add_row : IndexRow → Grouping → Grouping
add_row x g = record g {
  slice = g.slice ++ (x.sequence ∷ []);
  index_ids = g.index_ids ++ (x.id ∷ []);
}

abbrev pub on_sum :
    Result Sum
    → (Sum → Grouping → Result (Unit {0}) × Grouping)
    → Grouping
    → Result (Unit {0}) × Grouping
on_sum (ok s) k g = k s g
on_sum (err e) k g = (err e, g)

unfoldable pub group_loop : ℕ → List (IndexRow × PackRow) → Grouping → Result (Unit {0}) × Grouping
group_loop i [] g = (ok tt, g)
group_loop i ((x, p) ∷ rest) g =
    on_sum (from_bytes p.sum) (λ s g'. group_loop (i + 1) rest (add_row x (close_group i s g'))) g

-- The last slice
unfoldable pub close_last : Grouping → Grouping
close_last g =
    if length g.slice == 0 then g else record g { result = g.result ++ (group_of g ∷ []) }

-- UPDATE indexes SET delete_marker = 1 WHERE id = ?, for each block that was picked out
unfoldable pub mark_all : List ℕ → List IndexRow → List IndexRow
mark_all [] t = t
mark_all (k ∷ ks) t =
    mark_all ks (update_rows (λ i. i.id == k) (λ i. record i { delete_marker = 1 }) t)

unfoldable pub mark_groups : Result (Unit {0}) × Grouping → Db → List ZeroRefcount × Db
mark_groups (ok u, g) db =
    ((close_last g).result, record db { indexes = mark_all (close_last g).index_ids db.indexes })
mark_groups (err e, g) db = (g.result, db)

-- `GetZeroRefcount`, whose error is always nil: where a row cannot be scanned, the transaction is rolled
-- back and the packfiles before it are returned.
unfoldable pub get_zero_refcount : ℕ → Db → List ZeroRefcount × Db
get_zero_refcount before db =
    let start : Grouping = record {
      result = [];
      index_ids = [];
      prev_sum = zero_sum;
      slice = [];
    } in
    mark_groups (group_loop 0 (unreferenced before db) start) db

-- The codes of `VacuumStatus`
abbrev pub vacuum_running : ℕ
vacuum_running = 0

abbrev pub vacuum_ok : ℕ
vacuum_ok = 1

abbrev pub vacuum_failed : ℕ
vacuum_failed = 2

-- `(VacuumStatus).String`
unfoldable pub status_string : ℕ → String
status_string s =
    if s == vacuum_running
    then "RUNNING"
    else if s == vacuum_ok
    then "SUCCEEDED"
    else if s == vacuum_failed
    then "FAILED"
    else "UNKNOWN"

unfoldable pub add_vacuum : Bytes → ℕ → Tx (Unit {0})
add_vacuum id started_at db = (
  ok tt,
  record db {
    vacuums =
        db.vacuums
        ++ (record { id = id; started_at = started_at; status = vacuum_running; completed_at = 0 }
            ∷ []);
  },
)

-- The primary key of the table
unfoldable pub insert_vacuum_tx : Bytes → ℕ → Tx Bytes
insert_vacuum_tx id started_at = do
  taken ← gets (λ db. exists (λ v. name_eq v.id id) db.vacuums)
  lift (check (not taken))
  add_vacuum id started_at
  pure id

-- `InsertVacuum`, with the id that `xid.New` gives
unfoldable pub insert_vacuum : Bytes → ℕ → Tx Bytes
insert_vacuum id started_at = update (insert_vacuum_tx id started_at)

unfoldable pub set_vacuum : Bytes → ℕ → ℕ → Tx (Unit {0})
set_vacuum id completed_at status db = (
  ok tt,
  record db {
    vacuums =
        update_rows (λ v. name_eq v.id id)
          (λ v. record v { completed_at = completed_at; status = status }) db.vacuums;
  },
)

-- `UpdateVacuum`
unfoldable pub update_vacuum : Bytes → ℕ → ℕ → Tx (Unit {0})
update_vacuum id completed_at status = update (set_vacuum id completed_at status)

unfoldable pub found_vacuum : Bytes → Option VacuumRow → Result VacuumRow
found_vacuum id none = err db_not_found
found_vacuum id (some v) = ok (record v { id = id })

-- `GetVacuum`; a `Vacuum` has the fields of its row.
unfoldable pub get_vacuum : Bytes → Db → Result VacuumRow
get_vacuum id db = found_vacuum id (first (λ v. name_eq v.id id) db.vacuums)

-- `Stats`
pub record Stats : Type 0 where
  pub num_files : ℕ
  pub num_file_versions : ℕ
  pub total_files_size : ℕ
  pub total_data_size : ℕ

-- coalesce(sum(size), 0), below the 2 ^ 63 at which SQLite reports an overflow
unfoldable pub sum_size : {A : Type 0} → (A → ℕ) → List A → ℕ
sum_size f [] = 0
sum_size f (x ∷ xs) = f x + sum_size f xs

-- `GetServerStats`
unfoldable pub get_server_stats : Db → Stats
get_server_stats db = record {
  num_files = length db.files;
  num_file_versions = length db.file_versions;
  total_files_size = sum_size (λ v. v.size) db.file_versions;
  total_data_size = sum_size (λ i. i.size) db.indexes;
}
