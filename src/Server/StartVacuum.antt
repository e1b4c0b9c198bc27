-- ===== src/Server/StartVacuum.antt =====
-- `StartVacuum` of internal/server/server.go: the calls and the background vacuums, whose steps
-- interleave, as a state machine. What a vacuum does to packfiles is a change of the database.
pub mod Exclusive
use jotfs.Prelude.{ℕ, suc, ◌+◌, ◌≡◌, Bool, true, false, List, [], ◌∷◌, ◌++◌, if◌then◌else◌}
use jotfs.Errors.{Result, ok, err}
use jotfs.Bytes.{Bytes}
use jotfs.Db.{Db}
use jotfs.Db.Vacuums.{insert_vacuum, update_vacuum}

pub record Vacuuming : Type 0 where
  pub db : Db
  pub is_vacuuming : Bool
  -- the calls between the swap and the end of `InsertVacuum`
  pub starting : ℕ
  -- the ids of the vacuums that run in the background
  pub running : List Bytes
  -- those between `UpdateVacuum` and the deferred store
  pub releasing : ℕ

abbrev pub start_server : Db → Vacuuming
start_server db = record {
  db = db;
  is_vacuuming = false;
  starting = 0;
  running = [];
  releasing = 0;
}

-- `atomic.CompareAndSwapInt32`: whether the call goes on, or returns that a vacuum is in progress
unfoldable pub compare_and_swap : Vacuuming → Bool × Vacuuming
compare_and_swap v =
    if v.is_vacuuming
    then (false, v)
    else (true, record v { is_vacuuming = true; starting = v.starting + 1 })

-- The call returns the id and leaves the vacuum running, or it returns the error.
unfoldable pub after_insert : Result Bytes × Db → Vacuuming → Vacuuming
after_insert (ok id, db) v = record v { db = db; running = v.running ++ (id ∷ []) }
after_insert (err e, db) v = record v { db = db }

-- A vacuum is done, with the status that it reached.
unfoldable pub complete : Bytes → ℕ → ℕ → List Bytes → Vacuuming → Vacuuming
complete id completed_at status rest v = record v {
  db = (update_vacuum id completed_at status v.db).1;
  running = rest;
  releasing = v.releasing + 1;
}

-- One step of a call, of a vacuum or of another request
pub data Step : Vacuuming → Vacuuming → Type 0 where
  swap : (v : Vacuuming) → Step v (compare_and_swap v).1
  insert :
      (v : Vacuuming) (k : ℕ) (id : Bytes) (started_at : ℕ)
      → v.starting ≡ suc k
      → Step v (after_insert (insert_vacuum id started_at v.db) (record v { starting = k }))
  work : (v : Vacuuming) (db : Db) → Step v (record v { db = db })
  finish :
      (v : Vacuuming) (id : Bytes) (rest : List Bytes) (completed_at status : ℕ)
      → v.running ≡ id ∷ rest
      → Step v (complete id completed_at status rest v)
  release :
      (v : Vacuuming) (k : ℕ)
      → v.releasing ≡ suc k
      → Step v (record v { is_vacuuming = false; releasing = k })

pub data Reach (s : Vacuuming) : Vacuuming → Type 0 where
  here : Reach s s
  next : {t u : Vacuuming} → Reach s t → Step t u → Reach s u
