-- ===== src/Db.antt =====
-- internal/db: the tables of schema/000_base.sql, and the transactions of adapter.go.
pub mod Keys
pub mod Packs
pub mod Files
pub mod Integrity
pub mod Queries
pub mod Contents
pub mod Refinement
pub mod Vacuums
use jotfs.Prelude.{
  ℕ, ◌^◌, Bool, true, false, not, ◌&&◌, List, [], ◌∷◌, ltb, ◌==◌, length, if◌then◌else◌,
}
use jotfs.Errors.{Result, ok, err, constraint, high_bit}
use jotfs.Step.{Step}
use jotfs.Bytes.{Bytes}
use jotfs.Sum.{Sum}

-- The rows of the tables. An integer that the program takes from a clock is not negative.
pub record PackRow : Type 0 where
  pub id : ℕ
  pub sum : Sum
  pub num_chunks : ℕ
  pub size : ℕ
  pub created_at : ℕ

pub record IndexRow : Type 0 where
  pub id : ℕ
  pub pack : ℕ
  pub sequence : ℕ
  pub sum : Sum
  pub chunk_size : ℕ
  pub mode : ℕ
  pub offset : ℕ
  pub size : ℕ
  pub refcount : ℕ
  pub delete_marker : ℕ

pub record FileRow : Type 0 where
  pub id : ℕ
  pub name : Bytes

pub record VersionRow : Type 0 where
  pub id : ℕ
  pub file : ℕ
  pub created_at : ℕ
  pub size : ℕ
  pub num_chunks : ℕ
  pub sum : Sum
  pub versioned : ℕ

pub record ContentRow : Type 0 where
  pub file_version : ℕ
  pub idx : ℕ
  pub sequence : ℕ

pub record VacuumRow : Type 0 where
  pub id : Bytes
  pub started_at : ℕ
  pub status : ℕ
  pub completed_at : ℕ

-- Each table is kept in the order of its row ids.
pub record Db : Type 0 where
  pub packs : List PackRow
  pub indexes : List IndexRow
  pub files : List FileRow
  pub file_versions : List VersionRow
  pub file_contents : List ContentRow
  pub vacuums : List VacuumRow

-- `InitSchema`
abbrev pub init_schema : Db
init_schema = record {
  packs = [];
  indexes = [];
  files = [];
  file_versions = [];
  file_contents = [];
  vacuums = [];
}

abbrev pub Tx : Type 0 → Type 0
Tx A = Step Db A

-- `(*Adapter).update`: the transaction is committed, or rolled back with its error.
abbrev pub commit_or_rollback : {A : Type 0} → Db → Result A × Db → Result A × Db
commit_or_rollback db (ok a, db') = (ok a, db')
commit_or_rollback db (err e, db') = (err e, db)

unfoldable pub update : {A : Type 0} → Tx A → Tx A
update f db = commit_or_rollback db (f db)

-- A CHECK or UNIQUE constraint of the schema
abbrev pub check : Bool → Result (Unit {0})
check true = ok tt
check false = err constraint

-- database/sql refuses a uint64 with its high bit set.
abbrev pub uint64_arg : ℕ → Result (Unit {0})
uint64_arg v = if ltb v (2 ^ 63) then ok tt else err high_bit

-- A 64-bit pattern that is positive as an integer
abbrev pub is_positive : ℕ → Bool
is_positive v = ltb 0 v && ltb v (2 ^ 63)
