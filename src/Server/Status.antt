-- ===== src/Server/Status.antt =====
-- The requests of internal/server/server.go that only report: `GetChunkerParams`, `VacuumStatus` and
-- `ServerStats`.
use jotfs.Prelude.{ℕ, String, if◌then◌else◌}
use jotfs.Errors.{Result, ok, err, wrapped, not_found, is_db_not_found}
use jotfs.Bytes.{Bytes}
use jotfs.Db.{Db, VacuumRow}
use jotfs.Db.Vacuums.{status_string, get_vacuum, Stats, get_server_stats}
use jotfs.Startup.{ChunkerParams, Settings}

-- `GetChunkerParams`; a `uint` is a `uint64` of the same value.
unfoldable pub get_chunker_params : Settings → ChunkerParams
get_chunker_params cfg = cfg.params

-- `pb.Vacuum`
pub record VacuumReply : Type 0 where
  pub status : String
  pub started_at : ℕ
  pub completed_at : ℕ

unfoldable pub vacuum_reply : Result VacuumRow → Result VacuumReply
vacuum_reply (ok v) = ok (record {
  status = status_string v.status;
  started_at = v.started_at;
  completed_at = v.completed_at;
})
vacuum_reply (err e) =
    if is_db_not_found e then err (not_found "vacuum") else err (wrapped "db GetVacuum" e)

-- `VacuumStatus`
unfoldable pub vacuum_status : Bytes → Db → Result VacuumReply
vacuum_status id db = vacuum_reply (get_vacuum id db)

-- `ServerStats`; the query does not fail, and `pb.Stats` has the fields of `Stats`.
unfoldable pub server_stats : Db → Stats
server_stats db = get_server_stats db
