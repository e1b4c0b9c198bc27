-- ===== src/Startup/Machine.antt =====
-- cmd/jotfs/main.go: what the program starts on, the opening of the database file, and the chunker
-- parameters as JSON.
use jotfs.Prelude.{◌≡◌, Bool, true, false, Option, some, if◌then◌else◌}
use jotfs.Errors.{Error, Result, ok, err, message, formatted, map_err, ◌>>=◌, ◌>>◌}
use jotfs.Bytes.{Bytes}
use jotfs.Db.{Db}
use jotfs.Server.World.{Object, Client}
use jotfs.Startup.{StoreConfig, ChunkerParams}

-- What os.Stat says of a file
pub data Stat : Type 0 where
  absent directory regular : Stat
  failed : Error → Stat

unfoldable pub file_exists : Stat → Result Bool
file_exists absent = ok false
file_exists (failed e) = err e
file_exists directory = err (message "is a directory but a file is required")
file_exists regular = ok true

-- The machine that the program starts on: its files, the SQLite driver and the S3 client, which
-- S3.new_client makes of a session of the SDK
pub record Machine (O : Type 0) : Type 0 where
  pub stat : Bytes → Stat
  pub open_sqlite : Bytes → Result (Unit {0})
  pub ping : Bytes → Result (Unit {0})
  pub stored : Bytes → Db
  pub init_schema : Bytes → Result Db
  pub new_store : StoreConfig → Result (Client O)

-- `openDB`
unfoldable pub open_db : {O : Type 0} → Machine O → Bytes → Result Db
open_db m filename = do
  exists ← map_err (formatted "opening file") (file_exists (m.stat filename))
  m.open_sqlite filename
  map_err (λ e. message "could not connect") (m.ping filename)
  if exists
      then ok (m.stored filename)
      else map_err (formatted "internal error: creating database schema") (m.init_schema filename)

-- What the program relies on of encoding/json: an object that was encoded decodes to what it was.
pub record Json : Type 0 where
  pub encode : ChunkerParams → Result Bytes
  pub decode : Bytes → Result ChunkerParams
  pub decode-encode : (p : ChunkerParams) (b : Bytes) → encode p ≡ ok b → decode b ≡ ok p

unfoldable pub read_params : Json → Object → Result (Option ChunkerParams)
read_params j r = do
  b ← map_err (formatted "reading object") r.contents
  p ← map_err (formatted "decoding JSON") (j.decode b)
  ok (some p)
