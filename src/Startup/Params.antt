-- ===== src/Startup/Params.antt =====
-- cmd/jotfs/main.go: the chunker parameters in the store, and the start of `run` up
-- to the new server.
use jotfs.Prelude.{Bool, true, false, Option, none, some, [], ◌∷◌, if◌then◌else◌}
use jotfs.Errors.{
  Error, Result, ok, err, store_not_found, message, wrapped, formatted, merged, map_err,
}
use jotfs.Errors
use jotfs.Step.{Step, pure, lift, ◌>>=◌, ◌>>◌}
use jotfs.Bytes.{Bytes}
use jotfs.Db.{Db}
use jotfs.Startup.Machine.{Json, Machine, read_params, open_db}
use jotfs.Server.World.{Client, Object}
use jotfs.Startup.{
  ServerConfig, Flags, validate, validate_store, ChunkerParams, UintSize, chunker_params, Settings,
  settings,
}

-- "params.json"
abbrev pub chunk_params_key : Bytes
chunk_params_key = 112 ∷ 97 ∷ 114 ∷ 97 ∷ 109 ∷ 115 ∷ 46 ∷ 106 ∷ 115 ∷ 111 ∷ 110 ∷ []

-- `errors.Is(err, store.ErrNotFound)`
unfoldable pub is_store_not_found : Error → Bool
is_store_not_found store_not_found = true
is_store_not_found (wrapped s e) = is_store_not_found e
is_store_not_found (merged e minor) = is_store_not_found e
is_store_not_found _ = false

-- The errors of a step, put into the words of its caller
unfoldable pub with_context : {O A : Type 0} → (Error → Error) → Step O A → Step O A
with_context f m o = let (r, o') = m o in (map_err f r, o')

-- `getChunkerParams`, whose reader is closed at the end and the error of that dropped
unfoldable pub got_params : Json → Result Object → Result (Option ChunkerParams)
got_params j (ok r) = read_params j r
got_params j (err e) = if is_store_not_found e then ok none else err e

-- A client of the store, and a bucket
module _ {O : Type 0} (cl : Client O) (bucket : Bytes) (j : Json) where
  unfoldable pub get_chunker_params : Step O (Option ChunkerParams)
  get_chunker_params o = let (r, o') = cl.get bucket chunk_params_key o in (got_params j r, o')

  unfoldable pub put_params : Bytes → Step O (Unit {0})
  put_params b o =
      let (r, o') = cl.put bucket chunk_params_key b o in
      (map_err (formatted "putting object to store") r, o')

  -- `saveChunkerParams`
  unfoldable pub save_chunker_params : ChunkerParams → Step O (Unit {0})
  save_chunker_params p = do
    b ← lift (map_err (formatted "encoding json") (j.encode p))
    put_params b

  unfoldable pub or_new : ChunkerParams → Option ChunkerParams → Step O ChunkerParams
  or_new new (some p) = pure p
  or_new new none = do
    with_context (formatted "saving chunker params") (save_chunker_params new)
    pure new

  -- The parameters in the bucket, or new ones that are put there
  unfoldable pub load_params : UintSize → ServerConfig → Step O ChunkerParams
  load_params w c = do
    found ← with_context (formatted "getting chunker params") get_chunker_params
    or_new (chunker_params w c) found

-- The part of `run` between the validation and the chunker parameters
unfoldable pub connect : {O : Type 0} → Machine O → Flags → Result (Db × Client O)
connect m f = Errors.◌>>=◌ (validate f.server) λ u. Errors.◌>>=◌ (validate_store f.store) λ v.
    Errors.◌>>=◌ (map_err (formatted "database") (open_db m f.server.database)) λ db.
      Errors.◌>>=◌ (map_err (λ e. message "connecting to store: ") (m.new_store f.store))
        λ cl. ok (db, cl)

unfoldable pub set_up :
    {O : Type 0} → Json → UintSize → Flags → Db × Client O → Step O (Option (Db × Settings))
set_up j w f (db, cl) = do
  params ← load_params cl f.store.bucket j w f.server
  pure (some (db, settings f params))

-- `run` up to `server.New`: `none` where it prints the version instead
unfoldable pub start :
    {O : Type 0} → Json → Machine O → UintSize → Flags → Step O (Option (Db × Settings))
start j m w f = if f.version then pure none else (lift (connect m f) >>= set_up j w f)
