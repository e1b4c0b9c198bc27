-- ===== src/Server/Files.antt =====
-- `CreateFile`, `Copy`, `Delete`, `ChunksExist` and `Download` of internal/server/server.go. What they
-- read of the database between their transactions is not changed by another request here. A field
-- of bytes that is nil is `none`.
pub mod Integrity
pub mod Atomic
pub mod Shown
pub mod Readable
pub mod Copied
use jotfs.Prelude.{
  ℕ, ◌+◌, String, Bool, true, false, not, ◌&&◌, Option, none, some, List, [], ◌∷◌, ◌++◌, length,
  ◌==◌, if◌then◌else◌,
}
use jotfs.Errors.{
  Error, Result, ok, err, map_err, wrapped, required_argument, invalid_argument,
  failed_precondition, not_found, is_db_not_found,
}
use jotfs.Errors
use jotfs.Step.{Step, pure, fail, lift, gets, continue, ◌>>=◌, ◌>>◌}
use jotfs.Bytes.{Bytes}
use jotfs.Sum.{Sum, Hash, compute, from_bytes}
use jotfs.Object.File.{Chunk, File, marshal_binary}
use jotfs.Db.{Db}
use jotfs.Db.Files.{insert_file, delete_file}
use jotfs.Db.Queries.{
  FileInfo, get_chunk_size, get_file_info, get_latest_file_version, chunks_exist,
}
use jotfs.Db.Contents.{ChunkIndex, get_file, get_file_chunks}
use jotfs.Server.Names.{clean_filename, validate_filename}
use jotfs.Server.Sections.{Section, gather}
use jotfs.Server.World.{
  Store, Config, World, Handler, on_db, query, on_store, attempt, clean_up, with_err, file_key,
  pack_key,
}

-- The version before, if there is one
unfoldable pub prev_version : Result FileInfo → Result (Option FileInfo)
prev_version (ok info) = ok (some info)
prev_version (err e) =
    if is_db_not_found e then ok none else err (wrapped "db GetLatestFileVersion" e)

abbrev pub or_precondition : Error → Error
or_precondition e = if is_db_not_found e then failed_precondition "sum does not exist" else e

-- The loop of `CreateFile`: the chunks of the sums, from place `i` on
unfoldable pub find_chunks : ℕ → List Bytes → Db → Result (List Chunk)
find_chunks i [] db = ok []
find_chunks i (b ∷ bs) db = Errors.◌>>=◌ (map_err (invalid_argument "sums") (from_bytes b)) λ s.
    Errors.◌>>=◌ (map_err or_precondition (get_chunk_size s db)) λ size.
      Errors.◌>>=◌ (find_chunks (i + 1) bs db)
        λ chunks. ok (record { sequence = i; size = size; sum = s } ∷ chunks)

abbrev pub parse_sum : String → Option Bytes → Result Sum
parse_sum field none = err (required_argument field)
parse_sum field (some b) = map_err (invalid_argument field) (from_bytes b)

abbrev pub or_not_found : String → Error → Error
or_not_found what e = if is_db_not_found e then not_found "file" else wrapped what e

abbrev pub check_name : String → Bytes → Result (Unit {0})
check_name field name = map_err (invalid_argument field) (validate_filename name)

unfoldable pub parse_sums : List Bytes → Result (List Sum)
parse_sums [] = ok []
parse_sums (b ∷ bs) =
    Errors.◌>>=◌ (map_err (invalid_argument "sums") (from_bytes b))
      λ s. Errors.◌>>=◌ (parse_sums bs) λ ss. ok (s ∷ ss)

-- How long the URLs of `Download` hold: two hours, unless a time is configured
unfoldable pub expires : Config → ℕ
expires cfg = if cfg.download_timeout == 0 then 7_200_000_000_000 else cfg.download_timeout

module _ (st : Store) where
  -- A failed insertion takes the object back out of the store.
  unfoldable pub undo_put : (Error → Error) → Sum → Result (Unit {0}) → Handler st (Unit {0})
  unfolding pure
  undo_put f sum (ok u) = pure tt
  undo_put f sum (err e) = with_err st f (clean_up st (err e) (file_key sum ∷ []))

  -- The file is put to the store and inserted into the database.
  unfoldable pub save_file : Hash → (Error → Error) → File → Handler st Sum
  save_file h f file = do
    on_store st (st.put (file_key (compute h (marshal_binary file))) (marshal_binary file))
    r ← attempt st (on_db st (insert_file file (compute h (marshal_binary file))))
    undo_put f (compute h (marshal_binary file)) r
    pure (compute h (marshal_binary file))

  -- `Delete`
  unfoldable pub delete : Option Bytes → Handler st (Unit {0})
  delete id = do
    sum ← lift (parse_sum "sum" id)
    info ← query st (λ db. map_err (or_not_found "db GetFileInfo") (get_file_info sum db))
    with_err st (wrapped "deleting file from store") (on_store st (st.delete (file_key sum)))
    with_err st (wrapped "db DeleteFile") (on_db st (delete_file sum))

  -- The previous version goes if versioning is off; an error of that is logged only.
  unfoldable pub delete_prev : Config → Option FileInfo → Handler st (Unit {0})
  delete_prev cfg none = pure tt
  delete_prev cfg (some info) =
      if not info.versioned && not cfg.versioning_enabled
      then (attempt st (delete (some info.sum)) >>= λ r. pure tt)
      else pure tt

  unfoldable pub create_named : Config → Hash → ℕ → Bytes → List Bytes → Handler st Sum
  create_named cfg h now name sums = do
    lift (check_name "name" name)
    prev ← query st (λ db. prev_version (get_latest_file_version name db))
    chunks ← query st (find_chunks 0 sums)
    sum ←
        save_file h (λ e. e)
          (record {
            name = name;
            created_at = now;
            chunks = chunks;
            versioned = cfg.versioning_enabled;
          })
    delete_prev cfg prev
    pure sum

  -- `CreateFile` at the time `now`
  unfoldable pub create_file : Config → Hash → ℕ → Bytes → List Bytes → Handler st Sum
  create_file cfg h now name sums =
      if length name == 0
      then lift (err (required_argument "name"))
      else create_named cfg h now (clean_filename name) sums

  unfoldable pub copy_named : Hash → ℕ → Bytes → Bytes → Handler st Sum
  copy_named h now id dst = do
    lift (check_name "dst" dst)
    src_id ← lift (map_err (invalid_argument "src_id") (from_bytes id))
    f ← query st (λ db. map_err (or_not_found "db GetFile") (get_file src_id db))
    save_file h (wrapped "inserting file") (record f { name = dst; created_at = now })

  -- `Copy` at the time `now`
  unfoldable pub copy : Hash → ℕ → Option Bytes → Bytes → Handler st Sum
  copy h now none dst = lift (err (required_argument "src_id"))
  copy h now (some id) dst =
      if length dst == 0
      then lift (err (required_argument "dst"))
      else copy_named h now id (clean_filename dst)

  -- `ChunksExist`
  unfoldable pub chunks_exist_request : List Bytes → Handler st (List Bool)
  chunks_exist_request [] = pure []
  chunks_exist_request (b ∷ bs) = do sums ← lift (parse_sums (b ∷ bs)); query st (chunks_exist sums)

  -- A URL for the range of each section
  unfoldable pub presign_all : Config → List Section → Handler st (List Bytes)
  presign_all cfg [] = pure []
  presign_all cfg (x ∷ xs) = do
    url ← on_store st (st.presign_get_url (pack_key x.pack_sum) (expires cfg) x.start x.end)
    urls ← presign_all cfg xs
    pure (url ∷ urls)

  -- `Download`: the sections of the response, and their URLs
  unfoldable pub download : Config → Option Bytes → Handler st (List Section × List Bytes)
  download cfg id = do
    file_id ← lift (parse_sum "sum" id)
    indices ←
        query st (λ db. map_err (or_not_found "db GetFileChunks") (get_file_chunks file_id db))
    urls ← presign_all cfg (gather indices)
    pure (gather indices, urls)
