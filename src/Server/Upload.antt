-- ===== src/Server/Upload.antt =====
-- `PackfileUploadHandler` of internal/server/server.go. The packfile is put to the store in the
-- background while `LoadPackIndex` reads it through the same pipe.
pub mod Atomic
pub mod Accepted
use jotfs.Prelude.{ℕ, Bool, true, false, List, [], ◌∷◌, length, take, ltb, ◌==◌, if◌then◌else◌}
use jotfs.Errors.{Error, Result, ok, err, panic, message, http, wrapped, map_err}
use jotfs.Step.{Step, pure, fail, lift, ◌>>=◌, ◌>>◌}
use jotfs.Bytes.{Bytes}
use jotfs.Sum.{Sum, Hash, sum_eq}
use jotfs.Sum.Base64.{from_base64}
use jotfs.Compress.{Zstd}
use jotfs.Object.PackIndex.{PackIndex, marshal_binary}
use jotfs.Object.Packfile.Load.{load_pack_index}
use jotfs.Db.Packs.{insert_pack_index}
use jotfs.Server.World.{
  Store, Config, World, Handler, on_db, on_store, attempt, undo, with_err, pack_key, index_key,
}

-- The request: its content length, 0 where that is missing or negative, the header
-- x-jotfs-checksum, empty where that is missing, and the body
pub record Upload : Type 0 where
  pub content_length : ℕ
  pub checksum : Bytes
  pub body : Bytes

-- The `LimitReader` on the body
abbrev pub contents : Upload → Bytes
contents req = take req.content_length req.body

abbrev pub bad_request : Error → Error
bad_request e = http 400 e

-- `internalError`
abbrev pub internal_error : Error → Error
internal_error e = http 500 e

-- The checks before the packfile is read, and the checksum of the header
unfoldable pub check_upload : Config → Upload → Result Sum
check_upload cfg req =
    if req.content_length == 0
    then err (bad_request (message "content-length required"))
    else if ltb cfg.max_packfile_size req.content_length
    then err (bad_request (message "content-length exceeds maximum packfile size"))
    else if length req.checksum == 0
    then err (bad_request (message "x-jotfs-checksum required"))
    else map_err (λ e. bad_request (wrapped "invalid x-jotfs-checksum" e))
        (from_base64 req.checksum)

-- What `LoadPackIndex` makes of the packfile, and whether its checksum is that of the header
unfoldable pub match_sum : Sum → PackIndex → Result PackIndex
match_sum sum index =
    if sum_eq index.sum sum
    then ok index
    else err (bad_request (message "provided packfile checksum does not match actual checksum"))

-- A panic of `LoadPackIndex` ends the handler as the early returns do, without a response.
unfoldable pub check_index : Sum → Result PackIndex → Result PackIndex
check_index sum (err panic) = err panic
check_index sum (err e) = err (bad_request e)
check_index sum (ok index) = match_sum sum index

module _ (st : Store) where
  -- An early return cancels the background put, which has been given a part of the packfile.
  unfoldable pub cancel_put : Bytes → Bytes → Handler st (Unit {0})
  cancel_put key part w = (ok tt, record w { objects = st.cancelled_put key part w.objects })

  -- The end of the background put. Where it fails before the packfile is read, `early`, its error comes
  -- back as a read error of the packfile.
  unfoldable pub finish_put : Bool → Bytes → Bytes → Handler st (Unit {0})
  finish_put early key packfile =
      with_err st
        (λ e.
          if early then bad_request e else internal_error (wrapped "uploading packfile to store" e))
        (on_store st (st.put key packfile))

  unfoldable pub put_index : Sum → PackIndex → Handler st (Unit {0})
  put_index sum index = do
    r ← attempt st (on_store st (st.put (index_key sum) (marshal_binary index)))
    with_err st internal_error (undo st r (pack_key sum ∷ []))

  unfoldable pub insert_index : ℕ → Sum → PackIndex → Handler st (Unit {0})
  insert_index now sum index = do
    r ← attempt st (on_db st (insert_pack_index index now))
    with_err st internal_error (undo st r (pack_key sum ∷ index_key sum ∷ []))

  -- What follows the reading of the packfile
  unfoldable pub save_packfile : Bool → ℕ → Sum → Bytes → Result PackIndex → Handler st (Unit {0})
  save_packfile early now sum packfile (err e) = do cancel_put (pack_key sum) packfile; fail e
  save_packfile early now sum packfile (ok index) = do
    finish_put early (pack_key sum) packfile
    put_index sum index
    insert_index now sum index

  -- `PackfileUploadHandler` at the time `now`; no error is the response 201.
  unfoldable pub upload : Config → Zstd → Hash → Bool → ℕ → Upload → Handler st (Unit {0})
  upload cfg z h early now req = do
    sum ← lift (check_upload cfg req)
    save_packfile early now sum (contents req)
        (check_index sum (load_pack_index z h (contents req)))
