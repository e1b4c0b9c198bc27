-- ===== src/Server/Listing.antt =====
-- `List` and `Head` of internal/server/server.go. A page token is `none` where it is negative, as the
-- token of a last page is.
pub mod Pages
use jotfs.Prelude.{
  ℕ, ◌+◌, Bool, true, false, ◌&&◌, Option, none, some, List, [], ◌∷◌, length, ltb, ◌==◌,
  if◌then◌else◌,
}
use jotfs.Errors.{
  Result, ok, err, map_err, message, wrapped, required_argument, invalid_argument, ◌>>=◌, ◌>>◌,
}
use jotfs.Bytes.{Bytes}
use jotfs.Db.{Db}
use jotfs.Db.Queries.{FileInfo, Patterns, list_files, get_file_versions}
use jotfs.Server.Names.{clean_filename}

-- A response; the versioning tag of a `FileInfo` is not sent.
pub record Page : Type 0 where
  pub infos : List FileInfo
  pub next_page_token : Option ℕ

unfoldable pub last_created : List FileInfo → Option ℕ
last_created [] = none
last_created (i ∷ []) = some i.created_at
last_created (i ∷ j ∷ is) = last_created (j ∷ is)

-- The token of a full page is the time of its last file.
unfoldable pub next_token : ℕ → List FileInfo → Option ℕ
next_token limit infos =
    if length infos == limit && ltb 0 (length infos) then last_created infos else none

abbrev pub page_of : ℕ → List FileInfo → Page
page_of limit infos = record { infos = infos; next_page_token = next_token limit infos }

unfoldable pub check_page : ℕ → Option ℕ → Result ℕ
check_page limit token =
    if limit == 0
    then err (required_argument "limit")
    else if ltb 10_000 limit
    then err (invalid_argument "limit" (message "max is 10000"))
    else elim token [
      | none ↦ err (invalid_argument "next_page_token" (message "cannot be negative"))
      | some offset ↦ ok offset
    ]

-- `List`
unfoldable pub list_page : Patterns → Bytes → ℕ → Option ℕ → Bytes → Bytes → Bool → Db → Result Page
list_page q prefix limit token exclude include asc db =
    if length prefix == 0 then err (required_argument "prefix") else do
      offset ← check_page limit token
      infos ←
          list_files q (clean_filename prefix) offset limit (clean_filename exclude)
            (clean_filename include) asc db
      ok (page_of limit infos)

-- `Head`
unfoldable pub head_page : Bytes → ℕ → Option ℕ → Bool → Db → Result Page
head_page name limit token asc db = if length name == 0 then err (required_argument "name") else do
  offset ← check_page limit token
  infos ←
      map_err (wrapped "db GetFileVersions")
        (get_file_versions (clean_filename name) offset limit asc db)
  ok (page_of limit infos)
