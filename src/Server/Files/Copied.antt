-- ===== src/Server/Files/Copied.antt =====
-- What `GetFile` reads after `Copy`.
use jotfs.Prelude.{ℕ, ◌≡◌, ◌≢◌, sym, ◌∙◌, ap, Bool, true, false, some, length, ◌==◌, if◌then◌else◌}
use jotfs.Errors.{
  Result, ok, err, invalid_argument, required_argument, wrapped, map_err, map_err-ok,
}
use jotfs.Step.{lift}
use jotfs.Step.Returns.{bind-ok, lift-ok}
use jotfs.Bytes.{Bytes}
use jotfs.Sum.{Sum, Hash, compute, from_bytes, from_bytes-IsSum}
use jotfs.Object.File.{File, marshal_binary}
use jotfs.Db.{Db}
use jotfs.Db.Files.{insert_file}
use jotfs.Db.Keys.{IsKeyed}
use jotfs.Db.Integrity.{IsConsistent}
use jotfs.Db.Contents.{get_file}
use jotfs.Db.Contents.Scanned.{Fits}
use jotfs.Db.Contents.Inserted.{insert_file-Inserted}
use jotfs.Db.Contents.RoundTrip.{get_file-insert_file}
use jotfs.Db.Refinement.Steps.{get_file_none}
use jotfs.Server.Names.{clean_filename}
use jotfs.Server.World.{Store, World, query}
use jotfs.Server.Files.{check_name, or_not_found, copy_named, copy}
use jotfs.Server.Files.Readable.{save_file-ok}

-- A copy of a file
abbrev pub copy_of : File → Bytes → ℕ → File
copy_of f name now = record f { name = name; created_at = now }

module _ (st : Store) where
  query-ok :
      {A : Type 0} (q : Db → Result A) (w w' : World st) (a : A)
      → query st q w ≡ (ok a, w')
      → (q w.db ≡ ok a) × (w ≡ w')
  unfolding query
  query-ok q w w' a e = (λ i. (e i).0, λ i. (e i).1)

  -- What `Copy` inserted
  copy_named-inserted :
      (h : Hash) (now : ℕ) (id dst : Bytes) (w w' : World st) (s : Sum)
      → copy_named st h now id dst w ≡ (ok s, w')
      → (f : File) × (get_file id w.db ≡ ok f)
        × (s ≡ compute h (marshal_binary (copy_of f dst now)))
        × (insert_file (copy_of f dst now) s w.db ≡ (ok tt, w'.db))
  unfolding copy_named
  copy_named-inserted h now id dst w w' s e =
      let (u, w1, checked, e1) = bind-ok (lift (check_name "dst" dst)) _ w w' e in
      let (src_id, w2, parsed, e2) =
        bind-ok (lift (map_err (invalid_argument "src_id") (from_bytes id))) _ w1 w' e1 in
      let (f, w3, asked, saved) =
        bind-ok (query st (λ db. map_err (or_not_found "db GetFile") (get_file src_id db))) _ w2 w'
          e2 in
      let (computed, inserted) =
        save_file-ok st h (wrapped "inserting file") (copy_of f dst now) s w3 w' saved in
      let (is_id, same2) = lift-ok _ w1 w2 parsed in
      let same1 : w ≡ w1 = (lift-ok _ w w1 checked).1 in
      let (found, same3) =
        query-ok (λ db. map_err (or_not_found "db GetFile") (get_file src_id db)) w2 w3 f asked in
      let given : id ≡ src_id =
        (from_bytes-IsSum id src_id (map_err-ok _ (from_bytes id) src_id is_id)).0 in
      let before : w ≡ w2 = same1 ∙ same2 in
      (
        f,
        (λ i. get_file (given i) (before i).db) ∙ map_err-ok _ (get_file src_id w2.db) f found,
        computed,
        (λ i. insert_file (copy_of f dst now) s ((before ∙ same3) i).db) ∙ inserted,
      )

  copy_named-Copied :
      (h : Hash) (now : ℕ) (id dst : Bytes) (w w' : World st) (s : Sum) (src : File)
      → IsConsistent w.db
      → IsKeyed w.db
      → get_file id w.db ≡ ok src
      → Fits src.chunks w.db
      → copy_named st h now id dst w ≡ (ok s, w')
      → (get_file s w'.db ≡ ok (copy_of src dst now))
        × (s ≡ compute h (marshal_binary (copy_of src dst now)))
        × (id ≢ s)
        × ((t : Sum) → t ≢ s → get_file t w'.db ≡ get_file t w.db)
  copy_named-Copied h now id dst w w' s src c k found fits e =
      let (f, read, computed, inserted) = copy_named-inserted h now id dst w w' s e in
      let same : f ≡ src = cc (read, found) in
      let added : insert_file (copy_of src dst now) s w.db ≡ (ok tt, w'.db) =
        ap (λ (g : File). insert_file (copy_of g dst now) s w.db) (sym same) ∙ inserted in
      let (here, others) =
        get_file-insert_file (copy_of src dst now) s w.db w'.db c k
          (record { ordered = fits.ordered; sums = fits.sums; sizes = fits.sizes }) added in
      let x = insert_file-Inserted (copy_of src dst now) s w.db w'.db k.files added in
      (
        here,
        computed ∙ ap (λ (g : File). compute h (marshal_binary (copy_of g dst now))) same,
        λ q. absurd (cc (sym found ∙ ap (λ t. get_file t w.db) q ∙ get_file_none s w.db x.free)),
        others,
      )

  -- Where `Copy` of a file returns a checksum, from a consistent database whose keys differ, and the
  -- file's chunks are in order and of the sizes that the database has for their 32-byte checksums,
  -- `GetFile` of the new checksum returns the file with the cleaned new name and the time of the copy,
  -- and `GetFile` of every other checksum, that of the file among them, returns what it did. The new
  -- checksum is that of the copy's encoding. This holds whatever the store does.
  pub get_file-copy :
      (h : Hash) (now : ℕ) (id dst : Bytes) (w w' : World st) (s : Sum) (src : File)
      → IsConsistent w.db
      → IsKeyed w.db
      → get_file id w.db ≡ ok src
      → Fits src.chunks w.db
      → copy st h now (some id) dst w ≡ (ok s, w')
      → (get_file s w'.db ≡ ok (copy_of src (clean_filename dst) now))
        × (s ≡ compute h (marshal_binary (copy_of src (clean_filename dst) now)))
        × (id ≢ s)
        × ((t : Sum) → t ≢ s → get_file t w'.db ≡ get_file t w.db)
  unfolding copy
  get_file-copy h now id dst w w' s src c k found fits e = go (length dst == 0) e
    where
      go :
          (b : Bool)
          → (if b
                then lift (err (required_argument "dst"))
                else copy_named st h now id (clean_filename dst))
              w
            ≡ (ok s, w')
          → (get_file s w'.db ≡ ok (copy_of src (clean_filename dst) now))
            × (s ≡ compute h (marshal_binary (copy_of src (clean_filename dst) now)))
            × (id ≢ s)
            × ((t : Sum) → t ≢ s → get_file t w'.db ≡ get_file t w.db)
      go true q = absurd (cc ((lift-ok (err (required_argument "dst")) w w' q).0))
      go false q = copy_named-Copied h now id (clean_filename dst) w w' s src c k found fits q
