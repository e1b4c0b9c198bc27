-- ===== src/Db/Refinement.antt =====
-- The database as a map of files: what the transactions of internal/db/adapter.go are for a reader of
-- `GetFile`.
pub mod Steps
pub mod Runs
use jotfs.Prelude.{ℕ, ◌≡◌, Bool, true, false, Option, List, [], ◌∷◌, if◌then◌else◌}
use jotfs.Errors.{Result, ok, err, db_not_found}
use jotfs.Sum.{Sum, sum_eq}
use jotfs.Object.File.{File}
use jotfs.Object.PackIndex.{PackIndex}
use jotfs.Db.{Db}
use jotfs.Db.Files.{insert_file, delete_file}
use jotfs.Db.Packs.{insert_pack_index, update_index, delete_pack_index}
use jotfs.Db.Vacuums.{get_zero_refcount}
use jotfs.Db.Contents.Scanned.{Fits}

pub data Operation : Type 0 where
  put_file : File → Sum → Operation
  remove_file : Sum → Operation
  put_pack : PackIndex → ℕ → Operation
  move_pack : PackIndex → ℕ → Sum → (ℕ → Option ℕ) → Operation
  remove_pack : Sum → Operation
  mark_blocks : ℕ → Operation

abbrev pub succeeded : {A : Type 0} → Result A × Db → Bool × Db
succeeded (ok a, db) = (true, db)
succeeded (err e, db) = (false, db)

-- Whether the transaction succeeded, and the database after it
unfoldable pub apply : Operation → Db → Bool × Db
apply (put_file f s) db = succeeded (insert_file f s db)
apply (remove_file s) db = succeeded (delete_file s db)
apply (put_pack index t) db = succeeded (insert_pack_index index t db)
apply (move_pack index t s m) db = succeeded (update_index index t s m db)
apply (remove_pack s) db = succeeded (delete_pack_index s db)
apply (mark_blocks before) db = (true, (get_zero_refcount before db).1)

unfoldable pub run : List Operation → Db → List Bool × Db
run [] db = ([], db)
run (o ∷ os) db = let (b, db') = apply o db in let (bs, db'') = run os db' in (b ∷ bs, db'')

-- What a reader of `GetFile` sees
abbrev pub FileMap : Type 0
FileMap = Sum → Result File

unfoldable pub set : Sum → Result File → FileMap → FileMap
set s r m t = if sum_eq t s then r else m t

-- The abstract machine: a new file appears, a file that is there can be removed, one that is not
-- cannot, and nothing else is seen.
pub data Simulates : Operation → FileMap → Bool → FileMap → Type 0 where
  new_file :
      (f : File) (s : Sum) (m m' : FileMap)
      → m s ≡ err db_not_found
      → ((t : Sum) → m' t ≡ set s (ok f) m t)
      → Simulates (put_file f s) m true m'
  refused :
      (f : File) (s : Sum) (m m' : FileMap)
      → ((t : Sum) → m' t ≡ m t)
      → Simulates (put_file f s) m false m'
  removed :
      (s : Sum) (m m' : FileMap)
      → ((t : Sum) → m' t ≡ set s (err db_not_found) m t)
      → Simulates (remove_file s) m true m'
  missing :
      (s : Sum) (m m' : FileMap)
      → m s ≡ err db_not_found
      → ((t : Sum) → m' t ≡ m t)
      → Simulates (remove_file s) m false m'
  pack_put :
      (index : PackIndex) (n : ℕ) (m m' : FileMap) (b : Bool)
      → ((t : Sum) → m' t ≡ m t)
      → Simulates (put_pack index n) m b m'
  pack_moved :
      (index : PackIndex) (n : ℕ) (s : Sum) (f : ℕ → Option ℕ) (m m' : FileMap) (b : Bool)
      → ((t : Sum) → m' t ≡ m t)
      → Simulates (move_pack index n s f) m b m'
  pack_removed :
      (s : Sum) (m m' : FileMap) (b : Bool)
      → ((t : Sum) → m' t ≡ m t)
      → Simulates (remove_pack s) m b m'
  marked :
      (n : ℕ) (m m' : FileMap) (b : Bool)
      → ((t : Sum) → m' t ≡ m t)
      → Simulates (mark_blocks n) m b m'

pub data SimulatesAll : List Operation → FileMap → List Bool → FileMap → Type 0 where
  done : (m : FileMap) → SimulatesAll [] m [] m
  step :
      (o : Operation) (os : List Operation) (m m' m'' : FileMap) (b : Bool) (bs : List Bool)
      → Simulates o m b m'
      → SimulatesAll os m' bs m''
      → SimulatesAll (o ∷ os) m (b ∷ bs) m''

-- A file that is put has the chunks of the database, in order.
abbrev pub IsFit : Operation → Db → Type 0
IsFit (put_file f s) db = Fits f.chunks db
IsFit (remove_file s) db = Unit
IsFit (put_pack index t) db = Unit
IsFit (move_pack index t s m) db = Unit
IsFit (remove_pack s) db = Unit
IsFit (mark_blocks before) db = Unit

abbrev pub AllFit : List Operation → Db → Type 0
AllFit [] db = Unit
AllFit (o ∷ os) db = IsFit o db × AllFit os (apply o db).1
