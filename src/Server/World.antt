-- ===== src/Server/World.antt =====
-- What the handlers of internal/server/server.go act on: the database and the object store. The store
-- is a service behind the interface of internal/store/store.go, so its operations are parameters
-- that may fail and change its objects in any way.
pub mod Effects
pub mod Keeps
pub mod Returns
use jotfs.Prelude.{ℕ, Bool, true, false, Option, some, List, [], ◌∷◌, ◌++◌}
use jotfs.Errors.{Error, Result, ok, err, merge_errors, merged, wrapped, map_err}
use jotfs.Step.{Step, pure, fail, lift, gets, continue, ◌>>=◌, ◌>>◌}
use jotfs.Bytes.{Bytes}
use jotfs.Sum.{Sum}
use jotfs.Sum.Hex.{as_hex}
use jotfs.Db.{Db, Tx}

-- What `Get` returns: all that can be read of it, or the error of a read, and the result of `Close`
pub record Object : Type 0 where
  pub contents : Result Bytes
  pub closed : Result (Unit {0})

-- `store.Store`, the interface, on some state of objects: the first argument is the bucket. A URL has
-- a duration and a range, or the whole object.
pub record Client (O : Type 0) : Type 0 where
  pub put : Bytes → Bytes → Bytes → Step O (Unit {0})
  -- what `Put` leaves where its context is cancelled before it has read everything
  pub cancelled_put : Bytes → Bytes → Bytes → O → O
  pub get : Bytes → Bytes → Step O Object
  pub copy : Bytes → Bytes → Bytes → Step O (Unit {0})
  pub delete : Bytes → Bytes → Step O (Unit {0})
  pub presign_get_url : Bytes → Bytes → ℕ → Option (ℕ × ℕ) → Step O Bytes

-- The store, for the bucket that the server uses
pub record Store : Type 1 where
  pub Objects : Type 0
  pub put : Bytes → Bytes → Step Objects (Unit {0})
  pub cancelled_put : Bytes → Bytes → Objects → Objects
  pub get : Bytes → Step Objects Object
  pub delete : Bytes → Step Objects (Unit {0})
  -- the key, the duration that the URL holds for, and the range
  pub presign_get_url : Bytes → ℕ → ℕ → ℕ → Step Objects Bytes

-- A client, for one bucket
abbrev pub in_bucket : {O : Type 0} → Client O → Bytes → Store
in_bucket {O} c bucket = record {
  Objects = O;
  put = c.put bucket;
  cancelled_put = c.cancelled_put bucket;
  get = c.get bucket;
  delete = c.delete bucket;
  presign_get_url = λ key expires from to. c.presign_get_url bucket key expires (some (from, to));
}

-- `Config`, less the parameters that only reach clients
pub record Config : Type 0 where
  pub versioning_enabled : Bool
  pub max_packfile_size : ℕ
  -- in nanoseconds, as the 64 bits of a `time.Duration`
  pub download_timeout : ℕ

pub record World (s : Store) : Type 0 where
  pub db : Db
  pub objects : s.Objects

-- The keys of the objects: the checksum in hexadecimal, and `.file`, `.pack` or `.index`
abbrev pub file_key : Sum → Bytes
file_key s = as_hex s ++ (46 ∷ 102 ∷ 105 ∷ 108 ∷ 101 ∷ [])

abbrev pub pack_key : Sum → Bytes
pack_key s = as_hex s ++ (46 ∷ 112 ∷ 97 ∷ 99 ∷ 107 ∷ [])

abbrev pub index_key : Sum → Bytes
index_key s = as_hex s ++ (46 ∷ 105 ∷ 110 ∷ 100 ∷ 101 ∷ 120 ∷ [])

-- The result of what was read and closed. A read error comes first, the error of `Close` is merged in.
unfoldable pub and_close : {A : Type 0} → Result A → Result (Unit {0}) → Result A
and_close (ok a) (ok u) = ok a
and_close (ok a) (err e) = err e
and_close (err e) (ok u) = err e
and_close (err e) (err minor) = err (merged e minor)

module _ (s : Store) where
  abbrev pub Handler : Type 0 → Type 0
  Handler A = Step (World s) A

  unfoldable pub on_db : {A : Type 0} → Tx A → Handler A
  on_db t w = let (r, db) = t w.db in (r, record w { db = db })

  unfoldable pub query : {A : Type 0} → (Db → Result A) → Handler A
  query q w = (q w.db, w)

  unfoldable pub on_store : {A : Type 0} → Step s.Objects A → Handler A
  on_store t w = let (r, objects) = t w.objects in (r, record w { objects = objects })

  -- `store.GetObject`
  unfoldable pub get_object : Bytes → Handler Bytes
  get_object key = do r ← on_store (s.get key); lift (and_close r.contents r.closed)

  -- The result of a step as a value, for the code that goes on after an error
  unfoldable pub attempt : {A : Type 0} → Handler A → Handler (Result A)
  attempt m w = let (r, w') = m w in (ok r, w')

  -- The objects of these keys are deleted after an error, and the errors of that are merged in.
  unfoldable pub clean_up : Result (Unit {0}) → List Bytes → Handler (Unit {0})
  unfolding lift
  clean_up r [] w = lift r w
  clean_up r (k ∷ ks) w = let (d, w') = on_store (s.delete k) w in clean_up (merge_errors r d) ks w'

  -- Where a step failed, the objects that were put before it are deleted again.
  unfoldable pub undo : Result (Unit {0}) → List Bytes → Handler (Unit {0})
  undo (ok u) ks = pure tt
  undo (err e) ks = clean_up (err e) ks

  unfoldable pub with_err : {A : Type 0} → (Error → Error) → Handler A → Handler A
  with_err f m w = let (r, w') = m w in (map_err f r, w')
