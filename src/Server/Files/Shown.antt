-- ===== src/Server/Files/Shown.antt =====
-- The chunks that `CreateFile` finds, and a file that stays readable.
use jotfs.Prelude.{ℕ, ◌+◌, ◌<◌, ◌≡◌, ◌≢◌, refl, sym, ◌∙◌, subst, arith, List, [], ◌∷◌, map, All}
use jotfs.Errors.{Error, Result, ok, err, invalid_argument, map_err, map_err-ok, result_bind-ok}
use jotfs.Bytes.{Bytes}
use jotfs.Sum.{Sum, IsSum, sum_eq, from_bytes, from_bytes-IsSum}
use jotfs.Object.File.{Chunk, File}
use jotfs.Table.{first}
use jotfs.Db.{Db}
use jotfs.Db.Files.{delete_file, delete_found}
use jotfs.Db.Queries.{get_chunk_size}
use jotfs.Db.Keys.{IsKeyed}
use jotfs.Db.Keys.Kept.{delete_file-IsKeyed}
use jotfs.Db.Contents.{get_file}
use jotfs.Db.Contents.Scanned.{Fits}
use jotfs.Db.Contents.Removed.{get_file-delete_file}
use jotfs.Server.World.Effects.{update-rollback}
use jotfs.Server.Files.{find_chunks, or_precondition}

-- The chunks that `CreateFile` finds from place `i` on are in order, and of the sizes of their blocks.
pub record Numbered (i : ℕ) (bs : List Bytes) (cs : List Chunk) (db : Db) : Type 0 where
  pub fits : Fits cs db
  pub above : (k : ℕ) → k < i → All (λ c. k < c.sequence) cs
  pub texts : map (λ c. c.sum) cs ≡ bs

pub find_chunks-Numbered :
    (i : ℕ) (bs : List Bytes) (db : Db) (cs : List Chunk)
    → find_chunks i bs db ≡ ok cs
    → Numbered i bs cs db
unfolding find_chunks
find_chunks-Numbered i [] db cs e =
    let none_left : [] ≡ cs = cc e in
    subst (λ c. Numbered i [] c db) none_left
      (record {
        fits = record { ordered = tt; sums = tt; sizes = tt };
        above = λ k l. tt;
        texts = refl;
      })
find_chunks-Numbered i (b ∷ bs) db cs e =
    let (s, parsed, e1) = result_bind-ok (map_err (invalid_argument "sums") (from_bytes b)) _ e in
    let (n, sized, e2) = result_bind-ok (map_err or_precondition (get_chunk_size s db)) _ e1 in
    let (rest, later, e3) = result_bind-ok (find_chunks (i + 1) bs db) _ e2 in
    let made : record { sequence = i; size = n; sum = s } ∷ rest ≡ cs = cc e3 in
    let k = find_chunks-Numbered (i + 1) bs db rest later in
    let (same, is_sum) = from_bytes-IsSum b s (map_err-ok _ (from_bytes b) s parsed) in
    subst (λ c. Numbered i (b ∷ bs) c db) made
      (record {
        fits = record {
          ordered = (k.above i (omega arith), k.fits.ordered);
          sums = (subst IsSum same is_sum, k.fits.sums);
          sizes = (map_err-ok _ (get_chunk_size s db) n sized, k.fits.sizes);
        };
        above = λ j l. (l, k.above j (omega (arith, l)));
        texts = λ t. sym same t ∷ k.texts t;
      })

-- A file is read under its checksum.
pub record Shows (s : Sum) (f : File) (db : Db) : Type 0 where
  pub keyed : IsKeyed db
  pub read : get_file s db ≡ ok f

delete_file-rollback :
    (t : Sum) (db : Db) (x : Error) → (delete_file t db).0 ≡ err x → (delete_file t db).1 ≡ db
unfolding delete_file
delete_file-rollback t db x e =
    update-rollback (λ d. delete_found (first (λ v. sum_eq v.sum t) d.file_versions) d) db x e

pub delete_file-Shows :
    (s t : Sum) (f : File) → s ≢ t → (db : Db) → Shows s f db → Shows s f (delete_file t db).1
delete_file-Shows s t f n db k = go (delete_file t db) refl
  where
    go : (p : Result (Unit {0}) × Db) → delete_file t db ≡ p → Shows s f p.1
    go (ok u, db') e = record {
      keyed = subst (λ r. IsKeyed r.1) e (delete_file-IsKeyed t db k.keyed);
      read = (get_file-delete_file t db db' k.keyed e).1 s n ∙ k.read;
    }
    go (err x, db') e =
        subst (Shows s f) (sym (delete_file-rollback t db x (λ i. (e i).0)) ∙ (λ i. (e i).1)) k
