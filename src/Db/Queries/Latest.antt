-- ===== src/Db/Queries/Latest.antt =====
-- The row behind what `GetLatestFileVersion` returns.
use jotfs.Prelude.{
  ℕ, suc, zero, ◌≡◌, ◌∙◌, ap, subst, arith, Bool, true, false, Bool-cases, inl, inr, List, [], ◌∷◌,
  take, ltb, All, ◌==◌, ◌&&◌,
}
use jotfs.Errors.{ok, result_bind-ok}
use jotfs.Bytes.{Bytes}
use jotfs.Sum.{sum_eq, sum_eq_refl, from_bytes, from_bytes-IsSum}
use jotfs.Table.{exists}
use jotfs.Table.Laws.{All-map, All-append, All-rows}
use jotfs.Table.Sort.{insert_down, descending}
use jotfs.Db.{Db, FileRow, VersionRow}
use jotfs.Db.Files.{name_eq}
use jotfs.Db.Queries.{
  FileInfo, parse_vflag, with_name, join_files, scan_info, scan_infos, created, order_by_created,
  select_page, get_file_versions, first_info, get_latest_file_version,
}

module _ {A : Type 0} where
  All-exists :
      (q : A → A → Bool) (xs : List A)
      → ((x : A) → q x x ≡ true)
      → All (λ x. exists (λ y. q y x) xs ≡ true) xs
  unfolding exists
  All-exists q [] r = tt
  All-exists q (x ∷ xs) r =
      (ground (arith, r x), All-map _ _ xs (λ y e. ground arith) (All-exists q xs r))

  All-take : (P : A → Type 0) (n : ℕ) (xs : List A) → All P xs → All P (take n xs)
  All-take P zero xs h = tt
  All-take P (suc n) [] h = tt
  All-take P (suc n) (x ∷ xs) (hx, h) = (hx, All-take P n xs h)

  All-insert_down :
      (key : A → ℕ) (P : A → Type 0) (x : A) (ys : List A)
      → P x
      → All P ys
      → All P (insert_down key x ys)
  unfolding insert_down
  All-insert_down key P x [] px h = (px, tt)
  All-insert_down key P x (y ∷ ys) px (py, h) = elim (Bool-cases (ltb (key x) (key y))) [
    | inl e ↦ rw e (py, All-insert_down key P x ys px h)
    | inr e ↦ rw e (px, (py, h))
  ]

  All-descending :
      (key : A → ℕ) (P : A → Type 0) (xs : List A) → All P xs → All P (descending key xs)
  unfolding descending
  All-descending key P [] h = tt
  All-descending key P (x ∷ xs) (px, h) =
      All-insert_down key P x (descending key xs) px (All-descending key P xs h)

module _ (P : VersionRow → Type 0) where
  All-with_name : (v : VersionRow) (fs : List FileRow) → P v → All (λ r. P r.1) (with_name v fs)
  unfolding with_name
  All-with_name v [] p = tt
  All-with_name v (f ∷ fs) p = elim (Bool-cases (f.id == v.file)) [
    | inl e ↦ rw e (p, All-with_name v fs p)
    | inr e ↦ rw e (All-with_name v fs p)
  ]

  All-join_files :
      (fs : List FileRow) (vs : List VersionRow) → All P vs → All (λ r. P r.1) (join_files fs vs)
  unfolding join_files
  All-join_files fs [] h = tt
  All-join_files fs (v ∷ vs) (hv, h) =
      All-append _ (with_name v fs) (join_files fs vs) (All-with_name v fs hv)
        (All-join_files fs vs h)

scan_info-sum :
    (r : Bytes × VersionRow) (info : FileInfo) → scan_info r ≡ ok info → r.1.sum ≡ info.sum
unfolding scan_info
scan_info-sum (name, v) info e =
    let (s, a, e1) = result_bind-ok (from_bytes v.sum) _ e in
    let (flag, b, e2) = result_bind-ok (parse_vflag v.versioned) _ e1 in
    let made : record {
      name = name;
      created_at = v.created_at;
      size = v.size;
      sum = s;
      versioned = flag;
    }
        ≡ info =
      cc e2 in
    (from_bytes-IsSum v.sum s a).0 ∙ ap (λ (i : FileInfo). i.sum) made

first_scanned :
    (vs : List VersionRow) (rs : List (Bytes × VersionRow)) (infos : List FileInfo)
    (info : FileInfo)
    → All (λ r. exists (λ v. sum_eq v.sum r.1.sum) vs ≡ true) rs
    → scan_infos rs ≡ ok infos
    → first_info infos ≡ ok info
    → exists (λ v. sum_eq v.sum info.sum) vs ≡ true
unfolding scan_infos first_info
first_scanned vs [] infos info h e f =
    let none_left : [] ≡ infos = cc e in absurd (cc (ap first_info none_left ∙ f))
first_scanned vs (r ∷ rs) infos info (hr, h) e f =
    let (i, a, e1) = result_bind-ok (scan_info r) _ e in
    let (is, b, e2) = result_bind-ok (scan_infos rs) _ e1 in
    let list : i ∷ is ≡ infos = cc e2 in
    let same : ok i ≡ ok info = ap first_info list ∙ f in
    let found : i ≡ info = cc same in
    subst (λ s. exists (λ v. sum_eq v.sum s) vs ≡ true)
      (scan_info-sum r i a ∙ ap (λ (j : FileInfo). j.sum) found) hr

-- There is a version with the checksum that is returned.
pub get_latest_file_version-exists :
    (name : Bytes) (db : Db) (info : FileInfo)
    → get_latest_file_version name db ≡ ok info
    → exists (λ v. sum_eq v.sum info.sum) db.file_versions ≡ true
unfolding get_latest_file_version get_file_versions select_page order_by_created
get_latest_file_version-exists name db info e =
    let (infos, scanned, one) = result_bind-ok (get_file_versions name 0 1 false db) first_info e in
    first_scanned db.file_versions _ infos info
      (All-take _ 1 _ (
        All-descending created _ _ (
          All-rows _ (λ r. name_eq r.0 name && ltb 0 r.1.created_at)
            (join_files db.files db.file_versions)
            (All-join_files (λ w. exists (λ v. sum_eq v.sum w.sum) db.file_versions ≡ true) db.files
              db.file_versions
              (All-exists (λ v w. sum_eq v.sum w.sum) db.file_versions (λ v. sum_eq_refl v.sum))))))
      scanned one
