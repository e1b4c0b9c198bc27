-- ===== src/Server/Listing/Pages.antt =====
-- Where the pages of `List` and `Head` lead.
use jotfs.Prelude.{
  ℕ, suc, ◌+◌, ◌<◌, ◌≡◌, refl, sym, ◌∙◌, ap, arith, Bool, true, ◌&&◌, Bool-cases, inl, inr, some,
  List, [], ◌∷◌, ◌++◌, append_assoc, ltb, All, take, drop, take-append-drop, length, length-append,
}
use jotfs.Errors.{Result, Result-cases, ok, err}
use jotfs.Sum.{from_bytes}
use jotfs.Bytes.{Bytes}
use jotfs.Table.{rows}
use jotfs.Table.Sort.{ascending}
use jotfs.Table.Sort.Pages.{
  Distinct, ascending-Ascending, rows-Ascending, ascending-rows, rows_behind,
}
use jotfs.Db.{Db, VersionRow}
use jotfs.Db.Queries.{
  FileInfo, parse_vflag, created, join_files, order_by_created, select_page, scan_info, scan_infos,
}
use jotfs.Server.Listing.{last_created, next_token}

abbrev Row : Type 0
Row = Bytes × VersionRow

abbrev infos_of : Result (List FileInfo) → List FileInfo
infos_of (ok is) = is
infos_of (err e) = []

abbrev created_of : Result FileInfo → ℕ
created_of (ok i) = i.created_at
created_of (err e) = 0

-- What the query selects
abbrev is_after : (Bytes → Bool) → ℕ → Row → Bool
is_after p offset r = p r.0 && ltb offset (created r)

rows-is_after :
    (p : Bytes → Bool) (o k : ℕ) (xs : List Row)
    → o < k
    → rows (is_after p k) xs ≡ rows (λ r. ltb k (created r)) (rows (is_after p o) xs)
unfolding rows
rows-is_after p o k [] h = refl
rows-is_after p o k (x ∷ xs) h = ground (arith, rows-is_after p o k xs h)

All-is_after :
    (p : Bytes → Bool) (o : ℕ) (xs : List Row) → All (λ r. o < created r) (rows (is_after p o) xs)
unfolding rows
All-is_after p o [] = tt
All-is_after p o (x ∷ xs) = elim (Bool-cases (is_after p o x)) [
  | inl e ↦ rw e (ground arith, All-is_after p o xs)
  | inr e ↦ rw e (All-is_after p o xs)
]

All-middle :
    (P : Row → Type 0) (front : List Row) (r : Row) (tail : List Row)
    → All P (front ++ (r ∷ tail))
    → P r
All-middle P [] r tail (h, _) = h
All-middle P (x ∷ front) r tail (_, h) = All-middle P front r tail h

take-append : (m : ℕ) (xs ys : List Row) → take (length xs + m) (xs ++ ys) ≡ xs ++ take m ys
take-append m [] ys = rw zero_add refl
  where
    zero_add : 0 + m ≡ m
    zero_add = omega arith
take-append m (x ∷ xs) ys = rw (shift, take-append m xs ys) refl
  where
    shift : suc (length xs) + m ≡ suc (length xs + m)
    shift = omega arith

scan_info-created : (r : Row) (i : FileInfo) → scan_info r ≡ ok i → i.created_at ≡ created r
unfolding scan_info
scan_info-created (name, v) i e = elim (Result-cases (from_bytes v.sum)) [
  | inl (s, es) ↦ elim (Result-cases (parse_vflag v.versioned)) [
    | inl (f, ef) ↦ ap (λ t. created_of t) (sym (rw (es, ef) at e))
    | inr (x, ex) ↦ absurd (cc (rw (es, ex) at e))
  ]
  | inr (x, ex) ↦ absurd (cc (rw ex at e))
]

last_created-cons :
    (i : FileInfo) (is : List FileInfo) (k : ℕ)
    → last_created is ≡ some k
    → last_created (i ∷ is) ≡ some k
unfolding last_created
last_created-cons i [] k e = absurd (cc e)
last_created-cons i (j ∷ is) k e = e

last_created-scan_infos :
    (front : List Row) (r : Row) (infos : List FileInfo)
    → scan_infos (front ++ (r ∷ [])) ≡ ok infos
    → (last_created infos ≡ some (created r)) × (length infos ≡ length (front ++ (r ∷ [])))
unfolding scan_infos last_created
last_created-scan_infos [] r infos e = elim (Result-cases (scan_info r)) [
  | inl (i, ei) ↦
      rw (← ap (λ t. infos_of t) (rw ei at e))
        (ap (λ (k : ℕ). some k) (scan_info-created r i ei), refl)
  | inr (x, ex) ↦ absurd (cc (rw ex at e))
]
last_created-scan_infos (y ∷ front) r infos e = elim (Result-cases (scan_info y)) [
  | inl (i, ei) ↦ elim (Result-cases (scan_infos (front ++ (r ∷ [])))) [
    | inl (js, ej) ↦
        let (l, n) = last_created-scan_infos front r js ej in
        rw (← ap (λ t. infos_of t) (rw (ei, ej) at e))
          (last_created-cons i js (created r) l, ap suc n)
    | inr (x, ex) ↦ absurd (cc (rw (ei, ex) at e))
  ]
  | inr (x, ex) ↦ absurd (cc (rw ex at e))
]

next_token-full :
    (limit : ℕ) (infos : List FileInfo) (k : ℕ)
    → last_created infos ≡ some k
    → length infos ≡ limit
    → 0 < limit
    → next_token limit infos ≡ some k
unfolding next_token
next_token-full limit infos k l m pos = ground arith

-- Where no two file versions of the database have the same time of creation, the page that follows a full page in
-- ascending order, selected with the token of that page, holds the files that follow: the two pages
-- together are the page of twice the limit.
pub select_page-next_token :
    (p : Bytes → Bool) (offset limit : ℕ) (db : Db) (front : List Row) (r : Row)
    (infos : List FileInfo)
    → Distinct created (join_files db.files db.file_versions)
    → select_page p offset limit true db ≡ front ++ (r ∷ [])
    → length (front ++ (r ∷ [])) ≡ limit
    → scan_infos (front ++ (r ∷ [])) ≡ ok infos
    → (token : ℕ) × (next_token limit infos ≡ some token)
      × (select_page p offset limit true db ++ select_page p token limit true db
          ≡ select_page p offset (limit + limit) true db)
unfolding select_page order_by_created
select_page-next_token p o n db front r infos d page full scanned = (created r, token, pages)
  where
    sorted : List Row
    sorted = ascending created (join_files db.files db.file_versions)

    all : List Row
    all = rows (is_after p o) sorted

    select-all :
        ascending created (rows (is_after p o) (join_files db.files db.file_versions)) ≡ all
    select-all = ascending-rows created (is_after p o) _ d

    tail : List Row
    tail = drop n all

    whole : all ≡ (front ++ (r ∷ [])) ++ tail
    whole = cc (page, select-all, take-append-drop n all)

    split : all ≡ front ++ (r ∷ tail)
    split = whole ∙ append_assoc front (r ∷ []) tail

    rest :
        ascending created (rows (is_after p (created r)) (join_files db.files db.file_versions))
        ≡ tail
    rest = cc (
      ascending-rows created (is_after p (created r)) _ d,
      rows-is_after p o (created r) sorted
          (All-middle _ front r tail (rw split at (All-is_after p o sorted))),
      split,
      rows_behind created front r tail (
          rw split at
            (rows-Ascending created (is_after p o) sorted (ascending-Ascending created _ d))),
    )

    pages :
        take n (ascending created (rows (is_after p o) (join_files db.files db.file_versions)))
          ++ take n (
              ascending created
                (rows (is_after p (created r)) (join_files db.files db.file_versions)))
        ≡ take
            (n + n)
            (ascending created (rows (is_after p o) (join_files db.files db.file_versions)))
    pages = cc (page, select-all, rest, whole, take-append n (front ++ (r ∷ [])) tail, full)

    token : next_token n infos ≡ some (created r)
    token =
        let (l, m) = last_created-scan_infos front r infos scanned in
        next_token-full n infos (created r) l (m ∙ full)
          (omega (arith, full, length-append front (r ∷ [])))
