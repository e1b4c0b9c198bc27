-- ===== src/Db/Queries/Chunks.antt =====
-- What `ChunksExist` answers.
use jotfs.Prelude.{
  ◌≡◌, refl, sym, ap, subst, arith, Bool, true, not, ◌&&◌, Bool-cases, inl, inr, List, [], ◌∷◌, map,
  All, ◌==◌,
}
use jotfs.Errors.{ok}
use jotfs.Sum.{Sum, IsSum, sum_eq, sum_eq_refl, eq_of_sum_eq, from_bytes-ok}
use jotfs.Table.{rows, exists}
use jotfs.Db.{Db, IndexRow}
use jotfs.Db.Queries.{is_selected, scan_sums, chunks_exist}

-- The sums in the rows are 32 bytes, as the schema checks.
abbrev pub HasSum : IndexRow → Type 0
HasSum i = IsSum i.sum

-- A block with this sum that no vacuum has marked
abbrev pub is_live : Sum → IndexRow → Bool
is_live t i = sum_eq i.sum t && not (i.delete_marker == 1)

scan_sums-rows :
    (q : IndexRow → Bool) (xs : List IndexRow)
    → All HasSum xs
    → scan_sums (rows q xs) ≡ ok (map (λ i. i.sum) (rows q xs))
unfolding scan_sums rows
scan_sums-rows q [] h = refl
scan_sums-rows q (x ∷ xs) (hx, h) = elim (Bool-cases (q x)) [
  | inl e ↦ rw (e, from_bytes-ok x.sum hx, scan_sums-rows q xs h) refl
  | inr e ↦ rw e (scan_sums-rows q xs h)
]

exists-rows :
    (q : IndexRow → Bool) (t : Sum) (xs : List IndexRow)
    → exists (λ f. sum_eq f t) (map (λ i. i.sum) (rows q xs))
      ≡ exists (λ i. q i && sum_eq i.sum t) xs
unfolding exists rows
exists-rows q t [] = refl
exists-rows q t (x ∷ xs) = elim (Bool-cases (q x)) [
  | inl e ↦ rw (e, exists-rows q t xs) refl
  | inr e ↦ rw (e, exists-rows q t xs) refl
]

exists_cong :
    (p q : IndexRow → Bool) (xs : List IndexRow)
    → ((x : IndexRow) → p x ≡ q x)
    → exists p xs ≡ exists q xs
unfolding exists
exists_cong p q [] h = refl
exists_cong p q (x ∷ xs) h = rw (h x, exists_cong p q xs h) refl

abbrev IsAsked : List Sum → Sum → Type 0
IsAsked sums t = exists (λ s. sum_eq t s) sums ≡ true

All-IsAsked : (s : Sum) (sums ts : List Sum) → All (IsAsked sums) ts → All (IsAsked (s ∷ sums)) ts
unfolding exists
All-IsAsked s sums [] h = tt
All-IsAsked s sums (t ∷ ts) (ht, h) = (ground (arith, ht), All-IsAsked s sums ts h)

each-IsAsked : (sums : List Sum) → All (IsAsked sums) sums
unfolding exists
each-IsAsked [] = tt
each-IsAsked (s ∷ sums) =
    (ground (arith, sum_eq_refl s), All-IsAsked s sums sums (each-IsAsked sums))

-- Whether the row is selected makes no difference where its sum was asked for.
selected_live :
    (sums : List Sum) (t : Sum) (i : IndexRow)
    → IsAsked sums t
    → (is_selected sums i && sum_eq i.sum t) ≡ is_live t i
unfolding is_selected
selected_live sums t i h = elim (Bool-cases (sum_eq i.sum t)) [
  | inl e ↦
      let asked : exists (λ s. sum_eq i.sum s) sums ≡ true =
        subst (λ (u : Sum). exists (λ s. sum_eq u s) sums ≡ true) (sym (eq_of_sum_eq i.sum t e))
          h in
      ground (arith, e, asked)
  | inr e ↦ ground (arith, e)
]

answers :
    (sums ts : List Sum) (xs : List IndexRow)
    → All (IsAsked sums) ts
    → map (λ t. exists (λ f. sum_eq f t) (map (λ i. i.sum) (rows (is_selected sums) xs))) ts
      ≡ map (λ t. exists (is_live t) xs) ts
answers sums [] xs h = refl
answers sums (t ∷ ts) xs (ht, h) =
    rw
      (
        exists-rows (is_selected sums) t xs,
        exists_cong _ (is_live t) xs (λ i. selected_live sums t i ht),
        answers sums ts xs h,
      )
      refl

-- Where the sums in the index rows are 32 bytes, the answer for each chunk, in the order of the request, is
-- whether there is a block with its sum that no vacuum has marked for deletion.
pub chunks_exist_lem :
    (sums : List Sum) (db : Db)
    → All HasSum db.indexes
    → chunks_exist sums db ≡ ok (map (λ t. exists (is_live t) db.indexes) sums)
unfolding chunks_exist
chunks_exist_lem [] db h = refl
chunks_exist_lem (s ∷ ss) db h =
    rw (scan_sums-rows (is_selected (s ∷ ss)) db.indexes h)
      (ap (λ (l : List Bool). ok l) (answers (s ∷ ss) (s ∷ ss) db.indexes (each-IsAsked (s ∷ ss))))
