-- ===== src/Table/Sort/Pages.antt =====
-- Sorted tables whose keys differ, and the rows behind a row of them.
use jotfs.Prelude.{
  ℕ, ◌<◌, ◌≡◌, ◌≢◌, refl, arith, Bool, true, false, Bool-cases, inl, inr, List, [], ◌∷◌, ◌++◌, ltb,
  All, if◌then◌else◌,
}
use jotfs.Table.{rows}
use jotfs.Table.Laws.{All-rows}
use jotfs.Table.Sort.{insert, ascending}

module _ {A : Type 0} (key : A → ℕ) where
  abbrev pub Distinct : List A → Type 0
  Distinct [] = Unit
  Distinct (x ∷ xs) = All (λ y. key x ≢ key y) xs × Distinct xs

  abbrev pub Ascending : List A → Type 0
  Ascending [] = Unit
  Ascending (x ∷ xs) = All (λ y. key x < key y) xs × Ascending xs

  All-insert : (P : A → Type 0) (x : A) (ys : List A) → P x → All P ys → All P (insert key x ys)
  unfolding insert
  All-insert P x [] px h = (px, tt)
  All-insert P x (y ∷ ys) px (py, h) = elim (Bool-cases (ltb (key y) (key x))) [
    | inl e ↦ rw e (py, All-insert P x ys px h)
    | inr e ↦ rw e (px, (py, h))
  ]

  All-ascending : (P : A → Type 0) (xs : List A) → All P xs → All P (ascending key xs)
  unfolding ascending
  All-ascending P [] h = tt
  All-ascending P (x ∷ xs) (px, h) = All-insert P x (ascending key xs) px (All-ascending P xs h)

  All-below :
      (x y : A) (ys : List A)
      → key x < key y
      → All (λ z. key y < key z) ys
      → All (λ z. key x < key z) ys
  All-below x y [] l h = tt
  All-below x y (z ∷ ys) l (hz, h) = (omega arith, All-below x y ys l h)

  insert-Ascending :
      (x : A) (ys : List A)
      → All (λ y. key x ≢ key y) ys
      → Ascending ys
      → Ascending (insert key x ys)
  unfolding insert
  insert-Ascending x [] d h = (tt, tt)
  insert-Ascending x (y ∷ ys) (dy, d) (hy, h) = elim (Bool-cases (ltb (key y) (key x))) [
    | inl e ↦
        rw e (All-insert (λ z. key y < key z) x ys (ground arith) hy, insert-Ascending x ys d h)
    | inr e ↦ rw e ((before e, All-below x y ys (before e) hy), (hy, h))
  ]
    where
      before : ltb (key y) (key x) ≡ false → key x < key y
      before e = grind (arith, dy)

  pub ascending-Ascending : (xs : List A) → Distinct xs → Ascending (ascending key xs)
  unfolding ascending
  ascending-Ascending [] d = tt
  ascending-Ascending (x ∷ xs) (dx, d) =
      insert-Ascending x (ascending key xs) (All-ascending _ xs dx) (ascending-Ascending xs d)

  insert_front : (x : A) (ys : List A) → All (λ y. key x < key y) ys → insert key x ys ≡ x ∷ ys
  unfolding insert
  insert_front x [] h = refl
  insert_front x (y ∷ ys) (hy, h) = rw not_before refl
    where
      not_before : ltb (key y) (key x) ≡ false
      not_before = ground arith

  pub rows-Ascending : (q : A → Bool) (xs : List A) → Ascending xs → Ascending (rows q xs)
  unfolding rows
  rows-Ascending q [] h = tt
  rows-Ascending q (x ∷ xs) (hx, h) = elim (Bool-cases (q x)) [
    | inl e ↦ rw e (All-rows _ q xs hx, rows-Ascending q xs h)
    | inr e ↦ rw e (rows-Ascending q xs h)
  ]

  rows-insert :
      (q : A → Bool) (x : A) (ys : List A)
      → All (λ y. key x ≢ key y) ys
      → Ascending ys
      → rows q (insert key x ys) ≡ (if q x then insert key x (rows q ys) else rows q ys)
  unfolding rows insert
  rows-insert q x [] d h = refl
  rows-insert q x (y ∷ ys) (dy, d) (hy, h) = elim (Bool-cases (ltb (key y) (key x))) [
    | inl e ↦ rw (e, rows-insert q x ys d h) (behind e (q x) (q y))
    | inr e ↦
        rw
          (
            e,
            insert_front x (rows q (y ∷ ys))
                (All-rows _ q (y ∷ ys) (before e, All-below x y ys (before e) hy)),
          )
          refl
  ]
    where
      before : ltb (key y) (key x) ≡ false → key x < key y
      before e = grind (arith, dy)

      behind :
          ltb (key y) (key x) ≡ true
          → (bx by : Bool)
          → (if by
              then y ∷ (if bx then insert key x (rows q ys) else rows q ys)
              else (if bx then insert key x (rows q ys) else rows q ys))
            ≡ (if bx
                then insert key x (if by then y ∷ rows q ys else rows q ys)
                else (if by then y ∷ rows q ys else rows q ys))
      behind e true true = rw e refl
      behind e true false = refl
      behind e false true = refl
      behind e false false = refl

  -- Selecting and sorting can change places.
  pub ascending-rows :
      (q : A → Bool) (xs : List A)
      → Distinct xs
      → ascending key (rows q xs) ≡ rows q (ascending key xs)
  unfolding ascending rows
  ascending-rows q [] d = refl
  ascending-rows q (x ∷ xs) (dx, d) =
      rw
        (
          rows-insert q x (ascending key xs) (All-ascending _ xs dx) (ascending-Ascending xs d),
          ← ascending-rows q xs d,
        )
        (selected (q x))
    where
      selected :
          (b : Bool)
          → ascending key (if b then x ∷ rows q xs else rows q xs)
            ≡ (if b then insert key x (ascending key (rows q xs)) else ascending key (rows q xs))
      selected true = refl
      selected false = refl

  behind_none :
      (r : A) (xs : List A) → All (λ x. key r < key x) xs → rows (λ x. ltb (key r) (key x)) xs ≡ xs
  unfolding rows
  behind_none r [] h = refl
  behind_none r (x ∷ xs) (hx, h) = rw (behind_none r xs h) (ground arith)

  -- The rows with a greater key than one of them are those behind it.
  pub rows_behind :
      (front : List A) (r : A) (tail : List A)
      → Ascending (front ++ (r ∷ tail))
      → rows (λ x. ltb (key r) (key x)) (front ++ (r ∷ tail)) ≡ tail
  unfolding rows
  rows_behind [] r tail (hr, h) = rw (behind_none r tail hr) (ground arith)
  rows_behind (x ∷ front) r tail (hx, h) =
      rw (rows_behind front r tail h) (rw (not_behind front hx) refl)
    where
      not_behind :
          (front : List A)
          → All (λ y. key x < key y) (front ++ (r ∷ tail))
          → ltb (key r) (key x) ≡ false
      not_behind [] (hr, _) = ground arith
      not_behind (y ∷ front) (_, h') = not_behind front h'
