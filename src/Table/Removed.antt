-- ===== src/Table/Removed.antt =====
-- Tables whose keys differ, after a deletion.
use jotfs.Prelude.{
  ℕ, ◌≡◌, refl, sym, ◌∙◌, ap, arith, Bool, true, false, Bool-cases, inl, inr, none, some, List, [],
  ◌∷◌, ◌++◌, All, ◌==◌, ==_iff,
}
use jotfs.Table.{rows, first, delete_rows, exists}
use jotfs.Table.Laws.{All-delete_rows, All-map, All-append, All-first}
use jotfs.Table.Sort.Pages.{Distinct}

module _ {A : Type 0} where
  -- No row is equal to a later one.
  abbrev pub Unique : (A → A → Bool) → List A → Type 0
  Unique eq [] = Unit
  Unique eq (x ∷ xs) = All (λ y. eq x y ≡ false) xs × Unique eq xs

  pub Unique-delete_rows :
      (eq : A → A → Bool) (p : A → Bool) (xs : List A) → Unique eq xs → Unique eq (delete_rows p xs)
  unfolding delete_rows
  Unique-delete_rows eq p [] d = tt
  Unique-delete_rows eq p (x ∷ xs) (dx, d) = elim (Bool-cases (p x)) [
    | inl e ↦ rw e (Unique-delete_rows eq p xs d)
    | inr e ↦ rw e (All-delete_rows _ p xs dx, Unique-delete_rows eq p xs d)
  ]

  pub Unique-append :
      (eq : A → A → Bool) (xs : List A) (y : A)
      → exists (λ x. eq x y) xs ≡ false
      → Unique eq xs
      → Unique eq (xs ++ (y ∷ []))
  unfolding exists
  Unique-append eq [] y h d = (tt, tt)
  Unique-append eq (x ∷ xs) y h (dx, d) =
      (All-append _ xs (y ∷ []) dx (ground arith, tt), Unique-append eq xs y (ground arith) d)

  pub Distinct-delete_rows :
      (id : A → ℕ) (p : A → Bool) (xs : List A) → Distinct id xs → Distinct id (delete_rows p xs)
  unfolding delete_rows
  Distinct-delete_rows id p [] d = tt
  Distinct-delete_rows id p (x ∷ xs) (dx, d) = elim (Bool-cases (p x)) [
    | inl e ↦ rw e (Distinct-delete_rows id p xs d)
    | inr e ↦ rw e (All-delete_rows _ p xs dx, Distinct-delete_rows id p xs d)
  ]

  -- The row that a test finds is the only one with its id.
  pub first-only_id :
      (id : A → ℕ) (p : A → Bool) (xs : List A) (x : A)
      → Distinct id xs
      → first p xs ≡ some x
      → All (λ y. (id y == id x) ≡ true → y ≡ x) xs
  unfolding first
  first-only_id id p [] x d e = tt
  first-only_id id p (y ∷ xs) x (dy, d) e = elim (Bool-cases (p y)) [
    | inl b ↦
        let same : some y ≡ some x = rw b at e in
        let eq : y ≡ x = cc same in
        (
          λ k. eq,
          All-map _ _ xs (λ z n k. absurd (n (ap id eq ∙ sym ((==_iff (id z) (id x)).0 k)))) dy,
        )
    | inr b ↦
        let later : first p xs ≡ some x = rw b at e in
        (
          λ k. absurd (All-first _ p xs x dy later ((==_iff (id y) (id x)).0 k)),
          first-only_id id p xs x d later,
        )
  ]

  -- The row that a test finds is the only one that it holds of.
  pub first-only :
      (eq : A → A → Bool) (p : A → Bool) (xs : List A) (x : A)
      → ((y z : A) → p y ≡ true → p z ≡ true → eq y z ≡ true)
      → Unique eq xs
      → first p xs ≡ some x
      → All (λ y. p y ≡ true → y ≡ x) xs
  unfolding first
  first-only eq p [] x t d e = tt
  first-only eq p (y ∷ xs) x t (dy, d) e = elim (Bool-cases (p y)) [
    | inl b ↦
        let same : some y ≡ some x = rw b at e in
        let found : y ≡ x = cc same in
        (λ k. found, All-map _ _ xs (λ z n k. absurd (ground (arith, t y z b k))) dy)
    | inr b ↦ (λ k. absurd (ground arith), first-only eq p xs x t d (rw b at e))
  ]

  pub first-exists : (q : A → Bool) (xs : List A) → exists q xs ≡ false → first q xs ≡ none
  unfolding first exists
  first-exists q [] e = refl
  first-exists q (x ∷ xs) e = ground (arith, first-exists q xs)

  pub first-delete_rows :
      (q p : A → Bool) (xs : List A)
      → All (λ x. p x ≡ true → q x ≡ false) xs
      → first q (delete_rows p xs) ≡ first q xs
  unfolding first delete_rows
  first-delete_rows q p [] h = refl
  first-delete_rows q p (x ∷ xs) (hx, h) = ground (arith, hx, first-delete_rows q p xs h)

  pub rows-delete_rows :
      (q p : A → Bool) (xs : List A)
      → ((x : A) → p x ≡ true → q x ≡ false)
      → rows q (delete_rows p xs) ≡ rows q xs
  unfolding rows delete_rows
  rows-delete_rows q p [] k = refl
  rows-delete_rows q p (x ∷ xs) k = ground (arith, k x, rows-delete_rows q p xs k)

  -- A deletion of every row that a test may find
  pub first-delete_rows-none :
      (q p : A → Bool) (xs : List A)
      → All (λ x. q x ≡ true → p x ≡ true) xs
      → first q (delete_rows p xs) ≡ none
  unfolding first delete_rows
  first-delete_rows-none q p [] h = refl
  first-delete_rows-none q p (x ∷ xs) (hx, h) = ground (arith, hx, first-delete_rows-none q p xs h)
