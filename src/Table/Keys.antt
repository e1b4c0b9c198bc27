-- ===== src/Table/Keys.antt =====
-- Tables whose ids differ.
use jotfs.Prelude.{
  ℕ, ◌<◌, ◌≡◌, ◌≢◌, refl, sym, ◌∙◌, ap, subst, arith, Bool, true, false, Bool-cases, inl, inr, some,
  List, [], ◌∷◌, ◌++◌, All, ◌==◌,
}
use jotfs.Table.{rows, first, exists, update_rows, next_id}
use jotfs.Table.Laws.{
  All-map, All-update_rows, All-append, All-of_exists, exists-next_id, All-first,
}
use jotfs.Table.Sort.{insert, ascending}
use jotfs.Table.Sort.Pages.{Distinct, Ascending}

module _ {A : Type 0} where
  -- A new row that no old row comes before is found.
  pub first-append_new :
      (q : A → Bool) (xs : List A) (y : A)
      → exists q xs ≡ false
      → q y ≡ true
      → first q (xs ++ (y ∷ [])) ≡ some y
  unfolding first exists
  first-append_new q [] y e h = rw h refl
  first-append_new q (x ∷ xs) y e h = ground (arith, first-append_new q xs y)

  pub first_holds : (q : A → Bool) (xs : List A) (x : A) → first q xs ≡ some x → q x ≡ true
  unfolding first
  first_holds q [] x e = absurd (cc e)
  first_holds q (y ∷ xs) x e = elim (Bool-cases (q y)) [
    | inl b ↦ let same : some y ≡ some x = rw b at e in subst (λ z. q z ≡ true) (cc same) b
    | inr b ↦ first_holds q xs x (rw b at e)
  ]

  -- An old row is found before new ones.
  pub first-append_old :
      (q : A → Bool) (xs ys : List A) → exists q xs ≡ true → first q (xs ++ ys) ≡ first q xs
  unfolding first exists
  first-append_old q [] ys e = absurd (cc e)
  first-append_old q (x ∷ xs) ys e = ground (arith, first-append_old q xs ys)

  pub first-append_none :
      (q : A → Bool) (xs : List A) (y : A) → q y ≡ false → first q (xs ++ (y ∷ [])) ≡ first q xs
  unfolding first
  first-append_none q [] y h = rw h refl
  first-append_none q (x ∷ xs) y h = ground (arith, first-append_none q xs y h)

  pub rows-append : (q : A → Bool) (xs ys : List A) → rows q (xs ++ ys) ≡ rows q xs ++ rows q ys
  unfolding rows
  rows-append q [] ys = refl
  rows-append q (x ∷ xs) ys = ground (arith, rows-append q xs ys)

  pub rows_none : (q : A → Bool) (xs : List A) → All (λ x. q x ≡ false) xs → rows q xs ≡ []
  unfolding rows
  rows_none q [] h = refl
  rows_none q (x ∷ xs) (hx, h) = ground (arith, rows_none q xs h)

  pub rows-All : (q : A → Bool) (xs : List A) → All (λ x. q x ≡ true) xs → rows q xs ≡ xs
  unfolding rows
  rows-All q [] h = refl
  rows-All q (x ∷ xs) (hx, h) = ground (arith, rows-All q xs h)

  module _ (id : A → ℕ) where
    pub Distinct-update_rows :
        (p : A → Bool) (f : A → A) (xs : List A)
        → ((x : A) → id (f x) ≡ id x)
        → Distinct id xs
        → Distinct id (update_rows p f xs)
    unfolding update_rows
    Distinct-update_rows p f [] same d = tt
    Distinct-update_rows p f (x ∷ xs) same (dx, d) = elim (Bool-cases (p x)) [
      | inl e ↦ rw e (
        All-update_rows _ _ p f xs (λ y h _. (λ k. h (sym (same x) ∙ k ∙ same y)))
            (λ y h _. (λ k. h (sym (same x) ∙ k))) dx,
        Distinct-update_rows p f xs same d,
      )
      | inr e ↦ rw e (
        All-update_rows _ _ p f xs (λ y h _. (λ k. h (k ∙ same y))) (λ y h _. h) dx,
        Distinct-update_rows p f xs same d,
      )
    ]

    differs : (a b : ℕ) → (a == b) ≡ false → a ≢ b
    differs a b e k = ground arith

    pub ne-next_id : (xs : List A) → All (λ x. id x ≢ next_id id xs) xs
    ne-next_id xs =
        All-map _ _ xs (λ x e k. differs (id x) (next_id id xs) e k)
          (All-of_exists (λ x. id x == next_id id xs) xs (exists-next_id id xs))

    Distinct-append :
        (xs : List A) (y : A)
        → All (λ x. id x ≢ id y) xs
        → Distinct id xs
        → Distinct id (xs ++ (y ∷ []))
    Distinct-append [] y h d = (tt, tt)
    Distinct-append (x ∷ xs) y (hx, h) (dx, d) =
        (All-append _ xs (y ∷ []) dx (hx, tt), Distinct-append xs y h d)

    pub Distinct-next_id :
        (xs : List A) (y : A) → id y ≡ next_id id xs → Distinct id xs → Distinct id (xs ++ (y ∷ []))
    Distinct-next_id xs y e d =
        Distinct-append xs y (All-map _ _ xs (λ x k q. k (q ∙ e)) (ne-next_id xs)) d

    -- The row that a test finds is the one with its id.
    pub first-by_id :
        (p : A → Bool) (xs : List A) (x : A)
        → Distinct id xs
        → first p xs ≡ some x
        → first (λ y. id y == id x) xs ≡ some x
    unfolding first
    first-by_id p [] x d e = absurd (cc e)
    first-by_id p (y ∷ xs) x (dy, d) e = elim (Bool-cases (p y)) [
      | inl b ↦
          let same : some y ≡ some x = rw b at e in
          subst (λ z. first (λ w. id w == id z) (y ∷ xs) ≡ some z) (cc same) (itself y xs)
      | inr b ↦
          let later : first p xs ≡ some x = rw b at e in
          rw (other y x (All-first (λ z. id y ≢ id z) p xs x dy later)) (first-by_id p xs x d later)
    ]
      where
        other : (y x : A) → id y ≢ id x → (id y == id x) ≡ false
        other y x h = ground arith

        itself : (y : A) (xs : List A) → first (λ w. id w == id y) (y ∷ xs) ≡ some y
        itself y xs = ground arith

    pub ascending_sorted : (xs : List A) → Ascending id xs → ascending id xs ≡ xs
    unfolding ascending
    ascending_sorted [] h = refl
    ascending_sorted (x ∷ xs) (hx, h) = ap (insert id x) (ascending_sorted xs h) ∙ front xs hx
      where
        front : (ys : List A) → All (λ y. id x < id y) ys → insert id x ys ≡ x ∷ ys
        front [] k = unfold insert in refl
        front (y ∷ ys) (ky, k) = unfold insert in ground arith
