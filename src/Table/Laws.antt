-- ===== src/Table/Laws.antt =====
-- Rows of a table under insertion, update and deletion.
use jotfs.Prelude.{
  ℕ, subst, some, suc, ◌+◌, ◌≤◌, ◌≡◌, refl, arith, Bool, true, false, ◌&&◌, ◌||◌, List, [], ◌∷◌,
  ◌++◌, All, ◌==◌, Bool-cases, inl, inr,
}
use jotfs.Table.{rows, first, exists, count, update_rows, delete_rows, max_id, next_id}

module _ {A : Type 0} where
  pub exists-append :
      (p : A → Bool) (xs ys : List A) → exists p (xs ++ ys) ≡ (exists p xs || exists p ys)
  unfolding exists
  exists-append p [] ys = refl
  exists-append p (x ∷ xs) ys = ground (arith, exists-append p xs ys)

  pub count-append : (p : A → Bool) (xs ys : List A) → count p (xs ++ ys) ≡ count p xs + count p ys
  unfolding count
  count-append p [] ys = omega arith
  count-append p (x ∷ xs) ys = omega (arith, count-append p xs ys)

  pub All-append {κ} : (P : A → Type κ) (xs ys : List A) → All P xs → All P ys → All P (xs ++ ys)
  All-append P [] ys hx hy = hy
  All-append P (x ∷ xs) ys (h, hx) hy = (h, All-append P xs ys hx hy)

  pub All-map {κ μ} :
      (P : A → Type κ) (Q : A → Type μ) (xs : List A) → ((x : A) → P x → Q x) → All P xs → All Q xs
  All-map P Q [] f h = tt
  All-map P Q (x ∷ xs) f (hx, h) = (f x hx, All-map P Q xs f h)

  pub All-every {κ} : (P : A → Type κ) (xs : List A) → ((x : A) → P x) → All P xs
  All-every P [] h = tt
  All-every P (x ∷ xs) h = (h x, All-every P xs h)

  -- What holds of every row still holds of those that stay.
  pub All-delete_rows {κ} :
      (P : A → Type κ) (p : A → Bool) (xs : List A) → All P xs → All P (delete_rows p xs)
  unfolding delete_rows
  All-delete_rows P p [] h = tt
  All-delete_rows P p (x ∷ xs) (hx, h) = elim (Bool-cases (p x)) [
    | inl e ↦ rw e (All-delete_rows P p xs h)
    | inr e ↦ rw e (hx, All-delete_rows P p xs h)
  ]

  pub All-rows {κ} : (P : A → Type κ) (p : A → Bool) (xs : List A) → All P xs → All P (rows p xs)
  unfolding rows
  All-rows P p [] h = tt
  All-rows P p (x ∷ xs) (hx, h) = elim (Bool-cases (p x)) [
    | inl e ↦ rw e (hx, All-rows P p xs h)
    | inr e ↦ rw e (All-rows P p xs h)
  ]

  -- The rows that a deletion leaves are those that the test rejects.
  pub delete_rows-rejects : (p : A → Bool) (xs : List A) → All (λ x. p x ≡ false) (delete_rows p xs)
  unfolding delete_rows
  delete_rows-rejects p [] = tt
  delete_rows-rejects p (x ∷ xs) = elim (Bool-cases (p x)) [
    | inl e ↦ rw e (delete_rows-rejects p xs)
    | inr e ↦ rw e (e, delete_rows-rejects p xs)
  ]

  pub All-update_rows {κ μ} :
      (P : A → Type κ) (Q : A → Type μ) (p : A → Bool) (f : A → A) (xs : List A)
      → ((x : A) → P x → p x ≡ true → Q (f x))
      → ((x : A) → P x → p x ≡ false → Q x)
      → All P xs
      → All Q (update_rows p f xs)
  unfolding update_rows
  All-update_rows P Q p f [] yes' no' h = tt
  All-update_rows P Q p f (x ∷ xs) yes' no' (hx, h) = elim (Bool-cases (p x)) [
    | inl e ↦ rw e (yes' x hx e, All-update_rows P Q p f xs yes' no' h)
    | inr e ↦ rw e (no' x hx e, All-update_rows P Q p f xs yes' no' h)
  ]

  -- An update that keeps a test keeps what it finds.
  pub exists-update_rows :
      (q p : A → Bool) (f : A → A) (xs : List A)
      → ((x : A) → q (f x) ≡ q x)
      → exists q (update_rows p f xs) ≡ exists q xs
  unfolding exists update_rows
  exists-update_rows q p f [] k = refl
  exists-update_rows q p f (x ∷ xs) k = ground (arith, k x, exists-update_rows q p f xs k)

  pub exists-delete_rows :
      (q p : A → Bool) (xs : List A)
      → ((x : A) → p x ≡ true → q x ≡ false)
      → exists q (delete_rows p xs) ≡ exists q xs
  unfolding exists delete_rows
  exists-delete_rows q p [] k = refl
  exists-delete_rows q p (x ∷ xs) k = ground (arith, k x, exists-delete_rows q p xs k)

  pub count-delete_rows :
      (q p : A → Bool) (xs : List A) → count q xs ≡ count q (delete_rows p xs) + count q (rows p xs)
  unfolding count rows delete_rows
  count-delete_rows q p [] = omega arith
  count-delete_rows q p (x ∷ xs) = ground (arith, count-delete_rows q p xs)

  -- No row has the next id.
  id-le-max_id :
      (id : A → ℕ) (k : ℕ) (xs : List A) → exists (λ x. id x == k) xs ≡ true → k ≤ max_id id xs
  unfolding exists max_id
  id-le-max_id id k [] e = ground arith
  id-le-max_id id k (x ∷ xs) e = ground (arith, id-le-max_id id k xs)

  pub exists-next_id : (id : A → ℕ) (xs : List A) → exists (λ x. id x == next_id id xs) xs ≡ false
  unfolding next_id
  exists-next_id id xs = ground (arith, id-le-max_id id (suc (max_id id xs)) xs)

  pub exists-append_old :
      (p : A → Bool) (xs ys : List A) → exists p xs ≡ true → exists p (xs ++ ys) ≡ true
  exists-append_old p xs ys e = rw (exists-append p xs ys, e) refl

  pub exists-append_new :
      (p : A → Bool) (xs : List A) (y : A) → p y ≡ true → exists p (xs ++ (y ∷ [])) ≡ true
  unfolding exists
  exists-append_new p [] y e = ground arith
  exists-append_new p (x ∷ xs) y e = ground (arith, exists-append_new p xs y e)

  -- A row that the deletion keeps out is not what the test found.
  pub exists-delete_rows_disjoint :
      (p q : A → Bool) (xs : List A)
      → exists (λ x. p x && q x) xs ≡ false
      → exists q (delete_rows p xs) ≡ exists q xs
  unfolding exists delete_rows
  exists-delete_rows_disjoint p q [] e = refl
  exists-delete_rows_disjoint p q (x ∷ xs) e = ground (arith, exists-delete_rows_disjoint p q xs)

  pub All-of_exists : (p : A → Bool) (xs : List A) → exists p xs ≡ false → All (λ x. p x ≡ false) xs
  unfolding exists
  All-of_exists p [] e = tt
  All-of_exists p (x ∷ xs) e = (ground arith, All-of_exists p xs (ground arith))

  pub All-both {κ μ} :
      (P : A → Type κ) (Q : A → Type μ) (xs : List A)
      → All P xs
      → All Q xs
      → All (λ x. P x × Q x) xs
  All-both P Q [] h k = tt
  All-both P Q (x ∷ xs) (hx, h) (kx, k) = ((hx, kx), All-both P Q xs h k)

  pub exists_of_All : (p : A → Bool) (xs : List A) → All (λ x. p x ≡ false) xs → exists p xs ≡ false
  unfolding exists
  exists_of_All p [] h = refl
  exists_of_All p (x ∷ xs) (hx, h) = ground (arith, exists_of_All p xs h)

  pub All-of_count : (p : A → Bool) (xs : List A) → count p xs ≡ 0 → All (λ x. p x ≡ false) xs
  unfolding count
  All-of_count p [] e = tt
  All-of_count p (x ∷ xs) e = (ground arith, All-of_count p xs (ground arith))

  -- The first row that a test finds is a row of the table.
  pub exists-first :
      (p q : A → Bool) (xs : List A) (x : A) → first p xs ≡ some x → q x ≡ true → exists q xs ≡ true
  unfolding exists first
  exists-first p q [] x e h = cc
  exists-first p q (y ∷ xs) x e h = ground (arith, exists-first p q xs x)

  -- What holds of every row holds of the first that a test finds.
  pub All-first {κ} :
      (P : A → Type κ) (p : A → Bool) (xs : List A) (x : A) → All P xs → first p xs ≡ some x → P x
  unfolding first
  All-first P p [] x h e = cc
  All-first P p (y ∷ xs) x (hy, h) e = elim (Bool-cases (p y)) [
    | inl b ↦ let e' : some y ≡ some x = rw b at e in subst P (cc) hy
    | inr b ↦ All-first P p xs x h (rw b at e)
  ]
