-- ===== src/Table/Sort/Mapped.antt =====
-- Sorting commutes with a change of the rows that keeps the key.
use jotfs.Prelude.{ℕ, ◌≡◌, refl, ◌∙◌, ap, Bool-cases, inl, inr, List, [], ◌∷◌, map, ltb}
use jotfs.Table.Sort.{insert, ascending}

module _ {A B : Type 0} (key : B → ℕ) (g : A → B) where
  map-insert :
      (x : A) (ys : List A) → map g (insert (λ a. key (g a)) x ys) ≡ insert key (g x) (map g ys)
  unfolding insert
  map-insert x [] = refl
  map-insert x (y ∷ ys) = elim (Bool-cases (ltb (key (g y)) (key (g x)))) [
    | inl e ↦ rw e (ap (λ t. g y ∷ t) (map-insert x ys))
    | inr e ↦ rw e refl
  ]

  pub map-ascending :
      (xs : List A) → map g (ascending (λ a. key (g a)) xs) ≡ ascending key (map g xs)
  unfolding ascending
  map-ascending [] = refl
  map-ascending (x ∷ xs) =
      map-insert x (ascending (λ a. key (g a)) xs) ∙ ap (insert key (g x)) (map-ascending xs)
