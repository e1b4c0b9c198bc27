-- ===== src/Table/Sort.antt =====
-- ORDER BY an integer column, in either direction, and LIMIT.
pub mod Pages
pub mod Mapped
use jotfs.Prelude.{ℕ, List, [], ◌∷◌, ltb, if◌then◌else◌}

module _ {A : Type 0} (key : A → ℕ) where
  unfoldable pub insert : A → List A → List A
  insert x [] = x ∷ []
  insert x (y ∷ ys) = let rest = insert x ys in if ltb (key y) (key x) then y ∷ rest else x ∷ y ∷ ys

  -- ORDER BY key ASC
  unfoldable pub ascending : List A → List A
  unfolding insert
  ascending [] = []
  ascending (x ∷ xs) = insert x (ascending xs)

  unfoldable pub insert_down : A → List A → List A
  insert_down x [] = x ∷ []
  insert_down x (y ∷ ys) =
      let rest = insert_down x ys in if ltb (key x) (key y) then y ∷ rest else x ∷ y ∷ ys

  -- ORDER BY key DESC
  unfoldable pub descending : List A → List A
  unfolding insert_down
  descending [] = []
  descending (x ∷ xs) = insert_down x (descending xs)
