-- ===== src/Table.antt =====
-- Tables as lists of rows in the order of their row ids, and the tests of SQL statements on them.
pub mod Laws
pub mod Sort
pub mod Keys
pub mod Removed
use jotfs.Prelude.{
  ℕ, zero, suc, ◌+◌, max, Bool, true, false, not, ◌||◌, Option, none, some, List, [], ◌∷◌,
  if◌then◌else◌,
}

module _ {A : Type 0} where
  -- SELECT … WHERE p
  unfoldable pub rows : (A → Bool) → List A → List A
  rows p [] = []
  rows p (x ∷ xs) = let rest = rows p xs in if p x then x ∷ rest else rest

  -- The first row of such a result
  unfoldable pub first : (A → Bool) → List A → Option A
  first p [] = none
  first p (x ∷ xs) = if p x then some x else first p xs

  unfoldable pub exists : (A → Bool) → List A → Bool
  exists p [] = false
  exists p (x ∷ xs) = p x || exists p xs

  -- SELECT count(*) … WHERE p
  unfoldable pub count : (A → Bool) → List A → ℕ
  count p [] = 0
  count p (x ∷ xs) = (if p x then 1 else 0) + count p xs

  -- UPDATE … SET f WHERE p
  unfoldable pub update_rows : (A → Bool) → (A → A) → List A → List A
  update_rows p f [] = []
  update_rows p f (x ∷ xs) = (if p x then f x else x) ∷ update_rows p f xs

  -- DELETE … WHERE p
  unfoldable pub delete_rows : (A → Bool) → List A → List A
  delete_rows p [] = []
  delete_rows p (x ∷ xs) = let rest = delete_rows p xs in if p x then rest else x ∷ rest

  unfoldable pub max_id : (A → ℕ) → List A → ℕ
  max_id id [] = 0
  max_id id (x ∷ xs) = max (id x) (max_id id xs)

  -- The row id that SQLite gives a new row of an INTEGER PRIMARY KEY table
  unfoldable pub next_id : (A → ℕ) → List A → ℕ
  next_id id xs = suc (max_id id xs)
