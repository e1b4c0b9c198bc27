-- ===== src/Sum.antt =====
-- internal/sum/sum.go: checksums, and the hash function as a parameter.
pub mod Hex
pub mod Base64
use jotfs.Prelude.{ℕ, ◌+◌, ◌≡◌, Bool, true, false, ◌&&◌, [], ◌∷◌, ◌++◌, length, replicate, ◌==◌}
use jotfs.Prelude.{if◌then◌else◌, arith, refl, Bool-cases, inl, inr, ==_iff}
use jotfs.Errors.{Result, ok, err, message}
use jotfs.Bytes.{Bytes}

-- A `[Size]byte` array: the slices of that length are singled out by `IsSum`.
abbrev pub Sum : Type 0
Sum = Bytes

abbrev pub size : ℕ
size = 32

abbrev pub IsSum : Sum → Type 0
IsSum s = length s ≡ size

-- `var s Sum`
abbrev pub zero_sum : Sum
zero_sum = replicate size 0

-- `==` on two arrays
unfoldable pub sum_eq : Sum → Sum → Bool
sum_eq [] [] = true
sum_eq (a ∷ s) (b ∷ t) = a == b && sum_eq s t
sum_eq _ _ = false

-- `FromBytes`
unfoldable pub from_bytes : Bytes → Result Sum
from_bytes b = if length b == size then ok b else err (message "length must be 32")

-- blake3 is a third-party package: some function into checksums.
pub record Hash : Type 0 where
  pub digest : Bytes → Bytes
  pub digest-IsSum : (b : Bytes) → length (digest b) ≡ 32

-- `Compute`. A `Hash` in use is the bytes that were written to it, and its `Sum` is `compute` of
-- them.
unfoldable pub compute : Hash → Bytes → Sum
compute h b = h.digest b

pub compute-IsSum : (h : Hash) (b : Bytes) → IsSum (compute h b)
unfolding compute
compute-IsSum h b = h.digest-IsSum b

pub from_bytes-ok : (b : Bytes) → IsSum b → from_bytes b ≡ ok b
unfolding from_bytes
from_bytes-ok b h = ground arith

pub from_bytes-IsSum : (b : Bytes) (s : Sum) → from_bytes b ≡ ok s → (b ≡ s) × IsSum b
unfolding from_bytes
from_bytes-IsSum b s e = elim (Bool-cases (length b == size)) [
  | inl k ↦ let same : ok b ≡ ok s = rw k at e in (cc same, (==_iff (length b) size).0 k)
  | inr k ↦ absurd (cc (rw k at e))
]

pub sum_eq_refl : (s : Sum) → sum_eq s s ≡ true
unfolding sum_eq
sum_eq_refl [] = ground arith
sum_eq_refl (a ∷ s) = ground (arith, sum_eq_refl s)

pub eq_of_sum_eq : (s t : Sum) → sum_eq s t ≡ true → s ≡ t
unfolding sum_eq
eq_of_sum_eq [] [] h = ground arith
eq_of_sum_eq [] (b ∷ t) h = ground arith
eq_of_sum_eq (a ∷ s) [] h = ground arith
eq_of_sum_eq (a ∷ s) (b ∷ t) h = ground (arith, eq_of_sum_eq s t)
