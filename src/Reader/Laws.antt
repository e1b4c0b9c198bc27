-- ===== src/Reader/Laws.antt =====
-- Reads of what was appended by the matching write.
use jotfs.Prelude.{ℕ, ◌<◌, ◌≡◌, refl, arith, [], ◌∷◌, ◌++◌, length}
use jotfs.Prelude.{take_front, drop_front, length-append, append-nil}
use jotfs.Errors.{ok}
use jotfs.Bytes.{Bytes, IsU64, le_value, uint64_binary}
use jotfs.Bytes.Laws.{length-uint64_binary, le_value-uint64_binary}
use native.Mathlib.Nat.{sub_self}
use jotfs.Reader.{pad, read, read_full, read_uint8, get_binary_uint64}

pub read_full_front : (n : ℕ) (xs ys : Bytes) → length xs ≡ n → read_full n (xs ++ ys) ≡ (ok xs, ys)
unfolding read_full
read_full_front n xs ys h =
    rw (← h) (ground (arith, take_front xs ys, drop_front xs ys, length-append xs ys))

pad_full : (xs : Bytes) → pad (length xs) xs ≡ xs
unfolding pad
pad_full xs = rw (sub_self (length xs), append-nil xs)

pub read_front : (n : ℕ) (xs ys : Bytes) → length xs ≡ n → 0 < n → read n (xs ++ ys) ≡ (ok xs, ys)
unfolding read
read_front n [] ys h p = absurd (omega arith)
read_front n (x ∷ xs) ys h p =
    rw (← h) (cc (take_front (x ∷ xs) ys, drop_front (x ∷ xs) ys, pad_full (x ∷ xs)))

-- A read of nothing fails at the end of the input, so something has to follow.
pub read_within :
    (n : ℕ) (xs ys : Bytes) → length xs ≡ n → 0 < length ys → read n (xs ++ ys) ≡ (ok xs, ys)
read_within n [] [] h p = absurd (omega arith)
read_within n [] (y ∷ ys) h p = rw (← h) (unfold read pad in refl)
read_within n (x ∷ xs) ys h p = read_front n (x ∷ xs) ys h (omega arith)

pub read_uint8_front : (b : ℕ) (ys : Bytes) → read_uint8 (b ∷ ys) ≡ (ok b, ys)
unfolding read_uint8 le_value
read_uint8_front b ys = rw (read_full_front 1 (b ∷ []) ys refl) (ground arith)

pub get_binary_uint64_front :
    (v : ℕ) (ys : Bytes) → IsU64 v → get_binary_uint64 (uint64_binary v ++ ys) ≡ (ok v, ys)
unfolding get_binary_uint64
get_binary_uint64_front v ys h =
    rw (read_full_front 8 (uint64_binary v) ys (length-uint64_binary v))
      (rw (le_value-uint64_binary v h) refl)
