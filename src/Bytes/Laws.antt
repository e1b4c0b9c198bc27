-- ===== src/Bytes/Laws.antt =====
-- Writing a number and reading it back.
use jotfs.Prelude.{ℕ, zero, suc, ◌/◌, ◌^◌, ◌<◌, ◌≡◌, refl, ap, arith}
use jotfs.Prelude.{[], ◌∷◌, length, All}
use jotfs.Bytes.{Bytes, IsByte, IsU64, put_le, le_value, uint64_binary}
use native.Mathlib.Nat.{pow-suc}

length-put_le : (k v : ℕ) → length (put_le k v) ≡ k
unfolding put_le
length-put_le zero v = refl
length-put_le (suc k) v = ap suc (length-put_le k (v / 256))

pub length-uint64_binary : (v : ℕ) → length (uint64_binary v) ≡ 8
unfolding uint64_binary
length-uint64_binary v = length-put_le 8 v

put_le-IsByte : (k v : ℕ) → All IsByte (put_le k v)
unfolding put_le
put_le-IsByte zero v = tt
put_le-IsByte (suc k) v = (omega arith, put_le-IsByte k (v / 256))

pub uint64_binary-IsByte : (v : ℕ) → All IsByte (uint64_binary v)
unfolding uint64_binary
uint64_binary-IsByte v = put_le-IsByte 8 v

-- Whatever the number, what is read back is its remainder.
le_value-put_le : (k v : ℕ) → v < 256 ^ k → le_value (put_le k v) ≡ v
unfolding put_le le_value
le_value-put_le zero v h = omega arith
le_value-put_le (suc k) v h =
    omega (arith, le_value-put_le k (v / 256) (grind (arith, pow-suc 256 k)))

pub le_value-uint64_binary : (v : ℕ) → IsU64 v → le_value (uint64_binary v) ≡ v
unfolding uint64_binary
le_value-uint64_binary v h = le_value-put_le 8 v h

pub le_value-lt : (bs : Bytes) → All IsByte bs → le_value bs < 256 ^ length bs
unfolding le_value
le_value-lt [] h = omega arith
le_value-lt (b ∷ bs) (hb, h) = grind (arith, pow-suc 256 (length bs), le_value-lt bs h)
