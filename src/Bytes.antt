-- ===== src/Bytes.antt =====
-- Byte slices and unsigned 64-bit numbers: `uint64Binary` of internal/object/packindex.go and the
-- part of encoding/binary that it calls.
pub mod Laws
use jotfs.Prelude.{ℕ, zero, suc, ◌+◌, ◌*◌, ◌/◌, ◌%◌, ◌^◌, ◌<◌, List, [], ◌∷◌}

abbrev pub Bytes : Type 0
Bytes = List ℕ

abbrev pub IsByte : ℕ → Type 0
IsByte b = b < 256

abbrev pub IsU64 : ℕ → Type 0
IsU64 v = v < 2 ^ 64

-- The lowest `k` bytes of `v`, the lowest first.
unfoldable pub put_le : ℕ → ℕ → Bytes
put_le zero v = []
put_le (suc k) v = (v % 256) ∷ put_le k (v / 256)

-- The number that a little-endian slice stands for.
unfoldable pub le_value : Bytes → ℕ
le_value [] = 0
le_value (b ∷ bs) = b + 256 * le_value bs

unfoldable pub uint64_binary : ℕ → Bytes
uint64_binary v = put_le 8 v
