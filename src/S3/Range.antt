-- ===== src/S3/Range.antt =====
-- The range of `PresignGetURL`, and a reader of such a range.
use jotfs.Prelude.{
  ℕ, ◌+◌, ◌-◌, ◌*◌, Bool, [], ◌∷◌, leb, ◌==◌, ◌&&◌, Option, none, some, if◌then◌else◌,
}
use jotfs.Bytes.{Bytes}
use jotfs.Startup.{is_empty}

abbrev is_digit : ℕ → Bool
is_digit c = leb 48 c && leb c 57

-- The number behind `a` and the digits that follow, and what comes after them
read_number : ℕ → Bytes → ℕ × Bytes
read_number a [] = (a, [])
read_number a (c ∷ cs) = if is_digit c then read_number (a * 10 + (c - 48)) cs else (a, c ∷ cs)

strip : Bytes → Bytes → Option Bytes
strip [] cs = some cs
strip (p ∷ ps) [] = none
strip (p ∷ ps) (c ∷ cs) = if p == c then strip ps cs else none

whole_range : ℕ → ℕ × Bytes → Option (ℕ × ℕ)
whole_range from (to, rest) = if is_empty rest then some (from, to) else none

range_to : ℕ → Option Bytes → Option (ℕ × ℕ)
range_to from none = none
range_to from (some cs) = whole_range from (read_number 0 cs)

range_from : Option Bytes → Option (ℕ × ℕ)
range_from none = none
range_from (some cs) = let (from, rest) = read_number 0 cs in range_to from (strip (45 ∷ []) rest)

-- The two numbers of "bytes=from-to", by the grammar of HTTP
pub parse_range : Bytes → Option (ℕ × ℕ)
parse_range bs = range_from (strip (98 ∷ 121 ∷ 116 ∷ 101 ∷ 115 ∷ 61 ∷ []) bs)
