-- ===== src/Reader.antt =====
-- Reads from a byte slice: bytes.Buffer and bytes.Reader under `Read`, io.ReadFull and
-- binary.Read. The state is what has not been read.
pub mod Laws
use jotfs.Prelude.{ℕ, zero, suc, ◌-◌, List, [], ◌∷◌, ◌++◌, length, take, drop, replicate, leb}
use jotfs.Prelude.{if◌then◌else◌}
use jotfs.Errors.{Error, eof, unexpected_eof, Result, ok, err}
use jotfs.Step.{Step, continue, ◌>>=◌, pure}
use jotfs.Bytes.{Bytes, le_value}

abbrev pub Reader : Type 0 → Type 0
Reader A = Step Bytes A

-- A zeroed buffer of `n` bytes, with `got` copied to its front.
unfoldable pub pad : ℕ → Bytes → Bytes
pad n got = got ++ replicate (n - length got) 0

-- `r.Read(buf)` into a zeroed buffer of `n` bytes: a short read is no error, the rest stays zero.
unfoldable pub read : ℕ → Reader Bytes
read n [] = (err eof, [])
read n (b ∷ bs) = (ok (pad n (take n (b ∷ bs))), drop n (b ∷ bs))

short_read : Bytes → Error
short_read [] = eof
short_read (b ∷ bs) = unexpected_eof

-- `io.ReadFull(r, buf)` for a buffer of `n` bytes: all of it, or an error. A failing read takes
-- what was left; it is `io.EOF` only if nothing was left.
unfoldable pub read_full : ℕ → Reader Bytes
unfolding short_read
read_full n bs =
    if leb n (length bs) then (ok (take n bs), drop n bs) else (err (short_read bs), [])

-- `binary.Read` into a uint8 and into a uint64.
unfoldable pub read_uint8 : Reader ℕ
unfolding ◌>>=◌
read_uint8 = do b ← read_full 1; pure (le_value b)

unfoldable pub get_binary_uint64 : Reader ℕ
unfolding ◌>>=◌
get_binary_uint64 = do b ← read_full 8; pure (le_value b)
