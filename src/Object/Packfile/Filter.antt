-- ===== src/Object/Packfile/Filter.antt =====
-- `copyBlock` and `FilterPackfile` of internal/object/packfile.go.
use jotfs.Prelude.{
  ℕ, zero, suc, ◌+◌, ◌%◌, ◌^◌, Bool, [], ◌∷◌, length, take, drop, ltb, leb, ◌==◌, if◌then◌else◌,
}
use jotfs.Errors.{Result, ok, err, eof, out_of_fuel, message, wrapped}
use jotfs.Bytes.{Bytes, uint64_binary}
use jotfs.Step.{Step}
use jotfs.Reader.{read_uint8, get_binary_uint64}
use jotfs.Object.Packfile.{packfile_object, Writer, write}

-- The variables of `FilterPackfile`: what is not read, the counted writer, and `nBlocks`.
pub record Filtering : Type 0 where
  pub rest : Bytes
  pub w : Writer
  pub num_blocks : ℕ

-- A write to the counted writer, or to `ioutil.Discard`
abbrev pub write_if : Bool → Bytes → Writer → Writer
write_if keep p w = if keep then write w p else w

-- `1+sum.Size+int64(size)`, where a negative count copies nothing
unfoldable pub copy_count : ℕ → ℕ
copy_count size = let n = (33 + size) % 2 ^ 64 in if ltb n (2 ^ 63) then n else 0

-- `io.CopyN`: what there is is copied, and `io.EOF` returned if it is less than `n` bytes.
unfoldable pub copy_n : Bool → ℕ → Step Filtering (Unit {0})
copy_n keep n st = (
  if leb n (length st.rest) then ok tt else err eof,
  record st { rest = drop n st.rest; w = write_if keep (take n st.rest) st.w },
)

unfoldable pub copy_sized : Bool → Result ℕ → Step Filtering (Unit {0})
copy_sized keep (err e) st = (err e, st)
copy_sized keep (ok size) st =
    copy_n keep (copy_count size) (record st { w = write_if keep (uint64_binary size) st.w })

-- `copyBlock`
unfoldable pub copy_block : Bool → Step Filtering (Unit {0})
copy_block keep st =
    let (r, rest) = get_binary_uint64 st.rest in copy_sized keep r (record st { rest = rest })

-- The object type is written before the first block that is kept.
unfoldable pub begin_block : Bool → Filtering → Filtering
begin_block keep st =
    if keep
    then record st {
      w = if st.num_blocks == 0 then write st.w (packfile_object ∷ []) else st.w;
      num_blocks = st.num_blocks + 1;
    }
    else st

unfoldable pub after_copy : Step Filtering ℕ → Result (Unit {0}) × Filtering → Result ℕ × Filtering
after_copy next (ok u, st) = next st
after_copy next (err eof, st) = (ok st.w.bytes_written, st)
after_copy next (err e, st) = (err (wrapped "copying block" e), st)

-- The loop of `FilterPackfile`
unfoldable pub filter_loop : (ℕ → Bool) → ℕ → ℕ → Step Filtering ℕ
filter_loop f zero i st = (err out_of_fuel, st)
filter_loop f (suc fuel) i st =
    after_copy (filter_loop f fuel ((i + 1) % 2 ^ 64)) (copy_block (f i) (begin_block (f i) st))

unfoldable pub filter_blocks : (ℕ → Bool) → Result ℕ → Bytes → Result ℕ × Writer
filter_blocks f (err e) rest =
    (err (wrapped "reading object type" e), record { written = []; bytes_written = 0 })
filter_blocks f (ok t) rest =
    let w : Writer = record { written = []; bytes_written = 0 } in
    let (r, st) =
      filter_loop f (suc (length rest)) 0 (record { rest = rest; w = w; num_blocks = 0 }) in
    if t == packfile_object then (r, st.w) else (err (message "expected packfile object"), w)

-- `FilterPackfile`, to an empty writer. A round of the loop reads eight bytes at least, or is the last.
unfoldable pub filter_packfile : (ℕ → Bool) → Bytes → Result ℕ × Writer
filter_packfile f bs = let (t, rest) = read_uint8 bs in filter_blocks f t rest
