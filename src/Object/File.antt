-- ===== src/Object/File.antt =====
-- internal/object/file.go
pub mod Codec
use jotfs.Prelude.{
  ℕ, zero, suc, ◌+◌, ◌%◌, ◌^◌, ◌≤◌, Bool, true, false, List, [], ◌∷◌, ◌++◌, length, All,
}
use jotfs.Prelude.{ltb, ◌==◌, if◌then◌else◌}
use jotfs.Errors.{Error, Result, ok, err, message, formatted, map_err}
use jotfs.Bytes.{Bytes, IsU64, uint64_binary}
use jotfs.Step.{continue, ◌>>=◌, pure, fail}
use jotfs.Reader.{Reader, read, read_uint8, get_binary_uint64}
use jotfs.Sum.{Sum, IsSum}
use jotfs.Sum

abbrev pub max_chunks : ℕ
max_chunks = 1_000_000

abbrev pub max_name_size : ℕ
max_name_size = 32_768

pub record Chunk : Type 0 where
  pub sequence : ℕ
  pub size : ℕ
  pub sum : Sum

-- `created_at` is the pattern of the time's `UnixNano`: the number itself from 1970 on.
pub record File : Type 0 where
  pub name : Bytes
  pub created_at : ℕ
  pub chunks : List Chunk
  pub versioned : Bool

abbrev pub zero_chunk : Chunk
zero_chunk = record { sequence = 0; size = 0; sum = Sum.zero_sum }

-- `(Chunk).marshalBinary`
unfoldable pub marshal_chunk : Chunk → Bytes → Bytes
marshal_chunk c b = b ++ (uint64_binary c.sequence ++ (uint64_binary c.size ++ c.sum))

-- The loop of `MarshalBinary`: each chunk is written to an empty buffer, which is appended.
unfoldable pub marshal_chunks : List Chunk → Bytes → Bytes
marshal_chunks [] b = b
marshal_chunks (c ∷ cs) b = marshal_chunks cs (b ++ marshal_chunk c [])

abbrev pub version_tag : Bool → ℕ
version_tag v = if v then 1 else 0

-- `(*File).MarshalBinary`
unfoldable pub marshal_binary : File → Bytes
marshal_binary f = marshal_chunks f.chunks (
    uint64_binary (length f.name)
    ++ (f.name
        ++ (uint64_binary f.created_at
            ++ (version_tag f.versioned ∷ uint64_binary (length f.chunks)))))

-- `(*Chunk).unmarshalBinary`: the chunk that it sets, if it returns no error.
unfoldable pub unmarshal_chunk : Reader Chunk
unfolding ◌>>=◌
unmarshal_chunk = do
  seq ← get_binary_uint64
  csize ← get_binary_uint64
  s ← read Sum.size
  pure (record { sequence = seq; size = csize; sum = s })

-- `c.unmarshalBinary(r)` with its error dropped
abbrev pub or_zero : Result Chunk → Chunk
or_zero (ok c) = c
or_zero (err e) = zero_chunk

unfoldable pub unmarshal_chunks : ℕ → Bytes → List Chunk
unmarshal_chunks zero bs = []
unmarshal_chunks (suc n) bs =
    let (r, rest) = unmarshal_chunk bs in or_zero r ∷ unmarshal_chunks n rest

-- The name, after its size
unfoldable pub unmarshal_name : ℕ → Reader Bytes
unfolding fail
unmarshal_name n =
    if ltb max_name_size n then fail (message "file name length exceeds maximum") else read n

-- `binary.Read` of the versioning tag, its error formatted
unfoldable pub read_tag : Reader ℕ
read_tag bs =
    let (r, rest) = read_uint8 bs in (map_err (formatted "decoding versioning tag") r, rest)

unfoldable pub parse_tag : ℕ → Reader Bool
unfolding pure fail
parse_tag t =
    if t == 1
    then pure true
    else if t == 0
    then pure false
    else fail (message "invalid versioning tag")

-- What stands before the chunks: the file without them, and their number.
unfoldable pub unmarshal_head : Reader (File × ℕ)
unfolding ◌>>=◌
unmarshal_head = do
  name_size ← get_binary_uint64
  fname ← unmarshal_name name_size
  created ← get_binary_uint64
  t ← read_tag
  v ← parse_tag t
  n ← get_binary_uint64
  pure (record { name = fname; created_at = created; chunks = []; versioned = v }, n)

unfoldable pub unmarshal_body : Result (File × ℕ) → Bytes → Result File
unmarshal_body (err e) bs = err e
unmarshal_body (ok (f, n)) bs =
    if ltb max_chunks n
    then err (message "number of chunks exceeds maximum")
    else ok (record f { chunks = unmarshal_chunks n bs })

-- `(*File).UnmarshalBinary`: the file that it sets; on an error the receiver is unchanged.
unfoldable pub unmarshal_binary : Bytes → Result File
unmarshal_binary bs = let (head, rest) = unmarshal_head bs in unmarshal_body head rest

-- `(File).Size`, a sum of uint64s that wraps
sum_sizes : ℕ → List Chunk → ℕ
sum_sizes total [] = total
sum_sizes total (c ∷ cs) = sum_sizes ((total + c.size) % 2 ^ 64) cs

unfoldable pub file_size : File → ℕ
unfolding sum_sizes
file_size f = sum_sizes 0 f.chunks

pub record IsChunk (c : Chunk) : Type 0 where
  pub sequence_fits : IsU64 c.sequence
  pub size_fits : IsU64 c.size
  pub sum_size : IsSum c.sum

-- A file that the format can hold.
pub record IsFile (f : File) : Type 0 where
  pub name_size : length f.name ≤ max_name_size
  pub created_at_fits : IsU64 f.created_at
  pub chunk_count : length f.chunks ≤ max_chunks
  pub each_chunk : All IsChunk f.chunks
