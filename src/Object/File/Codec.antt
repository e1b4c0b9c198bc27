-- ===== src/Object/File/Codec.antt =====
-- Writing a file object and reading it back.
use jotfs.Prelude.{
  ℕ, ◌≤◌, ◌<◌, ◌≡◌, refl, ap, sym, ◌∙◌, arith, Bool, true, false, List, [], ◌∷◌, ◌++◌, append_assoc,
  length, length-append, All,
}
use jotfs.Errors.{ok}
use jotfs.Bytes.{Bytes, uint64_binary}
use jotfs.Bytes.Laws.{length-uint64_binary}
use jotfs.Reader.Laws.{read_front, read_within, read_uint8_front, get_binary_uint64_front}
use jotfs.Sum.{IsSum}
use jotfs.Sum
use jotfs.Object.File.{
  Chunk, File, IsChunk, IsFile, version_tag, marshal_chunk, marshal_chunks, marshal_binary,
  max_name_size, unmarshal_chunk, unmarshal_chunks, unmarshal_name, unmarshal_head, unmarshal_body,
  unmarshal_binary, read_tag, parse_tag,
}

unmarshal_chunk-marshal_chunk :
    (c : Chunk) (rest : Bytes)
    → IsChunk c
    → unmarshal_chunk (marshal_chunk c [] ++ rest) ≡ (ok c, rest)
unfolding marshal_chunk unmarshal_chunk
unmarshal_chunk-marshal_chunk c rest h = simp append_assoc (
    rw (
      get_binary_uint64_front c.sequence _ h.sequence_fits,
      get_binary_uint64_front c.size _ h.size_fits,
      read_front Sum.size c.sum rest h.sum_size (omega arith),
    ))

marshal_chunks-append :
    (cs : List Chunk) (b rest : Bytes)
    → marshal_chunks cs b ++ rest ≡ b ++ (marshal_chunks cs [] ++ rest)
unfolding marshal_chunks
marshal_chunks-append [] b rest = refl
marshal_chunks-append (c ∷ cs) b rest =
    marshal_chunks-append cs (b ++ marshal_chunk c []) rest
    ∙ append_assoc b (marshal_chunk c []) (marshal_chunks cs [] ++ rest)
    ∙ ap (λ (t : Bytes). b ++ t) (sym (marshal_chunks-append cs (marshal_chunk c []) rest))

unmarshal_chunks-marshal_chunks :
    (cs : List Chunk) (rest : Bytes)
    → All IsChunk cs
    → unmarshal_chunks (length cs) (marshal_chunks cs [] ++ rest) ≡ cs
unfolding marshal_chunks unmarshal_chunks
unmarshal_chunks-marshal_chunks [] rest h = refl
unmarshal_chunks-marshal_chunks (c ∷ cs) rest (hc, h) = rw (
  marshal_chunks-append cs (marshal_chunk c []) rest,
  unmarshal_chunk-marshal_chunk c (marshal_chunks cs [] ++ rest) hc,
  unmarshal_chunks-marshal_chunks cs rest h,
)

read_tag_front :
    (v : Bool) (rest : Bytes) → read_tag (version_tag v ∷ rest) ≡ (ok (version_tag v), rest)
unfolding read_tag
read_tag_front v rest = rw (read_uint8_front (version_tag v) rest)

parse_tag-version_tag : (v : Bool) (rest : Bytes) → parse_tag (version_tag v) rest ≡ (ok v, rest)
unfolding parse_tag
parse_tag-version_tag true rest = refl
parse_tag-version_tag false rest = refl

before_uint64 : (v : ℕ) (rest : Bytes) → 0 < length (uint64_binary v ++ rest)
before_uint64 v rest = rw length-append (omega (arith, length-uint64_binary v))

-- A number follows the name, so a read of an empty name does not meet the end.
unmarshal_name_front :
    (xs : Bytes) (v : ℕ) (rest : Bytes)
    → length xs ≤ max_name_size
    → unmarshal_name (length xs) (xs ++ (uint64_binary v ++ rest))
      ≡ (ok xs, uint64_binary v ++ rest)
unfolding unmarshal_name
unmarshal_name_front xs v rest h =
    ground (arith, read_within (length xs) xs (uint64_binary v ++ rest) refl (before_uint64 v rest))

-- What precedes the chunks, as it is written
abbrev head_bytes : File → Bytes
head_bytes f =
    uint64_binary (length f.name)
    ++ (f.name
        ++ (uint64_binary f.created_at
            ++ (version_tag f.versioned ∷ uint64_binary (length f.chunks))))

unmarshal_head_front :
    (f : File) (rest : Bytes)
    → IsFile f
    → unmarshal_head (head_bytes f ++ rest) ≡ (ok (record f { chunks = [] }, length f.chunks), rest)
unfolding unmarshal_head
unmarshal_head_front f rest h = simp append_assoc (
    rw (
      get_binary_uint64_front (length f.name) _ (omega (arith, h.name_size)),
      unmarshal_name_front f.name f.created_at _ h.name_size,
      get_binary_uint64_front f.created_at _ h.created_at_fits,
      read_tag_front f.versioned _,
      parse_tag-version_tag f.versioned _,
      get_binary_uint64_front (length f.chunks) rest (omega (arith, h.chunk_count)),
    ))

-- A file whose name, chunks and numbers are within the format's limits is read back from what is
-- written, whatever follows it.
pub unmarshal_binary-marshal_binary_file :
    (f : File) (rest : Bytes) → IsFile f → unmarshal_binary (marshal_binary f ++ rest) ≡ ok f
unfolding unmarshal_binary marshal_binary unmarshal_body
unmarshal_binary-marshal_binary_file f rest h =
    rw
      (
        marshal_chunks-append f.chunks (head_bytes f) rest,
        unmarshal_head_front f (marshal_chunks f.chunks [] ++ rest) h,
        unmarshal_chunks-marshal_chunks f.chunks rest h.each_chunk,
      )
      (ground (arith, h.chunk_count))
