-- ===== src/Object/PackIndex/Codec.antt =====
-- Writing a pack index and reading it back.
use jotfs.Prelude.{
  ℕ, ◌≡◌, refl, ap, sym, ◌∙◌, arith, List, [], ◌∷◌, ◌++◌, append_assoc, length, All,
}
use jotfs.Errors.{ok}
use jotfs.Bytes.{Bytes, IsU64, uint64_binary, le_value}
use jotfs.Reader.Laws.{read_front, get_binary_uint64_front}
use jotfs.Compress.{as_uint8, from_uint8, from_uint8-as_uint8}
use jotfs.Sum.{Sum, IsSum, size}
use native.Mathlib.Nat.{add-zero}
use jotfs.Object.PackIndex.{
  BlockInfo, PackIndex, IsBlock, IsIndex, marshal_block, marshal_blocks, marshal_binary,
  unmarshal_block, unmarshal_blocks, unmarshal_head, unmarshal_body, unmarshal_binary,
}

marshal_block-append :
    (b : BlockInfo) (buf rest : Bytes)
    → marshal_block b buf ++ rest ≡ buf ++ (marshal_block b [] ++ rest)
unfolding marshal_block
marshal_block-append b buf rest = simp append_assoc

mode_of_byte : (b : BlockInfo) → from_uint8 (le_value (as_uint8 b.mode ∷ [])) ≡ ok b.mode
unfolding le_value
mode_of_byte b = rw (add-zero) (from_uint8-as_uint8 b.mode)

unmarshal_block-marshal_block :
    (b : BlockInfo) (rest : Bytes)
    → IsBlock b
    → unmarshal_block (marshal_block b [] ++ rest) ≡ (ok b, rest)
unfolding marshal_block unmarshal_block
unmarshal_block-marshal_block b rest h = simp append_assoc (
    rw (
      read_front size b.sum _ h.sum_size (omega arith),
      get_binary_uint64_front b.chunk_size _ h.chunk_size_fits,
      get_binary_uint64_front b.sequence _ h.sequence_fits,
      get_binary_uint64_front b.offset _ h.offset_fits,
      get_binary_uint64_front b.size _ h.size_fits,
      read_front 1 (as_uint8 b.mode ∷ []) rest refl (omega arith),
      mode_of_byte b,
    ))

marshal_blocks-append :
    (bs : List BlockInfo) (buf rest : Bytes)
    → marshal_blocks bs buf ++ rest ≡ buf ++ (marshal_blocks bs [] ++ rest)
unfolding marshal_blocks
marshal_blocks-append [] buf rest = refl
marshal_blocks-append (b ∷ bs) buf rest =
    marshal_blocks-append bs (marshal_block b buf) rest
    ∙ marshal_block-append b buf (marshal_blocks bs [] ++ rest)
    ∙ ap (λ (t : Bytes). buf ++ t) (sym (marshal_blocks-append bs (marshal_block b []) rest))

unmarshal_blocks-marshal_blocks :
    (bs : List BlockInfo) (rest : Bytes)
    → All IsBlock bs
    → unmarshal_blocks (length bs) (marshal_blocks bs [] ++ rest) ≡ bs
unfolding marshal_blocks unmarshal_blocks
unmarshal_blocks-marshal_blocks [] rest h = refl
unmarshal_blocks-marshal_blocks (b ∷ bs) rest (hb, h) = rw (
  marshal_blocks-append bs (marshal_block b []) rest,
  unmarshal_block-marshal_block b (marshal_blocks bs [] ++ rest) hb,
  unmarshal_blocks-marshal_blocks bs rest h,
)

unmarshal_head_front :
    (s : Sum) (v n : ℕ) (rest : Bytes)
    → IsSum s
    → IsU64 v
    → IsU64 n
    → unmarshal_head (s ++ (uint64_binary v ++ uint64_binary n) ++ rest) ≡ (ok (s, v, n), rest)
unfolding unmarshal_head
unmarshal_head_front s v n rest hs hv hn = simp append_assoc (
    rw (
      read_front size s _ hs (omega arith),
      get_binary_uint64_front v _ hv,
      get_binary_uint64_front n rest hn,
    ))

-- An index of at most `max_blocks` blocks, whose sums and numbers fit their fields, is read back from
-- what is written, whatever follows it.
pub unmarshal_binary-marshal_binary :
    (p : PackIndex) (rest : Bytes) → IsIndex p → unmarshal_binary (marshal_binary p ++ rest) ≡ ok p
unfolding unmarshal_binary marshal_binary unmarshal_body
unmarshal_binary-marshal_binary p rest h =
    rw
      (
        marshal_blocks-append p.blocks
            (p.sum ++ (uint64_binary p.size ++ uint64_binary (length p.blocks))) rest,
        unmarshal_head_front p.sum p.size (length p.blocks) (marshal_blocks p.blocks [] ++ rest)
            h.sum_size h.size_fits (omega arith),
        unmarshal_blocks-marshal_blocks p.blocks rest h.each_block,
      )
      (ground arith)
