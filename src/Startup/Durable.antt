-- ===== src/Startup/Durable.antt =====
-- cmd/jotfs/main.go: what a start relies on of the objects in the store, and what else happens to them.
use jotfs.Prelude.{◌+◌, ◌++◌, [], ◌∷◌, length, length-append, arith, ◌≡◌, refl, ap, false}
use jotfs.Errors.{Error, ok, err}
use jotfs.Bytes.{Bytes}
use jotfs.Sum.{Sum, IsSum}
use jotfs.Sum.Hex.{as_hex}
use jotfs.Server.World.{Client, Object, file_key, pack_key, index_key}
use jotfs.Startup.{Flags, UintSize}
use jotfs.Startup.Machine.{Json, Machine}
use jotfs.Startup.Params.{chunk_params_key, is_store_not_found, start}

-- What the program relies on of the client: `Holds b k x o` says that the object `k` of the bucket `b`
-- is `x`. It is so after a put or a complete read, until something is done to the same object, and
-- then a read gives nothing else, and does not report that there is no such object. Reads may still
-- fail.
pub record IsDurable {O : Type 0} (cl : Client O) : Type 1 where
  pub Holds : Bytes → Bytes → Bytes → O → Type 0
  pub written : (b k x : Bytes) (o o' : O) → cl.put b k x o ≡ (ok tt, o') → Holds b k x o'
  pub read :
      (b k x : Bytes) (o o' : O) (r : Object)
      → cl.get b k o ≡ (ok r, o')
      → r.contents ≡ ok x
      → Holds b k x o'
  pub same_bytes :
      (b k x bs : Bytes) (o : O) (r : Object)
      → Holds b k x o
      → (cl.get b k o).0 ≡ ok r
      → r.contents ≡ ok bs
      → bs ≡ x
  pub not_missing :
      (b k x : Bytes) (o : O) (e : Error)
      → Holds b k x o
      → (cl.get b k o).0 ≡ err e
      → is_store_not_found e ≡ false
  pub after_get : (b k x b' k' : Bytes) (o : O) → Holds b k x o → Holds b k x (cl.get b' k' o).1
  pub after_put :
      (b k x b' k' y : Bytes) (o : O)
      → Holds b k x o
      → ((b' ≡ b) × (k' ≡ k) → ⊥)
      → Holds b k x (cl.put b' k' y o).1
  pub after_cancelled_put :
      (b k x b' k' y : Bytes) (o : O)
      → Holds b k x o
      → ((b' ≡ b) × (k' ≡ k) → ⊥)
      → Holds b k x (cl.cancelled_put b' k' y o)
  pub after_delete :
      (b k x b' k' : Bytes) (o : O)
      → Holds b k x o
      → ((b' ≡ b) × (k' ≡ k) → ⊥)
      → Holds b k x (cl.delete b' k' o).1

-- An object other than the chunker parameters of `bucket`
abbrev pub IsOther : Bytes → Bytes → Bytes → Type 0
IsOther bucket b k = (b ≡ bucket) × (k ≡ chunk_params_key) → ⊥

-- What happens to the objects while programs run: the object of the chunker parameters in `bucket` is
-- written and deleted by nothing but further starts, whatever their other flags, machine and result.
module _ {O : Type 0} (cl : Client O) (bucket : Bytes) (j : Json) where
  pub data Happens : O → O → Type 0 where
    got : (b k : Bytes) (o : O) → Happens o (cl.get b k o).1
    other_put : (b k x : Bytes) (o : O) → IsOther bucket b k → Happens o (cl.put b k x o).1
    other_cancelled_put :
        (b k x : Bytes) (o : O) → IsOther bucket b k → Happens o (cl.cancelled_put b k x o)
    other_deleted : (b k : Bytes) (o : O) → IsOther bucket b k → Happens o (cl.delete b k o).1
    started :
        (m : Machine O) (w : UintSize) (f : Flags) (o : O)
        → m.new_store f.store ≡ ok cl
        → f.store.bucket ≡ bucket
        → Happens o (start j m w f o).1

  pub data Later : O → O → Type 0 where
    now : {o : O} → Later o o
    after : {o o1 o2 : O} → Happens o o1 → Later o1 o2 → Later o o2

length-as_hex : (s : Sum) → length (as_hex s) ≡ length s + length s
unfolding as_hex
length-as_hex [] = refl
length-as_hex (b ∷ s) = omega (arith, length-as_hex s)

-- The keys of the objects that the server puts and deletes
module _ (bucket b : Bytes) (s : Sum) (h : IsSum s) where
  longer : (ext : Bytes) → as_hex s ++ ext ≡ chunk_params_key → ⊥
  longer ext e =
      let same : length (as_hex s ++ ext) ≡ 11 = ap (λ (k : Bytes). length k) e in
      omega (arith, same, length-append (as_hex s) ext, length-as_hex s, h)

  file_key-IsOther : IsOther bucket b (file_key s)
  file_key-IsOther (x, k) = longer _ k

  pub pack_key-IsOther : IsOther bucket b (pack_key s)
  pack_key-IsOther (x, k) = longer _ k

  index_key-IsOther : IsOther bucket b (index_key s)
  index_key-IsOther (x, k) = longer _ k
