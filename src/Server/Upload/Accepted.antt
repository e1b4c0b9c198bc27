-- ===== src/Server/Upload/Accepted.antt =====
-- What a packfile upload that is accepted did.
use jotfs.Prelude.{
  ℕ, ◌≡◌, ◌<◌, ◌≤◌, refl, sym, ap, ◌∙◌, arith, Bool, Bool-cases, inl, inr, [], ◌∷◌, length, ltb,
  ◌==◌,
}
use jotfs.Errors.{Error, Result, ok, err, map_err, panic}
use jotfs.Step.{lift}
use jotfs.Step.Returns.{lift-ok, fail-ne-ok, bind-ok}
use jotfs.Bytes.{Bytes}
use jotfs.Sum.{Sum, Hash, compute, sum_eq, eq_of_sum_eq}
use jotfs.Sum.Base64.{from_base64}
use jotfs.Compress.{Zstd}
use jotfs.Object.PackIndex.{PackIndex, marshal_binary}
use jotfs.Object.Packfile.Load.{load_pack_index}
use jotfs.Object.Packfile.Whole.{load_pack_index-whole}
use jotfs.Db.Packs.{insert_pack_index}
use jotfs.Server.World.{Store, Config, World, on_db, pack_key, index_key}
use jotfs.Server.World.Returns.{with_err-ok, on_store-ok, on_db-ok, attempt-undo-ok}
use jotfs.Server.Upload.{
  Upload, contents, check_upload, match_sum, check_index, cancel_put, finish_put, put_index,
  insert_index, save_packfile, upload,
}

map_err-ok : {A : Type 0} (f : Error → Error) (r : Result A) {a : A} → map_err f r ≡ ok a → r ≡ ok a
map_err-ok f (ok x) e = e
map_err-ok f (err x) e = absurd (cc e)

check_upload-ok :
    (cfg : Config) (req : Upload) (sum : Sum)
    → check_upload cfg req ≡ ok sum
    → (0 < req.content_length)
      × (req.content_length ≤ cfg.max_packfile_size)
      × (from_base64 req.checksum ≡ ok sum)
unfolding check_upload
check_upload-ok cfg req sum e = elim (Bool-cases (req.content_length == 0)) [
  | inl b1 ↦ absurd (cc (rw b1 at e))
  | inr b1 ↦ elim (Bool-cases (ltb cfg.max_packfile_size req.content_length)) [
    | inl b2 ↦ absurd (cc (rw (b1, b2) at e))
    | inr b2 ↦ elim (Bool-cases (length req.checksum == 0)) [
      | inl b3 ↦ absurd (cc (rw (b1, b2, b3) at e))
      | inr b3 ↦ (
        ground arith,
        ground arith,
        map_err-ok _ (from_base64 req.checksum) (rw (b1, b2, b3) at e),
      )
    ]
  ]
]

check_index-ok :
    (sum : Sum) (r : Result PackIndex) (index : PackIndex)
    → check_index sum r ≡ ok index
    → (r ≡ ok index) × (index.sum ≡ sum)
unfolding check_index match_sum
check_index-ok sum (ok x) index e = elim (Bool-cases (sum_eq x.sum sum)) [
  | inl b ↦
      let same : ok x ≡ ok index = rw b at e in
      let back : index ≡ x = cc same in
      (same, ap (λ (i : PackIndex). i.sum) back ∙ eq_of_sum_eq x.sum sum b)
  | inr b ↦ absurd (cc (rw b at e))
]
check_index-ok sum (err panic) index e = absurd (cc e)
check_index-ok sum (err x) index e = absurd (cc e)

module _ (st : Store) where
  put_index-ok :
      (sum : Sum) (index : PackIndex) (w w' : World st)
      → put_index st sum index w ≡ (ok tt, w')
      → (st.put (index_key sum) (marshal_binary index) w.objects ≡ (ok tt, w'.objects))
        × (w'.db ≡ w.db)
  unfolding put_index
  put_index-ok sum index w w' e =
      on_store-ok st _ w w' (attempt-undo-ok st _ _ (pack_key sum ∷ []) w w' e)

  insert_index-ok :
      (now : ℕ) (sum : Sum) (index : PackIndex) (w w' : World st)
      → insert_index st now sum index w ≡ (ok tt, w')
      → (insert_pack_index index now w.db ≡ (ok tt, w'.db)) × (w'.objects ≡ w.objects)
  unfolding insert_index
  insert_index-ok now sum index w w' e = on_db-ok st _ w w' (
      attempt-undo-ok st (on_db st (insert_pack_index index now)) _
        (pack_key sum ∷ index_key sum ∷ []) w w' e)

  -- The two objects and the index, under the checksum `sum`
  record Saved (now : ℕ) (sum : Sum) (packfile : Bytes) (index : PackIndex) (w w' : World st)
      : Type 0 where
    objects : st.Objects
    put_pack : st.put (pack_key sum) packfile w.objects ≡ (ok tt, objects)
    put_index : st.put (index_key sum) (marshal_binary index) objects ≡ (ok tt, w'.objects)
    inserted : insert_pack_index index now w.db ≡ (ok tt, w'.db)

  save_packfile-ok :
      (early : Bool) (now : ℕ) (sum : Sum) (packfile : Bytes) (r : Result PackIndex)
      (w w' : World st)
      → save_packfile st early now sum packfile r w ≡ (ok tt, w')
      → (index : PackIndex) × (r ≡ ok index) × Saved now sum packfile index w w'
  unfolding save_packfile finish_put
  save_packfile-ok early now sum packfile (err x) w w' e =
      let (u, t, p, q) = bind-ok (cancel_put st (pack_key sum) packfile) _ w w' e in
      absurd (fail-ne-ok x t w' q)
  save_packfile-ok early now sum packfile (ok index) w w' e =
      let (u1, t1, p1, q1) = bind-ok (finish_put st early (pack_key sum) packfile) _ w w' e in
      let (u2, t2, p2, q2) = bind-ok (put_index st sum index) _ t1 w' q1 in
      let (put1, db1) = on_store-ok st _ w t1 (with_err-ok st _ _ w t1 p1) in
      let (put2, db2) = put_index-ok sum index t1 t2 p2 in
      let (inserted, objects3) = insert_index-ok now sum index t2 w' q2 in
      (
        index,
        refl,
        record {
          objects = t1.objects;
          put_pack = put1;
          put_index = cc (put2, objects3);
          inserted = cc (inserted, db1, db2);
        },
      )

  -- Where a packfile upload is accepted, its length is within the limit, the header holds the checksum
  -- of the packfile, which `LoadPackIndex` accepts, and what was done is that the packfile and its
  -- index were put to the store under this checksum and the index was inserted into the database, each
  -- without an error.
  pub upload-accepted :
      (cfg : Config) (z : Zstd) (h : Hash) (early : Bool) (now : ℕ) (req : Upload) (w w' : World st)
      → upload st cfg z h early now req w ≡ (ok tt, w')
      → (0 < req.content_length)
        × (req.content_length ≤ cfg.max_packfile_size)
        × (from_base64 req.checksum ≡ ok (compute h (contents req)))
        × (index : PackIndex) × (load_pack_index z h (contents req) ≡ ok index)
        × (objects : st.Objects) × (st.put (pack_key index.sum) (contents req) w.objects
            ≡ (ok tt, objects))
        × (st.put (index_key index.sum) (marshal_binary index) objects ≡ (ok tt, w'.objects))
        × (insert_pack_index index now w.db ≡ (ok tt, w'.db))
  unfolding upload
  upload-accepted cfg z h early now req w w' e =
      let (sum, t, checked, saved) = bind-ok (lift (check_upload cfg req)) _ w w' e in
      let (sum_ok, same) = lift-ok (check_upload cfg req) w t checked in
      let (some_length, within, header) = check_upload-ok cfg req sum sum_ok in
      let (index, matched, k) = save_packfile-ok early now sum (contents req) _ w w' (
        ap
          (save_packfile st early now sum (contents req)
            (check_index sum (load_pack_index z h (contents req))))
          same
        ∙ saved) in
      let (loaded, sum_eq) =
        check_index-ok sum (load_pack_index z h (contents req)) index matched in
      let whole = (load_pack_index-whole z h (contents req) index loaded).0 in
      (
        some_length,
        within,
        header ∙ ap (λ (s : Sum). ok s) (sym sum_eq ∙ whole),
        index,
        loaded,
        k.objects,
        ap (λ s. st.put (pack_key s) (contents req) w.objects) sum_eq ∙ k.put_pack,
        ap (λ s. st.put (index_key s) (marshal_binary index) k.objects) sum_eq ∙ k.put_index,
        k.inserted,
      )
