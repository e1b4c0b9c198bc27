-- ===== src/Startup/Restart.antt =====
-- cmd/jotfs/main.go: later starts of the program on the same bucket.
use jotfs.Prelude.{◌≡◌, sym, ◌∙◌, ap, subst, Bool, true, false, if◌then◌else◌, Option, none, some}
use jotfs.Errors.{ok, message, formatted, map_err, map_err-ok, result_bind-ok}
use jotfs.Step.{pure, lift, ◌>>=◌}
use jotfs.Step.Returns.{bind-ok, lift-ok, pure-ok}
use jotfs.Bytes.{Bytes}
use jotfs.Db.{Db}
use jotfs.Server.World.{Client}
use jotfs.Startup.{Flags, ChunkerParams, UintSize, Settings, settings, validate, validate_store}
use jotfs.Startup.Machine.{Json, Machine, open_db}
use jotfs.Startup.Params.{chunk_params_key, load_params, connect, set_up, start}
use jotfs.Startup.Durable.{
  IsDurable, Happens, Later, got, other_put, other_cancelled_put, other_deleted, started, now,
  after,
}
use jotfs.Startup.Settled.{
  preserves, Settled, get-Settled, load_params-Settled, load_params-kept, load_params-unchanged,
}

module _ {O : Type 0} (cl : Client O) (bucket : Bytes) (j : Json) (d : IsDurable cl) where
  set_up-ok :
      (w : UintSize) (f : Flags) (o o' : O) (d1 db : Db) (x : Settings)
      → f.store.bucket ≡ bucket
      → set_up j w f (d1, cl) o ≡ (ok (some (db, x)), o')
      → load_params cl bucket j w f.server o ≡ (ok x.params, o')
  unfolding set_up settings
  set_up-ok w f o o' d1 db x same e =
      let (p, o1, loaded, rest) = bind-ok (load_params cl f.store.bucket j w f.server) _ o o' e in
      let (kept, state) = pure-ok (some (d1, settings f p)) (some (db, x)) o1 o' rest in
      let params : p ≡ x.params = λ i. params_of p (kept i) in
      ap (λ b. load_params cl b j w f.server o) (sym same)
      ∙ loaded
      ∙ (λ i. (ok (params i), state i))
    where
      params_of : ChunkerParams → Option (Db × Settings) → ChunkerParams
      params_of q (some (d2, y)) = y.params
      params_of q none = q

  connect-client :
      (m : Machine O) (f : Flags) (d1 : Db) (cl' : Client O)
      → m.new_store f.store ≡ ok cl
      → connect m f ≡ ok (d1, cl')
      → cl' ≡ cl
  unfolding connect
  connect-client m f d1 cl' s e =
      let (u, e1, r1) = result_bind-ok (validate f.server) _ e in
      let (v, e2, r2) = result_bind-ok (validate_store f.store) _ r1 in
      let (db, e3, r3) =
        result_bind-ok (map_err (formatted "database") (open_db m f.server.database)) _ r2 in
      let (c, e4, r4) =
        result_bind-ok (map_err (λ e. message "connecting to store: ") (m.new_store f.store)) _
          r3 in
      let taken : c ≡ cl = cc (map_err-ok _ (m.new_store f.store) c e4, s) in
      let given : c ≡ cl' = cc r4 in sym given ∙ taken

  start-ok :
      (m : Machine O) (w : UintSize) (f : Flags) (o o' : O) (db : Db) (x : Settings)
      → m.new_store f.store ≡ ok cl
      → f.store.bucket ≡ bucket
      → start j m w f o ≡ (ok (some (db, x)), o')
      → load_params cl bucket j w f.server o ≡ (ok x.params, o')
  unfolding start pure
  start-ok m w f o o' db x s same e = go f.version e
    where
      go :
          (b : Bool)
          → (if b then pure none else (lift (connect m f) >>= set_up j w f)) o
            ≡ (ok (some (db, x)), o')
          → load_params cl bucket j w f.server o ≡ (ok x.params, o')
      go true k = absurd (cc k)
      go false k =
          let ((d1, c), o1, e1, rest) = bind-ok (lift (connect m f)) (set_up j w f) o o' k in
          let (connected, state) = lift-ok _ o o1 e1 in
          let client = connect-client m f d1 c s connected in
          set_up-ok w f o o' d1 db x same (
            ap (λ t. set_up j w f (d1, cl) t) state
            ∙ ap (λ t. set_up j w f (d1, t) o1) (sym client)
            ∙ rest)

  start-unchanged :
      (m : Machine O) (w : UintSize) (f : Flags) (p : ChunkerParams) (o : O)
      → m.new_store f.store ≡ ok cl
      → f.store.bucket ≡ bucket
      → Settled cl bucket j d p o
      → Settled cl bucket j d p (start j m w f o).1
  unfolding start set_up pure lift
  start-unchanged m w f p o s same settled = go f.version
    where
      loaded : (d1 : Db) → Settled cl bucket j d p (set_up j w f (d1, cl) o).1
      loaded d1 =
          preserves (Settled cl bucket j d p) (load_params cl f.store.bucket j w f.server)
            (λ q. pure (some (d1, settings f q))) o there (λ q e. there)
        where
          there : Settled cl bucket j d p (load_params cl f.store.bucket j w f.server o).1
          there =
              subst (λ b. Settled cl bucket j d p (load_params cl b j w f.server o).1) (sym same)
                (load_params-unchanged cl bucket j d w f.server p o settled)

      go :
          (b : Bool)
          → Settled cl bucket j d p
              ((if b then pure none else (lift (connect m f) >>= set_up j w f)) o).1
      go true = settled
      go false =
          preserves (Settled cl bucket j d p) (lift (connect m f)) (set_up j w f) o settled
            (λ (d1, c) e.
              subst (λ t. Settled cl bucket j d p (set_up j w f (d1, t) o).1)
                (sym (connect-client m f d1 c s e)) (loaded d1))

  Happens-Settled :
      {o o' : O} (p : ChunkerParams)
      → Happens cl bucket j o o'
      → Settled cl bucket j d p o
      → Settled cl bucket j d p o'
  Happens-Settled p (got b k o) s = get-Settled cl bucket j d p b k o s
  Happens-Settled p (other_put b k y o n) (x, h, e) =
      (x, d.after_put bucket chunk_params_key x b k y o h n, e)
  Happens-Settled p (other_cancelled_put b k y o n) (x, h, e) =
      (x, d.after_cancelled_put bucket chunk_params_key x b k y o h n, e)
  Happens-Settled p (other_deleted b k o n) (x, h, e) =
      (x, d.after_delete bucket chunk_params_key x b k o h n, e)
  Happens-Settled p (started m w f o s same) settled = start-unchanged m w f p o s same settled

  Later-Settled :
      {o o' : O} (p : ChunkerParams)
      → Later cl bucket j o o'
      → Settled cl bucket j d p o
      → Settled cl bucket j d p o'
  Later-Settled p now s = s
  Later-Settled p (after h l) s = Later-Settled p l (Happens-Settled p h s)

  -- Two starts with the same client of the store and the same bucket that both set up a server have the
  -- same chunker parameters, on whatever machines and with whatever other flags. Between them there may
  -- be reads, puts, cancelled puts and deletions of other objects, and further starts with this client
  -- and bucket, whatever they return.
  -- The client is durable, and JSON is decoded to what was encoded.
  pub start-start :
      (m m' : Machine O) (w w' : UintSize) (f f' : Flags) (o o1 o2 o3 : O) (db db' : Db)
      (x x' : Settings)
      → m.new_store f.store ≡ ok cl
      → f.store.bucket ≡ bucket
      → start j m w f o ≡ (ok (some (db, x)), o1)
      → Later cl bucket j o1 o2
      → m'.new_store f'.store ≡ ok cl
      → f'.store.bucket ≡ bucket
      → start j m' w' f' o2 ≡ (ok (some (db', x')), o3)
      → x'.params ≡ x.params
  start-start m m' w w' f f' o o1 o2 o3 db db' x x' s b e later s' b' e' =
      load_params-kept cl bucket j d w' f'.server x.params x'.params o2 o3
        (Later-Settled x.params later (
          load_params-Settled cl bucket j d w f.server x.params o o1
            (start-ok m w f o o1 db x s b e)))
        (start-ok m' w' f' o2 o3 db' x' s' b' e')
