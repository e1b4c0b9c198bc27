-- ===== src/Startup/Settled.antt =====
-- cmd/jotfs/main.go: the chunker parameters in a bucket, before and after `load_params`.
use jotfs.Prelude.{◌≡◌, refl, sym, ◌∙◌, ap, subst, Option, none, some}
use jotfs.Errors.{Result, ok, err, formatted, map_err, map_err-ok}
use jotfs.Step.{Step, continue, pure, ◌>>=◌}
use jotfs.Step.Returns.{bind-ok, pure-ok}
use jotfs.Bytes.{Bytes}
use jotfs.Server.World.{Client}
use jotfs.Startup.{ServerConfig, ChunkerParams, UintSize, chunker_params}
use jotfs.Startup.Machine.{Json}
use jotfs.Startup.Params.{
  chunk_params_key, got_params, get_chunker_params, save_chunker_params, with_context, or_new,
  load_params,
}
use jotfs.Startup.Reads.{
  got_params-some, got_params-none, with_context-ok, get_chunker_params-ok, save_chunker_params-ok,
}
use jotfs.Startup.Durable.{IsDurable}

pub preserves :
    {O A B : Type 0} (P : O → Type 0) (m : Step O A) (f : A → Step O B) (o : O)
    → P (m o).1
    → ((a : A) → (m o).0 ≡ ok a → P (f a (m o).1).1)
    → P ((m >>= f) o).1
unfolding ◌>>=◌
preserves {O} {A} {B} P m f o kept next = go (m o).0 next
  where
    go : (r : Result A) → ((a : A) → r ≡ ok a → P (f a (m o).1).1) → P (continue r f (m o).1).1
    go (ok a) h = h a refl
    go (err e) h = kept

module _ {O : Type 0} (cl : Client O) (bucket : Bytes) (j : Json) (d : IsDurable cl) where
  -- The bucket has the parameters.
  abbrev pub Settled : ChunkerParams → O → Type 0
  Settled p o = (x : Bytes) × d.Holds bucket chunk_params_key x o × (j.decode x ≡ ok p)

  Settled-some :
      (p q : ChunkerParams) (o : O)
      → Settled p o
      → got_params j (cl.get bucket chunk_params_key o).0 ≡ ok (some q)
      → q ≡ p
  Settled-some p q o (x, h, dec) g =
      let (r, bs, got_it, c, dec') = got_params-some cl bucket j _ q g in
      let same : bs ≡ x = d.same_bytes bucket chunk_params_key x bs o r h got_it c in
      let decoded : ok q ≡ ok p = sym dec' ∙ ap j.decode same ∙ dec in cc decoded

  Settled-none :
      (p : ChunkerParams) (o : O)
      → Settled p o
      → got_params j (cl.get bucket chunk_params_key o).0 ≡ ok none
      → ⊥
  Settled-none p o (x, h, dec) g =
      let (e, got_it, missing) = got_params-none cl bucket j _ g in
      absurd (cc (d.not_missing bucket chunk_params_key x o e h got_it, missing))

  pub get-Settled :
      (p : ChunkerParams) (b k : Bytes) (o : O) → Settled p o → Settled p (cl.get b k o).1
  get-Settled p b k o (x, h, dec) = (x, d.after_get bucket chunk_params_key x b k o h, dec)

  -- The first start leaves the parameters in the bucket.
  or_new-Settled :
      (new p : ChunkerParams) (x : Option ChunkerParams) (o o1 o' : O)
      → got_params j (cl.get bucket chunk_params_key o).0 ≡ ok x
      → (cl.get bucket chunk_params_key o).1 ≡ o1
      → or_new cl bucket j new x o1 ≡ (ok p, o')
      → Settled p o'
  unfolding or_new pure
  or_new-Settled new p (some q) o o1 o' g s e =
      let (r, bs, got_it, c, dec) = got_params-some cl bucket j _ q g in
      let same : q ≡ p = cc e in
      (
        bs,
        d.read bucket chunk_params_key bs o o' r (λ i. (got_it i, (s ∙ (λ i. (e i).1)) i)) c,
        dec ∙ ap (λ (y : ChunkerParams). ok y) same,
      )
  or_new-Settled new p none o o1 o' g s e =
      let (u, o2, saved, rest) =
        bind-ok
          (with_context (formatted "saving chunker params") (save_chunker_params cl bucket j new)) _
          o1 o' e in
      let (b, enc, put) =
        save_chunker_params-ok cl bucket j new o1 o2
          (with_context-ok cl bucket j _ (save_chunker_params cl bucket j new) o1 o2 saved) in
      let (same, state) = pure-ok new p o2 o' rest in
      (
        b,
        subst (d.Holds bucket chunk_params_key b) state
            (d.written bucket chunk_params_key b o1 o2 put),
        j.decode-encode new b enc ∙ ap (λ (y : ChunkerParams). ok y) same,
      )

  load_params-ok :
      (w : UintSize) (c : ServerConfig) (p : ChunkerParams) (o o' : O)
      → load_params cl bucket j w c o ≡ (ok p, o')
      → (x : Option ChunkerParams) × (o1 : O) × (got_params j (cl.get bucket chunk_params_key o).0
          ≡ ok x)
        × ((cl.get bucket chunk_params_key o).1 ≡ o1)
        × (or_new cl bucket j (chunker_params w c) x o1 ≡ (ok p, o'))
  unfolding load_params
  load_params-ok w c p o o' e =
      let (x, o1, read_it, rest) =
        bind-ok (with_context (formatted "getting chunker params") (get_chunker_params cl bucket j))
          _ o o' e in
      let (g, state) =
        get_chunker_params-ok cl bucket j o o1 x
          (with_context-ok cl bucket j _ (get_chunker_params cl bucket j) o o1 read_it) in
      (x, o1, g, state, rest)

  pub load_params-Settled :
      (w : UintSize) (c : ServerConfig) (p : ChunkerParams) (o o' : O)
      → load_params cl bucket j w c o ≡ (ok p, o')
      → Settled p o'
  load_params-Settled w c p o o' e =
      let (x, o1, g, state, rest) = load_params-ok w c p o o' e in
      or_new-Settled (chunker_params w c) p x o o1 o' g state rest

  pub load_params-kept :
      (w : UintSize) (c : ServerConfig) (p q : ChunkerParams) (o o' : O)
      → Settled p o
      → load_params cl bucket j w c o ≡ (ok q, o')
      → q ≡ p
  unfolding or_new
  load_params-kept w c p q o o' s e =
      let (x, o1, g, state, rest) = load_params-ok w c q o o' e in go x o1 g rest
    where
      go :
          (x : Option ChunkerParams) (o1 : O)
          → got_params j (cl.get bucket chunk_params_key o).0 ≡ ok x
          → or_new cl bucket j (chunker_params w c) x o1 ≡ (ok q, o')
          → q ≡ p
      go none o1 g rest = absurd (Settled-none p o s g)
      go (some r) o1 g rest =
          let same : r ≡ q = (pure-ok r q o1 o' rest).0 in sym same ∙ Settled-some p r o s g

  -- Later starts leave them there.
  pub load_params-unchanged :
      (w : UintSize) (c : ServerConfig) (p : ChunkerParams) (o : O)
      → Settled p o
      → Settled p (load_params cl bucket j w c o).1
  unfolding load_params with_context get_chunker_params or_new pure
  load_params-unchanged w c p o s =
      preserves (Settled p)
        (with_context (formatted "getting chunker params") (get_chunker_params cl bucket j))
        (or_new cl bucket j (chunker_params w c)) o kept next
    where
      kept : Settled p (cl.get bucket chunk_params_key o).1
      kept = get-Settled p bucket chunk_params_key o s

      next :
          (x : Option ChunkerParams)
          → map_err
              (formatted "getting chunker params")
              (got_params j (cl.get bucket chunk_params_key o).0)
            ≡ ok x
          → Settled p
              (or_new cl bucket j (chunker_params w c) x (cl.get bucket chunk_params_key o).1).1
      next (some q) e = kept
      next none e = absurd (Settled-none p o s (map_err-ok _ _ none e))
