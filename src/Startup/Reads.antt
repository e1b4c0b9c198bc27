-- ===== src/Startup/Reads.antt =====
-- What the steps on the chunker parameters did where they returned.
use jotfs.Prelude.{◌≡◌, refl, ◌∙◌, ap, true, Bool-cases, inl, inr, Option, none, some}
use jotfs.Errors.{Error, Result, ok, err, formatted, map_err, map_err-ok, result_bind-ok}
use jotfs.Step.{Step, lift}
use jotfs.Step.Returns.{bind-ok, lift-ok}
use jotfs.Bytes.{Bytes}
use jotfs.Server.World.{Client, Object}
use jotfs.Startup.{ChunkerParams}
use jotfs.Startup.Machine.{Json, read_params}
use jotfs.Startup.Params.{
  chunk_params_key, is_store_not_found, got_params, get_chunker_params, put_params,
  save_chunker_params, with_context,
}

module _ {O : Type 0} (cl : Client O) (bucket : Bytes) (j : Json) where
  read_params-ok :
      (r : Object) (p : ChunkerParams)
      → read_params j r ≡ ok (some p)
      → (b : Bytes) × (r.contents ≡ ok b) × (j.decode b ≡ ok p)
  unfolding read_params
  read_params-ok r p e =
      let (b, c, e1) = result_bind-ok (map_err (formatted "reading object") r.contents) _ e in
      let (q, d, e2) = result_bind-ok (map_err (formatted "decoding JSON") (j.decode b)) _ e1 in
      let same : q ≡ p = cc e2 in
      (
        b,
        map_err-ok _ r.contents b c,
        map_err-ok _ (j.decode b) q d ∙ ap (λ (x : ChunkerParams). ok x) same,
      )

  pub got_params-some :
      (x : Result Object) (p : ChunkerParams)
      → got_params j x ≡ ok (some p)
      → (r : Object) × (b : Bytes) × (x ≡ ok r) × (r.contents ≡ ok b) × (j.decode b ≡ ok p)
  unfolding got_params
  got_params-some (ok r) p e = let (b, c, d) = read_params-ok r p e in (r, b, refl, c, d)
  got_params-some (err x) p e = elim (Bool-cases (is_store_not_found x)) [
    | inl k ↦ absurd (cc (rw k at e))
    | inr k ↦ absurd (cc (rw k at e))
  ]

  pub got_params-none :
      (x : Result Object)
      → got_params j x ≡ ok none
      → (e : Error) × (x ≡ err e) × (is_store_not_found e ≡ true)
  unfolding got_params read_params
  got_params-none (ok r) e =
      let (b, c, e1) = result_bind-ok (map_err (formatted "reading object") r.contents) _ e in
      let (q, d, e2) = result_bind-ok (map_err (formatted "decoding JSON") (j.decode b)) _ e1 in
      absurd (cc e2)
  got_params-none (err x) e = elim (Bool-cases (is_store_not_found x)) [
    | inl k ↦ (x, refl, k)
    | inr k ↦ absurd (cc (rw k at e))
  ]

  pub with_context-ok :
      {A : Type 0} (f : Error → Error) (m : Step O A) (o o' : O) {a : A}
      → with_context f m o ≡ (ok a, o')
      → m o ≡ (ok a, o')
  unfolding with_context
  with_context-ok {A} f m o o' {a} e = go (m o) e
    where
      go :
          (p : Result A × O)
          → ◌≡◌ {A = Result A × O} (map_err f p.0, p.1) (ok a, o')
          → p ≡ (ok a, o')
      go (ok x, t) e' = cc e'
      go (err x, t) e' = absurd (cc e')

  -- What `getChunkerParams` read
  pub get_chunker_params-ok :
      (o o' : O) (x : Option ChunkerParams)
      → get_chunker_params cl bucket j o ≡ (ok x, o')
      → (got_params j (cl.get bucket chunk_params_key o).0 ≡ ok x)
        × ((cl.get bucket chunk_params_key o).1 ≡ o')
  unfolding get_chunker_params
  get_chunker_params-ok o o' x e = (λ i. (e i).0, λ i. (e i).1)

  pub put_params-ok :
      (b : Bytes) (o o' : O)
      → put_params cl bucket j b o ≡ (ok tt, o')
      → cl.put bucket chunk_params_key b o ≡ (ok tt, o')
  unfolding put_params
  put_params-ok b o o' e = go (cl.put bucket chunk_params_key b o) e
    where
      go :
          (p : Result (Unit {0}) × O)
          → ◌≡◌ {A = Result (Unit {0}) × O}
              (map_err (formatted "putting object to store") p.0, p.1)
              (ok tt, o')
          → p ≡ (ok tt, o')
      go (ok u, t) e' = cc e'
      go (err x, t) e' = absurd (cc e')

  pub save_chunker_params-ok :
      (p : ChunkerParams) (o o' : O)
      → save_chunker_params cl bucket j p o ≡ (ok tt, o')
      → (b : Bytes) × (j.encode p ≡ ok b) × (cl.put bucket chunk_params_key b o ≡ (ok tt, o'))
  unfolding save_chunker_params
  save_chunker_params-ok p o o' e =
      let (b, o1, enc, e1) =
        bind-ok (lift (map_err (formatted "encoding json") (j.encode p))) _ o o' e in
      let (encoded, same) = lift-ok _ o o1 enc in
      (
        b,
        map_err-ok _ (j.encode p) b encoded,
        put_params-ok b o o' (ap (put_params cl bucket j b) same ∙ e1),
      )
