-- ===== src/Tests/Buckets.antt =====
-- An object store in memory, with several buckets.
use jotfs.Prelude.{
  ◌≡◌, refl, sym, ◌∙◌, ap, subst, Bool, true, false, Bool-cases, inl, inr, Option, none, some, List,
  [], ◌∷◌, ◌&&◌, if◌then◌else◌,
}
use jotfs.Errors.{Result, ok, err, store_not_found}
use jotfs.Bytes.{Bytes}
use jotfs.Sum.{sum_eq, sum_eq_refl, eq_of_sum_eq}
use jotfs.Server.World.{Object, Client}
use jotfs.Startup.Durable.{IsDurable}

-- What was done, the last first: an object was put, or deleted.
abbrev pub Shelves : Type 0
Shelves = List (Bytes × Bytes × Option Bytes)

abbrev readable : Bytes → Object
readable x = record { contents = ok x; closed = ok tt }

abbrev entry : Option Bytes → Result Object
entry (some x) = ok (readable x)
entry none = err store_not_found

abbrev lookup : Bytes → Bytes → Shelves → Result Object
lookup b k [] = err store_not_found
lookup b k ((b', k', x) ∷ o) = if sum_eq b' b && sum_eq k' k then entry x else lookup b k o

abbrev pub shelves : Client Shelves
shelves = record {
  put = λ b k x o. (ok tt, (b, k, some x) ∷ o);
  cancelled_put = λ b k x o. o;
  get = λ b k o. (lookup b k o, o);
  copy = λ b from to o. (ok tt, o);
  delete = λ b k o. (ok tt, (b, k, none) ∷ o);
  presign_get_url = λ b k expires range o. (ok k, o);
}

lookup-here : (b k x : Bytes) (o : Shelves) → lookup b k ((b, k, some x) ∷ o) ≡ ok (readable x)
lookup-here b k x o = rw (sum_eq_refl b, sum_eq_refl k) refl

lookup-other :
    (b k b' k' : Bytes) (x : Option Bytes) (o : Shelves)
    → ((b' ≡ b) × (k' ≡ k) → ⊥)
    → lookup b k ((b', k', x) ∷ o) ≡ lookup b k o
lookup-other b k b' k' x o n = elim (Bool-cases (sum_eq b' b)) [
  | inr e ↦ rw e refl
  | inl e ↦ elim (Bool-cases (sum_eq k' k)) [
    | inr f ↦ rw (e, f) refl
    | inl f ↦ absurd (n (eq_of_sum_eq b' b e, eq_of_sum_eq k' k f))
  ]
]

entry-readable :
    (x : Option Bytes) (y : Bytes) (r : Object)
    → entry x ≡ ok r
    → r.contents ≡ ok y
    → entry x ≡ ok (readable y)
entry-readable (some x) y r e c =
    let same : readable x ≡ r = cc e in
    let both : ok x ≡ ok y = ap (λ (t : Object). t.contents) same ∙ c in
    let bytes : x ≡ y = cc both in ap (λ (t : Bytes). ok (readable t)) bytes
entry-readable none y r e c = absurd (cc e)

lookup-readable :
    (b k y : Bytes) (o : Shelves) (r : Object)
    → lookup b k o ≡ ok r
    → r.contents ≡ ok y
    → lookup b k o ≡ ok (readable y)
lookup-readable b k y [] r e c = absurd (cc e)
lookup-readable b k y ((b', k', x) ∷ o) r e c =
    go (sum_eq b' b && sum_eq k' k) (λ f. lookup-readable b k y o r f c) e
  where
    go :
        (t : Bool)
        → (lookup b k o ≡ ok r → lookup b k o ≡ ok (readable y))
        → (if t then entry x else lookup b k o) ≡ ok r
        → (if t then entry x else lookup b k o) ≡ ok (readable y)
    go true h f = entry-readable x y r f c
    go false h f = h f

contents_only : (x bs : Bytes) (r : Object) → ok (readable x) ≡ ok r → r.contents ≡ ok bs → bs ≡ x
contents_only x bs r e c =
    let same : readable x ≡ r = cc e in
    let both : ok x ≡ ok bs = ap (λ (t : Object). t.contents) same ∙ c in sym (cc both)

pub shelves-IsDurable : IsDurable shelves
shelves-IsDurable = record {
  Holds = λ b k x o. lookup b k o ≡ ok (readable x);
  written = λ b k x o o' e.
      subst (λ t. lookup b k t ≡ ok (readable x)) (λ i. (e i).1) (lookup-here b k x o);
  read = λ b k x o o' r e c.
      subst (λ t. lookup b k t ≡ ok (readable x)) (λ i. (e i).1)
        (lookup-readable b k x o r (λ i. (e i).0) c);
  same_bytes = λ b k x bs o r h e c. contents_only x bs r (sym h ∙ e) c;
  not_missing = λ b k x o e h f. absurd (cc (sym h ∙ f));
  after_get = λ b k x b' k' o h. h;
  after_put = λ b k x b' k' y o h n. lookup-other b k b' k' (some y) o n ∙ h;
  after_cancelled_put = λ b k x b' k' y o h n. h;
  after_delete = λ b k x b' k' o h n. lookup-other b k b' k' none o n ∙ h;
}
