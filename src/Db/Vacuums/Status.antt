-- ===== src/Db/Vacuums/Status.antt =====
-- The record of a vacuum from its start to its end.
use jotfs.Prelude.{
  ℕ, ◌≡◌, ◌≢◌, refl, sym, ◌∙◌, ap, arith, Bool, true, false, some, List, [], ◌∷◌, ◌++◌, Bool-cases,
  Option-cases, inl, inr,
}
use jotfs.Errors.{Result, ok, err, constraint}
use jotfs.Step.{◌>>=◌}
use jotfs.Bytes.{Bytes}
use jotfs.Sum.{sum_eq_refl, eq_of_sum_eq}
use jotfs.Table.{first, exists, update_rows}
use jotfs.Db.{Db, VacuumRow, update}
use jotfs.Db.Files.{name_eq}
use jotfs.Db.Vacuums.{
  insert_vacuum, insert_vacuum_tx, add_vacuum, update_vacuum, set_vacuum, found_vacuum, get_vacuum,
  vacuum_running,
}

abbrev has_id : Bytes → VacuumRow → Bool
has_id id v = name_eq v.id id

abbrev pub finished : ℕ → ℕ → VacuumRow → VacuumRow
finished completed_at status v = record v { completed_at = completed_at; status = status }

abbrev finish : ℕ → ℕ → Result VacuumRow → Result VacuumRow
finish c s (ok v) = ok (finished c s v)
finish c s (err e) = err e

first_new :
    (id : Bytes) (v : VacuumRow) (t : List VacuumRow)
    → exists (has_id id) t ≡ false
    → name_eq v.id id ≡ true
    → first (has_id id) (t ++ (v ∷ [])) ≡ some v
unfolding first exists
first_new id v [] n e = ground arith
first_new id v (w ∷ t) n e = ground (arith, first_new id v t)

module _ {A : Type 0} where
  -- An update shows in the first of the rows that it selects.
  first-update_rows :
      (p : A → Bool) (f : A → A) (t : List A) (v : A)
      → ((x : A) → p (f x) ≡ p x)
      → first p t ≡ some v
      → first p (update_rows p f t) ≡ some (f v)
  unfolding first update_rows
  first-update_rows p f [] v hp h = ground arith
  first-update_rows p f (x ∷ t) v hp h = elim (Bool-cases (p x)) [
    | inl e ↦ rw (e, hp x, e) (ground (arith, e, h))
    | inr e ↦ rw (e, e) (first-update_rows p f t v hp (rw e at h))
  ]

  -- Rows that another test selects do not change.
  first-update_rows_other :
      (p q : A → Bool) (f : A → A) (t : List A)
      → ((x : A) → p x ≡ true → (q x ≡ false) × (q (f x) ≡ false))
      → first q (update_rows p f t) ≡ first q t
  unfolding first update_rows
  first-update_rows_other p q f [] apart = refl
  first-update_rows_other p q f (x ∷ t) apart = elim (Bool-cases (p x)) [
    | inl e ↦ rw (e, (apart x e).0, (apart x e).1) (first-update_rows_other p q f t apart)
    | inr e ↦ rw (e, first-update_rows_other p q f t apart) refl
  ]

different :
    (id other : Bytes) (v : VacuumRow) (c s : ℕ)
    → id ≢ other
    → has_id id v ≡ true
    → (has_id other v ≡ false) × (has_id other (finished c s v) ≡ false)
unfolding name_eq
different id other v c s ne e = (no, no)
  where
    no : has_id other v ≡ false
    no = elim (Bool-cases (has_id other v)) [
      | inl o ↦ absurd (ne (sym (eq_of_sum_eq v.id id e) ∙ eq_of_sum_eq v.id other o))
      | inr o ↦ o
    ]

insert_vacuum-taken :
    (id : Bytes) (started_at : ℕ) (db : Db)
    → exists (has_id id) db.vacuums ≡ true
    → insert_vacuum id started_at db ≡ (err constraint, db)
unfolding insert_vacuum insert_vacuum_tx update ◌>>=◌
insert_vacuum-taken id started_at db e = rw e refl

insert_vacuum-new :
    (id : Bytes) (started_at : ℕ) (db : Db)
    → exists (has_id id) db.vacuums ≡ false
    → insert_vacuum id started_at db ≡ (
      ok id,
      record db {
        vacuums =
            db.vacuums
            ++ (record {
              id = id;
              started_at = started_at;
              status = vacuum_running;
              completed_at = 0;
            }
                ∷ []);
      },
    )
unfolding insert_vacuum insert_vacuum_tx update ◌>>=◌ add_vacuum
insert_vacuum-new id started_at db e = rw e refl

-- A vacuum that was inserted without an error is running, from the time that was given.
pub get_vacuum-insert_vacuum :
    (id : Bytes) (started_at : ℕ) (db db' : Db)
    → insert_vacuum id started_at db ≡ (ok id, db')
    → get_vacuum id db'
      ≡ ok (record { id = id; started_at = started_at; status = vacuum_running; completed_at = 0 })
unfolding get_vacuum found_vacuum name_eq
get_vacuum-insert_vacuum id started_at db db' r =
    elim (Bool-cases (exists (has_id id) db.vacuums)) [
      | inl e ↦ absurd (cc (r, insert_vacuum-taken id started_at db e))
      | inr e ↦
          rw
            (
              ← ap (λ (p : Result Bytes × Db). p.1.vacuums) r,
              ap (λ (p : Result Bytes × Db). p.1.vacuums) (insert_vacuum-new id started_at db e),
              first_new id
                  (record {
                    id = id;
                    started_at = started_at;
                    status = vacuum_running;
                    completed_at = 0;
                  })
                  db.vacuums e (sum_eq_refl id),
            )
            refl
    ]

-- The end of a vacuum shows in its record, and in no other.
pub get_vacuum-update_vacuum :
    (id other : Bytes) (completed_at status : ℕ) (db : Db) (v : VacuumRow)
    → id ≢ other
    → get_vacuum id db ≡ ok v
    → (get_vacuum id (update_vacuum id completed_at status db).1
        ≡ ok (finished completed_at status v))
      × (get_vacuum other (update_vacuum id completed_at status db).1 ≡ get_vacuum other db)
unfolding get_vacuum update_vacuum set_vacuum update found_vacuum
get_vacuum-update_vacuum id other c s db v ne h =
    elim (Option-cases (first (has_id id) db.vacuums)) [
      | inl e ↦ absurd (ground (arith, e, h))
      | inr (w, e) ↦ (
        rw (first-update_rows (has_id id) (finished c s) db.vacuums w (λ x. refl) e)
            (ap (finish c s) (rw e at h)),
        rw
            (first-update_rows_other (has_id id) (has_id other) (finished c s) db.vacuums
              (λ x t. different id other x c s ne t))
            refl,
      )
    ]
