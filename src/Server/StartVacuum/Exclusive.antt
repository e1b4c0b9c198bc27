-- ===== src/Server/StartVacuum/Exclusive.antt =====
-- The flag of `StartVacuum` over every interleaving.
use jotfs.Prelude.{
  ℕ, suc, ◌+◌, ◌≤◌, ◌≡◌, refl, arith, Bool, true, false, Bool-cases, inl, inr, List, length,
  length-append, subst, sym, ap, if◌then◌else◌,
}
use jotfs.Errors.{Error, Result, ok, err}
use jotfs.Bytes.{Bytes}
use jotfs.Db.{Db}
use jotfs.Db.Vacuums.{insert_vacuum}
use jotfs.Server.StartVacuum.{
  Vacuuming, start_server, compare_and_swap, after_insert, complete, Step, swap, insert, work,
  finish, release, Reach, here, next,
}

-- The calls and vacuums that hold the flag
abbrev pub holders : Vacuuming → ℕ
holders v = v.starting + length v.running + v.releasing

pub record IsExclusive (v : Vacuuming) : Type 0 where
  pub one : holders v ≤ 1
  pub idle : v.is_vacuuming ≡ false → holders v ≡ 0

compare_and_swap-refused : (v : Vacuuming) → v.is_vacuuming ≡ true → compare_and_swap v ≡ (false, v)
unfolding compare_and_swap
compare_and_swap-refused v e =
    ap
      (λ (b : Bool).
        if b
        then (false, v)
        else (true, record v { is_vacuuming = true; starting = v.starting + 1 }))
      e

after_insert-IsExclusive :
    (r : Result Bytes × Db) (v : Vacuuming) (k : ℕ)
    → v.starting ≡ suc k
    → IsExclusive v
    → IsExclusive (after_insert r (record v { starting = k }))
unfolding after_insert
after_insert-IsExclusive (ok id, db) v k e x = record {
  one = rw length-append (omega (arith, x.one));
  idle = λ h. rw length-append (omega (arith, x.one, x.idle h));
}
after_insert-IsExclusive (err y, db) v k e x = record {
  one = omega (arith, x.one);
  idle = λ h. omega (arith, x.idle h);
}

Step-IsExclusive : {v w : Vacuuming} → Step v w → IsExclusive v → IsExclusive w
unfolding compare_and_swap complete
Step-IsExclusive (swap v) x = elim (Bool-cases v.is_vacuuming) [
  | inl e ↦ subst (λ (p : Bool × Vacuuming). IsExclusive p.1) (sym (compare_and_swap-refused v e)) x
  | inr e ↦
      rw (e, compare_and_swap) (record { one = omega (arith, x.idle e); idle = λ h. absurd (cc h) })
]
Step-IsExclusive (insert v k id t e) x = after_insert-IsExclusive (insert_vacuum id t v.db) v k e x
Step-IsExclusive (work v db) x = record { one = x.one; idle = x.idle }
Step-IsExclusive (finish v id rest t s e) x =
    let n : length v.running ≡ suc (length rest) = ap (λ (l : List Bytes). length l) e in
    record { one = omega (arith, x.one, n); idle = λ h. omega (arith, x.idle h, n) }
Step-IsExclusive (release v k e) x = record {
  one = omega (arith, x.one);
  idle = λ h. omega (arith, x.one);
}

-- However the steps of calls, vacuums and other requests interleave from the start of the server, at most
-- one call or vacuum holds the flag, and none does while the flag is not set.
pub Reach-IsExclusive : (db : Db) (v : Vacuuming) → Reach (start_server db) v → IsExclusive v
Reach-IsExclusive db v here = record { one = omega arith; idle = λ h. refl }
Reach-IsExclusive db v (next r s) = Step-IsExclusive s (Reach-IsExclusive db _ r)

-- A flag that nothing holds any more
pub record IsStuck (v : Vacuuming) : Type 0 where
  pub set : v.is_vacuuming ≡ true
  pub unheld : holders v ≡ 0

Step-IsStuck : {v w : Vacuuming} → Step v w → IsStuck v → IsStuck w
unfolding compare_and_swap
Step-IsStuck (swap v) x =
    subst (λ (p : Bool × Vacuuming). IsStuck p.1) (sym (compare_and_swap-refused v x.set)) x
Step-IsStuck (insert v k id t e) x = absurd (omega (arith, x.unheld))
Step-IsStuck (work v db) x = record { set = x.set; unheld = x.unheld }
Step-IsStuck (finish v id rest t s e) x =
    absurd (omega (arith, x.unheld, ap (λ (l : List Bytes). length l) e))
Step-IsStuck (release v k e) x = absurd (omega (arith, x.unheld))

Reach-IsStuck : {v w : Vacuuming} → Reach v w → IsStuck v → IsStuck w
Reach-IsStuck here x = x
Reach-IsStuck (next r s) x = Step-IsStuck s (Reach-IsStuck r x)

failed-IsStuck :
    (v : Vacuuming) (k : ℕ) (e : Error) (db : Db)
    → IsExclusive v
    → v.starting ≡ suc k
    → IsStuck (after_insert (err e, db) (record v { starting = k }))
unfolding after_insert
failed-IsStuck v k e db x s = record { set = held; unheld = omega (arith, x.one) }
  where
    held : v.is_vacuuming ≡ true
    held = elim (Bool-cases v.is_vacuuming) [ inl h ↦ h | inr h ↦ absurd (omega (arith, x.idle h)) ]

-- Where `InsertVacuum` fails in a call, the flag stays set although nothing holds it, and in every state
-- that can follow `StartVacuum` is refused.
pub after_insert-refused :
    (db : Db) (v w : Vacuuming) (k : ℕ) (e : Error) (db' : Db)
    → Reach (start_server db) v
    → v.starting ≡ suc k
    → Reach (after_insert (err e, db') (record v { starting = k })) w
    → (compare_and_swap w).0 ≡ false
after_insert-refused db v w k e db' r s later =
    ap (λ (p : Bool × Vacuuming). p.0)
      (compare_and_swap-refused w
        (Reach-IsStuck later (failed-IsStuck v k e db' (Reach-IsExclusive db v r) s)).set)
