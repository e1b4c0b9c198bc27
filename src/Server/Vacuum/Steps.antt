-- ===== src/Server/Vacuum/Steps.antt =====
-- The transactions of a vacuum.
use jotfs.Prelude.{ℕ, ◌+◌, Option, List, [], ◌∷◌, length, ◌==◌}
use jotfs.Errors.{Result}
use jotfs.Step.Keeps.{Keeps, Keeps-pure, Keeps-lift, Keeps-if, Keeps-bind}
use jotfs.Sum.{Sum, Hash}
use jotfs.Bytes.{Bytes}
use jotfs.Object.PackIndex.{PackIndex}
use jotfs.Db.{Db}
use jotfs.Db.Packs.{update_index, delete_pack_index}
use jotfs.Db.Vacuums.{ZeroRefcount, get_zero_refcount}
use jotfs.Server.World.{Store, World}
use jotfs.Server.World.Keeps.{
  On, Keeps-on_store, Keeps-on_db, Keeps-attempt, Keeps-with_err, undo-Keeps, get_object-Keeps,
}
use jotfs.Server.Vacuum.{
  get_pack_index, put_rebuilt, replace_index, save_rebuilt, rebuild_packfile, delete_old,
  vacuum_pack, vacuum_packs, pick_out, run_vacuum,
}

-- What the three operations keep
pub record KeptByVacuum (P : Db → Type 0) : Type 0 where
  pub pick : (before : ℕ) (db : Db) → P db → P (get_zero_refcount before db).1
  pub move :
      (index : PackIndex) (t : ℕ) (s : Sum) (m : ℕ → Option ℕ) (db : Db)
      → P db
      → P (update_index index t s m db).1
  pub remove : (s : Sum) (db : Db) → P db → P (delete_pack_index s db).1

module _ (st : Store) (P : Db → Type 0) (k : KeptByVacuum P) where
  get_pack_index-Keeps : (s : Sum) → Keeps (On P) (get_pack_index st s)
  unfolding get_pack_index
  get_pack_index-Keeps s =
      Keeps-bind (Keeps-with_err _ (get_object-Keeps _)) (λ b. Keeps-pure (On P) _)

  save_rebuilt-Keeps :
      (h : Hash) (now : ℕ) (remove : List ℕ) (index : PackIndex) (r : Result ℕ) (packfile : Bytes)
      → Keeps (On P) (save_rebuilt st h now remove index r packfile)
  unfolding save_rebuilt put_rebuilt replace_index
  save_rebuilt-Keeps h now remove index r packfile = Keeps-bind (Keeps-lift (On P) _) (λ size.
      Keeps-bind (Keeps-lift (On P) _) (λ u.
        Keeps-bind
          (Keeps-bind (Keeps-with_err _ (Keeps-on_store _))
            (λ v. Keeps-bind (Keeps-attempt (Keeps-on_store _)) (λ r'. undo-Keeps _ _)))
          (λ v.
            Keeps-bind (Keeps-attempt (Keeps-on_db _ (k.move _ now index.sum _)))
              (λ r'. undo-Keeps _ _))))

  vacuum_pack-Keeps :
      (h : Hash) (now : ℕ) (zr : ZeroRefcount) → Keeps (On P) (vacuum_pack st h now zr)
  unfolding vacuum_pack rebuild_packfile delete_old
  vacuum_pack-Keeps h now zr = Keeps-bind (get_pack_index-Keeps zr.pack_id) (λ index.
      Keeps-bind
        (Keeps-if (On P) (length index.blocks == length zr.sequences) (Keeps-pure (On P) tt) (
          Keeps-with_err _ (
            Keeps-bind (Keeps-with_err _ (Keeps-on_store _))
              (λ r. save_rebuilt-Keeps h now zr.sequences index _ _))))
        (λ u.
          Keeps-bind
            (Keeps-bind (Keeps-attempt (Keeps-on_store _))
              (λ e1. Keeps-bind (Keeps-attempt (Keeps-on_store _)) (λ e2. Keeps-lift (On P) _)))
            (λ v.
              Keeps-bind (Keeps-attempt (Keeps-on_db _ (k.remove index.sum)))
                (λ r. Keeps-pure (On P) tt))))

  vacuum_packs-Keeps :
      (h : Hash) (times : ℕ → ℕ) (i : ℕ) (zrs : List ZeroRefcount)
      → Keeps (On P) (vacuum_packs st h times i zrs)
  unfolding vacuum_packs
  vacuum_packs-Keeps h times i [] = Keeps-pure (On P) tt
  vacuum_packs-Keeps h times i (zr ∷ zrs) =
      Keeps-bind (vacuum_pack-Keeps h (times i) zr) (λ u. vacuum_packs-Keeps h times (i + 1) zrs)

  pick_out-Keeps : (before : ℕ) → Keeps (On P) (pick_out st before)
  unfolding pick_out
  pick_out-Keeps before = record { holds = λ w c. record { holds = k.pick before w.db c.holds } }

  pub run_vacuum-Keeps :
      (h : Hash) (times : ℕ → ℕ) (before : ℕ) (w : World st)
      → P w.db
      → P (run_vacuum st h times before w).1.db
  unfolding run_vacuum
  run_vacuum-Keeps h times before w p =
      ((Keeps-bind (pick_out-Keeps before) (λ zrs. vacuum_packs-Keeps h times 0 zrs)).holds w
        (record { holds = p })).holds
