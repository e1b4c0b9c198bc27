-- ===== src/Server/Files/Readable.antt =====
-- What `GetFile` reads after `CreateFile`.
use jotfs.Prelude.{
  ℕ, ◌≡◌, ◌≢◌, refl, sym, ◌∙◌, ap, subst, Bool, true, false, Bool-cases, inl, inr, Option, none,
  some, List, length, map, ◌==◌, not, ◌&&◌, if◌then◌else◌,
}
use jotfs.Errors.{Error, Result, ok, err, is_db_not_found, required_argument, map_err-ok}
use jotfs.Step.{pure, lift}
use jotfs.Step.Keeps.{Keeps, Keeps-pure, Keeps-if, Keeps-bind, Keeps-lift_bind}
use jotfs.Step.Returns.{bind-ok, lift-ok, pure-ok}
use jotfs.Bytes.{Bytes}
use jotfs.Sum.{Sum, Hash, compute, sum_eq, from_bytes, from_bytes-IsSum}
use jotfs.Object.File.{File, marshal_binary}
use jotfs.Table.{exists}
use jotfs.Db.{Db}
use jotfs.Db.Files.{insert_file, delete_file}
use jotfs.Db.Queries.{FileInfo, get_latest_file_version}
use jotfs.Db.Queries.Latest.{get_latest_file_version-exists}
use jotfs.Db.Keys.{IsKeyed}
use jotfs.Db.Integrity.{IsConsistent}
use jotfs.Db.Contents.{get_file}
use jotfs.Db.Contents.Scanned.{Fits}
use jotfs.Db.Contents.Inserted.{insert_file-Inserted}
use jotfs.Db.Contents.RoundTrip.{get_file-insert_file}
use jotfs.Db.Refinement.Steps.{insert_file-IsKeyed}
use jotfs.Server.Names.{clean_filename}
use jotfs.Server.World.{Store, Config, World, on_db, query, on_store, attempt, clean_up}
use jotfs.Server.World.Returns.{with_err-ok, on_db-ok, on_store-ok, clean_up-fails, attempt-ok}
use jotfs.Server.World.Keeps.{
  On, Keeps-query, Keeps-on_store, Keeps-on_db, Keeps-attempt, Keeps-with_err,
}
use jotfs.Server.Files.{
  prev_version, find_chunks, check_name, parse_sum, undo_put, save_file, delete, delete_prev,
  create_named, create_file,
}
use jotfs.Server.Files.Shown.{find_chunks-Numbered, Shows, delete_file-Shows}

module _ (st : Store) where
  undo_put-ok :
      (f : Error → Error) (s : Sum) (r : Result (Unit {0})) (w w' : World st)
      → undo_put st f s r w ≡ (ok tt, w')
      → (r ≡ ok tt) × (w ≡ w')
  unfolding undo_put pure
  undo_put-ok f s (ok u) w w' e = (refl, λ i. (e i).1)
  undo_put-ok f s (err x) w w' e =
      absurd (clean_up-fails st x _ w w' (with_err-ok st f (clean_up st (err x) _) w w' e))

  pub save_file-ok :
      (h : Hash) (f : Error → Error) (file : File) (s : Sum) (w w' : World st)
      → save_file st h f file w ≡ (ok s, w')
      → (s ≡ compute h (marshal_binary file)) × (insert_file file s w.db ≡ (ok tt, w'.db))
  unfolding save_file pure
  save_file-ok h f file s w w' e =
      let sum = compute h (marshal_binary file) in
      let (u, w1, put, e1) = bind-ok (on_store st (st.put _ (marshal_binary file))) _ w w' e in
      let (r, w2, tried, e2) = bind-ok (attempt st (on_db st (insert_file file sum))) _ w1 w' e1 in
      let (v, w3, undone, e3) = bind-ok (undo_put st f sum r) _ w2 w' e2 in
      let (fine, same) = undo_put-ok f sum r w2 w3 undone in
      let returned : sum ≡ s = cc e3 in
      let state : w3 ≡ w' = λ i. (e3 i).1 in
      let stored : on_db st (insert_file file sum) w1 ≡ (r, w2) =
        attempt-ok st (on_db st (insert_file file sum)) w1 w2 r tried in
      let whole : on_db st (insert_file file sum) w1 ≡ (ok tt, w') =
        stored ∙ (λ i. (fine i, (same ∙ state) i)) in
      let inserted = (on_db-ok st (insert_file file sum) w1 w' whole).0 in
      let before = (on_store-ok st (st.put _ (marshal_binary file)) w w1 put).1 in
      (
        sym returned,
        subst (λ t. insert_file file t w.db ≡ (ok tt, w'.db)) returned
            (ap (insert_file file sum) (sym before) ∙ inserted),
      )

  delete-Shows : (s t : Sum) (f : File) → s ≢ t → Keeps (On (Shows s f)) (delete st (some t))
  unfolding delete
  delete-Shows s t f n = Keeps-lift_bind (parse_sum "sum" (some t)) (λ sum parsed.
      Keeps-bind (Keeps-query _) (λ info. Keeps-bind (Keeps-with_err _ (Keeps-on_store _)) (λ u.
        Keeps-with_err _
          (Keeps-on_db (delete_file sum) (delete_file-Shows s sum f (other sum parsed))))))
    where
      other : (sum : Sum) → parse_sum "sum" (some t) ≡ ok sum → s ≢ sum
      other sum e = λ q. n (q ∙ sym (from_bytes-IsSum t sum (map_err-ok _ (from_bytes t) sum e)).0)

  delete_prev-Shows :
      (cfg : Config) (s : Sum) (f : File) (prev : Option FileInfo)
      → ((info : FileInfo) → prev ≡ some info → s ≢ info.sum)
      → Keeps (On (Shows s f)) (delete_prev st cfg prev)
  unfolding delete_prev
  delete_prev-Shows cfg s f none n = Keeps-pure (On (Shows s f)) tt
  delete_prev-Shows cfg s f (some info) n =
      Keeps-if (On (Shows s f)) (not info.versioned && not cfg.versioning_enabled)
        (Keeps-bind (Keeps-attempt (delete-Shows s info.sum f (n info refl)))
          (λ r. Keeps-pure (On (Shows s f)) tt))
        (Keeps-pure (On (Shows s f)) tt)

  -- The file that `CreateFile` put together
  record Created (cfg : Config) (now : ℕ) (name : Bytes) (sums : List Bytes) (f : File)
      : Type 0 where
    name_eq : f.name ≡ name
    time_eq : f.created_at ≡ now
    chunks_eq : map (λ c. c.sum) f.chunks ≡ sums
    versioned_eq : f.versioned ≡ cfg.versioning_enabled

  prev_version-some :
      (r : Result FileInfo) (info : FileInfo) → prev_version r ≡ ok (some info) → r ≡ ok info
  unfolding prev_version
  prev_version-some (ok i) info e = cc e
  prev_version-some (err x) info e = elim (Bool-cases (is_db_not_found x)) [
    | inl k ↦ absurd (cc (rw k at e))
    | inr k ↦ absurd (cc (rw k at e))
  ]

  -- The version before has another checksum, since the new one was free.
  other_version :
      (name : Bytes) (s : Sum) (db : Db) (info : FileInfo)
      → exists (λ v. sum_eq v.sum s) db.file_versions ≡ false
      → get_latest_file_version name db ≡ ok info
      → s ≢ info.sum
  other_version name s db info free e same = absurd (
      cc (
        ap (λ t. exists (λ v. sum_eq v.sum t) db.file_versions) same,
        free,
        get_latest_file_version-exists name db info e,
      ))

  -- A file that was saved is read, also after the version before is deleted.
  saved-Shows :
      (cfg : Config) (name : Bytes) (prev : Option FileInfo) (f : File) (s : Sum)
      (w w1 w' : World st)
      → IsConsistent w.db
      → IsKeyed w.db
      → Fits f.chunks w.db
      → prev_version (get_latest_file_version name w.db) ≡ ok prev
      → insert_file f s w.db ≡ (ok tt, w1.db)
      → delete_prev st cfg prev w1 ≡ (ok tt, w')
      → get_file s w'.db ≡ ok f
  saved-Shows cfg name prev f s w w1 w' c k fits found inserted gone =
      let x = insert_file-Inserted f s w.db w1.db k.files inserted in
      let shown : Shows s f w1.db = record {
        keyed = subst (λ p. IsKeyed p.1) inserted (insert_file-IsKeyed f s w.db k);
        read = (get_file-insert_file f s w.db w1.db c k fits inserted).0;
      } in
      let kept =
        (delete_prev-Shows cfg s f prev (λ info some_info. other_version name s w.db info x.free (
            prev_version-some (get_latest_file_version name w.db) info
              (found ∙ ap (λ (o : Option FileInfo). ok o) some_info)))).holds
          w1 (record { holds = shown }) in
      let last : On (Shows s f) w' = subst (λ p. On (Shows s f) p.1) gone kept in last.holds.read

  create_named-Created :
      (cfg : Config) (h : Hash) (now : ℕ) (name : Bytes) (sums : List Bytes) (w w' : World st)
      (s : Sum)
      → IsConsistent w.db
      → IsKeyed w.db
      → create_named st cfg h now name sums w ≡ (ok s, w')
      → (f : File) × (get_file s w'.db ≡ ok f)
        × (s ≡ compute h (marshal_binary f))
        × Created cfg now name sums f
  unfolding create_named
  create_named-Created cfg h now name sums w w' s c k e =
      let (u, w1, checked, e1) = bind-ok (lift (check_name "name" name)) _ w w' e in
      let (prev, w2, asked, e2) =
        bind-ok (query st (λ db. prev_version (get_latest_file_version name db))) _ w1 w' e1 in
      let (chunks, w3, looked, e3) = bind-ok (query st (find_chunks 0 sums)) _ w2 w' e2 in
      let f : File = record {
        name = name;
        created_at = now;
        chunks = chunks;
        versioned = cfg.versioning_enabled;
      } in
      let (sum, w4, saved, e4) = bind-ok (save_file st h (λ x. x) f) _ w3 w' e3 in
      let (v, w5, gone, e5) = bind-ok (delete_prev st cfg prev) _ w4 w' e4 in
      let same1 : w ≡ w1 = (lift-ok _ w w1 checked).1 in
      let (found, same2) =
        query-ok (λ db. prev_version (get_latest_file_version name db)) w1 w2 prev asked in
      let (located, same3) = query-ok (find_chunks 0 sums) w2 w3 chunks looked in
      let (computed, inserted) = save_file-ok h (λ x. x) f sum w3 w4 saved in
      let n = find_chunks-Numbered 0 sums w2.db chunks located in
      let start : w3 ≡ w = sym (same1 ∙ same2 ∙ same3) in
      let (returned, state) = pure-ok sum s w5 w' e5 in
      let read : get_file sum w5.db ≡ ok f =
        saved-Shows cfg name prev f sum w w4 w5 c k
          (subst (λ t. Fits chunks t.db) (sym (same1 ∙ same2)) n.fits)
          (subst (λ t. prev_version (get_latest_file_version name t.db) ≡ ok prev) (sym same1)
            found)
          (subst (λ t. insert_file f sum t.db ≡ (ok tt, w4.db)) start inserted) gone in
      (
        f,
        (λ i. get_file (sym returned i) (sym state i).db) ∙ read,
        sym returned ∙ computed,
        record { name_eq = refl; time_eq = refl; chunks_eq = n.texts; versioned_eq = refl },
      )
    where
      query-ok :
          {A : Type 0} (q : Db → Result A) (w w' : World st) (a : A)
          → query st q w ≡ (ok a, w')
          → (q w.db ≡ ok a) × (w ≡ w')
      query-ok q w w' a e = unfold query in (λ i. (e i).0, λ i. (e i).1)

  -- Where `CreateFile` returns a checksum, from a consistent database whose keys differ, `GetFile` of
  -- it returns the file of the request: its cleaned name, the chunks with the checksums of the request
  -- in their order, the time and the versioning of the server. The checksum is that of the file's
  -- encoding. This holds whatever the store does, and also where the version before was deleted.
  pub get_file-create_file :
      (cfg : Config) (h : Hash) (now : ℕ) (name : Bytes) (sums : List Bytes) (w w' : World st)
      (s : Sum)
      → IsConsistent w.db
      → IsKeyed w.db
      → create_file st cfg h now name sums w ≡ (ok s, w')
      → (f : File) × (get_file s w'.db ≡ ok f)
        × (s ≡ compute h (marshal_binary f))
        × (f.name ≡ clean_filename name)
        × (f.created_at ≡ now)
        × (map (λ c. c.sum) f.chunks ≡ sums)
        × (f.versioned ≡ cfg.versioning_enabled)
  unfolding create_file
  get_file-create_file cfg h now name sums w w' s c k e = go (length name == 0) e
    where
      go :
          (b : Bool)
          → (if b
                then lift (err (required_argument "name"))
                else create_named st cfg h now (clean_filename name) sums)
              w
            ≡ (ok s, w')
          → (f : File) × (get_file s w'.db ≡ ok f)
            × (s ≡ compute h (marshal_binary f))
            × (f.name ≡ clean_filename name)
            × (f.created_at ≡ now)
            × (map (λ c. c.sum) f.chunks ≡ sums)
            × (f.versioned ≡ cfg.versioning_enabled)
      go true q = absurd (cc ((lift-ok (err (required_argument "name")) w w' q).0))
      go false q =
          let (f, read, sum, m) =
            create_named-Created cfg h now (clean_filename name) sums w w' s c k q in
          (f, read, sum, m.name_eq, m.time_eq, m.chunks_eq, m.versioned_eq)
