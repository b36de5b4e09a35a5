-- ===== src/DbMigration/Migrator/Restored.antt =====
-- sqlite.db.migrator.js with db.backup.manager: a migration that fails and a database that is restored.
use bfx_reports_framework.Base.{
  ℕ, ◌≤◌, ◌<◌, ltb, leb, ◌==◌, ◌≡◌, ◌⊎◌, refl, sym, ap, ◌∙◌, subst, if_ind, Bool, true, false, List,
  [], ◌∷◌, ◌++◌, All, All-append, arith,
}
use bfx_reports_framework.Base.Actions.{ok, err}
use bfx_reports_framework.Base.ActionRules.{after-Keeps, >>-Keeps, All-every}
use bfx_reports_framework.DbMigration.{
  World, Backup, run_query, migration_launching, request_what_should_be_done,
}
use bfx_reports_framework.DbMigration.Launch.{SqlObj, execute}
use bfx_reports_framework.DbMigration.Backups.{
  is_kept, kept_files, backup_db, manage_db_backup_files, restore_db,
}
use bfx_reports_framework.DbMigration.Migrator.{
  Env, range, migrate, backup, migrate_to_supported_ver, migrate_from_curr, restore, when_failed,
  migrate_from_curr_to_supported_ver,
}
use bfx_reports_framework.DbMigration.Migrator.Keeps.{migrate-Keeps}

abbrev pub IsOlder : {D : Type 0} → Backup D → Backup D → Type 0
IsOlder b f = (f.version < b.version) ⊎ ((f.version ≡ b.version) × (f.mts < b.mts))

-- lodash's order, newest first: a file that is newer than all others comes first, before them.
abbrev pub PutsNewestFirst : {D : Type 0} → (List (Backup D) → List (Backup D)) → Type 0
PutsNewestFirst {D = D} order_by =
    (b : Backup D) (xs ys : List (Backup D))
    → All (IsOlder b) xs
    → All (IsOlder b) ys
    → (rest : List (Backup D)) × (order_by (xs ++ b ∷ ys) ≡ b ∷ rest) × All (IsOlder b) rest

kept_files-starts :
    {D : Type 0} (P : Backup D → Type 0) (f : Backup D) (excluded files : List (Backup D))
    → All P excluded
    → All P files
    → (rest : List (Backup D)) × (kept_files (f ∷ excluded) files ≡ f ∷ rest) × All P rest
unfolding kept_files
kept_files-starts P f excluded [] a b = (excluded, refl, a)
kept_files-starts P f excluded (file ∷ files) a b =
    if_ind (λ next. (rest : _) × (kept_files next files ≡ f ∷ rest) × All P rest)
      (is_kept (f ∷ excluded) file.version)
      (λ _.
        kept_files-starts P f (excluded ++ (file ∷ [])) files
          (All-append P excluded (file ∷ []) a (b.0, tt)) b.1)
      (λ _. kept_files-starts P f excluded files a b.1)

module _ {D V F : Type 0} (env : Env D V F) where
  abbrev new_backup : World D → Backup D
  new_backup w = record {
    name = env.backup_name;
    version = w.version;
    mts = env.now;
    contents = w.contents;
  }

  -- The folder starts with the new backup.
  abbrev StartsWith : Backup D → World D → Type 0
  StartsWith b w = (rest : List (Backup D)) × (w.backups ≡ b ∷ rest) × All (IsOlder b) rest

  backup-StartsWith :
      (w : World D)
      → PutsNewestFirst env.order_by
      → env.is_backup_done ≡ true
      → All (IsOlder (new_backup w)) w.backups
      → StartsWith (new_backup w) (backup env w).0
  unfolding backup backup_db manage_db_backup_files kept_files
  backup-StartsWith w law done older =
      let (files, e, a) = law (new_backup w) [] w.backups tt older in
      rw (done, e) (kept_files-starts (IsOlder (new_backup w)) (new_backup w) [] files tt a)

  execute-backups :
      (ver : ℕ) (is_down : Bool) (sql_arr : List (SqlObj V F)) (w : World D)
      → (execute env.execute_queries_in_trans ver is_down sql_arr w).0.backups ≡ w.backups
  unfolding execute
  execute-backups ver is_down [] w = refl
  execute-backups ver is_down (sql ∷ sql_arr) w = ground arith

  abbrev DoesStart : Backup D → List (Backup D) → Type 0
  DoesStart b files = (rest : List (Backup D)) × (files ≡ b ∷ rest) × All (IsOlder b) rest

  migrate_from_curr-StartsWith :
      (w : World D)
      → PutsNewestFirst env.order_by
      → env.is_backup_done ≡ true
      → All (IsOlder (new_backup w)) w.backups
      → env.is_db_empty w.contents ≡ false
      → w.version < env.supported_ver
      → StartsWith (new_backup w) (migrate_from_curr env w).0
  unfolding migrate_from_curr migrate_to_supported_ver
  migrate_from_curr-StartsWith w law done older full less =
      let b = new_backup w in
      let differs : (w.version == env.supported_ver) ≡ false = ground arith in
      rw (full, differs)
        (after-Keeps (StartsWith b) _
          (λ _.
            >>-Keeps (StartsWith b)
              (migrate env (range w.version env.supported_ver) (ltb env.supported_ver w.version)) _
              (migrate-Keeps env (StartsWith b) (λ _. Unit) (λ q t k. k) (λ message t k. k)
                (λ ver is_down sql_arr u t k.
                  subst (DoesStart b) (sym (execute-backups ver is_down sql_arr t)) k)
                _ _ (All-every _ _ (λ _. tt)))
              (>>-Keeps (StartsWith b) (run_query env.clean_up_temp_db) (run_query env.update_users)
                (λ t k. k) (λ t k. k)))
          _ _ (backup-StartsWith w law done older))

  restore_lem :
      (b : Backup D) (w : World D) (c : D)
      → PutsNewestFirst env.order_by
      → StartsWith b w
      → b.version ≤ env.supported_ver
      → ((d : D) → (env.update_scheduler false d).1 ≡ true)
      → ((d : D) → (env.stop_sync d).1 ≡ true)
      → env.update_scheduler true b.contents ≡ (c, true)
      → ((restore env w).1 ≡ ok true)
        × ((restore env w).0.contents ≡ c)
        × ((restore env w).0.version ≡ b.version)
  unfolding restore restore_db
  restore_lem b w c law (rest, e, a) le off stop on =
      let (files, f, g) = law b [] rest tt a in
      let suitable : leb b.version env.supported_ver ≡ true = ground arith in
      let start : env.order_by w.backups ≡ b ∷ files = ap env.order_by e ∙ f in
      ground (arith, off w.contents, stop (env.update_scheduler false w.contents).0)

  -- Where the database has tables, an older version and an older backup or none, its backup can be
  -- made, and a migration fails, and the parent process answers that it should be restored, the run
  -- ends without an error, at the version and with the contents from before it, but for the
  -- scheduler, which is switched on.
  pub migrate_from_curr-restore :
      (w : World D) (c : D)
      → PutsNewestFirst env.order_by
      → env.is_backup_done ≡ true
      → All (IsOlder (new_backup w)) w.backups
      → env.is_db_empty w.contents ≡ false
      → w.version < env.supported_ver
      → ((d : D) → (env.update_scheduler false d).1 ≡ true)
      → ((d : D) → (env.stop_sync d).1 ≡ true)
      → env.update_scheduler true w.contents ≡ (c, true)
      → env.response.should_restore ≡ true
      → (migrate_from_curr env (record w { is_legacy_alter_table = true })).1
        ≡ err migration_launching
      → ((migrate_from_curr_to_supported_ver env w).1 ≡ ok tt)
        × ((migrate_from_curr_to_supported_ver env w).0.contents ≡ c)
        × ((migrate_from_curr_to_supported_ver env w).0.version ≡ w.version)
  unfolding migrate_from_curr_to_supported_ver when_failed
  migrate_from_curr-restore w c law done older full less off stop on answer failed =
      let v : World D = record w { is_legacy_alter_table = true } in
      let t : World D = (migrate_from_curr env v).0 in
      let u : World D = record t { told = request_what_should_be_done ∷ t.told } in
      let r =
        restore_lem (new_backup w) u c law (migrate_from_curr-StartsWith v law done older full less)
          (omega arith) off stop on in
      ground arith
