-- ===== src/DbMigration/Migrator/Versions.antt =====
-- db.migrator.js: the version that the database has after a migration, failed or not.
use bfx_reports_framework.Base.{
  ℕ, zero, suc, ◌+◌, ◌-◌, ◌≤◌, ◌<◌, ◌≡◌, ◌⊎◌, ◌||◌, true, min, max, leb, leb→le, Bool-cases, inl,
  inr, ltb, ◌==◌, if_ind, Bool, List, [], ◌∷◌, All, All-reverse, arith,
}
use bfx_reports_framework.Base.ActionRules.{Keeps, if-Keeps, >>-Keeps}
use bfx_reports_framework.DbMigration.{World, DbAction, Query, run_query}
use bfx_reports_framework.DbMigration.Launch.{SqlObj, Trans, execute}
use bfx_reports_framework.DbMigration.Backups.{backup_db, manage_db_backup_files}
use bfx_reports_framework.DbMigration.Migrator.{
  Env, count_from, range, migrate, backup, migrate_to_supported_ver, migrate_from_curr, when_failed,
  migrate_from_curr_to_supported_ver,
}
use bfx_reports_framework.DbMigration.Migrator.Keeps.{migrate-Keeps}
use bfx_reports_framework.DbMigration.Migrator.Range.{range-up, range-down}

abbrev pub IsWithin : {D : Type 0} → ℕ → ℕ → World D → Type 0
IsWithin lo hi w = (lo ≤ w.version) × (w.version ≤ hi)

-- A version that a step between `lo` and `hi` passes
abbrev IsStep : ℕ → ℕ → ℕ → Type 0
IsStep lo hi ver = (lo < ver) × (ver ≤ hi)

query-Keeps : {D : Type 0} (lo hi : ℕ) (query : Query D) → Keeps (IsWithin lo hi) (run_query query)
query-Keeps lo hi query w k = k

count_from-IsStep :
    (lo hi offset n : ℕ)
    → lo < offset
    → offset + n ≤ hi + 1
    → All (IsStep lo hi) (count_from offset n)
count_from-IsStep lo hi offset zero h k = tt
count_from-IsStep lo hi offset (suc n) h k =
    ((h, omega arith), count_from-IsStep lo hi (offset + 1) n (omega arith) (omega arith))

range-IsStep : (a b : ℕ) → All (IsStep (min a b) (max a b)) (range a b)
range-IsStep a b = elim (Bool-cases (leb a b)) [
  | inl h ↦
      (let k : a ≤ b = leb→le a b h in
        rw (range-up a b k)
          (count_from-IsStep (min a b) (max a b) (a + 1) (b - a) (omega arith) (omega arith)))
  | inr h ↦
      (let k : b ≤ a = ground arith in
        rw (range-down b a k) (
          All-reverse _ (count_from (b + 1) (a - b))
            (count_from-IsStep (min a b) (max a b) (b + 1) (a - b) (omega arith) (omega arith))))
]

module _ {D V F : Type 0} where
  execute-Keeps :
      (trans : Trans D V F) (lo hi : ℕ) (ver : ℕ) (is_down : Bool) (sql_arr : List (SqlObj V F))
      → IsStep lo hi ver
      → Keeps (IsWithin lo hi) (execute trans ver is_down sql_arr)
  unfolding execute
  execute-Keeps trans lo hi ver is_down [] h w k = k
  execute-Keeps trans lo hi ver is_down (sql ∷ sql_arr) h w k = ground arith

  module _ (env : Env D V F) where
    backup-Keeps : (lo hi : ℕ) → Keeps (IsWithin lo hi) (backup env)
    unfolding backup backup_db manage_db_backup_files
    backup-Keeps lo hi w k = ground arith

    to_supported_lem :
        (w : World D)
        → IsWithin
            (min w.version env.supported_ver)
            (max w.version env.supported_ver)
            (migrate_to_supported_ver env w).0
    unfolding migrate_to_supported_ver
    to_supported_lem w =
        let lo = min w.version env.supported_ver in
        let hi = max w.version env.supported_ver in
        let P : World D → Type 0 = IsWithin lo hi in
        let k : P w = (omega arith, omega arith) in
        if-Keeps P (w.version == env.supported_ver) _ _ (λ _ t l. l)
          (λ _. >>-Keeps P (backup env) _ (backup-Keeps lo hi) (
            >>-Keeps P
              (migrate env (range w.version env.supported_ver) (ltb env.supported_ver w.version)) _
              (migrate-Keeps env P (IsStep lo hi) (query-Keeps lo hi) (λ message t l. l)
                (execute-Keeps env.execute_queries_in_trans lo hi) _ _
                (range-IsStep w.version env.supported_ver))
              (λ t l. ground arith)))
          w k

    from_curr_lem :
        (w : World D)
        → IsWithin
            (min w.version env.supported_ver)
            (max w.version env.supported_ver)
            (migrate_from_curr env w).0
    unfolding migrate_from_curr
    from_curr_lem w =
        if_ind {A = DbAction D (Unit {0})}
          (λ m.
            IsWithin (min w.version env.supported_ver) (max w.version env.supported_ver) (m w).0)
          (env.is_db_empty w.contents) (λ _. (omega arith, omega arith)) (λ _. to_supported_lem w)

    -- Whatever fails on the way, a backup, a migration, one of its hooks or its transaction, the
    -- version of the database after migrateFromCurrToSupportedVer of SqliteDbMigrator is between the
    -- version before and the one that the code supports, unless the parent process may answer that a
    -- backup should be restored or all tables removed.
    pub migrate_from_curr-IsWithin :
        (w : World D)
        → IsWithin
            (min w.version env.supported_ver)
            (max w.version env.supported_ver)
            (migrate_from_curr_to_supported_ver env w).0
          ⊎ ((env.response.should_restore || env.response.should_remove) ≡ true)
    unfolding migrate_from_curr_to_supported_ver when_failed
    migrate_from_curr-IsWithin w =
        let within = from_curr_lem (record w { is_legacy_alter_table = true }) in
        elim (Bool-cases (env.response.should_restore || env.response.should_remove)) [
          | inl answered ↦ inr answered
          | inr neither ↦ inl (ground arith)
        ]
