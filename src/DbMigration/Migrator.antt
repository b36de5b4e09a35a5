-- ===== src/DbMigration/Migrator.antt =====
-- db.migrator.js, sqlite.db.migrator.js and di/factories/migrations-factory.js: from the version of
-- the database to the one that the code supports.
pub mod Keeps
pub mod Range
pub mod Told
pub mod Versions
pub mod Reversal
pub mod Restored
use mathlib.Core.List.{reverse}
use bfx_reports_framework.Base.{
  ℕ, zero, suc, ◌+◌, ◌-◌, ltb, ◌==◌, String, Bool, true, false, not, filter, ◌++◌, Option, none,
  some, List, [], ◌∷◌, if◌then◌else◌,
}
use bfx_reports_framework.Base.Actions.{
  Action, pure, raise, gets, catching, modify, for_each, ◌>>=◌, ◌>>◌,
}
use bfx_reports_framework.DbMigration.{
  Error, Message, Backup, World, Query, DbAction, run_query, set_curr_db_ver, send_state,
  ready_migrations, error_migrations, request_what_should_be_done,
  request_should_all_tables_be_removed, all_table_have_been_removed, db_version_type,
  migration_launching, sql_correctness, implementation, dao_error,
}
use bfx_reports_framework.DbMigration.Launch.{Migration, Trans, launch}
use bfx_reports_framework.DbMigration.Backups.{backup_db, restore_db}

abbrev pub count_from : ℕ → ℕ → List ℕ
count_from offset zero = []
count_from offset (suc n) = offset ∷ count_from (offset + 1) n

-- `range`: the versions after the first and up to the second, downwards the other way round.
unfoldable pub range : ℕ → ℕ → List ℕ
range start end =
    if ltb end start
    then reverse (count_from (end + 1) (start - end))
    else count_from (start + 1) (end - start)

-- What the parent process answers when a migration has failed
pub record Response : Type 0 where
  pub should_restore : Bool
  pub should_remove : Bool

-- What the migrator works with. `files` are the migrations in the order of their files.
pub record Env (D V F : Type 0) : Type 0 where
  pub supported_ver : ℕ
  pub files : List (Migration D V F)
  pub execute_queries_in_trans : Trans D V F
  pub is_db_empty : D → Bool
  pub order_by : List (Backup D) → List (Backup D)
  pub backup_name : String
  pub now : ℕ
  pub is_backup_done : Bool
  pub clean_up_temp_db : Query D
  pub update_users : Query D
  pub update_scheduler : Bool → Query D
  pub stop_sync : Query D
  pub response : Response
  pub drop_all_tables : Query D
  pub set_foreign_keys : Bool → Query D

module _ {D V F : Type 0} (env : Env D V F) where
  -- `_lookUpMigrations`
  abbrev pub look_up_migrations : ℕ → List (Migration D V F)
  look_up_migrations ver = filter (λ m. m.version == ver) env.files

  abbrev pub fail_to_launch : {A : Type 0} → DbAction D A
  fail_to_launch = do send_state error_migrations; raise migration_launching

  abbrev pub found : List (Migration D V F) → DbAction D (List (Migration D V F))
  found [] = fail_to_launch
  found (m ∷ migrations) = pure (m ∷ migrations)

  -- The migrations factory
  unfoldable pub get_migrations : List ℕ → DbAction D (List (Migration D V F))
  get_migrations [] = pure []
  get_migrations (ver ∷ versions) = do
    migrations ← found (look_up_migrations ver)
    rest ← get_migrations versions
    pure (migrations ++ rest)

  unfoldable pub launch_or_tell : Bool → Migration D V F → DbAction D (Unit {0})
  launch_or_tell is_down m =
      catching (launch env.execute_queries_in_trans m is_down) (λ e. fail_to_launch)

  -- `migrate`
  unfoldable pub migrate : List ℕ → Bool → DbAction D (Unit {0})
  unfolding launch_or_tell
  migrate versions is_down = do
    migrations ← get_migrations versions
    for_each migrations (launch_or_tell is_down)
    send_state ready_migrations

  unfoldable pub backup : DbAction D (Unit {0})
  backup = backup_db env.order_by env.backup_name env.now env.is_backup_done

  -- `migrateFromCurrToSupportedVer` of the base class, for a database with tables
  unfoldable pub migrate_to_supported_ver : DbAction D (Unit {0})
  migrate_to_supported_ver = do
    curr_ver ← gets (λ w. w.version)
    if curr_ver == env.supported_ver then pure tt else do
      backup
      migrate (range curr_ver env.supported_ver) (ltb env.supported_ver curr_ver)
      run_query env.clean_up_temp_db
      run_query env.update_users

  unfoldable pub migrate_from_curr : DbAction D (Unit {0})
  migrate_from_curr = do
    is_empty ← gets (λ w. env.is_db_empty w.contents)
    if is_empty then pure tt else migrate_to_supported_ver

  -- The handler of the state REMOVE_ALL_TABLES
  unfoldable pub remove_all_tables : DbAction D (Unit {0})
  remove_all_tables = do
    run_query (env.set_foreign_keys false)
    catching (do run_query env.drop_all_tables; set_curr_db_ver 0)
        (λ e. do run_query (env.set_foreign_keys true); raise e)
    run_query (env.set_foreign_keys true)
    send_state all_table_have_been_removed

  unfoldable pub restore : DbAction D Bool
  restore = restore_db env.order_by env.supported_ver env.update_scheduler env.stop_sync none none

  -- After a failed restore the parent process is asked, and its message runs the handler.
  abbrev pub after_restore : Bool → DbAction D (Unit {0})
  after_restore true = pure tt
  after_restore false = do send_state request_should_all_tables_be_removed; remove_all_tables

  unfoldable pub when_failed : Error → DbAction D (Unit {0})
  when_failed e = do
    send_state request_what_should_be_done
    if env.response.should_restore
        then (restore >>= after_restore)
        else if env.response.should_remove
        then remove_all_tables
        else raise e

  abbrev pub on_error : Error → DbAction D (Unit {0})
  on_error migration_launching = when_failed migration_launching
  on_error e = raise e

  abbrev set_legacy_alter_table : Bool → DbAction D (Unit {0})
  set_legacy_alter_table is_legacy = modify (λ w. record w { is_legacy_alter_table = is_legacy })

  -- `migrateFromCurrToSupportedVer` of SqliteDbMigrator
  unfoldable pub migrate_from_curr_to_supported_ver : DbAction D (Unit {0})
  unfolding when_failed
  migrate_from_curr_to_supported_ver =
      catching (do set_legacy_alter_table true; migrate_from_curr; set_legacy_alter_table false)
        on_error
