-- ===== src/DbMigration.antt =====
-- workers/loc.api/sync/dao/db-migrations with the backups of sync/dao/db.backup.manager: what the
-- database, its version, the folder of backups and the messages to the parent process go through.
--
-- The rest of the database is an abstract type. A query changes it and fails or not; a transaction
-- that fails changes nothing.
pub mod Launch
pub mod Backups
pub mod Migrator
mod Samples
use bfx_reports_framework.Base.{
  ℕ, String, Bool, true, false, Option, none, some, List, [], ◌∷◌, if◌then◌else◌,
}
use bfx_reports_framework.Base.Actions.{Action, Result, ok, err, modify}

pub data Error : Type 0 where
  db_version_type migration_launching sql_correctness implementation dao_error : Error

-- The states that are sent to the parent process
pub data Message : Type 0 where
  ready_migrations error_migrations backup_started backup_finished error_backup : Message
  request_what_should_be_done request_should_all_tables_be_removed : Message
  all_table_have_been_removed : Message
  db_has_been_restored : Bool → Message

-- A backup file: what its name says, and what it holds
pub record Backup (D : Type 0) : Type 0 where
  pub name : String
  pub version : ℕ
  pub mts : ℕ
  pub contents : D

-- `told` has the newest message first.
pub record World (D : Type 0) : Type 0 where
  pub contents : D
  pub version : ℕ
  pub is_legacy_alter_table : Bool
  pub backups : List (Backup D)
  pub told : List Message

abbrev pub Query : Type 0 → Type 0
Query D = D → D × Bool

abbrev pub DbAction : Type 0 → Type 0 → Type 0
DbAction D A = Action (World D) Error A

module _ {D : Type 0} where
  -- `sendState`
  abbrev pub send_state : Message → DbAction D (Unit {0})
  send_state message = modify (λ w. record w { told = message ∷ w.told })

  abbrev pub answered : World D → D × Bool → World D × Result Error (Unit {0})
  answered w (contents, is_done) =
      (record w { contents = contents }, if is_done then ok tt else err dao_error)

  abbrev pub run_query : Query D → DbAction D (Unit {0})
  run_query query w = answered w (query w.contents)

  -- `setCurrDbVer`
  abbrev pub set_curr_db_ver : ℕ → DbAction D (Unit {0})
  set_curr_db_ver version = modify (λ w. record w { version = version })
