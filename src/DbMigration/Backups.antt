-- ===== src/DbMigration/Backups.antt =====
-- sync/dao/db.backup.manager/index.js: the files that are kept, and how one is restored.
--
-- `order_by` is lodash's, by version and time, both newest first.
pub mod Kept
use bfx_reports_framework.Base.{
  ℕ, ltb, leb, ◌==◌, String, str_eq, Bool, true, false, ◌&&◌, ◌||◌, not, filter, any, length, ◌++◌,
  Option, none, some, List, [], ◌∷◌, if◌then◌else◌,
}
use bfx_reports_framework.Base.Actions.{
  Action, pure, raise, gets, catching, modify, Result, ok, err, ◌>>=◌, ◌>>◌,
}
use bfx_reports_framework.DbMigration.{
  Error, Message, Backup, World, Query, DbAction, run_query, send_state, backup_started,
  backup_finished, error_backup, db_has_been_restored, dao_error,
}

module _ {D : Type 0} where
  -- `_getFirstUniqFilesByVer`, the loop with what it has found
  unfoldable pub first_uniq_files_by_ver : List (Backup D) → List (Backup D) → List (Backup D)
  first_uniq_files_by_ver res [] = res
  first_uniq_files_by_ver res (curr ∷ files) =
      first_uniq_files_by_ver
        (if any (λ m. m.version == curr.version) res then res else res ++ (curr ∷ [])) files

  abbrev is_first_ver : List (Backup D) → ℕ → Bool
  is_first_ver [] version = false
  is_first_ver (first ∷ files) version = first.version == version

  -- Whether `manageDBBackupFiles` keeps the next file, after the `excluded` ones
  unfoldable pub is_kept : List (Backup D) → ℕ → Bool
  unfolding first_uniq_files_by_ver
  is_kept excluded version =
      let others = filter (λ m. not (m.version == version)) (first_uniq_files_by_ver [] excluded) in
      let same = length (filter (λ m. m.version == version) excluded) in
      let is_first = is_first_ver excluded version in
      ltb (length others) 2
      && (ltb (if is_first then 0 else same) 1 && ltb (if is_first then same else 0) 2)

  -- The loop of `manageDBBackupFiles`: the files that are kept. The first file always is.
  unfoldable pub kept_files : List (Backup D) → List (Backup D) → List (Backup D)
  unfolding is_kept
  kept_files excluded [] = excluded
  kept_files [] (file ∷ files) = kept_files (file ∷ []) files
  kept_files (first ∷ excluded) (file ∷ files) =
      kept_files
        (if is_kept (first ∷ excluded) file.version
          then (first ∷ excluded) ++ (file ∷ [])
          else first ∷ excluded)
        files

  abbrev pub find : (Backup D → Bool) → List (Backup D) → Option (Backup D)
  find p [] = none
  find p (file ∷ files) = if p file then some file else find p files

  module _ (order_by : List (Backup D) → List (Backup D)) where
    -- `getBackupFilesMetadata`
    abbrev pub get_backup_files_metadata : World D → List (Backup D)
    get_backup_files_metadata w = order_by w.backups

    unfoldable pub manage_db_backup_files : DbAction D (Unit {0})
    unfolding kept_files
    manage_db_backup_files =
        modify (λ w. record w { backups = kept_files [] (get_backup_files_metadata w) })

    module _ (name : String) (now : ℕ) (is_backup_done : Bool) where
      abbrev write_backup : DbAction D (Unit {0})
      write_backup w = (
        record w {
          backups =
              record { name = name; version = w.version; mts = now; contents = w.contents }
              ∷ w.backups;
        },
        ok tt,
      )

      -- `backupDb`: its errors are caught.
      unfoldable pub backup_db : DbAction D (Unit {0})
      unfolding manage_db_backup_files
      backup_db =
          catching
            (do
              send_state backup_started
              (if is_backup_done then write_backup else raise dao_error)
              manage_db_backup_files
              send_state backup_finished)
            (λ e. send_state error_backup)

    module _ (supported_ver : ℕ) (update_scheduler : Bool → Query D) (stop : Query D) where
      abbrev is_suitable : Option String → Option ℕ → Backup D → Bool
      is_suitable (some name) version m = str_eq m.name name
      is_suitable none (some version) m = leb m.version version
      is_suitable none none m = leb m.version supported_ver

      -- `restartDb` with the middleware that exchanges the file
      abbrev restart_db : Backup D → DbAction D (Unit {0})
      restart_db file = modify (λ w. record w {
        contents = file.contents;
        version = file.version;
        is_legacy_alter_table = false;
      })

      abbrev restore : Option (Backup D) → DbAction D Bool
      restore none = pure false
      restore (some file) = do
        run_query (update_scheduler false)
        run_query stop
        restart_db file
        run_query (update_scheduler true)
        send_state (db_has_been_restored (not (file.version == supported_ver)))
        pure true

      -- `restoreDb`
      unfoldable pub restore_db : Option String → Option ℕ → DbAction D Bool
      restore_db name version = do
        files ← gets get_backup_files_metadata
        restore (find (is_suitable name version) files)
