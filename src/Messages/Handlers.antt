-- ===== src/Messages/Handlers.antt =====
-- process.message.manager/index.js: the handlers of the states, which run before the promises are
-- settled. With an error they only tell it.
use bfx_reports_framework.Base.{◌≡◌, Bool, true, false, List, ◌∷◌, if◌then◌else◌, arith}
use bfx_reports_framework.Base.Actions.{
  Action, Result, ok, pure, raise, lift, modify, catching, ◌>>=◌, ◌>>◌,
}
use bfx_reports_framework.Messages.{Err, db_restoring}

-- PROCESS_STATES
pub data ProcessState : Type 0 where
  clear_all_tables remove_all_tables restore_db backup_db prepare_db : ProcessState
  response_migration_has_failed_what_should_be_done : ProcessState
  request_get_backup_files_metadata : ProcessState
  request_update_users_sync_on_startup_required_state response_pdf_creation : ProcessState

-- The messages that the handlers send; the answers to a request say whether they hold an error.
pub data Told : Type 0 where
  all_table_have_been_cleared all_table_have_not_been_cleared : Told
  all_table_have_been_removed all_table_have_not_been_removed : Told
  error_backup db_has_been_prepared db_has_not_been_prepared db_has_not_been_restored : Told
  response_get_backup_files_metadata : Bool → Told
  response_update_users_sync_on_startup_required_state : Bool → Told

pub record World : Type 0 where
  pub are_foreign_keys_on : Bool
  pub told : List Told

abbrev pub Handler : Type 0
Handler = Action World Err (Unit {0})

-- What the DAO, the backup manager and the hook that recalculates balances answer
pub record Env : Type 0 where
  pub drop_tables_but_users : Result Err (Unit {0})
  pub drop_all_tables : Result Err (Unit {0})
  pub set_curr_db_ver : Result Err (Unit {0})
  pub disable_foreign_keys : Result Err (Unit {0})
  pub enable_foreign_keys : Result Err (Unit {0})
  pub backup : Result Err (Unit {0})
  pub recalc_balances : Result Err (Unit {0})
  pub restore : Result Err Bool
  pub backup_files_metadata : Result Err (Unit {0})
  pub update_users : Result Err (Unit {0})

abbrev pub tell : Told → Handler
tell message = modify (λ w. record w { told = message ∷ w.told })

abbrev set_foreign_keys : Bool → Handler
set_foreign_keys is_on = modify (λ w. record w { are_foreign_keys_on = is_on })

module _ (env : Env) where
  -- The handler of a state, as it is called without an error
  unfoldable pub run_handler : ProcessState → Handler
  run_handler clear_all_tables = do lift env.drop_tables_but_users; tell all_table_have_been_cleared
  run_handler remove_all_tables = do
    lift env.disable_foreign_keys
    set_foreign_keys false
    catching (do lift env.drop_all_tables; lift env.set_curr_db_ver)
        (λ e. do lift env.enable_foreign_keys; set_foreign_keys true; raise e)
    lift env.enable_foreign_keys
    set_foreign_keys true
    tell all_table_have_been_removed
  run_handler restore_db = do
    is_db_restored ← lift env.restore
    if is_db_restored then pure tt else raise db_restoring
  run_handler backup_db = lift env.backup
  run_handler prepare_db = do lift env.recalc_balances; tell db_has_been_prepared
  run_handler response_migration_has_failed_what_should_be_done = pure tt
  run_handler request_get_backup_files_metadata = do
    lift env.backup_files_metadata
    tell (response_get_backup_files_metadata false)
  run_handler request_update_users_sync_on_startup_required_state = do
    lift env.update_users
    tell (response_update_users_sync_on_startup_required_state false)
  run_handler response_pdf_creation = pure tt

-- With an error
unfoldable pub tell_error : ProcessState → Handler
tell_error clear_all_tables = tell all_table_have_not_been_cleared
tell_error remove_all_tables = tell all_table_have_not_been_removed
tell_error restore_db = tell db_has_not_been_restored
tell_error backup_db = tell error_backup
tell_error prepare_db = tell db_has_not_been_prepared
tell_error response_migration_has_failed_what_should_be_done = pure tt
tell_error request_get_backup_files_metadata = tell (response_get_backup_files_metadata true)
tell_error request_update_users_sync_on_startup_required_state =
    tell (response_update_users_sync_on_startup_required_state true)
tell_error response_pdf_creation = pure tt

-- The second call, after an error of the first, as `onMessage` makes it
unfoldable pub handle_state : Env → ProcessState → Handler
unfolding run_handler tell_error
handle_state env state = catching (run_handler env state) (λ e. tell_error state)

-- Whatever a state's handler meets, its message never ends with an error, and where foreign keys can be
-- switched on again, they are on after it as they were before.
handle_state_lem :
    (env : Env) (state : ProcessState) (w : World)
    → env.enable_foreign_keys ≡ ok tt
    → w.are_foreign_keys_on ≡ true
    → ((handle_state env state w).1 ≡ ok tt)
      × ((handle_state env state w).0.are_foreign_keys_on ≡ true)
unfolding handle_state run_handler tell_error
handle_state_lem env state w on before = ground arith
