-- ===== src/DataChecker/Steps.antt =====
-- data.checker/index.js: the tests of one step, and what a check of one collection adds to it.
pub mod Marked
use bfx_reports_framework.Base.{
  ℕ, ◌+◌, leb, ltb, String, Bool, true, false, not, ◌&&◌, ◌||◌, Option, none, some, List, [], ◌∷◌,
  ◌++◌, if◌then◌else◌, max,
}
use bfx_reports_framework.Base.Int.{ℤ, pos, ltb_ℤ}
use bfx_reports_framework.UserStep.{SyncUserStepData, has_base_step, has_curr_step, or_else}
use bfx_reports_framework.DataChecker.{Auth, StartItem, Schema}

-- The factory with `getParams`, which leaves `syncedAt` out
unfoldable pub fresh_step : SyncUserStepData → SyncUserStepData
fresh_step step = record step {
  synced_at = none;
  was_base_steps_be_synced = false;
  was_curr_steps_be_synced = false;
}

abbrev pub is_ready : SyncUserStepData → Bool
is_ready step = step.is_base_step_ready && step.is_curr_step_ready

unfoldable pub push : SyncUserStepData → Option Auth → Schema → Schema
push step auth schema = record schema {
  has_new_data = true;
  start = schema.start ++ (record { step = step; auth = auth } ∷ []);
}

-- `_resetSyncSchemaProps`
unfoldable pub reset_sync_schema_props : Schema → Schema
reset_sync_schema_props schema = record schema { has_new_data = false; start = [] }

abbrev pub mts_if : Bool → Option ℕ → ℕ
mts_if false mts = 0
mts_if true none = 0
mts_if true (some mts) = mts

-- One round of `_checkNewPublicUpdatableData`, for the collections without configuration
unfoldable pub check_updatable : SyncUserStepData × Option ℕ → Schema → Schema
unfolding fresh_step
check_updatable (step, last_mts) schema =
    push (if is_ready step then record (fresh_step step) { is_curr_step_ready = false } else step)
      none schema

module _ (diff : ℕ → ℕ → ℤ) (year day_of_year : ℕ → ℕ) where
  abbrev pub max_end : SyncUserStepData → ℕ
  max_end step =
      max (mts_if (not step.is_base_step_ready && has_base_step step) step.base_end)
        (mts_if (not step.is_curr_step_ready && has_curr_step step) step.curr_end)

  abbrev pub synced_mts : SyncUserStepData → ℕ
  synced_mts step = mts_if true step.synced_at

  abbrev pub is_days_later : Option ℕ → ℕ → ℕ → Bool
  is_days_later none synced_at curr_mts = true
  is_days_later (some days) synced_at curr_mts =
      ltb (year synced_at) (year curr_mts)
      || leb (day_of_year synced_at + days) (day_of_year curr_mts)

  -- `_shouldFreshSyncBeAdded`, with 60 minutes
  unfoldable pub should_fresh_sync_be_added : SyncUserStepData → ℕ → Option ℕ → Bool
  should_fresh_sync_be_added step curr_mts days =
      ltb_ℤ (pos 60) (diff curr_mts (max_end step)) && is_days_later days (synced_mts step) curr_mts

  -- `_wasStartPointChanged`, with 5 minutes
  unfoldable pub was_start_point_changed : SyncUserStepData → ℕ → Bool
  was_start_point_changed step start_mts =
      ltb_ℤ (pos 5)
        (diff (mts_if (step.is_base_step_ready && has_base_step step) step.base_start) start_mts)

  abbrev pub push_unready : SyncUserStepData → Schema → Schema
  push_unready step schema = if is_ready step then schema else push step none schema

  -- `_checkItemNewDataArrObjType`, from what the step manager has returned
  unfoldable pub check_item : ℕ → SyncUserStepData × Option ℕ → Schema → Schema
  unfolding should_fresh_sync_be_added fresh_step
  check_item curr_mts (step, last_mts) schema =
      if should_fresh_sync_be_added step curr_mts none
      then push
          (record (fresh_step step) {
            curr_start = last_mts;
            curr_end = some curr_mts;
            is_curr_step_ready = false;
          })
          none (push_unready step schema)
      else push_unready step schema

  -- The step that `_checkNewConfigurablePublicData` adds where the start or the end has moved
  unfoldable pub moved_step : ℕ → ℕ → SyncUserStepData × Option ℕ → Bool → Bool → SyncUserStepData
  unfolding fresh_step
  moved_step curr_mts start (step, last_mts) was_changed should_be_added =
      let ready : SyncUserStepData = record (fresh_step step) {
        is_base_step_ready = true;
        is_curr_step_ready = true;
      } in
      let with_base : SyncUserStepData =
        if was_changed
        then record ready {
          base_start = some start;
          base_end = step.base_start;
          is_base_step_ready = false;
        }
        else ready in
      if should_be_added
      then record with_base {
        curr_start = last_mts;
        curr_end = some curr_mts;
        is_curr_step_ready = false;
      }
      else with_base

  -- One round of `_checkNewConfigurablePublicData`
  unfoldable pub check_conf : Bool → ℕ → ℕ → SyncUserStepData × Option ℕ → Schema → Schema
  unfolding should_fresh_sync_be_added was_start_point_changed moved_step fresh_step
  check_conf is_updatable curr_mts start (step, last_mts) schema =
      if is_updatable
      then (if is_ready step
          then push
              (record (fresh_step step) { curr_start = some start; is_curr_step_ready = false })
              none schema
          else push step none schema)
      else (let was_changed = was_start_point_changed step start in
          let should_be_added = should_fresh_sync_be_added step curr_mts none in
          if not was_changed && not should_be_added
          then push_unready step schema
          else push (moved_step curr_mts start (step, last_mts) was_changed should_be_added) none
              (push_unready step schema))

  unfoldable pub candles_step : ℕ → ℕ → SyncUserStepData × Option ℕ → SyncUserStepData
  unfolding should_fresh_sync_be_added was_start_point_changed
  candles_step curr_mts first_ledger_mts (step, last_mts) =
      let with_base : SyncUserStepData =
        if was_start_point_changed step first_ledger_mts
        then record step { base_start = some first_ledger_mts; is_base_step_ready = false }
        else step in
      let with_curr : SyncUserStepData =
        if should_fresh_sync_be_added step curr_mts (some 1)
        then record with_base {
          curr_start = last_mts;
          curr_end = some curr_mts;
          is_curr_step_ready = false;
        }
        else with_base in
      if with_curr.is_base_step_ready then with_curr else record with_curr {
        base_end = or_else with_curr.curr_end (some curr_mts);
        is_curr_step_ready = true;
      }

  -- One round of `_checkNewCandlesData`
  unfoldable pub check_candles : ℕ → ℕ → Auth → SyncUserStepData × Option ℕ → Schema → Schema
  unfolding should_fresh_sync_be_added was_start_point_changed candles_step
  check_candles curr_mts first_ledger_mts auth (step, last_mts) schema =
      if schema.has_new_data
        || (not (is_ready step)
            || (was_start_point_changed step first_ledger_mts
                || should_fresh_sync_be_added step curr_mts (some 1)))
      then push (candles_step curr_mts first_ledger_mts (step, last_mts)) (some auth) schema
      else schema
