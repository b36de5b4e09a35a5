-- ===== src/UserStep.antt =====
-- workers/loc.api/sync/data.inserter/sync.user.step.manager: which times of a collection are still
-- to be synced for a user. The base step goes back from the first sync, the current one goes on.
--
-- A time that is null or undefined is `none`. `min` and `max` are lib-js-util-base's.
pub mod Stored
pub mod NoGap
pub mod Ready
mod Samples
use bfx_reports_framework.Base.{
  ℕ, String, Bool, true, false, not, ◌&&◌, ◌||◌, ltb, ◌==◌, Option, none, some, List, [], ◌∷◌,
  if◌then◌else◌, filter, all,
}

-- sync.user.step.data.js
pub record SyncUserStepData : Type 0 where
  pub synced_at : Option ℕ
  pub symbol : Option String
  pub timeframe : Option String
  pub base_start : Option ℕ
  pub base_end : Option ℕ
  pub curr_start : Option ℕ
  pub curr_end : Option ℕ
  pub is_base_step_ready : Bool
  pub is_curr_step_ready : Bool
  pub was_base_steps_be_synced : Bool
  pub was_curr_steps_be_synced : Bool

abbrev pub is_integer : Option ℕ → Bool
is_integer none = false
is_integer (some n) = true

abbrev pub is_step : Option ℕ → Option ℕ → Bool
is_step none end = false
is_step (some start) none = false
is_step (some start) (some end) = ltb start end

unfoldable pub has_base_step : SyncUserStepData → Bool
has_base_step step = is_step step.base_start step.base_end

unfoldable pub has_curr_step : SyncUserStepData → Bool
has_curr_step step = is_step step.curr_start step.curr_end

pub record Opts : Type 0 where
  pub should_not_mts_be_checked : Bool
  pub should_start_mts_be_checked : Bool

unfoldable pub should_base_step_be_synced : Opts → SyncUserStepData → Bool
unfolding has_base_step
should_base_step_be_synced opts step =
    not step.is_base_step_ready
    && ((opts.should_not_mts_be_checked || has_base_step step)
        && (not opts.should_start_mts_be_checked || is_integer step.base_start))

unfoldable pub should_curr_step_be_synced : Opts → SyncUserStepData → Bool
unfolding has_curr_step
should_curr_step_be_synced opts step =
    not step.is_curr_step_ready
    && ((opts.should_not_mts_be_checked || has_curr_step step)
        && (not opts.should_start_mts_be_checked || is_integer step.curr_start))

abbrev pub is_non_empty {ℓ} : {A : Type ℓ} → List A → Bool
is_non_empty [] = false
is_non_empty (x ∷ xs) = true

-- `_wereBaseStepsSynced` and `_wereCurrStepsSynced`
unfoldable pub were_base_steps_synced : Opts → List SyncUserStepData → Bool
unfolding should_base_step_be_synced
were_base_steps_synced opts steps =
    let filtered = filter (should_base_step_be_synced opts) steps in
    is_non_empty filtered && all (λ step. step.was_base_steps_be_synced) filtered

unfoldable pub were_curr_steps_synced : Opts → List SyncUserStepData → Bool
unfolding should_curr_step_be_synced
were_curr_steps_synced opts steps =
    let filtered = filter (should_curr_step_be_synced opts) steps in
    is_non_empty filtered && all (λ step. step.was_curr_steps_be_synced) filtered

-- `wereStepsSynced`: the flags that are set
unfoldable pub were_steps_synced : Opts → List SyncUserStepData → Bool × Bool
unfolding were_base_steps_synced were_curr_steps_synced
were_steps_synced opts steps =
    (were_base_steps_synced opts steps, were_curr_steps_synced opts steps)

-- The row of the table of steps, without one all `none` and `false`
pub record Info : Type 0 where
  pub base_start : Option ℕ
  pub base_end : Option ℕ
  pub curr_start : Option ℕ
  pub curr_end : Option ℕ
  pub is_base_step_ready : Bool
  pub is_curr_step_ready : Bool
  pub synced_at : Option ℕ

-- The first and last elements of the main and the temporary table: each with its date, if it has one
pub record Elems : Type 0 where
  pub last_main : Option (Option ℕ)
  pub first_main : Option (Option ℕ)
  pub last_temp : Option (Option ℕ)
  pub first_temp : Option (Option ℕ)

-- The collection: `type` of its schema, and what the parameters say of the user
pub record Coll : Type 0 where
  pub is_candles : Bool
  pub is_public : Bool
  pub is_updatable : Bool
  pub has_user_id_field : Bool
  pub has_user_id_field_in_model : Bool
  pub symbol : Option String
  pub timeframe : Option String

abbrev pub mts_of : Option (Option ℕ) → Option ℕ
mts_of none = none
mts_of (some mts) = mts

abbrev pub is_empty : Option (Option ℕ) → Bool
is_empty none = true
is_empty (some mts) = false

-- `??`
abbrev pub or_else : Option ℕ → Option ℕ → Option ℕ
or_else none other = other
or_else (some n) other = some n

abbrev pub equal : Option ℕ → Option ℕ → Bool
equal none none = true
equal none (some n) = false
equal (some m) none = false
equal (some m) (some n) = m == n

module _ (min_start_mts : ℕ) (min max : List (Option ℕ) → Option ℕ) where
  -- `_getMinStart`
  unfoldable pub get_min_start : Option ℕ → Option ℕ
  get_min_start none = none
  get_min_start (some start) = if ltb start min_start_mts then some min_start_mts else some start

  -- A collection that was never synced: the step from its start to now
  unfoldable pub first_step : Coll → Info → Option ℕ → ℕ → SyncUserStepData
  unfolding get_min_start
  first_step coll info default_start curr_mts = record {
    synced_at = info.synced_at;
    symbol = coll.symbol;
    timeframe = coll.timeframe;
    base_start = or_else (get_min_start info.base_start) default_start;
    base_end = or_else info.base_end (some curr_mts);
    curr_start = none;
    curr_end = none;
    is_base_step_ready = false;
    is_curr_step_ready = false;
    was_base_steps_be_synced = false;
    was_curr_steps_be_synced = false;
  }

  unfoldable pub stored_step : Coll → Info → SyncUserStepData
  unfolding get_min_start
  stored_step coll info = record {
    synced_at = info.synced_at;
    symbol = coll.symbol;
    timeframe = coll.timeframe;
    base_start = get_min_start info.base_start;
    base_end = info.base_end;
    curr_start = info.curr_start;
    curr_end = info.curr_end;
    is_base_step_ready = info.is_base_step_ready;
    is_curr_step_ready = info.is_curr_step_ready;
    was_base_steps_be_synced = false;
    was_curr_steps_be_synced = false;
  }

  unfoldable pub set_curr_step :
      Coll → Info → Elems → Option ℕ → ℕ → SyncUserStepData → SyncUserStepData
  set_curr_step coll info elems default_start curr_mts step =
      if coll.is_updatable
      then record step { curr_start = default_start; curr_end = some curr_mts }
      else record step {
        curr_start = or_else (min (info.curr_start ∷ mts_of elems.last_main ∷ [])) default_start;
        curr_end =
            or_else (min (info.curr_end ∷ mts_of elems.first_temp ∷ []))
              (or_else (mts_of elems.last_main) (some curr_mts));
      }

  abbrev mark_empty_step : SyncUserStepData → SyncUserStepData
  mark_empty_step step =
      if equal step.base_start step.base_end
      then record step { is_base_step_ready = true }
      else step

  unfoldable pub set_base_step :
      Coll → Info → Elems → Option ℕ → ℕ → SyncUserStepData → SyncUserStepData
  unfolding get_min_start
  set_base_step coll info elems default_start curr_mts step = mark_empty_step (
      if coll.is_updatable
      then record step { base_start = default_start; base_end = some curr_mts }
      else record step {
        base_start =
            or_else (min (get_min_start info.base_start ∷ mts_of elems.first_main ∷ []))
              default_start;
        base_end =
            or_else (min (info.base_end ∷ mts_of elems.first_temp ∷ []))
              (or_else (mts_of elems.last_main) (some curr_mts));
      })

  unfoldable pub next_step : Coll → Info → Elems → Option ℕ → ℕ → SyncUserStepData
  unfolding first_step stored_step set_curr_step set_base_step
  next_step coll info elems default_start curr_mts =
      let stored = stored_step coll info in
      let curr =
        if info.is_curr_step_ready
        then stored
        else set_curr_step coll info elems default_start curr_mts stored in
      if not info.is_base_step_ready && (is_empty elems.last_main && is_empty elems.last_temp)
      then first_step coll info default_start curr_mts
      else if info.is_base_step_ready
      then curr
      else set_base_step coll info elems default_start curr_mts curr

  -- `getLastSyncedInfoForCurrColl`: `none` is the LastSyncedInfoGettingError. The default start may be
  -- no finite number.
  unfoldable pub get_last_synced_info :
      Coll → Info → Elems → Option ℕ → ℕ → Option (SyncUserStepData × Option ℕ)
  unfolding next_step get_min_start
  get_last_synced_info coll info elems default_start curr_mts =
      let should_coll_be_public =
        not coll.has_user_id_field || not coll.has_user_id_field_in_model in
      if not coll.is_candles
        && (coll.is_public && not should_coll_be_public
            || not coll.is_public && should_coll_be_public)
      then none
      else some (
        next_step coll info elems (get_min_start default_start) curr_mts,
        or_else (max (mts_of elems.last_temp ∷ mts_of elems.last_main ∷ []))
            (get_min_start default_start),
      )
