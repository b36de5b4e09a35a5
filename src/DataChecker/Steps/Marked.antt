-- ===== src/DataChecker/Steps/Marked.antt =====
-- data.checker/index.js: HAS_NEW_DATA and START of a collection, after the check of one step.
use bfx_reports_framework.Base.{
  ℕ, ◌≡◌, refl, sym, if_ind, Bool, true, false, not, ◌&&◌, ◌||◌, Option, none, some, List, [], ◌∷◌,
  ◌++◌,
}
use bfx_reports_framework.Base.Int.{ℤ}
use bfx_reports_framework.UserStep.{SyncUserStepData}
use bfx_reports_framework.DataChecker.{Auth, StartItem, Schema}
use bfx_reports_framework.DataChecker.Steps.{
  is_ready, push, push_unready, reset_sync_schema_props, should_fresh_sync_be_added,
  was_start_point_changed, check_item, check_conf, check_candles, check_updatable,
}

abbrev pub has_start : List StartItem → Bool
has_start [] = false
has_start (item ∷ start) = true

-- HAS_NEW_DATA says whether START has steps.
pub IsMarked : Schema → Type 0
IsMarked schema = schema.has_new_data ≡ has_start schema.start

pub IsMarked-intro :
    (schema : Schema) → schema.has_new_data ≡ has_start schema.start → IsMarked schema
unfolding IsMarked
IsMarked-intro schema h = h

pub IsMarked-elim :
    (schema : Schema) → IsMarked schema → schema.has_new_data ≡ has_start schema.start
unfolding IsMarked
IsMarked-elim schema h = h

pub reset-IsMarked : (schema : Schema) → IsMarked (reset_sync_schema_props schema)
unfolding IsMarked reset_sync_schema_props
reset-IsMarked schema = refl

has_start-append :
    (start : List StartItem) (item : StartItem) → has_start (start ++ (item ∷ [])) ≡ true
has_start-append [] item = refl
has_start-append (x ∷ start) item = refl

push-IsMarked :
    (step : SyncUserStepData) (auth : Option Auth) (schema : Schema)
    → IsMarked (push step auth schema)
unfolding IsMarked push
push-IsMarked step auth schema =
    sym (has_start-append schema.start (record { step = step; auth = auth }))

pub check_updatable-IsMarked :
    (last : SyncUserStepData × Option ℕ) (schema : Schema) → IsMarked (check_updatable last schema)
unfolding check_updatable
check_updatable-IsMarked (step, last_mts) schema = push-IsMarked _ _ schema

module _ (diff : ℕ → ℕ → ℤ) (year day_of_year : ℕ → ℕ) where
  push_unready-IsMarked :
      (step : SyncUserStepData) (schema : Schema)
      → IsMarked schema
      → IsMarked (push_unready diff year day_of_year step schema)
  push_unready-IsMarked step schema h =
      if_ind IsMarked (is_ready step) (λ _. h) (λ _. push-IsMarked step none schema)

  pub check_item-IsMarked :
      (now : ℕ) (last : SyncUserStepData × Option ℕ) (schema : Schema)
      → IsMarked schema
      → IsMarked (check_item diff year day_of_year now last schema)
  unfolding check_item
  check_item-IsMarked now (step, last_mts) schema h =
      if_ind IsMarked (should_fresh_sync_be_added diff year day_of_year step now none)
        (λ _. push-IsMarked _ _ _) (λ _. push_unready-IsMarked step schema h)

  pub check_conf-IsMarked :
      (is_updatable : Bool) (now start : ℕ) (last : SyncUserStepData × Option ℕ) (schema : Schema)
      → IsMarked schema
      → IsMarked (check_conf diff year day_of_year is_updatable now start last schema)
  unfolding check_conf
  check_conf-IsMarked is_updatable now start (step, last_mts) schema h =
      if_ind IsMarked is_updatable
        (λ _. if_ind IsMarked (is_ready step) (λ _. push-IsMarked _ _ _) (λ _. push-IsMarked _ _ _))
        (λ _.
          if_ind IsMarked
            (not (was_start_point_changed diff year day_of_year step start)
              && not (should_fresh_sync_be_added diff year day_of_year step now none))
            (λ _. push_unready-IsMarked step schema h) (λ _. push-IsMarked _ _ _))

  pub check_candles-IsMarked :
      (now first_ledger_mts : ℕ) (auth : Auth) (last : SyncUserStepData × Option ℕ)
      (schema : Schema)
      → IsMarked schema
      → IsMarked (check_candles diff year day_of_year now first_ledger_mts auth last schema)
  unfolding check_candles
  check_candles-IsMarked now first_ledger_mts auth (step, last_mts) schema h =
      if_ind IsMarked
        (schema.has_new_data
          || (not (is_ready step)
              || (was_start_point_changed diff year day_of_year step first_ledger_mts
                  || should_fresh_sync_be_added diff year day_of_year step now (some 1))))
        (λ _. push-IsMarked _ _ _) (λ _. h)
