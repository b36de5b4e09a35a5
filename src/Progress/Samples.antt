-- ===== src/Progress/Samples.antt =====
-- Small inputs of the progress, and what they give.
use bfx_reports_framework.Base.{◌↔◌, ◌<◌, ℕ, ◌≡◌, refl, true, false, Option, none, some, [], ◌++◌}
use bfx_reports_framework.Progress.States.{number, text, Progress, Env}
use bfx_reports_framework.Progress.{
  shift_up, shift_down, floor_left_time, is_sync_in_progress, set_progress,
}
use bfx_reports_framework.Progress.ErrorText.{test_error, search_error}
use bfx_reports_framework.Category.Patterns.{is_prefix, to_lower_case, lower}
use bfx_reports_framework.Progress.Stored.{set_progress-is_sync_in_progress}
use bfx_reports_framework.Progress.Told.{messages_of, told_of, set_progress-told_of}

abbrev progress_at : Option ℕ → Progress
progress_at left = record {
  sync_started_at = some 1000;
  is_interval_launched = true;
  error = none;
  progress = some 25;
  state = some "SYNCHRONIZATION_IS_STARTED";
  has_not_progress_changed = true;
  left_time = left;
  candles_left_time = none;
  prev_estimated_left_time = 1100;
  last_index = 0;
  row = record { value = some 25; error = none; state = some "SYNCHRONIZATION_IS_STARTED" };
  effects = [];
}

abbrev calm : Env
calm = record { now = 1100; dao_fails = false; emit_fails = false }

-- The same text is an error, and is none when it is tested again.
test_error_first : test_error "ERR_AUTH" 0 ≡ (true, 4)
unfolding test_error search_error is_prefix to_lower_case lower
test_error_first = refl

test_error_again : test_error "ERR_AUTH" 4 ≡ (false, 0)
unfolding test_error search_error is_prefix to_lower_case lower
test_error_again = refl

-- 5 percent after 23 milliseconds: the exact value is 437, the one in double precision is below it.
floored : floor_left_time 23 5 ≡ 436
unfolding floor_left_time shift_up shift_down
floored = refl

set_progress-told_of_example :
    messages_of (set_progress calm (text "ERR_AUTH") (progress_at none)).effects
    ≡ messages_of (progress_at none).effects ++ told_of (text "ERR_AUTH") 0
set_progress-told_of_example = set_progress-told_of calm (text "ERR_AUTH") (progress_at none)

set_progress-is_sync_in_progress_example :
    (is_sync_in_progress (set_progress calm (number 30) (progress_at none)).row ≡ true)
    ↔ ((n : ℕ) × (number 30 ≡ number n) × (n < 100))
set_progress-is_sync_in_progress_example =
    set_progress-is_sync_in_progress calm (number 30) (progress_at none) refl
