-- ===== src/Progress/LeftTime.antt =====
-- workers/loc.api/sync/progress/index.js: `_calcLeftTime` and `_estimateSyncTime`.
use bfx_reports_framework.Base.{ℕ, ◌-◌, true, List, [], ◌∷◌}
use bfx_reports_framework.Progress.States.{Progress}
use bfx_reports_framework.Progress.{calc_left_time}

-- The interval's estimates, one after another, at the given times.
unfoldable pub count_down : ℕ → ℕ → List ℕ → Progress → Progress
unfolding calc_left_time
count_down progress started [] p = p
count_down progress started (now ∷ times) p =
    count_down progress started times (calc_left_time progress now (now - started) true p).1
