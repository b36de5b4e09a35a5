-- ===== src/Sync/Samples.antt =====
-- A start of the sync, and what it does.
use bfx_reports_framework.Base.{◌≡◌, ◌⊎◌, refl, true, false, some, [], ◌∷◌, if◌then◌else◌}
use bfx_reports_framework.Sync.{
  ok, err, other_error, is_scheduler_enabled, get_progress, add_to_queue, ping_api, process_queue,
  activate_estimate, deactivate_estimate, set_progress, zero_percent, error_of, redirect_requests,
  null_value, number_value, Env, StartParams, run_queue, redirect_back, sync, check_owner,
  begin_sync, begin, on_error, go_on, start,
}
use bfx_reports_framework.Sync.Settled.{is_redirected, last_estimate, start-settles}
use bfx_reports_framework.Sync.Guarded.{count_runs, is_let_through, start-count_runs}

-- The queue's run throws.
abbrev failing : Env
failing = record {
  is_enabled = ok true;
  is_sync_in_progress = ok false;
  add = ok tt;
  early_progress = ok null_value;
  ping = ok tt;
  redirect_on = ok tt;
  process = err (other_error true);
  redirect_off = ok tt;
  interrupted_before = false;
  last_progress = ok (number_value 30);
  interrupted_after = false;
  interrupted = ok null_value;
}

abbrev by_owner : StartParams
by_owner = record {
  owner_user_id = some 1;
  is_owner_scheduler = false;
  is_solve_after_redir_to_api = false;
}

run_of_failing_queue : start failing by_owner ≡ (
  is_scheduler_enabled
      ∷ get_progress
      ∷ add_to_queue
      ∷ ping_api
      ∷ set_progress zero_percent
      ∷ redirect_requests true
      ∷ deactivate_estimate
      ∷ activate_estimate
      ∷ process_queue
      ∷ set_progress (error_of (other_error true))
      ∷ deactivate_estimate
      ∷ redirect_requests false
      ∷ get_progress
      ∷ [],
  ok (number_value 30),
)
unfolding start begin check_owner begin_sync on_error go_on sync run_queue redirect_back
run_of_failing_queue = refl

start-settles_example :
    ((is_redirected failing (start failing by_owner).0 false ≡ false) ⊎ (false ≡ true))
    × (last_estimate (start failing by_owner).0 (some false) ≡ some false)
start-settles_example = start-settles failing by_owner (λ e. cc) (λ e. cc)

start-count_runs_example :
    count_runs (start failing by_owner).0 ≡ (if is_let_through failing by_owner then 1 else 0)
start-count_runs_example = start-count_runs failing by_owner
