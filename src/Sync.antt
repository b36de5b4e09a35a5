-- ===== src/Sync.antt =====
-- workers/loc.api/sync/index.js: `start` and `_sync`, around the queue's `process`.
--
-- A run is the list of the calls that it makes and its result or error. What each call answers is
-- the environment's, since other requests run in between. `setProgress` catches its own errors.
pub mod Settled
pub mod Guarded
mod Samples
use bfx_reports_framework.Base.{
  ℕ, Bool, true, false, not, ◌&&◌, ◌||◌, Option, none, some, List, [], ◌∷◌, ◌++◌, if◌then◌else◌,
}

-- `other_error` is any other thing that is thrown: whether it is an instance of `Error`.
pub data Err : Type 0 where
  coll_sync_permission sync_queue_owner_setting : Err
  other_error : Bool → Err

pub data Answer (A : Type 0) : Type 0 where
  ok : A → Answer A
  err : Err → Answer A

-- What `setProgress` is given
pub data Setting : Type 0 where
  zero_percent interrupted_state : Setting
  error_of : Err → Setting

pub data Call : Type 0 where
  is_scheduler_enabled get_progress add_to_queue ping_api process_queue emit_interrupted interrupt :
      Call
  activate_estimate deactivate_estimate : Call
  set_progress : Setting → Call
  redirect_requests : Bool → Call

-- The progress that a run returns: a number, a text or null
pub data Value : Type 0 where
  initial_value active_value null_value : Value
  number_value : ℕ → Value

pub record Env : Type 0 where
  pub is_enabled : Answer Bool
  pub is_sync_in_progress : Answer Bool
  pub add : Answer (Unit {0})
  pub early_progress : Answer Value
  pub ping : Answer (Unit {0})
  pub redirect_on : Answer (Unit {0})
  pub process : Answer Value
  pub redirect_off : Answer (Unit {0})
  pub interrupted_before : Bool
  pub last_progress : Answer Value
  pub interrupted_after : Bool
  pub interrupted : Answer Value

abbrev pub Run : Type 0 → Type 0
Run A = List Call × Answer A

abbrev pub after : {A B : Type 0} → List Call → Answer A → (A → Run B) → Run B
after calls (ok a) f = (calls ++ (f a).0, (f a).1)
after calls (err e) f = (calls, err e)

infixl 5 ◌>>=◌ ◌>>◌
abbrev pub ◌>>=◌ : {A B : Type 0} → Run A → (A → Run B) → Run B
m >>= f = after m.0 m.1 f

abbrev pub ◌>>◌ : {A B : Type 0} → Run A → Run B → Run B
m >> k = m >>= λ _. k

abbrev pub caught : {A : Type 0} → List Call → Answer A → (Err → Run A) → Run A
caught calls (ok a) f = (calls, ok a)
caught calls (err e) f = (calls ++ (f e).0, (f e).1)

-- `try` and `catch`
abbrev pub try_catch : {A : Type 0} → Run A → (Err → Run A) → Run A
try_catch m f = caught m.0 m.1 f

abbrev pub return : {A : Type 0} → A → Run A
return a = ([], ok a)

abbrev pub fail : {A : Type 0} → Err → Run A
fail e = ([], err e)

abbrev pub call : {A : Type 0} → Call → Answer A → Run A
call c answer = (c ∷ [], answer)

abbrev pub run_call : Call → Run (Unit {0})
run_call c = (c ∷ [], ok tt)

abbrev pub is_none {ℓ} : {A : Type ℓ} → Option A → Bool
is_none none = true
is_none (some a) = false

-- The run of the queue, in `_sync`: `errorForInterrupter`, and no run where `start` has failed
unfoldable pub run_queue : Env → Option Err → Run (Option Err)
run_queue env (some e) = return none
run_queue env none =
    try_catch (do run_call activate_estimate; call process_queue env.process; return none)
      (λ e. do run_call (set_progress (error_of e)); return (some e))

unfoldable pub redirect_back : Env → Option Err → Run (Option Err)
redirect_back env error_for_interrupter =
    try_catch (do call (redirect_requests false) env.redirect_off; return error_for_interrupter)
      (λ e. do run_call (set_progress (error_of e)); return (some e))

abbrev pub run_if : Bool → Call → Run (Unit {0})
run_if b c = if b then run_call c else return tt

-- `_sync`
unfoldable pub sync : Env → Option Err → Run Value
unfolding run_queue redirect_back
sync env error = do
  run_call deactivate_estimate
  queue_error ← run_queue env error
  run_call deactivate_estimate
  error_for_interrupter ← redirect_back env queue_error
  run_if (env.interrupted_before && is_none error_for_interrupter) (set_progress interrupted_state)
  curr_progress ← call get_progress env.last_progress
  run_if env.interrupted_after emit_interrupted
  return curr_progress

pub record StartParams : Type 0 where
  pub owner_user_id : Option ℕ
  pub is_owner_scheduler : Bool
  pub is_solve_after_redir_to_api : Bool

-- How the `try` of `start` ends: with a value that `start` returns, or it goes on, with an error or not.
pub data Begun : Type 0 where
  returned : Value → Begun
  going_on : Option Err → Begun

unfoldable pub check_owner : StartParams → Run (Unit {0})
check_owner params =
    if is_none params.owner_user_id && not params.is_owner_scheduler
    then fail sync_queue_owner_setting
    else return tt

-- After the queue: the sync that runs goes on, or this one starts.
unfoldable pub begin_sync : Env → Bool → Run Begun
begin_sync env false = do
  ping ← call ping_api env.ping
  run_call (set_progress zero_percent)
  call (redirect_requests true) env.redirect_on
  return (going_on none)
begin_sync env true = do progress ← call get_progress env.early_progress; return (returned progress)

unfoldable pub begin : Env → StartParams → Run Begun
unfolding check_owner begin_sync
begin env params = do
  check_owner params
  is_enable ← call is_scheduler_enabled env.is_enabled
  is_sync_in_progress ← call get_progress env.is_sync_in_progress
  (if is_enable then call add_to_queue env.add else return tt)
  begin_sync env (is_sync_in_progress || not is_enable)

-- The `catch` of `start`
unfoldable pub on_error : Err → Run Begun
on_error coll_sync_permission = fail coll_sync_permission
on_error sync_queue_owner_setting = do
  run_call (set_progress (error_of sync_queue_owner_setting))
  return (going_on (some sync_queue_owner_setting))
on_error (other_error is_error) = do
  run_call (set_progress (error_of (other_error is_error)))
  return (going_on (some (other_error is_error)))

abbrev pub is_error_instance : Err → Bool
is_error_instance coll_sync_permission = true
is_error_instance sync_queue_owner_setting = true
is_error_instance (other_error is_error) = is_error

-- A run in the background: its calls come later, and its error is dropped.
abbrev pub in_background : Run Value → Run Value
in_background m = (m.0, ok active_value)

unfoldable pub go_on : Env → StartParams → Begun → Run Value
unfolding sync
go_on env params (returned progress) = return progress
go_on env params (going_on none) =
    if params.is_owner_scheduler
    then sync env none
    else if params.is_solve_after_redir_to_api
    then in_background (sync env none)
    else sync env none
go_on env params (going_on (some e)) =
    if params.is_owner_scheduler
    then sync env (some e)
    else (sync env (some e) >>= λ res. if is_error_instance e then fail e else return res)

-- `start`
unfoldable pub start : Env → StartParams → Run Value
unfolding begin on_error go_on
start env params = try_catch (begin env params) on_error >>= go_on env params

-- `stop`
unfoldable pub stop : Env → Run Value
stop env = do
  run_call deactivate_estimate
  is_sync_in_progress ← call get_progress env.is_sync_in_progress
  if is_sync_in_progress then call interrupt env.interrupted else return initial_value
