-- ===== src/Progress.antt =====
-- workers/loc.api/sync/progress/index.js: how far the sync is, as a row of the database, as the
-- estimate that is sent to the clients, and as a message to the parent process.
--
-- A finite number is a natural one, since a share of work is: the sync sets floors of percents.
-- The estimate's division and product are those of double precision. Times are milliseconds.
pub mod States
pub mod ErrorText
pub mod LeftTime
pub mod Stored
pub mod Told
mod Samples
use Prim.Native.Nat.{◌^◌}
use bfx_reports_framework.Base.{
  ℕ, zero, suc, ◌%◌, String, Bool, true, false, not, ◌&&◌, ◌||◌, Option, none, some, List, [], ◌∷◌,
  ◌++◌, str_eq, if◌then◌else◌, ltb, leb, ◌==◌, ◌+◌, ◌-◌, ◌*◌, ◌/◌,
}
use States.{
  Input, number, text, failure, other, Row, Estimate, Message, error_sync, ready_sync, Effect,
  stored, emitted, logged, sent_all, Progress, Env, is_state, active_progress, finished_progress,
  interrupted_progress,
}
use ErrorText.{test_error}

-- `_isError`, with the `lastIndex` that the test leaves in the regular expression.
unfoldable pub is_error : Input → ℕ → Bool × ℕ
unfolding test_error
is_error (failure f) last_index = (true, last_index)
is_error (text s) last_index = test_error s last_index
is_error (number n) last_index = (false, last_index)
is_error other last_index = (false, last_index)

unfoldable pub error_of : Input → Option String
error_of (failure f) = elim f.status_message [ none ↦ some f.to_string | some m ↦ some m ]
error_of (text s) = some s
error_of (number n) = none
error_of other = none

unfoldable pub value_of : Input → Option ℕ
value_of (number n) = some n
value_of (text s) = none
value_of (failure f) = none
value_of other = none

unfoldable pub is_state_input : Input → Bool
unfolding is_state
is_state_input (text s) = is_state s
is_state_input (number n) = false
is_state_input (failure f) = false
is_state_input other = false

-- `_getSyncProgressState`, for an input that is not one of the states
unfoldable pub state_of_number : Input → Bool → Option String
state_of_number (number n) true = none
state_of_number (number n) false =
    if leb 100 n then some finished_progress else some active_progress
state_of_number (text s) failed = if failed then none else some active_progress
state_of_number (failure f) failed = if failed then none else some active_progress
state_of_number other failed = if failed then none else some active_progress

unfoldable pub get_sync_progress_state : Input → Bool → Option String
unfolding is_state state_of_number
get_sync_progress_state (text s) failed =
    if is_state s then some s else state_of_number (text s) failed
get_sync_progress_state (number n) failed = state_of_number (number n) failed
get_sync_progress_state (failure f) failed = state_of_number (failure f) failed
get_sync_progress_state other failed = state_of_number other failed

abbrev pub is_some_text : Option String → String → Bool
is_some_text none s = false
is_some_text (some r) s = str_eq r s

-- `_sendSyncCompletionStateByIPC`
unfoldable pub send_sync_completion_state_by_ipc : Bool → Option String → List Message
send_sync_completion_state_by_ipc failed state =
    let is_finished = is_some_text state finished_progress in
    let is_interrupted = is_some_text state interrupted_progress in
    if failed
    then error_sync ∷ []
    else if not is_finished && not is_interrupted
    then []
    else ready_sync is_finished is_interrupted ∷ []

-- An empty text is no error: `!storedProgress?.error`.
abbrev pub has_error : Option String → Bool
has_error none = false
has_error (some s) = not (str_eq s "")

abbrev pub is_below : Option ℕ → ℕ → Bool
is_below none k = false
is_below (some n) k = ltb n k

-- `isSyncInProgress`
unfoldable pub is_sync_in_progress : Row → Bool
is_sync_in_progress row =
    not (has_error row.error) && (is_some_text row.state active_progress && is_below row.value 100)

-- `a / b` to the nearest natural number, and to the even one between two
abbrev pub round_even : ℕ → ℕ → ℕ
round_even a b =
    let rest = 2 * (a % b) in
    if ltb rest b then a / b else if ltb b rest then a / b + 1 else a / b + (a / b) % 2

-- How often `a / b` is doubled until it has 53 bits
unfoldable pub shift_up : ℕ → ℕ → ℕ → ℕ
shift_up zero a b = 0
shift_up (suc fuel) a b =
    let more = shift_up fuel (2 * a) b in if ltb a (4503599627370496 * b) then suc more else 0

-- How often `a` is halved until it has at most 53 bits
unfoldable pub shift_down : ℕ → ℕ → ℕ
shift_down zero a = 0
shift_down (suc fuel) a =
    let more = shift_down fuel (a / 2) in if ltb a 9007199254740992 then 0 else suc more

-- `Math.floor((spentTime / progress) * (100 - progress))` in double precision, for a progress from 1 to
-- 100 and a time below 2 ^ 53: the quotient is `m / 2 ^ k`, and the product is rounded again.
unfoldable pub floor_left_time : ℕ → ℕ → ℕ
unfolding shift_up shift_down
floor_left_time spent progress =
    let k = shift_up 60 spent progress in
    let m = round_even (spent * 2 ^ k) progress in
    let product = m * (100 - progress) in
    let unit = 2 ^ shift_down 60 product in round_even product unit * unit / 2 ^ k

-- `_calcLeftTime` where the progress has changed: the left time is estimated anew.
unfoldable pub reset_left_time : ℕ → ℕ → ℕ → Progress → Option ℕ × Progress
reset_left_time progress now spent p =
    let left = floor_left_time spent progress in
    (
      some left,
      record p { candles_left_time = none; prev_estimated_left_time = now; left_time = some left },
    )

-- `_calcLeftTime` where it has not: the left time counts down.
unfoldable pub calc_left_time : ℕ → ℕ → ℕ → Bool → Progress → Option ℕ × Progress
unfolding reset_left_time
calc_left_time progress now spent false p = reset_left_time progress now spent p
calc_left_time progress now spent true p = elim p.left_time [
  | none ↦ (none, record p { prev_estimated_left_time = now })
  | some left ↦
      if ltb now (left + p.prev_estimated_left_time)
      then (
        some (left + p.prev_estimated_left_time - now),
        record p {
          prev_estimated_left_time = now;
          left_time = some (left + p.prev_estimated_left_time - now);
        },
      )
      else elim p.candles_left_time [
        | some candles ↦
            (some candles, record p { prev_estimated_left_time = now; left_time = some candles })
        | none ↦ reset_left_time progress now spent p
      ]
]

abbrev pub estimate_of : Row → Bool → Option ℕ → Option ℕ → Option ℕ → Estimate
estimate_of row in_progress started spent left = record {
  row = row;
  is_sync_in_progress = in_progress;
  sync_started_at = started;
  spent_time = spent;
  left_time = left;
}

-- `_estimateSyncTime` from the time of the start
unfoldable pub estimate_since : ℕ → Row → Bool → ℕ → Bool → Progress → Estimate × Progress
unfolding calc_left_time
estimate_since started row in_progress now has_not_changed p = elim row.value [
  | none ↦ (estimate_of row in_progress (some started) (some (now - started)) none, p)
  | some n ↦
      if leb n 0 || ltb 100 n
      then (estimate_of row in_progress (some started) (some (now - started)) none, p)
      else let r = calc_left_time n now (now - started) has_not_changed p in
        (estimate_of row in_progress (some started) (some (now - started)) r.0, r.1)
]

unfoldable pub estimate_sync_time : Row → Bool → ℕ → Bool → Progress → Estimate × Progress
unfolding estimate_since
estimate_sync_time row in_progress now has_not_changed p = elim p.sync_started_at [
  | none ↦ (estimate_of row in_progress none none none, p)
  | some started ↦
      if ltb now started
      then (estimate_of row in_progress none none none, p)
      else estimate_since started row in_progress now has_not_changed p
]

abbrev pub with_effect : Effect → Progress → Progress
with_effect e p = record p { effects = p.effects ++ e ∷ [] }

abbrev pub row_of : Progress → Row
row_of p = record { value = p.progress; error = p.error; state = p.state }

-- `_emitProgress`
unfoldable pub emit_progress : Env → Bool → Progress → Progress
unfolding estimate_sync_time is_sync_in_progress
emit_progress env has_not_changed p =
    let (estimate, p') =
      estimate_sync_time (row_of p) (is_sync_in_progress (row_of p)) env.now has_not_changed p in
    if env.emit_fails then with_effect logged p' else with_effect (emitted estimate) p'

abbrev pub differs : Option ℕ → ℕ → Bool
differs none n = true
differs (some m) n = not (m == n)

abbrev pub differs_text : Option String → Option String → Bool
differs_text none none = false
differs_text none (some t) = true
differs_text (some s) none = true
differs_text (some s) (some t) = not (str_eq s t)

abbrev pub differs_value : Option ℕ → Option ℕ → Bool
differs_value old none = false
differs_value old (some n) = differs old n

-- The fields that `setProgress` sets before it writes
unfoldable pub set_fields : Input → Progress → Progress
unfolding is_error error_of value_of is_state_input get_sync_progress_state
    send_sync_completion_state_by_ipc
set_fields input p =
    let (failed, last_index) = is_error input p.last_index in
    let error = if failed then error_of input else none in
    let value = value_of input in
    let state = get_sync_progress_state input failed in
    record p {
      last_index = last_index;
      effects = p.effects ++ sent_all (send_sync_completion_state_by_ipc failed state);
      has_not_progress_changed =
          failed && differs_text p.error error
          || differs_value p.progress value
          || is_state_input input && differs_text p.state state;
      error = error;
      progress = value;
      state = state;
    }

-- The write of the row and the emission, or the log of the error of the write
unfoldable pub store_and_emit : Env → Progress → Progress
unfolding emit_progress
store_and_emit env p =
    if env.dao_fails
    then with_effect logged p
    else emit_progress env false (with_effect (stored (row_of p)) (record p { row = row_of p }))

abbrev pub is_auth_error : Input → Bool
is_auth_error (failure f) = f.is_auth
is_auth_error (text s) = false
is_auth_error (number n) = false
is_auth_error other = false

-- `setProgress`
unfoldable pub set_progress : Env → Input → Progress → Progress
unfolding set_fields store_and_emit is_error
set_progress env input p =
    let failed = (is_error input p.last_index).0 in
    let p' = store_and_emit env (set_fields input p) in
    if not failed || is_auth_error input then p' else with_effect logged p'

-- `getProgress`
unfoldable pub get_progress : ℕ → Progress → Estimate × Progress
unfolding estimate_sync_time is_sync_in_progress
get_progress now p = estimate_sync_time p.row (is_sync_in_progress p.row) now false p

unfoldable pub activate_sync_time_estimate : ℕ → Progress → Progress
activate_sync_time_estimate now p = record p {
  sync_started_at = some now;
  is_interval_launched = true;
}

unfoldable pub deactivate_sync_time_estimate : Progress → Progress
deactivate_sync_time_estimate p = record p { sync_started_at = none; is_interval_launched = false }

-- What the interval calls, `_launchProgressEmitterInterval`
unfoldable pub on_interval : Env → Progress → Progress
unfolding emit_progress
on_interval env p =
    if p.is_interval_launched then emit_progress env p.has_not_progress_changed p else p

unfoldable pub set_candles_left_time : Option ℕ → Progress → Progress
set_candles_left_time left p = record p { candles_left_time = left }
