-- ===== src/Progress/States.antt =====
-- workers/loc.api/sync/progress: the states of sync.progress.states.js, and the state of the class.
use bfx_reports_framework.Base.{ℕ, String, Bool, ◌||◌, Option, List, map, str_eq}

abbrev pub initial_progress : String
initial_progress = "SYNCHRONIZATION_HAS_NOT_BEEN_STARTED_YET"

abbrev pub active_progress : String
active_progress = "SYNCHRONIZATION_IS_STARTED"

abbrev pub finished_progress : String
finished_progress = "SYNCHRONIZATION_IS_FINISHED"

abbrev pub interrupted_progress : String
interrupted_progress = "SYNCHRONIZATION_HAS_BEEN_INTERRUPTED"

-- `_isState`
unfoldable pub is_state : String → Bool
is_state s =
    str_eq s initial_progress
    || str_eq s active_progress
    || str_eq s finished_progress
    || str_eq s interrupted_progress

-- What an instance of `Error` says of itself.
pub record Failure : Type 0 where
  pub status_message : Option String
  pub to_string : String
  pub is_auth : Bool

-- What `setProgress` is given: `other` is neither a finite number, nor a text, nor an error.
pub data Input : Type 0 where
  number : ℕ → Input
  text : String → Input
  failure : Failure → Input
  other : Input

-- The row of the table of the progress
pub record Row : Type 0 where
  pub value : Option ℕ
  pub error : Option String
  pub state : Option String

pub record Estimate : Type 0 where
  pub row : Row
  pub is_sync_in_progress : Bool
  pub sync_started_at : Option ℕ
  pub spent_time : Option ℕ
  pub left_time : Option ℕ

-- To the parent process: ERROR_SYNC, and READY_SYNC with `isFinished` and `isInterrupted`.
pub data Message : Type 0 where
  error_sync : Message
  ready_sync : Bool → Bool → Message

pub data Effect : Type 0 where
  stored : Row → Effect
  emitted : Estimate → Effect
  sent : Message → Effect
  logged : Effect

abbrev pub sent_all : List Message → List Effect
sent_all = map sent

pub record Progress : Type 0 where
  pub sync_started_at : Option ℕ
  pub is_interval_launched : Bool
  pub error : Option String
  pub progress : Option ℕ
  pub state : Option String
  pub has_not_progress_changed : Bool
  pub left_time : Option ℕ
  pub candles_left_time : Option ℕ
  pub prev_estimated_left_time : ℕ
  pub last_index : ℕ
  pub row : Row
  pub effects : List Effect

-- One call: the time, and whether the database and the sockets fail.
pub record Env : Type 0 where
  pub now : ℕ
  pub dao_fails : Bool
  pub emit_fails : Bool
