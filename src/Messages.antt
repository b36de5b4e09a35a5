-- ===== src/Messages.antt =====
-- workers/loc.api/process.message.manager: the promises that wait for a state from the parent
-- process, and the handlers of the states.
--
-- The states do not share anything but the handlers' world: `Waiting` is the entry of
-- `_promisesToWait` for one state. The jobs are named by the order in which they were added, and
-- a promise is what its job has been settled with.
pub mod Handlers
pub mod Settled
pub mod Answered
pub mod Later
pub mod Lost
mod Samples
use bfx_reports_framework.Base.{
  ℕ, zero, suc, ◌+◌, Bool, true, false, not, ◌||◌, Option, none, some, List, [], ◌∷◌, ◌++◌, map,
  length, get_elem?, set, if◌then◌else◌,
}
use bfx_reports_framework.Base.Actions.{Result, ok, err}

-- An error is a number that tells it from others.
pub data Err : Type 0 where
  process_state_sending db_restoring : Err
  other_error : ℕ → Err

pub data Outcome (X : Type 0) : Type 0 where
  resolved : Option X → Outcome X
  rejected : Err → Outcome X

-- A job of `addStateToWait`, with `outcome` for its promise
pub record Job (X : Type 0) : Type 0 where
  pub check_handler : Option (Option Err → Option X → Bool)
  pub index : Option ℕ
  pub has_triggered : Bool
  pub has_closed : Bool
  pub outcome : Option (Outcome X)

-- `queue` has the names of the jobs that wait.
pub record Waiting (X : Type 0) : Type 0 where
  pub jobs : List (Job X)
  pub queue : List ℕ

-- `splice(index, 1)`
abbrev pub remove_at : List ℕ → ℕ → List ℕ
remove_at [] i = []
remove_at (x ∷ queue) zero = queue
remove_at (x ∷ queue) (suc i) = x ∷ remove_at queue i

abbrev pub remove_if_some : List ℕ → Option ℕ → List ℕ
remove_if_some queue none = queue
remove_if_some queue (some i) = remove_at queue i

module _ {X : Type 0} where
  unfoldable pub add_state_to_wait : Option (Option Err → Option X → Bool) → Waiting X → Waiting X
  add_state_to_wait check_handler w = record {
    jobs =
        w.jobs
        ++ (record {
          check_handler = check_handler;
          index = some (length w.queue);
          has_triggered = false;
          has_closed = false;
          outcome = none;
        }
            ∷ []);
    queue = w.queue ++ (length w.jobs ∷ []);
  }

  abbrev pub refuses : Option (Option Err → Option X → Bool) → Option Err → Option X → Bool
  refuses none error data_value = false
  refuses (some check_handler) error data_value = not (check_handler error data_value)

  abbrev pub outcome_of : Option Err → Option X → Outcome X
  outcome_of none data_value = resolved data_value
  outcome_of (some e) data_value = rejected e

  unfoldable pub close_job : ℕ → Option (Job X) → Option Err → Option X → Waiting X → Waiting X
  close_job id none error data_value w = w
  close_job id (some job) error data_value w =
      if job.has_closed || refuses job.check_handler error data_value then w else record w {
        jobs = set w.jobs id (record job {
          index = none;
          has_closed = true;
          outcome = some (outcome_of error data_value);
        });
        queue = remove_if_some w.queue job.index;
      }

  -- A job's `close`
  unfoldable pub close : ℕ → Option Err → Option X → Waiting X → Waiting X
  unfolding close_job
  close id error data_value w = close_job id (get_elem? w.jobs id) error data_value w

  -- The loop over `queue.entries()`, which reads the queue anew for each index
  unfoldable pub close_from : ℕ → ℕ → Option Err → Option X → Waiting X → Waiting X
  close_from zero i error data_value w = w
  close_from (suc fuel) i error data_value w = elim (get_elem? w.queue i) [
    | none ↦ w
    | some id ↦ close_from fuel (i + 1) error data_value (close id error data_value w)
  ]

  -- With an error the jobs get no data.
  abbrev pub data_unless : Option Err → Option X → Option X
  data_unless none data_value = data_value
  data_unless (some e) data_value = none

  -- `_processQueuePromises`. The queue does not get longer, so its length is fuel enough.
  unfoldable pub process_queue_promises : Option Err → Option X → Waiting X → Waiting X
  unfolding close_from
  process_queue_promises error data_value w =
      close_from (length w.queue) 0 error (data_unless error data_value) w

  unfoldable pub trigger_all : List ℕ → List (Job X) → List (Job X)
  trigger_all [] jobs = jobs
  trigger_all (id ∷ queue) jobs = trigger_all queue (elim (get_elem? jobs id) [
    | none ↦ jobs
    | some job ↦ set jobs id (record job { has_triggered = true })
  ])

  abbrev pub triggered : Waiting X → Waiting X
  triggered w = record w { jobs = trigger_all w.queue w.jobs }

  abbrev pub handled :
      Result Err (Unit {0}) → Option Err → Option X → Waiting X → Waiting X × Result Err (Unit {0})
  handled (ok u) error data_value w = (process_queue_promises error data_value w, ok tt)
  handled (err e) error data_value w = (w, err e)

  -- The main handler. `handler` is what the state's own handler answers with an error and without.
  unfoldable pub main_handler :
      (Option Err → Result Err (Unit {0}))
      → Option Err
      → Option X
      → Waiting X
      → Waiting X × Result Err (Unit {0})
  unfolding process_queue_promises trigger_all
  main_handler handler error data_value w = handled (handler error) error data_value (triggered w)

  abbrev pub again :
      (Option Err → Result Err (Unit {0}))
      → Option X
      → Waiting X × Result Err (Unit {0})
      → Waiting X × Result Err (Unit {0})
  again handler data_value (w, ok u) = (w, ok u)
  again handler data_value (w, err e) = main_handler handler (some e) data_value w

  -- `onMessage`'s handler: after an error it is called a second time, with the error.
  unfoldable pub on_message :
      (Option Err → Result Err (Unit {0}))
      → Option X
      → Waiting X
      → Waiting X × Result Err (Unit {0})
  unfolding main_handler
  on_message handler data_value w =
      again handler data_value (main_handler handler none data_value w)
