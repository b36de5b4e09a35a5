-- ===== src/SyncQueue/Process/Locks.antt =====
-- SyncQueue.process: the locks of the jobs, and the errors.
use bfx_reports_framework.Base.{
  ℕ, ◌≡◌, ◌≢◌, Bool, true, false, Option, some, List, inl, inr, All, Any, All-filter, Any-map,
  subst,
}
use bfx_reports_framework.SyncQueue.Table.{
  JobState, locked_job, new_job, finished_job, error_job, Job, Table, update_rows, remove_by_state,
}
use bfx_reports_framework.SyncQueue.Add.{QueueError, data_inserter}
use bfx_reports_framework.SyncQueue.Add.Calls.{insert_elems-All, run_adds-keeps}
use bfx_reports_framework.SyncQueue.Multipliers.{Colls}
use bfx_reports_framework.SyncQueue.Process.{
  Queue, Round, Next, go, break, throw, Outcome, returns, throws, finish, process, arrive,
  set_progress,
}
use bfx_reports_framework.SyncQueue.Process.Rounds.{RoundResult, Ran, has_id-taken}
use bfx_reports_framework.SyncQueue.Table.Rows.{All-update_rows, Any-update_rows}
use bfx_reports_framework.SyncQueue.Process.Loop.{Post, Finished, process_rule}

-- Only rows with an id in `S` are locked.
abbrev pub LockedIn : (ℕ → Type 0) → Table → Type 0
LockedIn S table = All (λ job. job.state ≡ locked_job → S job.id) table.rows

LockedIn-update_rows :
    (S : ℕ → Type 0) (id : ℕ) (state : JobState) (now : ℕ) (table : Table)
    → state ≢ locked_job
    → LockedIn S table
    → LockedIn S (record table { rows = update_rows id state now table.rows })
LockedIn-update_rows S id state now table free =
    All-update_rows _ id state now table.rows (λ job _ _ e. absurd (free e))

new_job-unlocked : new_job ≢ locked_job
new_job-unlocked e = cc

-- The queue's table once an error has left the run.
record Failed (S : ℕ → Type 0) (e : QueueError) (queue : Queue) : Type 0 where
  pub error : e ≡ data_inserter
  pub locked : LockedIn S queue.table
  pub in_error : Any (λ job. job.state ≡ error_job) queue.table.rows

module _ (owner : Option ℕ) (S : ℕ → Type 0) where
  LockedIn-Ran :
      (round : Round) (before after : Queue) (job : Job) (state : JobState)
      → state ≢ locked_job
      → LockedIn S before.table
      → Ran owner round before job state after
      → LockedIn S after.table
  LockedIn-Ran round before after job state free h ran =
      rw ran.table (LockedIn-update_rows S job.id state round.now before.table free h)

  in_error-Ran :
      (round : Round) (before after : Queue) (job : Job)
      → Ran owner round before job error_job after
      → Any (λ j. j.state ≡ error_job) after.table.rows
  in_error-Ran round before after job ran = rw ran.table (
      Any-map _ _ (update_rows job.id error_job round.now before.table.rows) (λ j h. h.1)
        (Any-update_rows job.id error_job round.now before.table.rows
          (has_id-taken owner before job ran.taken)))

  keeps :
      (round : Round) (count : ℕ) (prev : List Job) (queue : Queue) (next : Next)
      → LockedIn S queue.table
      → RoundResult owner round count prev queue next
      → Post (λ q. LockedIn S q.table) (λ q. LockedIn S q.table) (Failed S) next
  keeps round count prev queue (go q m js) h (_, _, _, (job, _, ran)) =
      LockedIn-Ran round queue q job finished_job (λ e. cc) h ran
  keeps round count prev queue (break q) h (inl same) = rw same h
  keeps round count prev queue (break q) h (inr (job, _, _, ran)) =
      LockedIn-Ran round queue q job new_job (λ e. cc) h ran
  keeps round count prev queue (throw e q) h (error, _, (job, ran)) = record {
    error = error;
    locked = LockedIn-Ran round queue q job error_job (λ e. cc) h ran;
    in_error = in_error-Ran round queue q job ran;
  }

LockedIn-arrive :
    (S : ℕ → Type 0) (round : Round) (queue : Queue)
    → LockedIn S queue.table
    → LockedIn S (arrive round queue).table
unfolding arrive
LockedIn-arrive S round queue =
    run_adds-keeps (LockedIn S)
      (λ params now names table.
        insert_elems-All _ params now names table (λ name i le e. absurd (new_job-unlocked e)))
      round.added queue.table

-- What a run leaves, whether it returns or throws.
abbrev pub LeavesNoLock : (ℕ → Type 0) → Outcome → Type 0
LeavesNoLock S (returns p queue) = LockedIn S queue.table
LeavesNoLock S (throws e queue) =
    (e ≡ data_inserter)
    × LockedIn S queue.table
    × Any (λ job. job.state ≡ error_job) queue.table.rows

finish-LeavesNoLock :
    (S : ℕ → Type 0) (interrupted : Bool) (q : Queue)
    → LockedIn S q.table
    → LeavesNoLock S (finish interrupted q)
unfolding finish remove_by_state set_progress
finish-LeavesNoLock S true q h = All-filter _ _ q.table.rows h
finish-LeavesNoLock S false q h = All-filter _ _ q.table.rows h

Finished-LeavesNoLock :
    (S : ℕ → Type 0) (interrupted : Bool) (o : Outcome)
    → Finished (λ q. LockedIn S q.table) (Failed S) interrupted o
    → LeavesNoLock S o
Finished-LeavesNoLock S interrupted (returns p after) (q, h, e) =
    subst (LeavesNoLock S) e (finish-LeavesNoLock S interrupted q h)
Finished-LeavesNoLock S interrupted (throws e after) failed =
    (failed.error, failed.locked, failed.in_error)

-- A run of the queue always ends, whatever the data inserter, the interrupts and other starts, which add
-- jobs, do. If only jobs of
-- a set were locked before it, only jobs of that set are locked after it, on return and on error;
-- and an error is always the data inserter's, and leaves a job in the state ERROR.
pub process-LeavesNoLock :
    (colls : Colls) (owner : Option ℕ) (rounds : ℕ → Round) (interrupted : Bool) (queue : Queue)
    (S : ℕ → Type 0)
    → LockedIn S queue.table
    → (o : Outcome) × (process colls owner rounds interrupted queue ≡ some o) × LeavesNoLock S o
process-LeavesNoLock colls owner rounds interrupted queue S h =
    let (o, e, f) =
      process_rule owner (λ q. LockedIn S q.table) (λ q. LockedIn S q.table) (Failed S)
        (keeps owner S) (LockedIn-arrive S) colls rounds interrupted queue h in
    (o, e, Finished-LeavesNoLock S interrupted o f)
