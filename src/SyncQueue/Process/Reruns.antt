-- ===== src/SyncQueue/Process/Reruns.antt =====
-- SyncQueue.process: the jobs that are finished.
use bfx_reports_framework.Base.{
  ℕ, ◌≤◌, ◌<◌, ◌≡◌, ◌≢◌, sym, ap, Bool, true, false, ◌∙◌, Option, some, List, inl, inr, arith, All,
  All-filter, subst, &&_iff,
}
use bfx_reports_framework.SyncQueue.Table.{
  JobState, new_job, finished_job, error_job, Job, Table, remove_by_state, get_all, is_in,
}
use bfx_reports_framework.SyncQueue.Table.Rows.{All-update_rows, head-filter}
use bfx_reports_framework.SyncQueue.Add.{insert_elems}
use bfx_reports_framework.SyncQueue.Add.Calls.{insert_elems-All, run_adds-keeps}
use bfx_reports_framework.SyncQueue.Multipliers.{Colls}
use bfx_reports_framework.SyncQueue.Process.{
  Queue, Round, Next, go, break, throw, Outcome, returns, throws, finish, process, arrive,
  set_progress, get_next, next_states, next_filter,
}
use bfx_reports_framework.SyncQueue.Process.Rounds.{RoundResult, Ran}
use bfx_reports_framework.SyncQueue.Process.Loop.{Post, Finished, process_rule}

-- A row with the `_id` of the job is that job, with every field as it was.
abbrev pub IsRowOf : Job → Table → Type 0
IsRowOf job table = All (λ row. row.id ≡ job.id → row ≡ job) table.rows

-- and its `_id` is one that the table has given.
abbrev pub IsKept : Job → Table → Type 0
IsKept job table = IsRowOf job table × (job.id < table.next_id)

next_states-unfinished :
    (first : Bool) (job : Job) → is_in (next_states first) job ≡ true → job.state ≢ finished_job
unfolding next_states is_in
next_states-unfinished true job h e = ground arith
next_states-unfinished false job h e = ground arith

module _ (owner : Option ℕ) (job : Job) (finished : job.state ≡ finished_job) where
  taken-ne :
      (queue : Queue) (t : Job)
      → (get_next owner queue).0 ≡ some t
      → IsRowOf job queue.table
      → t.id ≢ job.id
  unfolding get_next get_all
  taken-ne queue t taken rows same =
      let (row, chosen) = head-filter _ _ queue.table.rows t taken rows in
      next_states-unfinished queue.is_first_sync t ((&&_iff (next_filter owner t) _).0 chosen).1
        (ap (λ (j : Job). j.state) (row same) ∙ finished)

  IsRowOf-Ran :
      (round : Round) (before after : Queue) (t : Job) (state : JobState)
      → IsKept job before.table
      → Ran owner round before t state after
      → IsKept job after.table
  IsRowOf-Ran round before after t state (rows, given) ran = rw ran.table (
    All-update_rows _ t.id state round.now before.table.rows
        (λ row e _ same. absurd (taken-ne before t ran.taken rows (sym e ∙ same))) rows,
    given,
  )

  keeps :
      (round : Round) (count : ℕ) (prev : List Job) (queue : Queue) (next : Next)
      → IsKept job queue.table
      → RoundResult owner round count prev queue next
      → Post (λ q. IsKept job q.table) (λ q. IsKept job q.table) (λ e q. IsKept job q.table) next
  keeps round count prev queue (go q m js) h (_, _, _, (t, _, ran)) =
      IsRowOf-Ran round queue q t finished_job h ran
  keeps round count prev queue (break q) h (inl same) = rw same h
  keeps round count prev queue (break q) h (inr (t, _, _, ran)) =
      IsRowOf-Ran round queue q t new_job h ran
  keeps round count prev queue (throw e q) h (_, _, (t, ran)) =
      IsRowOf-Ran round queue q t error_job h ran

IsKept-arrive :
    (job : Job) (round : Round) (queue : Queue)
    → IsKept job queue.table
    → IsKept job (arrive round queue).table
unfolding arrive insert_elems
IsKept-arrive job round queue =
    run_adds-keeps (IsKept job)
      (λ params now names table (rows, given). (
        insert_elems-All _ params now names table
            (λ name i le same. absurd (below_given i table.next_id le same given)) rows,
        omega (arith, given),
      ))
      round.added queue.table
  where
    below_given : (i next : ℕ) → next ≤ i → i ≡ job.id → job.id < next → ⊥
    below_given i next le same given = omega (arith, le, same, given)

abbrev pub queue_of : Outcome → Queue
queue_of (returns p queue) = queue
queue_of (throws e queue) = queue

module _ (job : Job) where
  finish-IsRowOf :
      (interrupted : Bool) (q : Queue)
      → IsRowOf job q.table
      → IsRowOf job (queue_of (finish interrupted q)).table
  unfolding finish remove_by_state set_progress
  finish-IsRowOf true q h = All-filter _ _ q.table.rows h
  finish-IsRowOf false q h = All-filter _ _ q.table.rows h

  Finished-IsRowOf :
      (interrupted : Bool) (o : Outcome)
      → Finished (λ q. IsKept job q.table) (λ e q. IsKept job q.table) interrupted o
      → IsRowOf job (queue_of o).table
  Finished-IsRowOf interrupted (returns p after) (q, h, e) =
      subst (λ o. IsRowOf job (queue_of o).table) e (finish-IsRowOf interrupted q h.0)
  Finished-IsRowOf interrupted (throws e after) h = h.0

-- A job of the table that is finished before a run is not run again, whatever other starts add to the
-- queue meanwhile: whatever row has its `_id` after the run, which ends with a return or an error, is the
-- job as it was, its state and time of update included.
pub process-IsRowOf :
    (colls : Colls) (owner : Option ℕ) (rounds : ℕ → Round) (interrupted : Bool) (queue : Queue)
    (job : Job)
    → job.state ≡ finished_job
    → IsRowOf job queue.table
    → job.id < queue.table.next_id
    → (o : Outcome) × (process colls owner rounds interrupted queue ≡ some o)
      × IsRowOf job (queue_of o).table
process-IsRowOf colls owner rounds interrupted queue job finished h given =
    let (o, e, f) =
      process_rule owner (λ q. IsKept job q.table) (λ q. IsKept job q.table)
        (λ e q. IsKept job q.table) (keeps owner job finished) (IsKept-arrive job) colls rounds
        interrupted queue (h, given) in
    (o, e, Finished-IsRowOf job interrupted o f)
