-- ===== src/SyncQueue/Table.antt =====
-- The table of sync jobs, as the queries of sync.queue/index.js read and write it. Its rows stand
-- in the order of `_id`, which is the order that the queue's queries ask for (`_sort`).
pub mod Rows
pub mod Ids
pub mod Removal
use bfx_reports_framework.Base.{
  ℕ, ◌+◌, String, Bool, true, false, ◌&&◌, ◌||◌, not, Option, none, some, List, [], ◌∷◌, map, ltb,
  ◌==◌, length, filter, any, if◌then◌else◌,
}

-- sync.queue.states.js
pub data JobState : Type 0 where
  locked_job new_job finished_job error_job : JobState

unfoldable pub same_state : JobState → JobState → Bool
same_state locked_job locked_job = true
same_state new_job new_job = true
same_state finished_job finished_job = true
same_state error_job error_job = true
same_state _ _ = false

pub record Job : Type 0 where
  pub id : ℕ
  pub coll_name : String
  pub state : JobState
  pub owner_user_id : Option ℕ
  pub is_owner_scheduler : Bool
  pub updated_at : ℕ

pub record Table : Type 0 where
  pub rows : List Job
  pub next_id : ℕ

-- `$in: { state }`
unfoldable pub is_in : List JobState → Job → Bool
unfolding same_state
is_in states job = any (same_state job.state) states

unfoldable pub has_owner : ℕ → Job → Bool
has_owner user job = elim job.owner_user_id [ none ↦ false | some u ↦ u == user ]

-- `getElemsInCollBy`, with the filter of the sub-query and that of the query.
unfoldable pub get_all : (Job → Bool) → List JobState → Table → List Job
unfolding is_in
get_all sub_query states table = filter (λ job. sub_query job && is_in states job) table.rows

-- `getElemInCollBy`: the first row in the order.
abbrev pub head? : List Job → Option Job
head? [] = none
head? (job ∷ jobs) = some job

-- `updateCollBy` by `_id`: the rows, and whether one was changed.
unfoldable pub update_rows : ℕ → JobState → ℕ → List Job → List Job
update_rows id state now [] = []
update_rows id state now (job ∷ jobs) =
    (if job.id == id then record job { state = state; updated_at = now } else job)
    ∷ update_rows id state now jobs

unfoldable pub has_id : ℕ → List Job → Bool
has_id id jobs = any (λ job. job.id == id) jobs

-- `_updateById`: `none` is the UpdateSyncQueueJobError.
unfoldable pub update_state_by_id : ℕ → JobState → ℕ → Table → Option Table
unfolding update_rows has_id
update_state_by_id id state now table =
    if has_id id table.rows
    then some (record table { rows = update_rows id state now table.rows })
    else none

-- `removeElemsLeaveLastNRecords`, by `updatedAt` and then `_id`, the latest first: a row of the state
-- stays if fewer than the limit of rows of the state come before it.
unfoldable pub comes_before : Job → Job → Bool
comes_before a b = ltb b.updated_at a.updated_at || (a.updated_at == b.updated_at && ltb b.id a.id)

unfoldable pub rank : JobState → List Job → Job → ℕ
unfolding same_state comes_before
rank state jobs job = length (filter (λ j. same_state j.state state && comes_before j job) jobs)

unfoldable pub remove_by_state : JobState → Table → Table
unfolding rank
remove_by_state state table = record table {
  rows =
      filter (λ job. not (same_state job.state state) || ltb (rank state table.rows job) 100)
        table.rows;
}

-- `insertElemsToDb`: each new row gets the next `_id`.
unfoldable pub insert_rows : ℕ → List (ℕ → Job) → List Job
insert_rows id [] = []
insert_rows id (job ∷ jobs) = job id ∷ insert_rows (id + 1) jobs
