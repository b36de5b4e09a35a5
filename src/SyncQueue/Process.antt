-- ===== src/SyncQueue/Process.antt =====
-- SyncQueue.process and _subProcess. The data inserter and the interrupter are the environment: for
-- each round of the loop a `Round` says what they do in it. The progress that the queue sets is kept
-- as a list, the latest last.
pub mod Rounds
mod Loop
pub mod Locks
pub mod Reruns
pub mod Order
use bfx_reports_framework.Base.{
  ℕ, zero, suc, ◌+◌, String, Bool, true, false, ◌&&◌, ◌||◌, Option, none, some, List, [], ◌∷◌, ◌++◌,
  ltb, if◌then◌else◌,
}
use bfx_reports_framework.SyncQueue.Table.{
  JobState, locked_job, new_job, finished_job, error_job, Job, Table, has_owner, get_all, is_in,
  head?, update_state_by_id, remove_by_state,
}
use bfx_reports_framework.SyncQueue.Add.{
  QueueError, update_sync_queue_job, data_inserter, AddCall, run_adds,
}
use bfx_reports_framework.SyncQueue.Multipliers.{
  Colls, Frac, zero_frac, add_frac, get_multiplier, async_progress_handler,
}

-- `_progress`: SyncInterrupter.INITIAL_PROGRESS, or a percentage.
pub data QueueProgress : Type 0 where
  initial_progress : QueueProgress
  percent : ℕ → QueueProgress

pub record Queue : Type 0 where
  pub table : Table
  pub is_first_sync : Bool
  pub progress : QueueProgress
  pub emitted : List ℕ

unfoldable pub set_progress : ℕ → Queue → Queue
set_progress progress queue = record queue {
  progress = percent progress;
  emitted = queue.emitted ++ progress ∷ [];
}

-- `subQueryFilter` of `_getNext`
unfoldable pub next_filter : Option ℕ → Job → Bool
unfolding has_owner
next_filter none job = true
next_filter (some user) job = job.is_owner_scheduler || has_owner user job

unfoldable pub next_states : Bool → List JobState
next_states true = new_job ∷ error_job ∷ locked_job ∷ []
next_states false = new_job ∷ error_job ∷ []

unfoldable pub get_next : Option ℕ → Queue → Option Job × Queue
unfolding next_filter next_states get_all
get_next owner queue = (
  head? (get_all (next_filter owner) (next_states queue.is_first_sync) queue.table),
  record queue { is_first_sync = false },
)

-- What the environment does in a round: the calls of `add` that have come since the last one searched
-- for a job, the interrupts at the two tests, the time, the progress that the data inserter reports, and
-- whether it throws.
pub record Round : Type 0 where
  pub added : List AddCall
  pub interrupted_before : Bool
  pub now : ℕ
  pub reports : List ℕ
  pub throws : Bool
  pub interrupted_after : Bool

unfoldable pub set_if_some : Option ℕ → Queue → Queue
unfolding set_progress
set_if_some none queue = queue
set_if_some (some progress) queue = set_progress progress queue

-- The progress handler at each report; `currMultiplier` is that of the last.
unfoldable pub run_reports :
    Colls → Option ℕ → List Job → ℕ → Frac → Frac → List ℕ → Queue → Frac × Queue
run_reports colls owner prev id multiplier curr [] queue = (curr, queue)
run_reports colls owner prev id multiplier curr (progress ∷ reports) queue =
    let curr' = get_multiplier colls owner prev id queue.table in
    run_reports colls owner prev id multiplier curr' reports
      (set_if_some (async_progress_handler curr' multiplier progress) queue)

-- How a round ends: the loop goes on, breaks, or an error leaves it.
pub data Next : Type 0 where
  go : Queue → Frac → List Job → Next
  break : Queue → Next
  throw : QueueError → Queue → Next

unfoldable pub with_state : ℕ → JobState → ℕ → Queue → (Queue → Next) → Next
with_state id state now queue k = elim (update_state_by_id id state now queue.table) [
  | none ↦ throw (update_sync_queue_job id) queue
  | some table ↦ k (record queue { table = table })
]

-- `_subProcess`, and the rest of the round
unfoldable pub sub_process : Colls → Option ℕ → Round → Job → List Job → Frac → Queue → Next
sub_process colls owner round job prev multiplier queue =
    let (curr, queue') =
      run_reports colls owner prev job.id multiplier zero_frac round.reports queue in
    if round.throws
    then with_state job.id error_job round.now queue' (throw data_inserter)
    else if round.interrupted_after
    then with_state job.id new_job round.now queue' break
    else with_state job.id finished_job round.now queue'
        (λ q. go q (add_frac multiplier curr) (prev ++ job ∷ []))

-- A round that has found `next_sync`; `count` has been increased.
unfoldable pub run_round :
    Colls → Option ℕ → Round → ℕ → Option Job → List Job → Frac → Queue → Next
run_round colls owner round count none prev multiplier queue = break queue
run_round colls owner round count (some job) prev multiplier queue =
    if ltb 10 count
    then break queue
    else with_state job.id locked_job round.now queue
        (sub_process colls owner round job prev multiplier)

unfoldable pub process_round : Colls → Option ℕ → Round → ℕ → List Job → Frac → Queue → Next
process_round colls owner round count prev multiplier queue =
    if round.interrupted_before
    then break queue
    else (let (next_sync, queue') = get_next owner queue in
        run_round colls owner round (count + 1) next_sync prev multiplier queue')

-- The jobs that other starts have added to the queue
unfoldable pub arrive : Round → Queue → Queue
unfolding run_adds
arrive round queue = record queue { table = run_adds round.added queue.table }

-- The `while` loop, with fuel: `none` means that the fuel ran out.
unfoldable pub process_loop :
    ℕ → Colls → Option ℕ → (ℕ → Round) → ℕ → List Job → Frac → Queue → Option Next
unfolding arrive
process_loop zero colls owner rounds count prev multiplier queue = none
process_loop (suc fuel) colls owner rounds count prev multiplier queue =
    elim (process_round colls owner (rounds count) count prev multiplier
      (arrive (rounds count) queue)) [
        | go queue' multiplier' prev' ↦
            process_loop fuel colls owner rounds (count + 1) prev' multiplier' queue'
        | break queue' ↦ some (break queue')
        | throw e queue' ↦ some (throw e queue')
      ]

-- The result of `process`: the progress that it returns or the error that it throws.
pub data Outcome : Type 0 where
  returns : QueueProgress → Queue → Outcome
  throws : QueueError → Queue → Outcome

unfoldable pub finish : Bool → Queue → Outcome
unfolding remove_by_state set_progress
finish interrupted queue =
    let queue' = record queue { table = remove_by_state finished_job queue.table } in
    if interrupted
    then returns queue'.progress queue'
    else returns (percent 100) (set_progress 100 queue')

abbrev pub outcome_of : Bool → Option Next → Option Outcome
outcome_of interrupted none = none
outcome_of interrupted (some (go queue multiplier prev)) = none
outcome_of interrupted (some (break queue)) = some (finish interrupted queue)
outcome_of interrupted (some (throw e queue)) = some (throws e queue)

-- The count that ends the loop is 11, so 11 rounds are enough.
unfoldable pub process : Colls → Option ℕ → (ℕ → Round) → Bool → Queue → Option Outcome
process colls owner rounds interrupted queue = outcome_of interrupted (
    process_loop 11 colls owner rounds 0 [] zero_frac
      (record queue { progress = initial_progress }))
