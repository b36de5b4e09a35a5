-- ===== src/SyncQueue/Samples.antt =====
-- A small queue: what requests and runs give, and the theorems at these inputs.
use bfx_reports_framework.Base.{
  min, not, ℕ, ◌+◌, String, ◌≡◌, refl, true, false, some, List, [], ◌∷◌, arith, All, length, filter,
}
use bfx_reports_framework.SyncQueue.Table.{
  same_state, remove_by_state, update_state_by_id, Job, get_all, JobState, Table, new_job,
  error_job, finished_job,
}
use bfx_reports_framework.SyncQueue.Add.{
  run_adds, add, add_checked, owner_filter, insert_elems, get_unique_names, check_coll_permission,
  to_array, owner_is_wrong, AddParams, array, ok, err, coll_sync_permission,
}
use bfx_reports_framework.SyncQueue.Multipliers.{
  Colls, zero_frac, add_frac, get_multiplier, async_progress_handler,
}
use bfx_reports_framework.SyncQueue.Process.{
  run_reports, set_if_some, get_next, finish, Queue, initial_progress, percent, Round, process,
  Outcome, returns, process_loop, arrive, process_round, run_round, sub_process, with_state,
}
use bfx_reports_framework.SyncQueue.Table.Removal.Latest.{
  IsNewer, kept, removed, remove_by_state_lem,
}
use bfx_reports_framework.SyncQueue.Add.Requests.{WaitsFor, add-WaitsFor}
use bfx_reports_framework.SyncQueue.Process.Rounds.{RoundResult, process_round-RoundResult}
use bfx_reports_framework.SyncQueue.Process.Locks.{LeavesNoLock, process-LeavesNoLock}
use bfx_reports_framework.SyncQueue.Process.Reruns.{IsRowOf, queue_of, process-IsRowOf}

abbrev allowed : List String
allowed = "_ALL" ∷ "_PUBLIC" ∷ "_PRIVATE" ∷ "ledgers" ∷ "trades" ∷ []

abbrev job : ℕ → String → JobState → Job
job id name state = record {
  id = id;
  coll_name = name;
  state = state;
  owner_user_id = some 7;
  is_owner_scheduler = false;
  updated_at = 1;
}

abbrev table : Table
table = record { rows = job 1 "candles" finished_job ∷ job 2 "trades" error_job ∷ []; next_id = 3 }

abbrev request : List String → AddParams
request names = record {
  sync_colls = array names;
  owner_user_id = some 7;
  is_owner_scheduler = false;
}

abbrev table_after : Table
table_after = record {
  rows = job 1 "candles" finished_job ∷ job 2 "trades" error_job ∷ job 3 "ledgers" new_job ∷ [];
  next_id = 4;
}

evaluated : Unit {0}
unfolding add add_checked owner_filter insert_elems get_unique_names get_all check_coll_permission
    to_array owner_is_wrong
evaluated = tt

add_two : add allowed [] (request ("trades" ∷ "ledgers" ∷ [])) 1 table ≡ ok table_after
unfolding evaluated
add_two = refl

add_wrong_name : add allowed [] (request ("no_such" ∷ [])) 1 table ≡ err coll_sync_permission
unfolding evaluated
add_wrong_name = refl

abbrev colls : Colls
colls = record { size = 20; priv_size = 12; pub_size = 8; allowed = allowed }

-- The data inserter reports half of its work and then all of it.
abbrev calm : ℕ → Round
calm count = record {
  added = [];
  interrupted_before = false;
  now = count + 10;
  reports = 50 ∷ 100 ∷ [];
  throws = false;
  interrupted_after = false;
}

-- Another start adds a job while the queue runs.
abbrev busy : ℕ → Round
busy count = record (calm count) {
  added =
      record { allowed = allowed; signed_in = []; params = request ("trades" ∷ []); at = 9 } ∷ [];
}

abbrev failing : ℕ → Round
failing count = record (calm count) { throws = true }

abbrev queue : Queue
queue = record {
  table = table_after;
  is_first_sync = true;
  progress = initial_progress;
  emitted = [];
}

run : Unit {0}
unfolding process process_loop arrive run_adds process_round run_round sub_process with_state
    run_reports get_multiplier async_progress_handler set_if_some get_next finish update_state_by_id
    add_frac
run = tt

abbrev done : ℕ → String → ℕ → Job
done id name now = record (job id name finished_job) { updated_at = now }

run_calm :
    process colls (some 7) calm false queue
    ≡ some (
        returns (percent 100) (record {
          table = record {
            rows = job 1 "candles" finished_job ∷ done 2 "trades" 10 ∷ done 3 "ledgers" 11 ∷ [];
            next_id = 4;
          };
          is_first_sync = false;
          progress = percent 100;
          emitted = 25 ∷ 75 ∷ 100 ∷ [];
        }))
unfolding run
run_calm = refl

add-WaitsFor_example :
    All
      (WaitsFor [] (request ("trades" ∷ "ledgers" ∷ [])) table_after)
      (to_array (array ("trades" ∷ "ledgers" ∷ [])))
add-WaitsFor_example =
    add-WaitsFor allowed [] (request ("trades" ∷ "ledgers" ∷ [])) 1 table table_after add_two refl

process_round-RoundResult_example :
    RoundResult
      (some 7)
      (failing 0)
      0
      []
      queue
      (process_round colls (some 7) (failing 0) 0 [] zero_frac queue)
process_round-RoundResult_example =
    process_round-RoundResult colls (some 7) (failing 0) 0 [] zero_frac queue

process-LeavesNoLock_example :
    (o : Outcome) × (process colls (some 7) failing false queue ≡ some o) × LeavesNoLock (λ id. ⊥) o
process-LeavesNoLock_example =
    process-LeavesNoLock colls (some 7) failing false queue (λ id. ⊥)
      ((λ e. cc), ((λ e. cc), ((λ e. cc), tt)))

process-IsRowOf_example :
    (o : Outcome) × (process colls (some 7) busy false queue ≡ some o)
    × IsRowOf (job 1 "candles" finished_job) (queue_of o).table
process-IsRowOf_example =
    process-IsRowOf colls (some 7) busy false queue (job 1 "candles" finished_job) refl
      ((λ e. refl), ((λ e. absurd (omega arith)), ((λ e. absurd (omega arith)), tt))) (omega arith)

remove_by_state_lem_example :
    (length (kept finished_job table)
      ≡ min 100 (length (filter (λ job. same_state job.state finished_job) table.rows)))
    × All (λ a. All (IsNewer a) (removed finished_job table)) (kept finished_job table)
    × (filter
          (λ job. not (same_state job.state finished_job))
          (remove_by_state finished_job table).rows
        ≡ filter (λ job. not (same_state job.state finished_job)) table.rows)
remove_by_state_lem_example = remove_by_state_lem finished_job table (omega arith)

half_way :
    async_progress_handler (get_multiplier colls (some 7) [] 2 table_after) zero_frac 50 ≡ some 25
unfolding run
half_way = refl
