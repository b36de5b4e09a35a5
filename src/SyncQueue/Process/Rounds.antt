-- ===== src/SyncQueue/Process/Rounds.antt =====
-- SyncQueue.process: one round of the loop, branch by branch.
use bfx_reports_framework.Base.{
  ℕ, ◌+◌, ◌<◌, ◌≡◌, refl, true, false, Option, none, some, List, [], ◌∷◌, ◌++◌, ltb, arith, if_ind,
  ◌⊎◌, inl, inr, ◌∙◌,
}
use bfx_reports_framework.SyncQueue.Table.{
  JobState, locked_job, new_job, finished_job, error_job, Job, get_all, update_state_by_id,
  update_rows, has_id,
}
use bfx_reports_framework.SyncQueue.Table.Rows.{has_id-head, has_id-update_rows, update_rows_twice}
use bfx_reports_framework.SyncQueue.Add.{data_inserter}
use bfx_reports_framework.SyncQueue.Multipliers.{
  Colls, Frac, zero_frac, get_multiplier, async_progress_handler,
}
use bfx_reports_framework.SyncQueue.Process.{
  Queue, Round, Next, go, break, throw, run_reports, set_if_some, with_state, sub_process,
  run_round, process_round, get_next,
}

-- The queue's table after `job` has been taken and left in `state`; nothing else of it has changed.
pub record Ran (owner : Option ℕ) (round : Round) (before : Queue) (job : Job) (state : JobState)
    (after : Queue) : Type 0 where
  pub taken : (get_next owner before).0 ≡ some job
  pub table :
      after.table
      ≡ record before.table { rows = update_rows job.id state round.now before.table.rows }
  pub not_first : after.is_first_sync ≡ false

-- What a round does: it stops with the table as it was, or runs the next job. The job ends in the
-- state ERROR if the data inserter throws, in NEW if there was an interrupt, and in FINISHED
-- otherwise; in the last case alone the loop goes on.
abbrev pub RoundResult : Option ℕ → Round → ℕ → List Job → Queue → Next → Type 0
RoundResult owner round count prev queue (break after) =
    (after.table ≡ queue.table)
    ⊎ ((job : Job) × (round.throws ≡ false)
        × (round.interrupted_after ≡ true)
        × Ran owner round queue job new_job after)
RoundResult owner round count prev queue (throw e after) =
    (e ≡ data_inserter)
    × (round.throws ≡ true)
    × ((job : Job) × Ran owner round queue job error_job after)
RoundResult owner round count prev queue (go after multiplier prev') =
    (count < 10)
    × (round.throws ≡ false)
    × (round.interrupted_after ≡ false)
    × ((job : Job) × (prev' ≡ prev ++ job ∷ []) × Ran owner round queue job finished_job after)

-- A report changes nothing but the progress.
record SameTable (a b : Queue) : Type 0 where
  table : a.table ≡ b.table
  first : a.is_first_sync ≡ b.is_first_sync

table-set_if_some : (o : Option ℕ) (queue : Queue) → SameTable (set_if_some o queue) queue
unfolding set_if_some
table-set_if_some none queue = record { table = refl; first = refl }
table-set_if_some (some p) queue = record { table = refl; first = refl }

SameTable-trans : {a b c : Queue} → SameTable a b → SameTable b c → SameTable a c
SameTable-trans p q = record { table = p.table ∙ q.table; first = p.first ∙ q.first }

table-run_reports :
    (colls : Colls) (owner : Option ℕ) (prev : List Job) (id : ℕ) (multiplier curr : Frac)
    (reports : List ℕ) (queue : Queue)
    → SameTable (run_reports colls owner prev id multiplier curr reports queue).1 queue
unfolding run_reports
table-run_reports colls owner prev id multiplier curr [] queue = record {
  table = refl;
  first = refl;
}
table-run_reports colls owner prev id multiplier curr (p ∷ reports) queue =
    let curr' = get_multiplier colls owner prev id queue.table in
    SameTable-trans (table-run_reports colls owner prev id multiplier curr' reports _)
      (table-set_if_some (async_progress_handler curr' multiplier p) queue)

-- An update of a row that is there does not throw.
with_state_lem :
    (id : ℕ) (state : JobState) (now : ℕ) (queue : Queue) (k : Queue → Next)
    → has_id id queue.table.rows ≡ true
    → with_state id state now queue k
      ≡ k (record queue {
        table = record queue.table { rows = update_rows id state now queue.table.rows };
      })
unfolding with_state update_state_by_id
with_state_lem id state now queue k h = rw (h, with_state, update_state_by_id)

pub has_id-taken :
    (owner : Option ℕ) (queue : Queue) (job : Job)
    → (get_next owner queue).0 ≡ some job
    → has_id job.id queue.table.rows ≡ true
unfolding get_next get_all
has_id-taken owner queue job taken = has_id-head _ queue.table.rows job taken

module _ (owner : Option ℕ) (round : Round) (count : ℕ) (prev : List Job) (queue : Queue)
    (job : Job) (taken : (get_next owner queue).0 ≡ some job) where
  -- the queue once the job has been locked, and once its state has been set again
  abbrev locked : Queue
  locked = record (get_next owner queue).1 {
    table = record queue.table { rows = update_rows job.id locked_job round.now queue.table.rows };
  }

  abbrev left_in : JobState → Queue → Queue
  left_in state q = record q {
    table = record q.table { rows = update_rows job.id state round.now q.table.rows };
  }

  has_id-SameTable : (q : Queue) → SameTable q locked → has_id job.id q.table.rows ≡ true
  has_id-SameTable q same = rw same.table (
      has_id-update_rows job.id job.id locked_job round.now queue.table.rows
      ∙ has_id-taken owner queue job taken)

  Ran-left_in :
      (state : JobState) (q : Queue)
      → SameTable q locked
      → Ran owner round queue job state (left_in state q)
  unfolding get_next
  Ran-left_in state q same = record {
    taken = taken;
    table = rw (same.table, update_rows_twice);
    not_first = same.first;
  }

  sub_process-RoundResult :
      (colls : Colls) (multiplier : Frac)
      → count < 10
      → RoundResult owner round count prev queue
          (sub_process colls owner round job prev multiplier locked)
  unfolding sub_process
  sub_process-RoundResult colls multiplier early =
      let (curr, q) =
        run_reports colls owner prev job.id multiplier zero_frac round.reports locked in
      let same : SameTable q locked =
        table-run_reports colls owner prev job.id multiplier zero_frac round.reports locked in
      let there = has_id-SameTable q same in
      if_ind (RoundResult owner round count prev queue) round.throws
        (λ thrown.
          rw (with_state_lem job.id error_job round.now q _ there)
            (refl, thrown, (job, Ran-left_in error_job q same)))
        (λ fine.
          if_ind (RoundResult owner round count prev queue) round.interrupted_after
            (λ interrupted.
              rw (with_state_lem job.id new_job round.now q _ there)
                (inr (job, fine, interrupted, Ran-left_in new_job q same)))
            (λ on.
              rw (with_state_lem job.id finished_job round.now q _ there)
                (early, fine, on, (job, refl, Ran-left_in finished_job q same))))

module _ (colls : Colls) (owner : Option ℕ) (round : Round) (count : ℕ) (prev : List Job)
    (multiplier : Frac) (queue : Queue) where
  run_round-RoundResult :
      (next_sync : Option Job)
      → (get_next owner queue).0 ≡ next_sync
      → RoundResult owner round count prev queue (
          run_round colls owner round
            (count + 1)
            next_sync
            prev
            multiplier
            (get_next owner queue).1)
  unfolding run_round get_next
  run_round-RoundResult none empty = inl refl
  run_round-RoundResult (some job) taken =
      if_ind (RoundResult owner round count prev queue) (ltb 10 (count + 1)) (λ late. inl refl)
        (λ early.
          rw
            (with_state_lem job.id locked_job round.now (get_next owner queue).1 _
              (has_id-taken owner queue job taken))
            (sub_process-RoundResult owner round count prev queue job taken colls multiplier
              (ground arith)))

  -- Whatever the environment does in a round of the loop, the round ends in one of these ways: it
  -- stops with the table as it was; or it takes the first waiting job, and leaves it in the state
  -- ERROR with the data inserter's error if that throws, in NEW if there was an interrupt, and in
  -- FINISHED, among the finished jobs of this run, otherwise. No other row changes, and the loop
  -- goes on only below its tenth round.
  pub process_round-RoundResult :
      RoundResult owner round count prev queue
        (process_round colls owner round count prev multiplier queue)
  unfolding process_round
  process_round-RoundResult =
      if_ind (RoundResult owner round count prev queue) round.interrupted_before
        (λ stopped. inl refl) (λ on. run_round-RoundResult _ refl)
