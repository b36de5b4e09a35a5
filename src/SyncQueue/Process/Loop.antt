-- ===== src/SyncQueue/Process/Loop.antt =====
-- A proof rule for `process`: what each round keeps, and what its ends establish.
use bfx_reports_framework.Base.{
  ℕ, zero, suc, ◌+◌, ◌<◌, ◌≡◌, refl, Bool, true, false, Option, none, some, List, [], ◌≤◌, arith,
}
use bfx_reports_framework.SyncQueue.Table.{Job}
use bfx_reports_framework.SyncQueue.Add.{QueueError}
use bfx_reports_framework.SyncQueue.Multipliers.{Colls, Frac, zero_frac}
use bfx_reports_framework.SyncQueue.Process.{
  Queue, initial_progress, Round, Next, go, break, throw, Outcome, returns, throws, process_round,
  arrive, process_loop, outcome_of, finish, process,
}
use bfx_reports_framework.SyncQueue.Process.Rounds.{RoundResult, process_round-RoundResult}

-- What a round, or the loop, leaves: `I` while it goes on, `B` after a break, `E` with an error.
abbrev pub Post : (I B : Queue → Type 0) (E : QueueError → Queue → Type 0) → Next → Type 0
Post I B E (go queue multiplier prev) = I queue
Post I B E (break queue) = B queue
Post I B E (throw e queue) = E e queue

-- The loop has ended, by a break or an error.
abbrev Ended : (B : Queue → Type 0) (E : QueueError → Queue → Type 0) → Option Next → Type 0
Ended B E none = ⊥
Ended B E (some (go queue multiplier prev)) = ⊥
Ended B E (some (break queue)) = B queue
Ended B E (some (throw e queue)) = E e queue

-- What the outcome of `process` is: the last steps after a break, or the error.
abbrev pub Finished :
    (B : Queue → Type 0) (E : QueueError → Queue → Type 0) → Bool → Outcome → Type 0
Finished B E interrupted (returns p after) =
    (q : Queue) × B q × (finish interrupted q ≡ returns p after)
Finished B E interrupted (throws e after) = E e after

finish-Finished :
    (B : Queue → Type 0) (E : QueueError → Queue → Type 0) (interrupted : Bool) (q : Queue)
    → B q
    → Finished B E interrupted (finish interrupted q)
unfolding finish
finish-Finished B E true q h = (q, h, refl)
finish-Finished B E false q h = (q, h, refl)

Ended-Finished :
    (B : Queue → Type 0) (E : QueueError → Queue → Type 0) (interrupted : Bool) (r : Option Next)
    → Ended B E r
    → (o : Outcome) × (outcome_of interrupted r ≡ some o) × Finished B E interrupted o
Ended-Finished B E interrupted none h = absurd h
Ended-Finished B E interrupted (some (go queue multiplier prev)) h = absurd h
Ended-Finished B E interrupted (some (break queue)) h =
    (finish interrupted queue, refl, finish-Finished B E interrupted queue h)
Ended-Finished B E interrupted (some (throw e queue)) h = (throws e queue, refl, h)

module _ (owner : Option ℕ) (I B : Queue → Type 0) (E : QueueError → Queue → Type 0)
    (keep : (round : Round) (count : ℕ) (prev : List Job) (queue : Queue) (next : Next)
      → I queue
      → RoundResult owner round count prev queue next
      → Post I B E next)
    (arrives : (round : Round) (queue : Queue) → I queue → I (arrive round queue)) (colls : Colls)
    (rounds : ℕ → Round) where
  after_round :
      (fuel count : ℕ) (prev : List Job) (multiplier : Frac) (queue : Queue) (next : Next)
      → ((q : Queue) (m : Frac) (js : List Job)
          → count < 10
          → I q
          → Ended B E (process_loop fuel colls owner rounds (count + 1) js m q))
      → process_round colls owner (rounds count) count prev multiplier (arrive (rounds count) queue)
        ≡ next
      → RoundResult owner (rounds count) count prev (arrive (rounds count) queue) next
      → Post I B E next
      → Ended B E (process_loop (suc fuel) colls owner rounds count prev multiplier queue)
  unfolding process_loop
  after_round fuel count prev multiplier queue (go q m js) ih e (early, _, _, _) h =
      rw (e, Ended, process_loop) (ih q m js early h)
  after_round fuel count prev multiplier queue (break q) ih e r h = rw (e, Ended, process_loop) h
  after_round fuel count prev multiplier queue (throw error q) ih e r h =
      rw (e, Ended, process_loop) h

  process_loop-Ended :
      (fuel count : ℕ) (prev : List Job) (multiplier : Frac) (queue : Queue)
      → 10 < fuel + count
      → count ≤ 10
      → I queue
      → Ended B E (process_loop fuel colls owner rounds count prev multiplier queue)
  process_loop-Ended zero count prev multiplier queue enough early h = absurd (omega arith)
  process_loop-Ended (suc fuel) count prev multiplier queue enough early h =
      let arrived = arrive (rounds count) queue in
      let result =
        process_round-RoundResult colls owner (rounds count) count prev multiplier arrived in
      after_round fuel count prev multiplier queue _
        (λ q m js below kept.
          process_loop-Ended fuel (count + 1) js m q (omega arith) (omega arith) kept)
        refl result
        (keep (rounds count) count prev arrived _ (arrives (rounds count) queue h) result)

  -- A run of `process` always ends with an outcome, and the outcome is as the rounds leave it.
  pub process_rule :
      (interrupted : Bool) (queue : Queue)
      → I (record queue { progress = initial_progress })
      → (o : Outcome) × (process colls owner rounds interrupted queue ≡ some o)
        × Finished B E interrupted o
  unfolding process
  process_rule interrupted queue h = Ended-Finished B E interrupted _ (
      process_loop-Ended 11 0 [] zero_frac (record queue { progress = initial_progress })
        (omega arith) (omega arith) h)
