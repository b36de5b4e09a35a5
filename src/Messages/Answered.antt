-- ===== src/Messages/Answered.antt =====
-- process.message.manager/index.js: how the loop over the queue ends, and who gets an answer.
use bfx_reports_framework.Base.{
  ℕ, zero, suc, ◌+◌, ◌≤◌, ◌≡◌, refl, if_ind, Bool, true, false, ◌||◌, Option, none, some, List, [],
  ◌∷◌, length, get_elem?, get_elem?-out_of_range, get_elem?-set_self, arith,
}
use bfx_reports_framework.Base.Actions.{Result, ok, err}
use bfx_reports_framework.Messages.{
  Err, Outcome, resolved, rejected, outcome_of, data_unless, handled, again, Job, Waiting,
  remove_at, remove_if_some, refuses, close_job, close, close_from, process_queue_promises,
  trigger_all, main_handler, on_message,
}
use bfx_reports_framework.Messages.Settled.{Settled}

length-remove_at : (queue : List ℕ) (i : ℕ) → length (remove_at queue i) ≤ length queue
length-remove_at [] i = omega arith
length-remove_at (x ∷ queue) zero = omega arith
length-remove_at (x ∷ queue) (suc i) = omega (arith, length-remove_at queue i)

length-remove_if_some :
    (queue : List ℕ) (index : Option ℕ) → length (remove_if_some queue index) ≤ length queue
length-remove_if_some queue none = omega arith
length-remove_if_some queue (some i) = length-remove_at queue i

module _ {X : Type 0} (error : Option Err) (data_value : Option X) where
  length-close_job :
      (id : ℕ) (found : Option (Job X)) (w : Waiting X)
      → length (close_job id found error data_value w).queue ≤ length w.queue
  unfolding close_job
  length-close_job id none w = omega arith
  length-close_job id (some job) w =
      if_ind {A = Waiting X} (λ v. length v.queue ≤ length w.queue)
        (job.has_closed || refuses job.check_handler error data_value) (λ _. omega arith)
        (λ _. length-remove_if_some w.queue job.index)

  -- The loop over the waiting jobs ends: from the index `i` on, fuel that reaches the end of the queue
  -- gives what any greater fuel gives, although the jobs leave the queue while the loop runs over it.
  pub close_from_enough :
      (fuel more i : ℕ) (w : Waiting X)
      → length w.queue ≤ fuel + i
      → fuel ≤ more
      → close_from more i error data_value w ≡ close_from fuel i error data_value w
  unfolding close_from close
  close_from_enough zero zero i w h k = refl
  close_from_enough zero (suc more) i w h k =
      let none_left : get_elem? w.queue i ≡ none = get_elem?-out_of_range w.queue i (omega arith) in
      ground arith
  close_from_enough (suc fuel) zero i w h k = absurd (omega arith)
  close_from_enough (suc fuel) (suc more) i w h k =
      elim (get_elem? w.queue i)
        as (λ found.
          elim found [
            | none ↦ w
            | some id ↦ close_from more (i + 1) error data_value (close id error data_value w)
          ]
          ≡ elim found [
            | none ↦ w
            | some id ↦ close_from fuel (i + 1) error data_value (close id error data_value w)
          ]) [
            | none ↦ refl
            | some id ↦
                close_from_enough fuel more (i + 1) (close id error data_value w)
                  (omega (arith, length-close_job id (get_elem? w.jobs id) w)) (omega arith)
          ]

module _ {X : Type 0} where
  -- A job that waits first in its queue, without a check of its own
  abbrev pub waiting_job : Bool → Option (Outcome X) → Job X
  waiting_job has_triggered outcome = record {
    check_handler = none;
    index = some 0;
    has_triggered = has_triggered;
    has_closed = false;
    outcome = outcome;
  }

  -- Of all jobs that there were, only `id` waits.
  abbrev pub only_waits : List (Job X) → ℕ → Waiting X
  only_waits jobs id = record { jobs = jobs; queue = id ∷ [] }

  -- What a waiting job is answered with
  abbrev pub answer_of : Result Err (Unit {0}) → Option X → Outcome X
  answer_of (ok u) data_value = resolved data_value
  answer_of (err e) data_value = rejected e

  abbrev Answers : ℕ → Outcome X → Waiting X → Type 0
  Answers id o w = Settled id o w × (w.queue ≡ [])

  process-Answers :
      (error : Option Err) (data_value : Option X) (jobs : List (Job X)) (id : ℕ) (t : Bool)
      (o : Option (Outcome X))
      → get_elem? jobs id ≡ some (waiting_job t o)
      → Answers id
          (outcome_of error (data_unless error data_value))
          (process_queue_promises error data_value (only_waits jobs id))
  unfolding process_queue_promises close_from close close_job Settled
  process-Answers error data_value jobs id t o g =
      rw g ((_, get_elem?-set_self jobs id _ _ g, (refl, refl)), refl)

  trigger_lem :
      (jobs : List (Job X)) (id : ℕ) (t : Bool) (o : Option (Outcome X))
      → get_elem? jobs id ≡ some (waiting_job t o)
      → get_elem? (trigger_all (id ∷ []) jobs) id ≡ some (waiting_job true o)
  unfolding trigger_all
  trigger_lem jobs id t o g =
      ground (arith, get_elem?-set_self jobs id (waiting_job true o) (waiting_job t o) g)

  second-Answers :
      (handler : Option Err → Result Err (Unit {0})) (data_value : Option X) (jobs : List (Job X))
      (id : ℕ) (o : Option (Outcome X)) (e : Err)
      → get_elem? jobs id ≡ some (waiting_job true o)
      → handler (some e) ≡ ok tt
      → Answers id (rejected e) (main_handler handler (some e) data_value (only_waits jobs id)).0
  unfolding main_handler
  second-Answers handler data_value jobs id o e g fine = rw fine (
      process-Answers (some e) data_value (trigger_all (id ∷ []) jobs) id true o
        (trigger_lem jobs id true o g))

  first-Answers :
      (handler : Option Err → Result Err (Unit {0})) (data_value : Option X) (jobs : List (Job X))
      (id : ℕ) (o : Option (Outcome X)) (r : Result Err (Unit {0}))
      → get_elem? jobs id ≡ some (waiting_job true o)
      → ((e : Err) → handler (some e) ≡ ok tt)
      → Answers id
          (answer_of r data_value)
          (again handler data_value (handled r none data_value (only_waits jobs id))).0
  first-Answers handler data_value jobs id o (ok u) g fine =
      process-Answers none data_value jobs id true o g
  first-Answers handler data_value jobs id o (err e) g fine =
      second-Answers handler data_value jobs id o e g (fine e)

  -- Where one job waits, without a check of its own, and the state's handler does not fail when it is
  -- given an error, the next message settles the job: with the data, or with the error of the handler.
  -- Then nobody waits.
  pub on_message_one :
      (handler : Option Err → Result Err (Unit {0})) (data_value : Option X) (jobs : List (Job X))
      (id : ℕ) (t : Bool) (o : Option (Outcome X))
      → get_elem? jobs id ≡ some (waiting_job t o)
      → ((e : Err) → handler (some e) ≡ ok tt)
      → Settled id
          (answer_of (handler none) data_value)
          (on_message handler data_value (only_waits jobs id)).0
        × ((on_message handler data_value (only_waits jobs id)).0.queue ≡ [])
  unfolding on_message main_handler
  on_message_one handler data_value jobs id t o g fine =
      first-Answers handler data_value (trigger_all (id ∷ []) jobs) id o (handler none)
        (trigger_lem jobs id t o g) fine
