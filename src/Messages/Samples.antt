-- ===== src/Messages/Samples.antt =====
-- Requests that wait for an answer with their number.
use bfx_reports_framework.Base.{
  ℕ, ◌==◌, ◌≡◌, refl, true, false, Option, none, some, [], ◌∷◌, map, arith,
}
use bfx_reports_framework.Base.Actions.{Result, ok, err}
use bfx_reports_framework.Messages.{
  Err, other_error, resolved, rejected, Job, Waiting, close_job, close, close_from,
  process_queue_promises, trigger_all, main_handler, on_message,
}
use bfx_reports_framework.Messages.Settled.{
  comes, closes, here, next, Settled, Settled-intro, Steps-Settled,
}
use bfx_reports_framework.Messages.Answered.{close_from_enough, only_waits, on_message_one}
use bfx_reports_framework.Messages.Later.{CheckHandler}
use bfx_reports_framework.Messages.Lost.{all_answered}
use bfx_reports_framework.Messages.Handlers.{
  World, Env, remove_all_tables, handle_state, run_handler, tell_error,
}

abbrev is_for : ℕ → CheckHandler ℕ
is_for uid error none = false
is_for uid error (some n) = n == uid

abbrev fine : Option Err → Result Err (Unit {0})
fine error = ok tt

abbrev fails_first : Option Err → Result Err (Unit {0})
fails_first none = err (other_error 7)
fails_first (some e) = ok tt

abbrev wait : ℕ → Job ℕ
wait i = record {
  check_handler = none;
  index = some i;
  has_triggered = false;
  has_closed = false;
  outcome = none;
}

abbrev four : Waiting ℕ
four = record { jobs = wait 0 ∷ wait 1 ∷ wait 2 ∷ wait 3 ∷ []; queue = 0 ∷ 1 ∷ 2 ∷ 3 ∷ [] }

-- One message for four promises settles the first and the third, and the fourth has left the queue
-- without an answer.
four_run :
    (map (λ (j : Job ℕ). j.has_closed) (on_message fine (some 5) four).0.jobs
      ≡ true ∷ false ∷ true ∷ false ∷ [])
    × ((on_message fine (some 5) four).0.queue ≡ 1 ∷ 2 ∷ [])
unfolding on_message main_handler process_queue_promises trigger_all close_from close close_job
four_run = (refl, refl)

close_from_enough_example : close_from 9 0 none (some 5) four ≡ close_from 4 0 none (some 5) four
close_from_enough_example = close_from_enough none (some 5) 4 9 0 four (omega arith) (omega arith)

on_message_one_example :
    Settled 0
      (rejected (other_error 7))
      (on_message fails_first (some 5) (only_waits (wait 0 ∷ []) 0)).0
    × ((on_message fails_first (some 5) (only_waits (wait 0 ∷ []) 0)).0.queue ≡ [])
on_message_one_example =
    on_message_one fails_first (some 5) (wait 0 ∷ []) 0 false none refl (λ e. refl)

abbrev answered : Job ℕ
answered = record {
  check_handler = none;
  index = none;
  has_triggered = true;
  has_closed = true;
  outcome = some (resolved (some 5));
}

abbrev after_answer : Waiting ℕ
after_answer = record { jobs = answered ∷ wait 0 ∷ []; queue = 1 ∷ [] }

Steps-Settled_example :
    Settled 0
      (resolved (some 5))
      (close 0 none (some 8) (on_message fails_first (some 6) after_answer).0)
Steps-Settled_example =
    Steps-Settled 0 (resolved (some 5))
      (next (next here (comes fails_first (some 6))) (closes 0 none (some 8)))
      (Settled-intro 0 (resolved (some 5)) after_answer (answered, refl, (refl, refl)))

abbrev third_lost : Waiting ℕ
third_lost = all_answered (is_for 1) (is_for 2) (is_for 3) 1 2 3

abbrev failing_drop : Env
failing_drop = record {
  drop_tables_but_users = ok tt;
  drop_all_tables = err (other_error 1);
  set_curr_db_ver = ok tt;
  disable_foreign_keys = ok tt;
  enable_foreign_keys = ok tt;
  backup = ok tt;
  recalc_balances = ok tt;
  restore = ok true;
  backup_files_metadata = ok tt;
  update_users = ok tt;
}

abbrev world : World
world = record { are_foreign_keys_on = true; told = [] }

handled_run :
    ((handle_state failing_drop remove_all_tables world).1 ≡ ok tt)
    × ((handle_state failing_drop remove_all_tables world).0.are_foreign_keys_on ≡ true)
unfolding handle_state run_handler tell_error
handled_run = (refl, refl)
