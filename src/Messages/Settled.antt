-- ===== src/Messages/Settled.antt =====
-- process.message.manager/index.js: a promise that is settled, and what comes after.
use mathlib.Core.Option.{some-injective}
use bfx_reports_framework.Base.{
  ℕ, zero, suc, ◌+◌, ◌≡◌, refl, sym, ◌∙◌, subst, if_ind, ◌||◌, Bool, true, Option, none, some, List,
  [], ◌∷◌, ◌++◌, length, get_elem?, set, arith,
}
use bfx_reports_framework.Base.Actions.{Result, ok, err}
use bfx_reports_framework.Messages.{
  Err, Outcome, Job, Waiting, add_state_to_wait, refuses, close_job, close, close_from, data_unless,
  process_queue_promises, trigger_all, triggered, handled, main_handler, again, on_message,
}

module _ {X : Type 0} where
  -- What can happen: a state is waited for, a job is closed by its owner, or a message comes, and its
  -- handler answers in some way.
  pub data Step (w : Waiting X) : Waiting X → Type 0 where
    adds :
        (check_handler : Option (Option Err → Option X → Bool))
        → Step w (add_state_to_wait check_handler w)
    closes :
        (id : ℕ) (error : Option Err) (data_value : Option X) → Step w (close id error data_value w)
    comes :
        (handler : Option Err → Result Err (Unit {0})) (data_value : Option X)
        → Step w (on_message handler data_value w).0

  pub data Steps (w : Waiting X) : Waiting X → Type 0 where
    here : Steps w w
    next : {u v : Waiting X} → Steps w u → Step u v → Steps w v

  abbrev pub IsSettled : Outcome X → Job X → Type 0
  IsSettled o job = (job.has_closed ≡ true) × (job.outcome ≡ some o)

  abbrev pub SettledIn : ℕ → Outcome X → List (Job X) → Type 0
  SettledIn id o jobs = (job : Job X) × (get_elem? jobs id ≡ some job) × IsSettled o job

  -- The promise of the job `id` is settled with `o`.
  unfoldable pub Settled : ℕ → Outcome X → Waiting X → Type 0
  Settled id o w = SettledIn id o w.jobs

  pub Settled-intro :
      (id : ℕ) (o : Outcome X) (w : Waiting X) → SettledIn id o w.jobs → Settled id o w
  unfolding Settled
  Settled-intro id o w h = h

  pub Settled-elim :
      (id : ℕ) (o : Outcome X) (w : Waiting X) → Settled id o w → SettledIn id o w.jobs
  unfolding Settled
  Settled-elim id o w h = h

  get_elem?-append :
      (jobs : List (Job X)) (id : ℕ) (job new : Job X)
      → get_elem? jobs id ≡ some job
      → get_elem? (jobs ++ (new ∷ [])) id ≡ some job
  get_elem?-append [] id job new h = cc
  get_elem?-append (j ∷ jobs) zero job new h = h
  get_elem?-append (j ∷ jobs) (suc id) job new h = get_elem?-append jobs id job new h

  -- One job is exchanged for another that is settled with `o` where it was.
  set-SettledIn :
      (o : Outcome X) (jobs : List (Job X)) (id id' : ℕ) (other new : Job X)
      → get_elem? jobs id' ≡ some other
      → (IsSettled o other → IsSettled o new)
      → SettledIn id o jobs
      → SettledIn id o (set jobs id' new)
  set-SettledIn o [] id id' other new e f h = cc
  set-SettledIn o (j ∷ jobs) zero zero other new e f (job, g, h) =
      (new, refl, f (subst (IsSettled o) (some-injective job other (sym g ∙ e)) h))
  set-SettledIn o (j ∷ jobs) zero (suc id') other new e f h = h
  set-SettledIn o (j ∷ jobs) (suc id) zero other new e f h = h
  set-SettledIn o (j ∷ jobs) (suc id) (suc id') other new e f h =
      set-SettledIn o jobs id id' other new e f h

  close_job-Settled :
      (w : Waiting X) (id : ℕ) (o : Outcome X) (id' : ℕ) (found : Option (Job X))
      (error : Option Err) (data_value : Option X)
      → get_elem? w.jobs id' ≡ found
      → Settled id o w
      → Settled id o (close_job id' found error data_value w)
  unfolding Settled close_job
  close_job-Settled w id o id' none error data_value f h = h
  close_job-Settled w id o id' (some other) error data_value f h =
      if_ind {A = Waiting X} (λ v. SettledIn id o v.jobs)
        (other.has_closed || refuses other.check_handler error data_value) (λ _. h)
        (λ waits. set-SettledIn o w.jobs id id' other _ f (λ s. ground arith) h)

  close-Settled :
      (id : ℕ) (o : Outcome X) (id' : ℕ) (error : Option Err) (data_value : Option X)
      (w : Waiting X)
      → Settled id o w
      → Settled id o (close id' error data_value w)
  unfolding close
  close-Settled id o id' error data_value w h =
      close_job-Settled w id o id' (get_elem? w.jobs id') error data_value refl h

  close_from-Settled :
      (id : ℕ) (o : Outcome X) (fuel i : ℕ) (error : Option Err) (data_value : Option X)
      (w : Waiting X)
      → Settled id o w
      → Settled id o (close_from fuel i error data_value w)
  unfolding close_from
  close_from-Settled id o zero i error data_value w h = h
  close_from-Settled id o (suc fuel) i error data_value w h =
      elim (get_elem? w.queue i)
        as (λ found. Settled id o (elim found [
          | none ↦ w
          | some id' ↦ close_from fuel (i + 1) error data_value (close id' error data_value w)
        ])) [
          | none ↦ h
          | some id' ↦
              close_from-Settled id o fuel (i + 1) error data_value (close id' error data_value w)
                (close-Settled id o id' error data_value w h)
        ]

  trigger-SettledIn :
      (id : ℕ) (o : Outcome X) (id' : ℕ) (jobs : List (Job X)) (found : Option (Job X))
      → get_elem? jobs id' ≡ found
      → SettledIn id o jobs
      → SettledIn id o (elim found [
        | none ↦ jobs
        | some job ↦ set jobs id' (record job { has_triggered = true })
      ])
  trigger-SettledIn id o id' jobs none f h = h
  trigger-SettledIn id o id' jobs (some other) f h =
      set-SettledIn o jobs id id' other _ f (λ s. s) h

  trigger_all-SettledIn :
      (id : ℕ) (o : Outcome X) (queue : List ℕ) (jobs : List (Job X))
      → SettledIn id o jobs
      → SettledIn id o (trigger_all queue jobs)
  unfolding trigger_all
  trigger_all-SettledIn id o [] jobs h = h
  trigger_all-SettledIn id o (id' ∷ queue) jobs h =
      trigger_all-SettledIn id o queue _
        (trigger-SettledIn id o id' jobs (get_elem? jobs id') refl h)

  triggered-Settled :
      (id : ℕ) (o : Outcome X) (w : Waiting X) → Settled id o w → Settled id o (triggered w)
  unfolding Settled
  triggered-Settled id o w h = trigger_all-SettledIn id o w.queue w.jobs h

  handled-Settled :
      (id : ℕ) (o : Outcome X) (r : Result Err (Unit {0})) (error : Option Err)
      (data_value : Option X) (w : Waiting X)
      → Settled id o w
      → Settled id o (handled r error data_value w).0
  unfolding process_queue_promises
  handled-Settled id o (ok u) error data_value w h =
      close_from-Settled id o (length w.queue) 0 error (data_unless error data_value) w h
  handled-Settled id o (err e) error data_value w h = h

  main_handler-Settled :
      (id : ℕ) (o : Outcome X) (handler : Option Err → Result Err (Unit {0})) (error : Option Err)
      (data_value : Option X) (w : Waiting X)
      → Settled id o w
      → Settled id o (main_handler handler error data_value w).0
  unfolding main_handler
  main_handler-Settled id o handler error data_value w h =
      handled-Settled id o (handler error) error data_value (triggered w)
        (triggered-Settled id o w h)

  again-Settled :
      (id : ℕ) (o : Outcome X) (handler : Option Err → Result Err (Unit {0}))
      (data_value : Option X) (w : Waiting X) (r : Result Err (Unit {0}))
      → Settled id o w
      → Settled id o (again handler data_value (w, r)).0
  again-Settled id o handler data_value w (ok u) h = h
  again-Settled id o handler data_value w (err e) h =
      main_handler-Settled id o handler (some e) data_value w h

  Step-Settled :
      {w v : Waiting X} (id : ℕ) (o : Outcome X) → Step w v → Settled id o w → Settled id o v
  unfolding Settled add_state_to_wait on_message
  Step-Settled id o (adds check_handler) (job, e, h) = (job, get_elem?-append _ id job _ e, h)
  Step-Settled id o (closes id' error data_value) h = close-Settled id o id' error data_value _ h
  Step-Settled {w} id o (comes handler data_value) h =
      let m = main_handler handler none data_value w in
      again-Settled id o handler data_value m.0 m.1
        (main_handler-Settled id o handler none data_value w h)

  -- A promise is settled once: what it is settled with stays, whatever is added, closed or comes after
  -- it, however often and in which order, and whatever the handlers answer.
  pub Steps-Settled :
      {w v : Waiting X} (id : ℕ) (o : Outcome X) → Steps w v → Settled id o w → Settled id o v
  Steps-Settled id o here h = h
  Steps-Settled id o (next steps step) h = Step-Settled id o step (Steps-Settled id o steps h)
