-- ===== src/Messages/Later.antt =====
-- process.message.manager/index.js: a job that waits and is not in the queue, and what can come after.
use bfx_reports_framework.Base.{
  ℕ, zero, suc, ◌+◌, ◌<◌, ◌≡◌, ◌≢◌, refl, ap, ◌∙◌, if_ind, ◌||◌, Bool, true, false, Option, none,
  some, List, [], ◌∷◌, ◌++◌, All, All-get_elem?, length, length-append, length-set, get_elem?,
  get_elem?-set_ne, set, arith,
}
use bfx_reports_framework.Base.Actions.{Result, ok, err}
use bfx_reports_framework.Messages.{
  Err, Job, Waiting, add_state_to_wait, remove_at, remove_if_some, refuses, close_job, close,
  close_from, data_unless, process_queue_promises, trigger_all, triggered, handled, main_handler,
  again, on_message,
}

abbrev pub CheckHandler : Type 0 → Type 0
CheckHandler X = Option Err → Option X → Bool

All-push :
    (id new : ℕ) (queue : List ℕ)
    → All (λ x. x ≢ id) queue
    → new ≢ id
    → All (λ x. x ≢ id) (queue ++ (new ∷ []))
All-push id new [] a h = (h, tt)
All-push id new (x ∷ queue) a h = (a.0, All-push id new queue a.1 h)

All-remove_at :
    (id : ℕ) (queue : List ℕ) (i : ℕ)
    → All (λ x. x ≢ id) queue
    → All (λ x. x ≢ id) (remove_at queue i)
All-remove_at id [] i a = tt
All-remove_at id (x ∷ queue) zero a = a.1
All-remove_at id (x ∷ queue) (suc i) a = (a.0, All-remove_at id queue i a.1)

All-remove_if_some :
    (id : ℕ) (queue : List ℕ) (index : Option ℕ)
    → All (λ x. x ≢ id) queue
    → All (λ x. x ≢ id) (remove_if_some queue index)
All-remove_if_some id queue none a = a
All-remove_if_some id queue (some i) a = All-remove_at id queue i a

module _ {X : Type 0} where
  abbrev pub is_waiting : Option (Job X) → Bool
  is_waiting none = false
  is_waiting (some job) = elim job.outcome [ none ↦ true | some o ↦ false ]

  -- What can come after `w`: other states are waited for, messages come, whose handlers answer in some
  -- way, and other jobs than `id` are closed by their owners.
  pub data Later (id : ℕ) (w : Waiting X) : Waiting X → Type 0 where
    at_once : Later id w w
    later_adds :
        {v : Waiting X} (check_handler : Option (CheckHandler X))
        → Later id w v
        → Later id w (add_state_to_wait check_handler v)
    later_comes :
        {v : Waiting X} (handler : Option Err → Result Err (Unit {0})) (data_value : Option X)
        → Later id w v
        → Later id w (on_message handler data_value v).0
    later_closes :
        {v : Waiting X} (other : ℕ) (error : Option Err) (data_value : Option X)
        → other ≢ id
        → Later id w v
        → Later id w (close other error data_value v)

  -- The job `id` waits, and is not in the queue.
  abbrev pub IsLost : ℕ → List ℕ → List (Job X) → Type 0
  IsLost id queue jobs =
      (id < length jobs) × All (λ x. x ≢ id) queue × (is_waiting (get_elem? jobs id) ≡ true)

  length-push :
      (jobs : List (Job X)) (id : ℕ) (new : Job X)
      → id < length jobs
      → id < length (jobs ++ (new ∷ []))
  length-push jobs id new h = omega (arith, length-append jobs (new ∷ []), h)

  get_elem?-push :
      (jobs : List (Job X)) (id : ℕ) (new : Job X)
      → id < length jobs
      → get_elem? (jobs ++ (new ∷ [])) id ≡ get_elem? jobs id
  get_elem?-push [] id new h = absurd (omega arith)
  get_elem?-push (j ∷ jobs) zero new h = refl
  get_elem?-push (j ∷ jobs) (suc id) new h = get_elem?-push jobs id new (omega arith)

  set-IsLost :
      (id other : ℕ) (queue : List ℕ) (jobs : List (Job X)) (new : Job X)
      → other ≢ id
      → IsLost id queue jobs
      → IsLost id queue (set jobs other new)
  set-IsLost id other queue jobs new h (short, a, waits) = (
    omega (arith, length-set jobs other new, short),
    a,
    ap is_waiting (get_elem?-set_ne jobs other id new h) ∙ waits,
  )

  close-IsLost :
      (id other : ℕ) (error : Option Err) (data_value : Option X) (w : Waiting X)
      → other ≢ id
      → IsLost id w.queue w.jobs
      → IsLost id (close other error data_value w).queue (close other error data_value w).jobs
  unfolding close close_job
  close-IsLost id other error data_value w h lost =
      elim (get_elem? w.jobs other)
        as (λ found.
          IsLost id (close_job other found error data_value w).queue
            (close_job other found error data_value w).jobs) [
              | none ↦ lost
              | some job ↦
                  if_ind {A = Waiting X} (λ v. IsLost id v.queue v.jobs)
                    (job.has_closed || refuses job.check_handler error data_value) (λ _. lost)
                    (λ _.
                      let (short, a, waits) = set-IsLost id other w.queue w.jobs _ h lost in
                      (short, All-remove_if_some id w.queue job.index a, waits))
            ]

  close_from-IsLost :
      (id fuel i : ℕ) (error : Option Err) (data_value : Option X) (w : Waiting X)
      → IsLost id w.queue w.jobs
      → IsLost id
          (close_from fuel i error data_value w).queue
          (close_from fuel i error data_value w).jobs
  unfolding close_from
  close_from-IsLost id zero i error data_value w lost = lost
  close_from-IsLost id (suc fuel) i error data_value w lost =
      at_index (get_elem? w.queue i) refl (λ other h.
        close_from-IsLost id fuel (i + 1) error data_value (close other error data_value w)
          (close-IsLost id other error data_value w h lost))
    where
      next : Option ℕ → Waiting X
      next found = elim found [
        | none ↦ w
        | some other ↦ close_from fuel (i + 1) error data_value (close other error data_value w)
      ]

      at_index :
          (found : Option ℕ)
          → get_elem? w.queue i ≡ found
          → ((other : ℕ)
              → other ≢ id
              → IsLost id (next (some other)).queue (next (some other)).jobs)
          → IsLost id (next found).queue (next found).jobs
      at_index none e k = lost
      at_index (some other) e k = k other (All-get_elem? _ w.queue i other lost.1 e)

  trigger_all-IsLost :
      (id : ℕ) (queue waiting : List ℕ) (jobs : List (Job X))
      → All (λ x. x ≢ id) queue
      → IsLost id waiting jobs
      → IsLost id waiting (trigger_all queue jobs)
  unfolding trigger_all
  trigger_all-IsLost id [] waiting jobs a lost = lost
  trigger_all-IsLost id (other ∷ queue) waiting jobs a lost =
      trigger_all-IsLost id queue waiting _ a.1
        (elim (get_elem? jobs other)
          as (λ found. IsLost id waiting (elim found [
            | none ↦ jobs
            | some job ↦ set jobs other (record job { has_triggered = true })
          ])) [ none ↦ lost | some job ↦ set-IsLost id other waiting jobs _ a.0 lost ])

  handled-IsLost :
      (id : ℕ) (r : Result Err (Unit {0})) (error : Option Err) (data_value : Option X)
      (w : Waiting X)
      → IsLost id w.queue w.jobs
      → IsLost id (handled r error data_value w).0.queue (handled r error data_value w).0.jobs
  unfolding process_queue_promises
  handled-IsLost id (ok u) error data_value w lost =
      close_from-IsLost id (length w.queue) 0 error (data_unless error data_value) w lost
  handled-IsLost id (err e) error data_value w lost = lost

  main_handler-IsLost :
      (id : ℕ) (handler : Option Err → Result Err (Unit {0})) (error : Option Err)
      (data_value : Option X) (w : Waiting X)
      → IsLost id w.queue w.jobs
      → IsLost id
          (main_handler handler error data_value w).0.queue
          (main_handler handler error data_value w).0.jobs
  unfolding main_handler
  main_handler-IsLost id handler error data_value w lost =
      handled-IsLost id (handler error) error data_value (triggered w)
        (trigger_all-IsLost id w.queue w.queue w.jobs lost.1 lost)

  again-IsLost :
      (id : ℕ) (handler : Option Err → Result Err (Unit {0})) (data_value : Option X)
      (w : Waiting X) (r : Result Err (Unit {0}))
      → IsLost id w.queue w.jobs
      → IsLost id (again handler data_value (w, r)).0.queue (again handler data_value (w, r)).0.jobs
  again-IsLost id handler data_value w (ok u) lost = lost
  again-IsLost id handler data_value w (err e) lost =
      main_handler-IsLost id handler (some e) data_value w lost

  pub Later-IsLost :
      (id : ℕ) {w v : Waiting X}
      → Later id w v
      → IsLost id w.queue w.jobs
      → IsLost id v.queue v.jobs
  unfolding add_state_to_wait on_message
  Later-IsLost id at_once lost = lost
  Later-IsLost id (later_adds {v} check_handler later) lost =
      let (short, a, waits) = Later-IsLost id later lost in
      (
        length-push v.jobs id _ short,
        All-push id (length v.jobs) v.queue a (λ e. omega (arith, e, short)),
        ap is_waiting (get_elem?-push v.jobs id _ short) ∙ waits,
      )
  Later-IsLost id (later_comes {v} handler data_value later) lost =
      let m = main_handler handler none data_value v in
      again-IsLost id handler data_value m.0 m.1
        (main_handler-IsLost id handler none data_value v (Later-IsLost id later lost))
  Later-IsLost id (later_closes {v} other error data_value h later) lost =
      close-IsLost id other error data_value v h (Later-IsLost id later lost)
