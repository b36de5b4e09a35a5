-- ===== src/SyncQueue/Table/Ids.antt =====
-- The rows stand in the order of their `_id`s, each `_id` once, and all below the next one.
use bfx_reports_framework.Base.{
  ℕ, ◌+◌, ◌≤◌, ◌≡◌, Bool, true, false, List, [], ◌∷◌, ◌++◌, map, arith, filter, length, ◌==◌,
  if_ind, subst,
}
use bfx_reports_framework.SyncQueue.Table.{Job, JobState, Table, update_rows, insert_rows}

abbrev pub Between : ℕ → ℕ → List Job → Type 0
Between low high [] = low ≤ high
Between low high (job ∷ jobs) = (low ≤ job.id) × Between (job.id + 1) high jobs

abbrev pub HasOrderedIds : Table → Type 0
HasOrderedIds table = Between 0 table.next_id table.rows

Between-low :
    (low low' high : ℕ) (jobs : List Job)
    → low ≤ low'
    → Between low' high jobs
    → Between low high jobs
Between-low low low' high [] le h = omega arith
Between-low low low' high (job ∷ jobs) le h = (omega arith, h.1)

pub Between-filter :
    (p : Job → Bool) (low high : ℕ) (jobs : List Job)
    → Between low high jobs
    → Between low high (filter p jobs)
Between-filter p low high [] h = h
Between-filter p low high (job ∷ jobs) h =
    elim (p job)
      as (λ b. Between low high (elim b [ true ↦ job ∷ filter p jobs | false ↦ filter p jobs ])) [
        | true ↦ (h.0, Between-filter p (job.id + 1) high jobs h.1)
        | false ↦
            Between-filter p low high jobs
              (Between-low low (job.id + 1) high jobs (omega arith) h.1)
      ]

pub Between-update_rows :
    (id : ℕ) (state : JobState) (now low high : ℕ) (jobs : List Job)
    → Between low high jobs
    → Between low high (update_rows id state now jobs)
unfolding update_rows
Between-update_rows id state now low high [] h = h
Between-update_rows id state now low high (job ∷ jobs) h =
    let rest = Between-update_rows id state now (job.id + 1) high jobs h.1 in
    if_ind {A = Job} (λ j. (low ≤ j.id) × Between (j.id + 1) high (update_rows id state now jobs))
      (job.id == id) (λ _. (h.0, rest)) (λ _. (h.0, rest))

-- New rows are made by functions of the `_id`.
abbrev pub TakesId : {A : Type 0} → (A → ℕ → Job) → Type 0
TakesId {A} row = (a : A) (id : ℕ) → (row a id).id ≡ id

pub Between-insert_rows :
    {A : Type 0} (row : A → ℕ → Job) (low next : ℕ) (jobs : List Job) (names : List A)
    → TakesId row
    → Between low next jobs
    → Between low (next + length names) (jobs ++ insert_rows next (map row names))
unfolding insert_rows
Between-insert_rows row low next (job ∷ jobs) names t h =
    (h.0, Between-insert_rows row (job.id + 1) next jobs names t h.1)
Between-insert_rows row low next [] [] t h = omega arith
Between-insert_rows row low next [] (a ∷ names) t h =
    let rest : Between (next + 1) (next + 1 + length names)
        (insert_rows (next + 1) (map row names)) =
      Between-insert_rows row (next + 1) (next + 1) [] names t (omega arith) in
    rw (t a next) (
      h,
      subst (λ n. Between (next + 1) n (insert_rows (next + 1) (map row names))) (omega arith) rest,
    )
