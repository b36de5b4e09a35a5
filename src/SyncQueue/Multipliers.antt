-- ===== src/SyncQueue/Multipliers.antt =====
-- The shares of the jobs in the progress: `_getAllMultipliers`, `_getMultipliers`, `_sumMultipliers`,
-- `_getMultiplier` and `_asyncProgressHandler`. The source's numbers are floats. Here they are exact:
-- a multiplier of a collection is counted in units of 1 / methodCollMap.size, and a share, which is
-- a quotient of two such numbers, is a fraction.
use bfx_reports_framework.Base.{
  ℕ, ◌+◌, ◌*◌, ◌/◌, String, Bool, true, ◌||◌, Option, none, some, List, [], ◌∷◌, ◌++◌, ltb, ◌==◌,
  any, if◌then◌else◌, str_eq,
}
use bfx_reports_framework.SyncQueue.Table.{
  locked_job, new_job, error_job, Job, Table, has_owner, get_all,
}
use bfx_reports_framework.SyncQueue.Add.{all_colls, public_colls, private_colls}

-- The sizes of `methodCollMap`, `privMethodCollMap` and `pubMethodCollMap`, and the values of
-- ALLOWED_COLLS.
pub record Colls : Type 0 where
  pub size : ℕ
  pub priv_size : ℕ
  pub pub_size : ℕ
  pub allowed : List String

-- A field of `allMultipliers`; `none` is `undefined`.
unfoldable pub all_multipliers : Colls → String → Option ℕ
all_multipliers colls name =
    if any (str_eq name) colls.allowed
    then some (
        if str_eq name all_colls
        then colls.size
        else if str_eq name private_colls
        then colls.priv_size
        else if str_eq name public_colls
        then colls.pub_size
        else 1)
    else none

-- A fraction; a denominator of 0 does not arise.
pub record Frac : Type 0 where
  pub num : ℕ
  pub den : ℕ

abbrev pub zero_frac : Frac
zero_frac = record { num = 0; den = 1 }

unfoldable pub add_frac : Frac → Frac → Frac
add_frac a b = record { num = a.num * b.den + b.num * a.den; den = a.den * b.den }

-- `accum[_id] = value`
unfoldable pub assign : ℕ → ℕ → List (ℕ × ℕ) → List (ℕ × ℕ)
assign id v [] = (id, v) ∷ []
assign id v ((j, w) ∷ m) = if j == id then (j, v) ∷ m else (j, w) ∷ assign id v m

unfoldable pub lookup : ℕ → List (ℕ × ℕ) → Option ℕ
lookup id [] = none
lookup id ((j, w) ∷ m) = if j == id then some w else lookup id m

-- the `reduce` of `_getMultipliers`
unfoldable pub collect_multipliers : Colls → List (ℕ × ℕ) → List Job → List (ℕ × ℕ)
unfolding all_multipliers assign
collect_multipliers colls accum [] = accum
collect_multipliers colls accum (job ∷ jobs) =
    collect_multipliers colls
      (elim (all_multipliers colls job.coll_name) [ none ↦ accum | some m ↦ assign job.id m accum ])
      jobs

abbrev pub take_jobs : ℕ → List Job → List Job
take_jobs ℕ.zero jobs = []
take_jobs (ℕ.suc n) [] = []
take_jobs (ℕ.suc n) (job ∷ jobs) = job ∷ take_jobs n jobs

unfoldable pub multiplier_filter : Option ℕ → Job → Bool
unfolding has_owner
multiplier_filter none job = true
multiplier_filter (some user) job = has_owner user job

unfoldable pub get_multipliers : Colls → Option ℕ → List Job → Table → List (ℕ × ℕ)
unfolding collect_multipliers multiplier_filter get_all
get_multipliers colls owner prev_syncs table =
    let future_syncs =
      take_jobs 10
        (get_all (multiplier_filter owner) (new_job ∷ locked_job ∷ error_job ∷ []) table) in
    collect_multipliers colls [] (prev_syncs ++ future_syncs)

unfoldable pub sum_multipliers : List (ℕ × ℕ) → ℕ
sum_multipliers [] = 0
sum_multipliers ((id, v) ∷ m) = v + sum_multipliers m

abbrev pub share_of : Option ℕ → ℕ → Frac
share_of none sum = zero_frac
share_of (some curr) sum =
    if curr == 0 || sum == 0 then zero_frac else record { num = curr; den = sum }

unfoldable pub get_multiplier : Colls → Option ℕ → List Job → ℕ → Table → Frac
unfolding get_multipliers sum_multipliers lookup
get_multiplier colls owner prev_syncs sync_queue_id table =
    let multipliers = get_multipliers colls owner prev_syncs table in
    share_of (lookup sync_queue_id multipliers) (sum_multipliers multipliers)

-- `Math.round(multiplier * 100 + progress * currMultiplier)`
unfoldable pub overall_progress : Frac → Frac → ℕ → ℕ
unfolding add_frac
overall_progress curr multiplier progress =
    let total =
      add_frac (record { num = multiplier.num * 100; den = multiplier.den })
        (record { num = progress * curr.num; den = curr.den }) in
    (2 * total.num + total.den) / (2 * total.den)

-- `_asyncProgressHandler`: the progress that it sets, if any.
unfoldable pub async_progress_handler : Frac → Frac → ℕ → Option ℕ
unfolding overall_progress
async_progress_handler curr multiplier progress =
    if curr.num == 0 || progress == 0
    then none
    else if ltb progress 100
    then some (overall_progress curr multiplier progress)
    else none
