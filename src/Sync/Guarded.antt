-- ===== src/Sync/Guarded.antt =====
-- workers/loc.api/sync/index.js: when a start runs the queue.
use bfx_reports_framework.Base.{
  ℕ, ◌+◌, ◌≡◌, refl, ap, ◌∙◌, if_ind, Bool, true, false, not, ◌&&◌, Option, none, some, List, [],
  ◌∷◌, ◌++◌, if◌then◌else◌, arith,
}
use bfx_reports_framework.Sync.{
  Err, Answer, ok, err, Call, process_queue, Value, Env, StartParams, Begun, returned, going_on,
  is_none, Run, ◌>>=◌, caught, fail, return, in_background, is_error_instance, set_progress,
  error_of, coll_sync_permission, sync_queue_owner_setting, other_error, run_queue, redirect_back,
  sync, check_owner, begin_sync, begin, on_error, go_on, start,
}

abbrev pub count_runs : List Call → ℕ
count_runs [] = 0
count_runs (process_queue ∷ calls) = ℕ.suc (count_runs calls)
count_runs (c ∷ calls) = count_runs calls

abbrev is_ok : {A : Type 0} → Answer A → Bool
is_ok (ok a) = true
is_ok (err e) = false

abbrev is_true : Answer Bool → Bool
is_true (ok b) = b
is_true (err e) = false

abbrev is_false : Answer Bool → Bool
is_false (ok b) = not b
is_false (err e) = false

-- What a start needs for its run of the queue: an owner or the scheduler, the scheduler enabled, no
-- sync in progress, and the queue, the ping and the redirect without errors.
abbrev pub is_let_through : Env → StartParams → Bool
is_let_through env params =
    not (is_none params.owner_user_id && not params.is_owner_scheduler)
    && (is_true env.is_enabled
        && (is_false env.is_sync_in_progress
            && (is_ok env.add && (is_ok env.ping && is_ok env.redirect_on))))

abbrev is_fresh : Answer Begun → Bool
is_fresh (ok (returned v)) = false
is_fresh (ok (going_on none)) = true
is_fresh (ok (going_on (some e))) = false
is_fresh (err e) = false

abbrev one_if : Bool → ℕ
one_if b = if b then 1 else 0

count_runs-append : (xs ys : List Call) → count_runs (xs ++ ys) ≡ count_runs xs + count_runs ys
count_runs-append [] ys = omega arith
count_runs-append (c ∷ xs) ys = ground (arith, count_runs-append xs ys)

bind_lem :
    {A B : Type 0} (m : Run A) (f : A → Run B)
    → ((a : A) → count_runs (f a).0 ≡ 0)
    → count_runs (m >>= f).0 ≡ count_runs m.0
bind_lem (calls, ok a) f h = omega (arith, count_runs-append calls (f a).0, h a)
bind_lem (calls, err e) f h = refl

begin_lem :
    (env : Env) (params : StartParams)
    → (count_runs (begin env params).0 ≡ 0)
      × (is_fresh (begin env params).1 ≡ is_let_through env params)
unfolding begin check_owner begin_sync
begin_lem env params = ground arith

sync_lem : (env : Env) (error : Option Err) → count_runs (sync env error).0 ≡ one_if (is_none error)
unfolding sync run_queue redirect_back
sync_lem env error = ground arith

go_on_lem :
    (env : Env) (params : StartParams) (b : Begun)
    → count_runs (go_on env params b).0 ≡ one_if (is_fresh (ok b))
unfolding go_on
go_on_lem env params (returned v) = refl
go_on_lem env params (going_on none) =
    if_ind {A = Run Value} (λ r. count_runs r.0 ≡ 1) params.is_owner_scheduler
      (λ _. sync_lem env none)
      (λ _.
        if_ind {A = Run Value} (λ r. count_runs r.0 ≡ 1) params.is_solve_after_redir_to_api
          {x = in_background (sync env none)} (λ _. sync_lem env none) (λ _. sync_lem env none))
go_on_lem env params (going_on (some e)) =
    if_ind {A = Run Value} (λ r. count_runs r.0 ≡ 0) params.is_owner_scheduler
      (λ _. sync_lem env (some e))
      (λ _.
        bind_lem (sync env (some e)) (λ res. if is_error_instance e then fail e else return res)
          (λ res. ended e res)
        ∙ sync_lem env (some e))
  where
    ended :
        (e : Err) (res : Value)
        → count_runs (if is_error_instance e then fail e else return res).0 ≡ 0
    ended e res = ground arith

start_step :
    (env : Env) (params : StartParams) (calls : List Call) (answer : Answer Begun)
    → count_runs calls ≡ 0
    → count_runs (caught calls answer on_error >>= go_on env params).0 ≡ one_if (is_fresh answer)
unfolding on_error
start_step env params calls (ok b) h =
    omega (arith, count_runs-append calls (go_on env params b).0, go_on_lem env params b, h)
start_step env params calls (err coll_sync_permission) h =
    omega (arith, count_runs-append calls [], h)
start_step env params calls (err sync_queue_owner_setting) h =
    let b = going_on (some sync_queue_owner_setting) in
    let told = set_progress (error_of sync_queue_owner_setting) ∷ [] in
    omega (
      arith,
      count_runs-append (calls ++ told) (go_on env params b).0,
      count_runs-append calls told,
      go_on_lem env params b,
      h,
    )
start_step env params calls (err (other_error i)) h =
    let b = going_on (some (other_error i)) in
    let told = set_progress (error_of (other_error i)) ∷ [] in
    omega (
      arith,
      count_runs-append (calls ++ told) (go_on env params b).0,
      count_runs-append calls told,
      go_on_lem env params b,
      h,
    )

-- A start runs the queue once when it is let through, and never otherwise: not without an owner, not
-- while a sync is in progress, not when the scheduler is disabled, and not after any error on the way.
pub start-count_runs :
    (env : Env) (params : StartParams)
    → count_runs (start env params).0 ≡ (if is_let_through env params then 1 else 0)
unfolding start
start-count_runs env params =
    let (none_yet, fresh) = begin_lem env params in
    start_step env params (begin env params).0 (begin env params).1 none_yet ∙ ap one_if fresh
