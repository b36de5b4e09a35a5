-- ===== src/UserStep/Samples.antt =====
-- Steps of a user, and what is made of them.
use bfx_reports_framework.Base.{
  ℕ, ◌≤◌, ◌≡◌, inl, inr, refl, sym, subst, true, false, ltb, if_ind, Option, none, some, List, [],
  ◌∷◌, Any, if◌then◌else◌, arith,
}
use bfx_reports_framework.UserStep.{SyncUserStepData, Info, Elems, Coll, Opts, next_step}
use bfx_reports_framework.UserStep.NoGap.{IsLeast, IsFrom, IsUntil, next_step-IsFrom}
use bfx_reports_framework.UserStep.Stored.{
  Step, IsStored, update_coll_by, insert_elem, update_or_insert, update_or_insert-IsStored,
}

abbrev smaller : Option ℕ → Option ℕ → Option ℕ
smaller none y = y
smaller (some m) none = some m
smaller (some m) (some n) = if ltb m n then some m else some n

abbrev least : List (Option ℕ) → Option ℕ
least [] = none
least (x ∷ xs) = smaller x (least xs)

-- The smaller of two is below each.
abbrev IsBelow : ℕ → Option ℕ → Type 0
IsBelow n o = (m : ℕ) × (o ≡ some m) × (m ≤ n)

smaller_left : (n : ℕ) (y : Option ℕ) → IsBelow n (smaller (some n) y)
smaller_left n none = (n, refl, omega arith)
smaller_left n (some k) =
    if_ind (IsBelow n) (ltb n k) (λ _. (n, refl, omega arith)) (λ test. (k, refl, ground arith))

smaller_right : (n : ℕ) (x : Option ℕ) → IsBelow n (smaller x (some n))
smaller_right n none = (n, refl, omega arith)
smaller_right n (some k) =
    if_ind (IsBelow n) (ltb k n) (λ test. (k, refl, ground arith)) (λ _. (n, refl, omega arith))

least-IsBelow : (xs : List (Option ℕ)) (n : ℕ) → Any (λ x. x ≡ some n) xs → IsBelow n (least xs)
least-IsBelow [] n a = absurd a
least-IsBelow (x ∷ xs) n (inl e) =
    subst (λ o. IsBelow n (smaller o (least xs))) (sym e) (smaller_left n (least xs))
least-IsBelow (x ∷ xs) n (inr a) =
    let (m, e, le) = least-IsBelow xs n a in
    let (r, at, le') = smaller_right m x in
    subst (λ o. IsBelow n (smaller x o)) (sym e) (r, at, omega (arith, le, le'))

least-IsLeast : IsLeast least
least-IsLeast = record { is_least = least-IsBelow }

abbrev trades_coll : Coll
trades_coll = record {
  is_candles = false;
  is_public = false;
  is_updatable = false;
  has_user_id_field = true;
  has_user_id_field_in_model = true;
  symbol = none;
  timeframe = none;
}

abbrev interrupted_info : Info
interrupted_info = record {
  base_start = some 100;
  base_end = some 900;
  curr_start = some 950;
  curr_end = none;
  is_base_step_ready = false;
  is_curr_step_ready = false;
  synced_at = none;
}

abbrev held : Elems
held = record {
  last_main = some (some 900);
  first_main = some (some 500);
  last_temp = some (some 960);
  first_temp = some (some 950);
}

abbrev next_sample : SyncUserStepData
next_sample = next_step 10 least least trades_coll interrupted_info held (some 10) 1000

next_step-IsFrom_example :
    (false ≡ false
      → IsFrom next_sample.curr_start 900 × IsUntil next_sample.curr_end held.first_temp)
    × (false ≡ false
        → IsFrom next_sample.base_start 500 × IsUntil next_sample.base_end held.first_temp)
next_step-IsFrom_example =
    next_step-IsFrom 10 least least trades_coll interrupted_info held (some 10) 1000 500 900
      least-IsLeast refl refl refl

abbrev any_opts : Opts
any_opts = record { should_not_mts_be_checked = true; should_start_mts_be_checked = false }

-- The rows of two users, and the step of the second one's ledgers, whose other columns are a number
abbrev user_step : ℕ → Option ℕ → ℕ → Step ℕ
user_step user sub_user info = record {
  coll_name = "ledgers";
  user_id = some user;
  sub_user_id = sub_user;
  info = info;
}

abbrev stored_rows : List (Step ℕ)
stored_rows = user_step 1 none 10 ∷ user_step 2 (some 7) 20 ∷ []

abbrev latest : ℕ → ℕ → ℕ
latest new old = new

inserted :
    update_or_insert latest (user_step 2 none 30) stored_rows
    ≡ some (user_step 1 none 10 ∷ user_step 2 (some 7) 20 ∷ user_step 2 none 30 ∷ [])
unfolding update_or_insert update_coll_by insert_elem
inserted = refl

updated_run :
    update_or_insert latest (user_step 2 (some 7) 30) stored_rows
    ≡ some (user_step 1 none 10 ∷ user_step 2 (some 7) 30 ∷ [])
unfolding update_or_insert update_coll_by insert_elem
updated_run = refl

update_or_insert-IsStored_example :
    IsStored latest
      (user_step 2 (some 7) 30)
      stored_rows
      (user_step 1 none 10 ∷ user_step 2 (some 7) 30 ∷ [])
update_or_insert-IsStored_example =
    update_or_insert-IsStored latest (user_step 2 (some 7) 30) stored_rows _ updated_run
