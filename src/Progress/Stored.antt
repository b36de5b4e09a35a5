-- ===== src/Progress/Stored.antt =====
-- workers/loc.api/sync/progress/index.js: what `setProgress` leaves in the database.
use bfx_reports_framework.Base.{
  ℕ, ◌<◌, ◌≡◌, ◌↔◌, refl, subst, Bool, true, false, not, ◌&&◌, ◌||◌, some, sym, if_ind,
  if◌then◌else◌, ltb, leb, arith,
}
use bfx_reports_framework.Progress.States.{
  Input, number, text, failure, other, stored, Progress, Env, active_progress, finished_progress,
}
use bfx_reports_framework.Progress.{
  is_error, error_of, value_of, is_state_input, state_of_number, get_sync_progress_state,
  is_sync_in_progress, emit_progress, estimate_sync_time, estimate_since, calc_left_time,
  reset_left_time, set_fields, store_and_emit, set_progress, is_auth_error, has_error, is_some_text,
  row_of, with_effect,
}

emit_progress-row : (env : Env) (b : Bool) (p : Progress) → (emit_progress env b p).row ≡ p.row
unfolding emit_progress estimate_sync_time estimate_since calc_left_time reset_left_time
emit_progress-row env b p = ground arith

store_and_emit-row :
    (env : Env) (p : Progress) → env.dao_fails ≡ false → (store_and_emit env p).row ≡ row_of p
unfolding store_and_emit
store_and_emit-row env p h =
    rw h
      (emit_progress-row env false (with_effect (stored (row_of p)) (record p { row = row_of p })))

set_progress-row :
    (env : Env) (input : Input) (p : Progress)
    → env.dao_fails ≡ false
    → (set_progress env input p).row ≡ row_of (set_fields input p)
unfolding set_progress
set_progress-row env input p h =
    if_ind {A = Progress} (λ q. q.row ≡ row_of (set_fields input p))
      (not (is_error input p.last_index).0 || is_auth_error input)
      (λ _. store_and_emit-row env (set_fields input p) h)
      (λ _. store_and_emit-row env (set_fields input p) h)

no_value : (a b : Bool) → (a && (b && false)) ≡ true → ⊥
no_value a b h = ground arith

number_row :
    (n : ℕ)
    → ((is_some_text
            (if leb 100 n then some finished_progress else some active_progress)
            active_progress
          && ltb n 100)
        ≡ true)
      ↔ (n < 100)
number_row n = ground arith

number-injective : {m n : ℕ} → number m ≡ number n → n ≡ m
number-injective e = cc

set_fields-is_sync_in_progress :
    (input : Input) (p : Progress)
    → (is_sync_in_progress (row_of (set_fields input p)) ≡ true)
      ↔ ((n : ℕ) × (input ≡ number n) × (n < 100))
unfolding set_fields is_error error_of value_of is_state_input get_sync_progress_state
    state_of_number is_sync_in_progress
set_fields-is_sync_in_progress (number n) p = (
  λ h. (n, refl, (number_row n).0 h),
  λ (m, e, lt). (number_row n).1 (subst (λ k. k < 100) (number-injective e) lt),
)
set_fields-is_sync_in_progress (text s) p = (
  λ h. absurd (
      no_value (not (has_error (set_fields (text s) p).error))
        (is_some_text (set_fields (text s) p).state active_progress) h),
  λ (m, e, lt). cc,
)
set_fields-is_sync_in_progress (failure f) p =
    (λ h. absurd (no_value (not (has_error (error_of (failure f)))) false h), λ (m, e, lt). cc)
set_fields-is_sync_in_progress other p = (λ h. cc, λ (m, e, lt). cc)

-- After a call whose write succeeds, the stored row says that a sync is in progress exactly when the
-- call was given a finite number below 100: not for an error, a state, 100 or more, or anything else.
pub set_progress-is_sync_in_progress :
    (env : Env) (input : Input) (p : Progress)
    → env.dao_fails ≡ false
    → (is_sync_in_progress (set_progress env input p).row ≡ true)
      ↔ ((n : ℕ) × (input ≡ number n) × (n < 100))
set_progress-is_sync_in_progress env input p h =
    subst (λ row. (is_sync_in_progress row ≡ true) ↔ ((n : ℕ) × (input ≡ number n) × (n < 100)))
      (sym (set_progress-row env input p h)) (set_fields-is_sync_in_progress input p)
