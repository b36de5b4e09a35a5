-- ===== src/Progress/Told.antt =====
-- workers/loc.api/sync/progress/index.js: what `setProgress` tells the parent process.
use bfx_reports_framework.Base.{
  ℕ, ◌≡◌, refl, ap, ◌∙◌, String, Bool, true, false, not, ◌||◌, some, List, [], ◌∷◌, ◌++◌, if_ind,
  if◌then◌else◌, leb, str_eq, arith, append-nil,
}
use bfx_reports_framework.Progress.States.{
  Estimate, Input, number, text, failure, other, Row, Message, error_sync, ready_sync, Effect,
  stored, emitted, sent, logged, sent_all, Progress, Env, is_state, active_progress,
  finished_progress, interrupted_progress,
}
use bfx_reports_framework.Progress.ErrorText.{test_error, error_found, test_error-error_found}
use bfx_reports_framework.Progress.{
  is_sync_in_progress, is_error, get_sync_progress_state, state_of_number,
  send_sync_completion_state_by_ipc, emit_progress, estimate_sync_time, estimate_since,
  calc_left_time, reset_left_time, set_fields, store_and_emit, set_progress, is_auth_error, row_of,
  with_effect,
}

abbrev pub messages_of : List Effect → List Message
messages_of [] = []
messages_of (sent m ∷ es) = m ∷ messages_of es
messages_of (stored row ∷ es) = messages_of es
messages_of (emitted estimate ∷ es) = messages_of es
messages_of (logged ∷ es) = messages_of es

-- What is told of a text, by whether it is an error
abbrev pub told_of_text : String → Bool → List Message
told_of_text s true = error_sync ∷ []
told_of_text s false =
    if str_eq s finished_progress || str_eq s interrupted_progress
    then ready_sync (str_eq s finished_progress) (str_eq s interrupted_progress) ∷ []
    else []

-- One message for an error, for the end of the sync, and for an interruption.
abbrev pub told_of : Input → ℕ → List Message
told_of (number n) last_index = if leb 100 n then ready_sync true false ∷ [] else []
told_of (text s) last_index = told_of_text s (error_found s last_index)
told_of (failure f) last_index = error_sync ∷ []
told_of other last_index = []

messages_of-append :
    (es fs : List Effect) → messages_of (es ++ fs) ≡ messages_of es ++ messages_of fs
messages_of-append [] fs = refl
messages_of-append (sent m ∷ es) fs = ap (λ ms. m ∷ ms) (messages_of-append es fs)
messages_of-append (stored row ∷ es) fs = messages_of-append es fs
messages_of-append (emitted estimate ∷ es) fs = messages_of-append es fs
messages_of-append (logged ∷ es) fs = messages_of-append es fs

messages_of-sent_all : (ms : List Message) → messages_of (sent_all ms) ≡ ms
messages_of-sent_all [] = refl
messages_of-sent_all (m ∷ ms) = ap (λ ns. m ∷ ns) (messages_of-sent_all ms)

abbrev messages : Progress → List Message
messages p = messages_of p.effects

messages-logged : (p : Progress) → messages (with_effect logged p) ≡ messages p
messages-logged p = messages_of-append p.effects (logged ∷ []) ∙ append-nil (messages p)

messages-stored : (row : Row) (p : Progress) → messages (with_effect (stored row) p) ≡ messages p
messages-stored row p = messages_of-append p.effects (stored row ∷ []) ∙ append-nil (messages p)

messages-emitted : (e : Estimate) (p : Progress) → messages (with_effect (emitted e) p) ≡ messages p
messages-emitted e p = messages_of-append p.effects (emitted e ∷ []) ∙ append-nil (messages p)

estimate_sync_time-effects :
    (row : Row) (b c : Bool) (now : ℕ) (p : Progress)
    → (estimate_sync_time row b now c p).1.effects ≡ p.effects
unfolding estimate_sync_time estimate_since calc_left_time reset_left_time
estimate_sync_time-effects row b c now p = ground arith

messages-emit_progress :
    (env : Env) (b : Bool) (p : Progress) → messages (emit_progress env b p) ≡ messages p
unfolding emit_progress
messages-emit_progress env b p =
    let after = (estimate_sync_time (row_of p) (is_sync_in_progress (row_of p)) env.now b p).1 in
    let same : messages after ≡ messages p =
      ap messages_of
        (estimate_sync_time-effects (row_of p) (is_sync_in_progress (row_of p)) b env.now p) in
    if_ind {A = Progress} (λ q. messages q ≡ messages p) env.emit_fails
      (λ _. messages-logged after ∙ same) (λ _. messages-emitted _ after ∙ same)

messages-store_and_emit : (env : Env) (p : Progress) → messages (store_and_emit env p) ≡ messages p
unfolding store_and_emit
messages-store_and_emit env p =
    if_ind {A = Progress} (λ q. messages q ≡ messages p) env.dao_fails (λ _. messages-logged p)
      (λ _.
        messages-emit_progress env false
          (with_effect (stored (row_of p)) (record p { row = row_of p }))
        ∙ messages-stored (row_of p) (record p { row = row_of p }))

told_number :
    (n : ℕ)
    → send_sync_completion_state_by_ipc false
        (if leb 100 n then some finished_progress else some active_progress)
      ≡ (if leb 100 n then ready_sync true false ∷ [] else [])
unfolding send_sync_completion_state_by_ipc
told_number n = ground arith

told_text :
    (s : String) (failed : Bool)
    → send_sync_completion_state_by_ipc failed (get_sync_progress_state (text s) failed)
      ≡ told_of_text s failed
unfolding get_sync_progress_state is_state state_of_number send_sync_completion_state_by_ipc
told_text s true = ground arith
told_text s false = ground arith

told_of_lem :
    (input : Input) (last_index : ℕ)
    → send_sync_completion_state_by_ipc
        (is_error input last_index).0
        (get_sync_progress_state input (is_error input last_index).0)
      ≡ told_of input last_index
unfolding is_error get_sync_progress_state state_of_number send_sync_completion_state_by_ipc
told_of_lem (number n) last_index = told_number n
told_of_lem (text s) last_index =
    told_text s (test_error s last_index).0
    ∙ ap (told_of_text s) (test_error-error_found s last_index)
told_of_lem (failure f) last_index = refl
told_of_lem other last_index = refl

abbrev states : Input → Progress → List Message
states input p =
    send_sync_completion_state_by_ipc (is_error input p.last_index).0
      (get_sync_progress_state input (is_error input p.last_index).0)

messages-set_fields :
    (input : Input) (p : Progress)
    → messages (set_fields input p)
      ≡ messages p
        ++ send_sync_completion_state_by_ipc
            (is_error input p.last_index).0
            (get_sync_progress_state input (is_error input p.last_index).0)
unfolding set_fields
messages-set_fields input p =
    messages_of-append p.effects (sent_all (states input p))
    ∙ ap (λ ms. messages p ++ ms) (messages_of-sent_all (states input p))

-- Whatever the database and the sockets do, a call tells the parent process exactly this: ERROR_SYNC
-- for a failure and for a text that has `error` or `err_`, whatever the case of the letters, at or
-- behind the `lastIndex` that the test of a text before has left; READY_SYNC for a number of 100 or
-- more, and for the states that say that the sync has finished or was interrupted; and nothing for any
-- other input, which a text is as well whose only such word begins before that `lastIndex`.
pub set_progress-told_of :
    (env : Env) (input : Input) (p : Progress)
    → messages_of (set_progress env input p).effects
      ≡ messages_of p.effects ++ told_of input p.last_index
unfolding set_progress
set_progress-told_of env input p =
    if_ind {A = Progress} (λ q. messages q ≡ messages p ++ told_of input p.last_index)
      (not (is_error input p.last_index).0 || is_auth_error input) (λ _. told)
      (λ _. messages-logged (store_and_emit env (set_fields input p)) ∙ told)
  where
    told :
        messages (store_and_emit env (set_fields input p))
        ≡ messages p ++ told_of input p.last_index
    told =
        messages-store_and_emit env (set_fields input p)
        ∙ messages-set_fields input p
        ∙ ap (λ ms. messages p ++ ms) (told_of_lem input p.last_index)
