-- ===== src/Sync/Settled.antt =====
-- workers/loc.api/sync/index.js: how a start leaves the redirect of the requests and the estimate.
use bfx_reports_framework.Base.{
  ◌≡◌, ◌≢◌, ◌⊎◌, ◌&&◌, Bool, true, false, Option, some, List, [], ◌∷◌, arith,
}
use bfx_reports_framework.Sync.{
  Answer, ok, err, Call, redirect_requests, activate_estimate, deactivate_estimate, Env,
  StartParams, run_queue, redirect_back, sync, check_owner, begin_sync, begin, on_error, go_on,
  start, coll_sync_permission,
}

abbrev pub fails : Answer (Unit {0}) → Bool
fails (ok u) = false
fails (err e) = true

-- Whether the requests are redirected after the calls. The call that switches this off leaves it as it is
-- where it fails; the one that switches it on is taken to do so even then.
abbrev pub is_redirected : Env → List Call → Bool → Bool
is_redirected env [] on = on
is_redirected env (redirect_requests true ∷ calls) on = is_redirected env calls true
is_redirected env (redirect_requests false ∷ calls) on =
    is_redirected env calls (on && fails env.redirect_off)
is_redirected env (c ∷ calls) on = is_redirected env calls on

abbrev pub last_estimate : List Call → Option Bool → Option Bool
last_estimate [] last = last
last_estimate (activate_estimate ∷ calls) last = last_estimate calls (some true)
last_estimate (deactivate_estimate ∷ calls) last = last_estimate calls (some false)
last_estimate (c ∷ calls) last = last_estimate calls last

-- A start leaves no estimate running, and no redirect on unless the call fails that switches it off, where
-- none was running and on before it, whatever the database, the queue, the API and the call that
-- switches the redirect on answer, errors included; only that the ping of the API and this call do not
-- fail with the error of a missing permission.
pub start-settles :
    (env : Env) (params : StartParams)
    → env.redirect_on ≢ err coll_sync_permission
    → env.ping ≢ err coll_sync_permission
    → ((is_redirected env (start env params).0 false ≡ false) ⊎ (fails env.redirect_off ≡ true))
      × (last_estimate (start env params).0 (some false) ≡ some false)
unfolding start begin check_owner begin_sync on_error go_on sync run_queue redirect_back
start-settles env params h k = ground arith
