-- ===== src/UserStep/Ready.antt =====
-- workers/loc.api/sync/data.inserter/sync.user.step.manager/index.js: when `wereStepsSynced` marks steps.
use bfx_reports_framework.Base.{
  ◌≡◌, ◌↔◌, refl, Bool, true, ◌&&◌, List, [], ◌∷◌, filter, all, &&_iff, All, Any, arith,
}
use bfx_reports_framework.UserStep.{
  SyncUserStepData, Opts, should_base_step_be_synced, should_curr_step_be_synced, is_non_empty,
  were_base_steps_synced, were_curr_steps_synced, were_steps_synced,
}

-- Some element passes the test, and all that pass it are done.
abbrev pub AreDone : {A : Type 0} → (A → Bool) → (A → Bool) → List A → Type 0
AreDone p done xs = Any (λ x. p x ≡ true) xs × All (λ x. p x ≡ true → done x ≡ true) xs

module _ {A : Type 0} (p done : A → Bool) where
  filter-All :
      (xs : List A) → (all done (filter p xs) ≡ true) ↔ All (λ x. p x ≡ true → done x ≡ true) xs
  filter-All [] = (λ h. tt, λ h. refl)
  filter-All (x ∷ xs) = ground (arith, filter-All xs)

  filter-Any : (xs : List A) → (is_non_empty (filter p xs) ≡ true) ↔ Any (λ x. p x ≡ true) xs
  filter-Any [] = ground arith
  filter-Any (x ∷ xs) = ground (arith, filter-Any xs)

  AreDone-iff :
      (xs : List A)
      → ((is_non_empty (filter p xs) && all done (filter p xs)) ≡ true) ↔ AreDone p done xs
  AreDone-iff xs = (
    λ h.
        let (some_left, all_done) =
          (&&_iff (is_non_empty (filter p xs)) (all done (filter p xs))).0 h in
        ((filter-Any xs).0 some_left, (filter-All xs).0 all_done),
    λ (some_left, all_done).
        (&&_iff (is_non_empty (filter p xs)) (all done (filter p xs))).1
          ((filter-Any xs).1 some_left, (filter-All xs).1 all_done),
  )

-- The base steps are marked as ready exactly when at least one of the steps is to be synced and each
-- of those that are has been synced; so for the current steps.
were_steps_synced_iff :
    (opts : Opts) (steps : List SyncUserStepData)
    → (((were_steps_synced opts steps).0 ≡ true)
        ↔ AreDone (should_base_step_be_synced opts) (λ step. step.was_base_steps_be_synced) steps)
      × (((were_steps_synced opts steps).1 ≡ true)
          ↔ AreDone (should_curr_step_be_synced opts) (λ step. step.was_curr_steps_be_synced) steps)
unfolding were_steps_synced were_base_steps_synced were_curr_steps_synced
were_steps_synced_iff opts steps = (
  AreDone-iff (should_base_step_be_synced opts) (λ step. step.was_base_steps_be_synced) steps,
  AreDone-iff (should_curr_step_be_synced opts) (λ step. step.was_curr_steps_be_synced) steps,
)
