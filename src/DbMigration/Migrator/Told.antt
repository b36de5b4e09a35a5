-- ===== src/DbMigration/Migrator/Told.antt =====
-- db.migrator.js: what the parent process is told, and which error a failed migration throws.
use bfx_reports_framework.Base.{ℕ, ◌≡◌, refl, Bool, Option, none, some, List, [], ◌∷◌}
use bfx_reports_framework.Base.Actions.{Result, ok, err, caught}
use bfx_reports_framework.Base.ActionRules.{after-ends, for_each-ends, All-every}
use bfx_reports_framework.DbMigration.{
  Error, Message, World, ready_migrations, error_migrations, migration_launching,
}
use bfx_reports_framework.DbMigration.Launch.{Migration, launch}
use bfx_reports_framework.DbMigration.Migrator.{
  Env, look_up_migrations, fail_to_launch, found, get_migrations, launch_or_tell, migrate,
}

abbrev pub newest : List Message → Option Message
newest [] = none
newest (m ∷ told) = some m

-- How a part of `migrate` ends: an error is told as the newest message.
abbrev pub IsTold : {D A : Type 0} → World D → Result Error A → Type 0
IsTold w (ok a) = Unit
IsTold w (err e) = (e ≡ migration_launching) × (newest w.told ≡ some error_migrations)

-- How `migrate` ends
abbrev pub Ends : {D : Type 0} → World D → Result Error (Unit {0}) → Type 0
Ends w (ok a) = newest w.told ≡ some ready_migrations
Ends w (err e) = (e ≡ migration_launching) × (newest w.told ≡ some error_migrations)

module _ {D V F : Type 0} (env : Env D V F) where
  found-IsTold :
      (ms : List (Migration D V F)) (w : World D) → IsTold (found env ms w).0 (found env ms w).1
  found-IsTold [] w = (refl, refl)
  found-IsTold (m ∷ ms) w = tt

  get_migrations-IsTold :
      (versions : List ℕ) (w : World D)
      → IsTold (get_migrations env versions w).0 (get_migrations env versions w).1
  unfolding get_migrations
  get_migrations-IsTold [] w = tt
  get_migrations-IsTold (ver ∷ versions) w =
      after-ends IsTold IsTold _
        (λ ms t _.
          after-ends IsTold IsTold _ (λ rest u _. tt) (λ e u h. h) _ _
            (get_migrations-IsTold versions t))
        (λ e t h. h) _ _ (found-IsTold (look_up_migrations env ver) w)

  caught-IsTold :
      (t : World D) (r : Result Error (Unit {0}))
      → IsTold (caught t r (λ e. fail_to_launch env)).0 (caught t r (λ e. fail_to_launch env)).1
  caught-IsTold t (ok a) = tt
  caught-IsTold t (err e) = (refl, refl)

  launch_or_tell-IsTold :
      (is_down : Bool) (m : Migration D V F) (w : World D)
      → IsTold (launch_or_tell env is_down m w).0 (launch_or_tell env is_down m w).1
  unfolding launch_or_tell
  launch_or_tell-IsTold is_down m w =
      let r = launch env.execute_queries_in_trans m is_down w in caught-IsTold r.0 r.1

  -- Whatever fails, a missing migration, a hook or its transaction, `migrate` ends in one of two ways:
  -- without an error and with READY_MIGRATIONS as its last message to the parent process, or with a
  -- MigrationLaunchingError and ERROR_MIGRATIONS as its last message.
  pub migrate-Ends :
      (versions : List ℕ) (is_down : Bool) (w : World D)
      → Ends (migrate env versions is_down w).0 (migrate env versions is_down w).1
  unfolding migrate
  migrate-Ends versions is_down w =
      after-ends IsTold Ends _
        (λ ms t _.
          after-ends IsTold Ends _ (λ a u _. refl) (λ e u h. h) _ _
            (for_each-ends IsTold (launch_or_tell env is_down) ms
              (All-every _ ms (λ m u _. launch_or_tell-IsTold is_down m u)) t tt))
        (λ e t h. h) _ _ (get_migrations-IsTold versions w)
