-- ===== src/DbMigration/Samples.antt =====
-- Migrations of a small database, whose tables are numbers.
use bfx_reports_framework.Base.{
  ◌⊎◌, ℕ, ◌≡◌, inr, refl, ltb, ◌==◌, Bool, true, false, ◌&&◌, ◌||◌, Option, none, some, List, [],
  ◌∷◌, All, if◌then◌else◌, if_ind, arith,
}
use bfx_reports_framework.Base.Actions.{ok, err, for_each}
use bfx_reports_framework.DbMigration.{World, Backup, Query, migration_launching}
use bfx_reports_framework.DbMigration.Launch.{
  Migration, SqlObj, SqlData, text, exec_fn, add_sql, execute, launch,
}
use bfx_reports_framework.DbMigration.Backups.{
  first_uniq_files_by_ver, is_kept, kept_files, manage_db_backup_files, backup_db,
}
use bfx_reports_framework.DbMigration.Backups.Kept.{of_ver, of_other_ver, kept_files-take}
use bfx_reports_framework.DbMigration.Migrator.{
  Env, range, get_migrations, launch_or_tell, migrate, backup, migrate_to_supported_ver,
  migrate_from_curr, migrate_from_curr_to_supported_ver,
}
use bfx_reports_framework.DbMigration.Migrator.Told.{Ends, migrate-Ends}
use bfx_reports_framework.DbMigration.Migrator.Versions.{IsWithin, migrate_from_curr-IsWithin}
use bfx_reports_framework.DbMigration.Migrator.Restored.{
  IsOlder, PutsNewestFirst, migrate_from_curr-restore,
}

abbrev Db : Type 0
Db = List ℕ

abbrev Fn : Type 0
Fn = Db → Db

abbrev nothing : Query Db
nothing db = (db, true)

-- A text is an error of the SQL, a function makes its change.
abbrev run_trans : List (SqlObj ℕ Fn) → Db → Option Db
run_trans [] db = some db
run_trans (sql ∷ sql_arr) db = elim sql.exec_query_fn [
  | none ↦ none
  | some f ↦ run_trans sql_arr (f db)
]

abbrev drop_first : Fn
drop_first [] = []
drop_first (x ∷ db) = db

abbrev migration : ℕ → List (SqlData ℕ Fn) → Migration Db ℕ Fn
migration ver up = record {
  version = ver;
  before = nothing;
  before_up = nothing;
  before_down = nothing;
  after = nothing;
  after_up = nothing;
  after_down = nothing;
  up = some up;
  down = some (exec_fn drop_first ∷ []);
}

abbrev is_newer : Backup Db → Backup Db → Bool
is_newer x y = ltb y.version x.version || y.version == x.version && ltb y.mts x.mts

abbrev place : Backup Db → List (Backup Db) → List (Backup Db)
place x [] = x ∷ []
place x (y ∷ ys) = let rest = place x ys in if is_newer x y then x ∷ y ∷ ys else y ∷ rest

abbrev sorted : List (Backup Db) → List (Backup Db)
sorted [] = []
sorted (x ∷ xs) = place x (sorted xs)

place-All :
    (b x : Backup Db) (ys : List (Backup Db))
    → IsOlder b x
    → All (IsOlder b) ys
    → All (IsOlder b) (place x ys)
place-All b x [] h a = (h, tt)
place-All b x (y ∷ ys) h a =
    if_ind (All (IsOlder b)) (is_newer x y) (λ _. (h, a)) (λ _. (a.0, place-All b x ys h a.1))

sorted-All :
    (b : Backup Db) (xs : List (Backup Db)) → All (IsOlder b) xs → All (IsOlder b) (sorted xs)
sorted-All b [] a = tt
sorted-All b (x ∷ xs) a = place-All b x (sorted xs) a.0 (sorted-All b xs a.1)

place_newest : (b : Backup Db) (ys : List (Backup Db)) → All (IsOlder b) ys → place b ys ≡ b ∷ ys
place_newest b [] a = refl
place_newest b (y ∷ ys) a = ground arith

place_older :
    (b x : Backup Db) (ys : List (Backup Db)) → IsOlder b x → place x (b ∷ ys) ≡ b ∷ place x ys
place_older b x ys h = ground arith

sorted-PutsNewestFirst : PutsNewestFirst sorted
sorted-PutsNewestFirst b [] ys ax ay =
    (sorted ys, place_newest b (sorted ys) (sorted-All b ys ay), sorted-All b ys ay)
sorted-PutsNewestFirst b (x ∷ xs) ys ax ay =
    let (rest, e, a) = sorted-PutsNewestFirst b xs ys ax.1 ay in
    (place x rest, rw e (place_older b x rest ax.0), place-All b x rest ax.0 a)

abbrev env_of : List (SqlData ℕ Fn) → Env Db ℕ Fn
env_of up = record {
  supported_ver = 3;
  files = migration 2 (exec_fn (λ db. 20 ∷ db) ∷ []) ∷ migration 3 up ∷ [];
  execute_queries_in_trans = run_trans;
  is_db_empty = λ db. elim db [ [] ↦ true | x ∷ xs ↦ false ];
  order_by = sorted;
  backup_name = "backup_v1_now.db";
  now = 9;
  is_backup_done = true;
  clean_up_temp_db = nothing;
  update_users = nothing;
  update_scheduler = λ is_enable. nothing;
  stop_sync = nothing;
  response = record { should_restore = true; should_remove = false };
  drop_all_tables = λ db. ([], true);
  set_foreign_keys = λ is_on. nothing;
}

abbrev working : Env Db ℕ Fn
working = env_of (exec_fn (λ db. 30 ∷ db) ∷ [])

abbrev failing : Env Db ℕ Fn
failing = env_of (text "ALTER" ∷ [])

abbrev old_file : Backup Db
old_file = record { name = "backup_v1_old.db"; version = 1; mts = 4; contents = [] }

abbrev older_world : World Db
older_world = record {
  contents = 10 ∷ [];
  version = 1;
  is_legacy_alter_table = false;
  backups = old_file ∷ [];
  told = [];
}

-- The second migration fails: the first has been made.
failing_version : (migrate_from_curr failing older_world).0.version ≡ 2
unfolding migrate_from_curr migrate_to_supported_ver migrate get_migrations launch_or_tell launch
    execute add_sql range backup backup_db manage_db_backup_files kept_files is_kept
    first_uniq_files_by_ver for_each
failing_version = refl

migrate-Ends_example :
    Ends
      (migrate failing (range 1 3) false older_world).0
      (migrate failing (range 1 3) false older_world).1
migrate-Ends_example = migrate-Ends failing (range 1 3) false older_world

-- The parent process answers that nothing is to be done.
abbrev refusing : Env Db ℕ Fn
refusing = record failing { response = record { should_restore = false; should_remove = false } }

migrate_from_curr-IsWithin_example :
    IsWithin 1 3 (migrate_from_curr_to_supported_ver refusing older_world).0 ⊎ (false ≡ true)
migrate_from_curr-IsWithin_example = migrate_from_curr-IsWithin refusing older_world

abbrev add_table : ℕ → ℕ → Migration Db ℕ Fn
add_table ver x = migration ver (exec_fn (λ db. x ∷ db) ∷ [])

-- The code of the first version with a database of the third
abbrev older_code : Env Db ℕ Fn
older_code = record working { supported_ver = 1 }

abbrev newer_world : World Db
newer_world = record older_world { contents = 30 ∷ 20 ∷ 10 ∷ []; version = 3 }

failed :
    (migrate_from_curr failing (record older_world { is_legacy_alter_table = true })).1
    ≡ err migration_launching
unfolding migrate_from_curr migrate_to_supported_ver migrate get_migrations launch_or_tell launch
    execute add_sql range backup backup_db manage_db_backup_files kept_files is_kept
    first_uniq_files_by_ver for_each
failed = refl

migrate_from_curr-restore_example :
    ((migrate_from_curr_to_supported_ver failing older_world).1 ≡ ok tt)
    × ((migrate_from_curr_to_supported_ver failing older_world).0.contents ≡ 10 ∷ [])
    × ((migrate_from_curr_to_supported_ver failing older_world).0.version ≡ 1)
migrate_from_curr-restore_example =
    migrate_from_curr-restore failing older_world (10 ∷ []) sorted-PutsNewestFirst refl
      (inr (refl, omega arith), tt) refl (omega arith) (λ d. refl) (λ d. refl) refl refl failed

abbrev file : ℕ → ℕ → Backup Db
file ver mts = record { name = "backup.db"; version = ver; mts = mts; contents = [] }

kept_files_run :
    kept_files [] (file 3 9 ∷ file 3 8 ∷ file 3 7 ∷ file 2 6 ∷ file 2 5 ∷ file 1 4 ∷ [])
    ≡ file 3 9 ∷ file 3 8 ∷ file 2 6 ∷ []
unfolding kept_files is_kept first_uniq_files_by_ver
kept_files_run = refl

kept_files-take_example :
    (of_ver 3 (kept_files [] (file 3 9 ∷ file 2 8 ∷ file 3 7 ∷ [])) ≡ file 3 9 ∷ file 3 7 ∷ [])
    × (of_other_ver 3 (kept_files [] (file 3 9 ∷ file 2 8 ∷ file 3 7 ∷ [])) ≡ file 2 8 ∷ [])
kept_files-take_example = kept_files-take (file 3 9) (file 2 8 ∷ file 3 7 ∷ [])
