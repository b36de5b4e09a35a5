-- ===== src/DbMigration/Migrator/Keeps.antt =====
-- db.migrator.js: what every query, message and transaction keeps, a whole run of migrations keeps.
use bfx_reports_framework.Base.{
  ℕ, ◌==◌, ◌≡◌, sym, subst, Bool, true, false, List, [], ◌∷◌, filter, All, All-map, All-append,
  arith,
}
use bfx_reports_framework.Base.Actions.{lift, Result, ok, err, for_each}
use bfx_reports_framework.Base.ActionRules.{
  Keeps, caught-Keeps, for_each-Keeps, >>=-Keeps, >>-Keeps, after-ends,
}
use bfx_reports_framework.DbMigration.{
  Error, Message, World, Query, run_query, send_state, ready_migrations, error_migrations,
}
use bfx_reports_framework.DbMigration.Launch.{Migration, SqlObj, execute, launch, to_sql_arr}
use bfx_reports_framework.DbMigration.Migrator.{
  Env, look_up_migrations, found, get_migrations, launch_or_tell, migrate,
}

filter_versions :
    {D V F : Type 0} (ver : ℕ) (files : List (Migration D V F))
    → All (λ m. m.version ≡ ver) (filter (λ m. m.version == ver) files)
filter_versions ver [] = tt
filter_versions ver (m ∷ files) = ground (arith, filter_versions ver files)

module _ {D V F : Type 0} (env : Env D V F) (P : World D → Type 0) (IsStep : ℕ → Type 0)
    (query-Keeps : (query : Query D) → Keeps P (run_query query))
    (send-Keeps : (message : Message) → Keeps P (send_state message))
    (execute-Keeps : (ver : ℕ) (is_down : Bool) (sql_arr : List (SqlObj V F))
      → IsStep ver
      → Keeps P (execute env.execute_queries_in_trans ver is_down sql_arr)) where
  launch-Keeps :
      (is_down : Bool) (m : Migration D V F)
      → IsStep m.version
      → Keeps P (launch env.execute_queries_in_trans m is_down)
  unfolding launch
  launch-Keeps true m h = >>-Keeps P (run_query m.before) _ (query-Keeps m.before) (
      >>-Keeps P (run_query m.before_down) _ (query-Keeps m.before_down) (
        >>=-Keeps P (lift (to_sql_arr m.down)) _ (λ w k. k)
          (λ sql_arr.
            >>-Keeps P (execute env.execute_queries_in_trans m.version true sql_arr) _
              (execute-Keeps m.version true sql_arr h)
              (>>-Keeps P (run_query m.after_down) _ (query-Keeps m.after_down)
                (query-Keeps m.after)))))
  launch-Keeps false m h = >>-Keeps P (run_query m.before) _ (query-Keeps m.before) (
      >>-Keeps P (run_query m.before_up) _ (query-Keeps m.before_up) (
        >>=-Keeps P (lift (to_sql_arr m.up)) _ (λ w k. k)
          (λ sql_arr.
            >>-Keeps P (execute env.execute_queries_in_trans m.version false sql_arr) _
              (execute-Keeps m.version false sql_arr h)
              (>>-Keeps P (run_query m.after_up) _ (query-Keeps m.after_up)
                (query-Keeps m.after)))))

  launch_or_tell-Keeps :
      (is_down : Bool) (m : Migration D V F)
      → IsStep m.version
      → Keeps P (launch_or_tell env is_down m)
  unfolding launch_or_tell
  launch_or_tell-Keeps is_down m h w k =
      caught-Keeps P _ (λ e. send-Keeps error_migrations) _ _ (launch-Keeps is_down m h w k)

  abbrev AreSteps : World D → Result Error (List (Migration D V F)) → Type 0
  AreSteps w (ok ms) = P w × All (λ m. IsStep m.version) ms
  AreSteps w (err e) = P w

  found_lem :
      (ms : List (Migration D V F)) (w : World D)
      → P w
      → All (λ m. IsStep m.version) ms
      → AreSteps (found env ms w).0 (found env ms w).1
  found_lem [] w k a = send-Keeps error_migrations w k
  found_lem (m ∷ ms) w k a = (k, a)

  get_migrations_lem :
      (versions : List ℕ) (w : World D)
      → All IsStep versions
      → P w
      → AreSteps (get_migrations env versions w).0 (get_migrations env versions w).1
  unfolding get_migrations
  get_migrations_lem [] w a k = (k, tt)
  get_migrations_lem (ver ∷ versions) w a k =
      after-ends AreSteps AreSteps _
        (λ ms t h.
          after-ends AreSteps AreSteps _ (λ rest u g. (g.0, All-append _ ms rest h.1 g.1))
            (λ e u g. g) _ _ (get_migrations_lem versions t a.1 h.0))
        (λ e t h. h) _ _
        (found_lem (look_up_migrations env ver) w k (
          All-map (λ m. m.version ≡ ver) (λ m. IsStep m.version) _ (λ m e. subst IsStep (sym e) a.0)
            (filter_versions ver env.files)))

  pub migrate-Keeps :
      (versions : List ℕ) (is_down : Bool)
      → All IsStep versions
      → Keeps P (migrate env versions is_down)
  unfolding migrate
  migrate-Keeps versions is_down a w k =
      after-ends AreSteps (λ t r. P t) _
        (λ ms t h.
          >>-Keeps P (for_each ms (launch_or_tell env is_down)) _
            (for_each-Keeps P (launch_or_tell env is_down) ms
              (All-map _ _ ms (launch_or_tell-Keeps is_down) h.1))
            (send-Keeps ready_migrations) t h.0)
        (λ e t h. h) _ _ (get_migrations_lem versions w a k)
