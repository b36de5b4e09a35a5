-- ===== src/DbMigration/Launch.antt =====
-- migration.js and sqlite-migrations/abstract.migration.js: one migration, up or down.
use bfx_reports_framework.Base.{
  ℕ, ◌-◌, ◌==◌, String, Bool, true, false, ◌||◌, not, str_eq, all, map, Option, none, some, List,
  [], ◌∷◌, if◌then◌else◌,
}
use bfx_reports_framework.Base.Actions.{lift, pure, ok, err, Result, ◌>>=◌, ◌>>◌}
use bfx_reports_framework.DbMigration.{
  Error, World, Query, DbAction, run_query, set_curr_db_ver, sql_correctness, implementation,
  dao_error,
}

-- What is given to `addSql`: values of the type `V`, functions of the type `F`.
pub record SqlObj (V F : Type 0) : Type 0 where
  pub sql : Option String
  pub values : Option V
  pub exec_query_fn : Option F

pub data SqlData (V F : Type 0) : Type 0 where
  text : String → SqlData V F
  obj : SqlObj V F → SqlData V F
  exec_fn : F → SqlData V F

-- `up` and `down` give their SQL to `addSql`; without them, `none`, the base class throws.
pub record Migration (D V F : Type 0) : Type 0 where
  pub version : ℕ
  pub before : Query D
  pub before_up : Query D
  pub before_down : Query D
  pub after : Query D
  pub after_up : Query D
  pub after_down : Query D
  pub up : Option (List (SqlData V F))
  pub down : Option (List (SqlData V F))

abbrev has_text : Option String → Bool
has_text none = false
has_text (some sql) = not (str_eq sql "")

abbrev has_fn : {F : Type 0} → Option F → Bool
has_fn none = false
has_fn (some f) = true

module _ {V F : Type 0} where
  abbrev pub to_sql_obj : SqlData V F → SqlObj V F
  to_sql_obj (text sql) = record { sql = some sql; values = none; exec_query_fn = none }
  to_sql_obj (obj o) = o
  to_sql_obj (exec_fn f) = record { sql = none; values = none; exec_query_fn = some f }

  abbrev pub is_correct_sql : SqlObj V F → Bool
  is_correct_sql o = has_text o.sql || has_fn o.exec_query_fn

  -- `addSql`, after `launch` has emptied `sqlArr`
  unfoldable pub add_sql : List (SqlData V F) → Result Error (List (SqlObj V F))
  add_sql sql_arr =
      let data_list = map to_sql_obj sql_arr in
      if all is_correct_sql data_list then ok data_list else err sql_correctness

  abbrev pub to_sql_arr : Option (List (SqlData V F)) → Result Error (List (SqlObj V F))
  to_sql_arr none = err implementation
  to_sql_arr (some sql_arr) = add_sql sql_arr

-- `none` for a transaction that is rolled back
abbrev pub Trans : Type 0 → Type 0 → Type 0 → Type 0
Trans D V F = List (SqlObj V F) → D → Option D

module _ {D V F : Type 0} (execute_queries_in_trans : Trans D V F) where
  abbrev committed : World D → Option D → World D × Result Error (Unit {0})
  committed w none = (w, err dao_error)
  committed w (some contents) = (record w { contents = contents }, ok tt)

  abbrev in_trans : List (SqlObj V F) → DbAction D (Unit {0})
  in_trans sql_arr w = committed w (execute_queries_in_trans sql_arr w.contents)

  -- `execute`; a version below 0 is 0, which the subtraction gives.
  unfoldable pub execute : ℕ → Bool → List (SqlObj V F) → DbAction D (Unit {0})
  execute version is_down [] = pure tt
  execute version is_down (sql ∷ sql_arr) =
      if version == 0
      then pure tt
      else do in_trans (sql ∷ sql_arr); set_curr_db_ver (if is_down then version - 1 else version)

  -- `launch`
  unfoldable pub launch : Migration D V F → Bool → DbAction D (Unit {0})
  launch m true = do
    run_query m.before
    run_query m.before_down
    sql_arr ← lift (to_sql_arr m.down)
    execute m.version true sql_arr
    run_query m.after_down
    run_query m.after
  launch m false = do
    run_query m.before
    run_query m.before_up
    sql_arr ← lift (to_sql_arr m.up)
    execute m.version false sql_arr
    run_query m.after_up
    run_query m.after
