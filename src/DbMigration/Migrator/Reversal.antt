-- ===== src/DbMigration/Migrator/Reversal.antt =====
-- db.migrator.js, sqlite.db.migrator.js and migration.js: a run of the migrations up, and one down.
use bfx_reports_framework.Base.{ℕ, zero, suc, ◌+◌, ◌≡◌, true, some, List, [], ◌∷◌, ◌++◌}
use bfx_reports_framework.Base.Actions.{Result, ok}
use bfx_reports_framework.DbMigration.{Error, World, Query}
use bfx_reports_framework.DbMigration.Launch.{Migration, SqlObj, Trans, to_sql_arr}
use bfx_reports_framework.DbMigration.Migrator.{Env, look_up_migrations}

-- That the SQL and the hooks of a migration take the database from `c` to `c'`: the hook before, the
-- hook before this direction, the transaction, and the two hooks after it.
pub record Takes {D V F : Type 0} (trans : Trans D V F) (before first last after : Query D)
    (sql : Result Error (List (SqlObj V F))) (c c' : D) : Type 0 where
  pub head : SqlObj V F
  pub rest : List (SqlObj V F)
  pub sql_arr : sql ≡ ok (head ∷ rest)
  pub c1 : D
  pub c2 : D
  pub c3 : D
  pub c4 : D
  pub before_ok : before c ≡ (c1, true)
  pub first_ok : first c1 ≡ (c2, true)
  pub trans_ok : trans (head ∷ rest) c2 ≡ some c3
  pub last_ok : last c3 ≡ (c4, true)
  pub after_ok : after c4 ≡ (c', true)

module _ {D V F : Type 0} (trans : Trans D V F) where
  abbrev pub TakesUp : Migration D V F → D → D → Type 0
  TakesUp m c c' = Takes trans m.before m.before_up m.after_up m.after (to_sql_arr m.up) c c'

  abbrev pub TakesDown : Migration D V F → D → D → Type 0
  TakesDown m c c' =
      Takes trans m.before m.before_down m.after_down m.after (to_sql_arr m.down) c c'

abbrev pub at : {D : Type 0} → World D → ℕ → D → World D
at w ver c = record w { contents = c; version = ver }

module _ {D V F : Type 0} (env : Env D V F) where
  -- `n` versions after `a`, each with one migration, whose ways up take the database from `c` to `c'`
  abbrev pub Chain : ℕ → ℕ → D → D → Type 0
  Chain zero a c c' = c ≡ c'
  Chain (suc n) a c c' =
      (m : Migration D V F) × (look_up_migrations env (a + 1) ≡ m ∷ [])
      × (m.version ≡ a + 1)
      × (d : D) × TakesUp env.execute_queries_in_trans m c d
      × Chain n (a + 1) d c'

  -- and whose ways down take it from `c'` to `c`, the newest version first
  abbrev pub ChainDown : ℕ → ℕ → D → D → Type 0
  ChainDown zero a c c' = c ≡ c'
  ChainDown (suc n) a c c' =
      (m : Migration D V F) × (look_up_migrations env (a + 1) ≡ m ∷ [])
      × (m.version ≡ a + 1)
      × (d : D) × TakesDown env.execute_queries_in_trans m d c
      × ChainDown n (a + 1) d c'

  abbrev found_all : List ℕ → List (Migration D V F)
  found_all [] = []
  found_all (ver ∷ versions) = look_up_migrations env ver ++ found_all versions

  abbrev IsFound : ℕ → Type 0
  IsFound ver = (m : Migration D V F) × (look_up_migrations env ver ≡ m ∷ [])
