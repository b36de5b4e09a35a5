-- ===== src/Category.antt =====
-- workers/loc.api/sync/data.inserter/api.middleware/helpers/get-category-from-description.js.
-- A description is the list of its code points.
pub mod Patterns
pub mod Schema
pub mod FirstMatch
mod Samples
use bfx_reports_framework.Base.{ℕ, Bool, true, false, Option, none, some, List, [], ◌∷◌}
use Patterns.{to_lower_case}
use Schema.{Rule, schema}

-- The `for` loop over the rules.
unfoldable pub first_category : List Rule → List ℕ → Option ℕ
first_category [] d = none
first_category (r ∷ rs) d = elim (r.tester d) [
  | true ↦ some r.category
  | false ↦ first_category rs d
]

unfoldable pub get_category_from_description : List ℕ → Option ℕ
unfolding first_category schema to_lower_case
get_category_from_description description = first_category schema (to_lower_case description)
