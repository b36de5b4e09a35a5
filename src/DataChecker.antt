-- ===== src/DataChecker.antt =====
-- workers/loc.api/sync/data.inserter/data.checker/index.js: which collections have new data, and the
-- steps by which it is synced.
--
-- A time that is null or undefined is `none`. `diff` is moment's difference in minutes, and `year`
-- and `day_of_year` are moment's; `min` is lib-js-util-base's.
pub mod Steps
pub mod Symbols
pub mod Check
mod Samples
use bfx_reports_framework.Base.{ℕ, String, Bool, true, false, Option, none, some, List, [], ◌∷◌}
use bfx_reports_framework.UserStep.{SyncUserStepData}

-- The types of sync/colls.types.js that a collection can have
pub data CollType : Type 0 where
  insertable_array_objects updatable_array_objects updatable_array : CollType
  public_insertable_array_objects public_updatable_array_objects public_updatable_array : CollType
  hidden_insertable_array_objects : CollType

-- `isInsertableArrObj` with `isPrivate` and with `isPublic`: the whole type is compared.
abbrev pub is_private_insertable : CollType → Bool
is_private_insertable insertable_array_objects = true
is_private_insertable _ = false

abbrev pub is_public_insertable : CollType → Bool
is_public_insertable public_insertable_array_objects = true
is_public_insertable _ = false

abbrev pub is_public : CollType → Bool
is_public public_insertable_array_objects = true
is_public public_updatable_array_objects = true
is_public public_updatable_array = true
is_public _ = false

abbrev pub is_hidden : CollType → Bool
is_hidden hidden_insertable_array_objects = true
is_hidden _ = false

abbrev pub is_updatable : CollType → Bool
is_updatable updatable_array_objects = true
is_updatable updatable_array = true
is_updatable public_updatable_array_objects = true
is_updatable public_updatable_array = true
is_updatable _ = false

-- ALLOWED_COLLS, as far as the checker asks for them
pub data CollName : Type 0 where
  candles public_trades tickers_history status_messages : CollName
  other_coll : String → CollName

pub record Auth : Type 0 where
  pub user_id : Option ℕ
  pub sub_user_id : Option ℕ

-- A step of START with the `auth` that the candles get
pub record StartItem : Type 0 where
  pub step : SyncUserStepData
  pub auth : Option Auth

-- The fields of a collection's schema that the checker reads and sets
pub record Schema : Type 0 where
  pub coll_type : CollType
  pub name : CollName
  pub has_new_data : Bool
  pub start : List StartItem
