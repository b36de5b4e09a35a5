-- ===== src/DataChecker/Check.antt =====
-- data.checker/index.js: the loops over the collections. The state is what the interrupter says at
-- each look, one after another; a look after the last is not interrupted.
pub mod Filtered
use bfx_reports_framework.Base.{
  ℕ, String, Bool, true, false, not, ◌&&◌, ◌||◌, Option, none, some, List, [], ◌∷◌, ◌++◌, filter,
  if◌then◌else◌,
}
use bfx_reports_framework.Base.Actions.{lift, Action, Result, ok, err, pure, raise, ◌>>=◌, ◌>>◌}
use bfx_reports_framework.Base.Int.{ℤ}
use bfx_reports_framework.UserStep.{SyncUserStepData}
use bfx_reports_framework.DataChecker.{
  CollType, is_private_insertable, is_public_insertable, is_public, is_hidden, is_updatable,
  CollName, candles, public_trades, tickers_history, status_messages, other_coll, Auth, Schema,
}
use bfx_reports_framework.DataChecker.Steps.{
  reset_sync_schema_props, check_item, check_conf, check_candles, check_updatable,
}
use bfx_reports_framework.DataChecker.Symbols.{Symb, unique_symbs, candles_pairs}

pub data Error : Type 0 where
  last_synced_info_getting dao_error : Error

pub record Request : Type 0 where
  pub coll : CollName
  pub symbol : Option Symb
  pub has_timeframe : Bool
  pub default_start : Option ℕ
  pub auth : Auth

-- A row of PUBLIC_COLLS_CONF, with the smallest start of its symbol and timeframe
pub record Conf : Type 0 where
  pub symbol : Symb
  pub has_timeframe : Bool
  pub start : ℕ

-- What the packages, the clock, the database and the step manager answer
pub record Env : Type 0 where
  pub diff : ℕ → ℕ → ℤ
  pub year : ℕ → ℕ
  pub day_of_year : ℕ → ℕ
  pub now : CollName → ℕ
  pub last_synced : Request → Result Error (SyncUserStepData × Option ℕ)
  pub confs : CollName → Result Error (List Conf)
  pub first_ledger_mts : Auth → Result Error ℕ
  pub ledger_currencies : Auth → Result Error (List Symb)
  pub synonymous_of : Symb → Option (List Symb)
  pub forex_symbs : List Symb

abbrev pub Check : Type 0 → Type 0
Check A = Action (List Bool) Error A

abbrev pub next_look : List Bool → List Bool × Bool
next_look [] = ([], false)
next_look (b ∷ looks) = (looks, b)

-- `this._isInterrupted`
abbrev pub look : Check Bool
look looks = ((next_look looks).0, ok (next_look looks).1)

abbrev pub no_auth : Auth
no_auth = record { user_id = none; sub_user_id = none }

-- `if (this._isInterrupted) return`, before the rest
unfoldable pub unless_interrupted : {A : Type 0} → A → Check A → Check A
unless_interrupted a m = look >>= λ is_interrupted. if is_interrupted then pure a else m

-- Without users, the candles of all
abbrev pub auths_or_all : List Auth → List Auth
auths_or_all [] = no_auth ∷ []
auths_or_all (auth ∷ auths) = auth ∷ auths

-- The loop over `methodCollMap`: the collections that `is_of_type` are reset and checked.
unfoldable pub check_colls :
    (CollType → Bool) → (Schema → Check Schema) → List Schema → Check (List Schema)
check_colls is_of_type check [] = pure []
check_colls is_of_type check (schema ∷ colls) = unless_interrupted (schema ∷ colls) (do
  checked ←
      (if is_of_type schema.coll_type then check (reset_sync_schema_props schema) else pure schema)
  rest ← check_colls is_of_type check colls
  pure (checked ∷ rest))

-- `filterMethodCollMap`
unfoldable pub filter_method_coll_map : Bool → List Schema → List Schema
filter_method_coll_map of_public = filter (λ schema.
    not (is_hidden schema.coll_type)
    && (schema.has_new_data
        && (if of_public then is_public schema.coll_type else not (is_public schema.coll_type))))

module _ (env : Env) where
  -- `_checkItemNewDataArrObjType`
  unfoldable pub check_item_new_data : Auth → Schema → Check Schema
  check_item_new_data auth schema = unless_interrupted schema (do
    last ← lift (
        env.last_synced (record {
          coll = schema.name;
          symbol = none;
          has_timeframe = false;
          default_start = none;
          auth = auth;
        }))
    pure (check_item env.diff env.year env.day_of_year (env.now schema.name) last schema))

  unfoldable pub check_confs : List Conf → Schema → Check Schema
  check_confs [] schema = pure schema
  check_confs (conf ∷ confs) schema = unless_interrupted schema (do
    last ← lift (
        env.last_synced (record {
          coll = schema.name;
          symbol = some conf.symbol;
          has_timeframe = conf.has_timeframe;
          default_start = some conf.start;
          auth = no_auth;
        }))
    check_confs confs (
        check_conf env.diff env.year env.day_of_year (is_updatable schema.coll_type)
          (env.now schema.name) conf.start last schema))

  -- `_checkNewConfigurablePublicData`
  unfoldable pub check_new_configurable_public_data : Schema → Check Schema
  unfolding check_confs
  check_new_configurable_public_data schema =
      unless_interrupted schema (do confs ← lift (env.confs schema.name); check_confs confs schema)

  unfoldable pub check_pairs : Auth → ℕ → List Symb → Schema → Check Schema
  check_pairs auth first_ledger_mts [] schema = pure schema
  check_pairs auth first_ledger_mts (symbol ∷ symbols) schema = unless_interrupted schema (do
    last ← lift (
        env.last_synced (record {
          coll = schema.name;
          symbol = some symbol;
          has_timeframe = true;
          default_start = some first_ledger_mts;
          auth = auth;
        }))
    check_pairs auth first_ledger_mts symbols (
        check_candles env.diff env.year env.day_of_year (env.now schema.name) first_ledger_mts auth
          last schema))

  -- `_checkNewCandlesData`
  unfoldable pub check_new_candles_data : Auth → Schema → Check Schema
  unfolding check_pairs
  check_new_candles_data auth schema = unless_interrupted schema (do
    first_ledger_mts ← lift (env.first_ledger_mts auth)
    currencies ← lift (env.ledger_currencies auth)
    check_pairs auth first_ledger_mts
        (candles_pairs (unique_symbs env.synonymous_of [] currencies) env.forex_symbs) schema)

  unfoldable pub check_candles_of_all : List Auth → Schema → Check Schema
  check_candles_of_all [] schema = pure schema
  check_candles_of_all (auth ∷ auths) schema = do
    checked ← check_new_candles_data auth schema
    check_candles_of_all auths checked

  unfoldable pub check_public : List Auth → CollName → Schema → Check Schema
  unfolding check_candles_of_all
  check_public auths candles schema = do
    checked ← check_candles_of_all (auths_or_all auths) schema
    check_new_configurable_public_data checked
  check_public auths public_trades schema = check_new_configurable_public_data schema
  check_public auths tickers_history schema = check_new_configurable_public_data schema
  check_public auths status_messages schema = pure schema
  check_public auths (other_coll name) schema = pure schema

  unfoldable pub check_public_updatable : CollName → Schema → Check Schema
  check_public_updatable status_messages schema = check_new_configurable_public_data schema
  check_public_updatable name schema = do
    last ← lift (
        env.last_synced (record {
          coll = schema.name;
          symbol = none;
          has_timeframe = false;
          default_start = none;
          auth = no_auth;
        }))
    pure (check_updatable last schema)

  -- `checkNewData`
  unfoldable pub check_new_data : Auth → List Schema → Check (List Schema)
  unfolding check_colls check_item_new_data filter_method_coll_map
  check_new_data auth colls = unless_interrupted (filter_method_coll_map false colls) (do
    checked ← check_colls is_private_insertable (check_item_new_data auth) colls
    pure (filter_method_coll_map false checked))

  -- `checkNewPublicData`
  unfoldable pub check_new_public_data : List Auth → List Schema → Check (List Schema)
  unfolding check_colls check_public check_public_updatable filter_method_coll_map
  check_new_public_data auths colls = unless_interrupted (filter_method_coll_map true colls) (do
    checked ←
        check_colls is_public_insertable (λ schema. check_public auths schema.name schema) colls
    updated ←
        check_colls (λ t. is_updatable t && is_public t)
          (λ schema. check_public_updatable schema.name schema) checked
    pure (filter_method_coll_map true updated))
