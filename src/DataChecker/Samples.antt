-- ===== src/DataChecker/Samples.antt =====
-- Checks of small collections, with minutes as times.
use bfx_reports_framework.Base.{ℕ, ◌≡◌, refl, true, false, Option, none, some, List, [], ◌∷◌, All}
use bfx_reports_framework.Base.Int.{sub_ℕ}
use bfx_reports_framework.Base.Actions.{ok}
use bfx_reports_framework.Base.ActionRules.{Gives}
use bfx_reports_framework.UserStep.{SyncUserStepData, has_base_step, has_curr_step}
use bfx_reports_framework.DataChecker.{
  insertable_array_objects, public_insertable_array_objects, candles, other_coll, Auth, Schema,
}
use bfx_reports_framework.DataChecker.Steps.{
  push, fresh_step, should_fresh_sync_be_added, check_item,
}
use bfx_reports_framework.DataChecker.Steps.Marked.{IsMarked-intro}
use bfx_reports_framework.DataChecker.Symbols.{
  Symb, add, add_currency, unique_symbs, without_f0, usd_pair, add_usd_pairs, add_btc_pairs,
  candles_pairs,
}
use bfx_reports_framework.DataChecker.Symbols.Sets.{IsUnique, HasPair, candles_pairs-HasPair}
use bfx_reports_framework.DataChecker.Check.{Env, check_new_data, check_new_public_data}
use bfx_reports_framework.DataChecker.Check.Filtered.{IsToSync, check-Gives}

abbrev synced_step : SyncUserStepData
synced_step = record {
  synced_at = some 100;
  symbol = none;
  timeframe = none;
  base_start = some 10;
  base_end = some 100;
  curr_start = none;
  curr_end = none;
  is_base_step_ready = true;
  is_curr_step_ready = true;
  was_base_steps_be_synced = false;
  was_curr_steps_be_synced = false;
}

abbrev eth : Symb
eth = b'E' ∷ b'T' ∷ b'H' ∷ []

abbrev ust : Symb
ust = b'U' ∷ b'S' ∷ b'T' ∷ []

abbrev usdt : Symb
usdt = b'U' ∷ b'S' ∷ b'D' ∷ b'T' ∷ []

abbrev eth_f0 : Symb
eth_f0 = b'E' ∷ b'T' ∷ b'H' ∷ b'F' ∷ b'0' ∷ []

abbrev eur : Symb
eur = b'E' ∷ b'U' ∷ b'R' ∷ []

abbrev env_at : ℕ → Env
env_at now = record {
  diff = sub_ℕ;
  year = λ mts. 0;
  day_of_year = λ mts. mts;
  now = λ name. now;
  last_synced = λ request. ok (synced_step, some 90);
  confs = λ name. ok [];
  first_ledger_mts = λ auth. ok 10;
  ledger_currencies = λ auth. ok (eth ∷ []);
  synonymous_of = λ symb. none;
  forex_symbs = eur ∷ [];
}

abbrev ledgers : Schema
ledgers = record {
  coll_type = insertable_array_objects;
  name = other_coll "ledgers";
  has_new_data = false;
  start = [];
}

abbrev candles_coll : Schema
candles_coll = record {
  coll_type = public_insertable_array_objects;
  name = candles;
  has_new_data = false;
  start = [];
}

abbrev user : Auth
user = record { user_id = some 1; sub_user_id = none }

-- More than an hour after the last check, the time from the last element on is to be synced.
hour_later :
    check_item sub_ℕ (λ mts. 0) (λ mts. mts) 161 (synced_step, some 90) ledgers ≡ record ledgers {
      has_new_data = true;
      start =
          record {
            step = record synced_step {
              synced_at = none;
              curr_start = some 90;
              curr_end = some 161;
              is_curr_step_ready = false;
            };
            auth = none;
          }
          ∷ [];
    }
unfolding check_item push fresh_step should_fresh_sync_be_added has_base_step has_curr_step
hour_later = refl

check-Gives_example :
    Gives (All (IsToSync false)) (check_new_data (env_at 161) user (ledgers ∷ candles_coll ∷ []))
    × Gives
        (All (IsToSync true))
        (check_new_public_data (env_at 161) (user ∷ []) (ledgers ∷ candles_coll ∷ []))
check-Gives_example =
    check-Gives (env_at 161) user (user ∷ []) (ledgers ∷ candles_coll ∷ [])
      (IsMarked-intro ledgers refl, (IsMarked-intro candles_coll refl, tt))

abbrev synonymous : Symb → Option (List Symb)
synonymous symb = some (ust ∷ usdt ∷ [])

-- Of two synonyms that are not there yet, only the first is added.
first_synonym : unique_symbs synonymous [] (eth ∷ []) ≡ eth ∷ ust ∷ []
unfolding unique_symbs add_currency add
first_synonym = refl

pairs_run :
    candles_pairs (eth ∷ eth_f0 ∷ usdt ∷ []) (eur ∷ [])
    ≡ usd_pair eth ∷ usd_pair usdt ∷ (b't' ∷ b'B' ∷ b'T' ∷ b'C' ∷ eur) ∷ []
unfolding candles_pairs add_usd_pairs add_btc_pairs without_f0 add
pairs_run = refl

candles_pairs-HasPair_example :
    let pairs = candles_pairs (unique_symbs synonymous [] (eth ∷ eth_f0 ∷ [])) (eur ∷ []) in
    IsUnique pairs × All (λ t. HasPair pairs (without_f0 t)) (eth ∷ eth_f0 ∷ [])
candles_pairs-HasPair_example = candles_pairs-HasPair synonymous (eth ∷ eth_f0 ∷ []) (eur ∷ [])
