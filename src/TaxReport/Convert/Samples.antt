-- ===== src/TaxReport/Convert/Samples.antt =====
-- A small conversion, and what it gives.
use bfx_reports_framework.Base.{
  ℕ, suc, ◌*◌, ◌/◌, ◌≡◌, refl, String, str_eq, ◌||◌, true, false, none, some, List, [], ◌∷◌, map,
  All, if◌then◌else◌,
}
use bfx_reports_framework.Base.Int.{ℤ, pos, negsuc, ◌-ℤ◌}
use bfx_reports_framework.Base.Actions.{ok, for_each}
use bfx_reports_framework.TaxReport.Trades.{Packages, set_delisted_ccy_to_map}
use bfx_reports_framework.TaxReport.PublicTrade.{PubTrade, find_public_trade, search_trade, probe}
use bfx_reports_framework.TaxReport.Remap.{Priced, trade_at}
use bfx_reports_framework.TaxReport.Conversion.{
  normalize_symb, calculators_of, set_ccy_calculator, set_all, place_triangulation_ccy_at_start,
  collect_calculators, get_trx_map_by_ccy, get_ccy_pair_for_conversion, calc_price,
}
use bfx_reports_framework.TaxReport.Stored.{
  Colls, update_coll, store_trx, store_from, update_exact_usd_value_in_colls,
}
use bfx_reports_framework.TaxReport.Stored.Batches.{IsStored, update_exact_usd_value_in_colls_lem}
use bfx_reports_framework.TaxReport.Convert.{
  Env, Conv, obtaining_currency_prices, transaction_history_generation, poll, get_public_trades,
  search_synonymous, find_pub_trades, price_trx, emit_progress, use_pub_trades, convert_trx,
  convert_ccy, convert_all, convert_currencies,
}
use bfx_reports_framework.TaxReport.Convert.Settled.{AreSettled, convert_currencies-AreSettled}

abbrev quotient : ℤ → ℤ → ℤ
quotient (pos a) (pos b) = pos (a / b)
quotient (pos a) (negsuc b) = pos 0 -ℤ pos (a / suc b)
quotient a b = pos 0

abbrev product : ℤ → ℤ → ℤ
product (pos a) (pos b) = pos (a * b)
product a b = pos 0

abbrev packages : Packages
packages = record {
  times = product;
  div = quotient;
  is_forex_symb = λ s. str_eq s "USD" || str_eq s "EUR";
  split_symbol_pairs = λ s. ("ETH", "USD");
}

abbrev pub_trade : ℕ → ℕ → PubTrade
pub_trade mts price = record { mts = mts; price = price }

-- BTC has prices in dollars and in euros, nothing else has any.
abbrev env : Env
env = record {
  packages = packages;
  interrupted = λ n. false;
  public_trades = λ n symbol end.
      if str_eq symbol "tBTCUSD"
      then pub_trade 30 21 ∷ pub_trade 10 20 ∷ []
      else if str_eq symbol "tBTCEUR"
      then pub_trade 30 7 ∷ pub_trade 10 5 ∷ []
      else [];
  synonymous = λ symbol. none;
}

abbrev ledger : ℕ → String → String → Priced
ledger mts first last = record {
  trade = record (trade_at mts) {
    first_symb = first;
    last_symb = last;
    exec_amount = some (pos 2);
    is_additional_trx_movements = true;
  };
  exact_usd_value = none;
  is_trades = false;
  is_movements = false;
  is_ledgers = true;
}

abbrev trxs : List Priced
trxs = ledger 30 "EUR" "USD" ∷ ledger 20 "ETH" "UST" ∷ []

abbrev after_conversion : Conv
after_conversion = (convert_currencies env trxs []).0

abbrev stored : Colls
stored = update_exact_usd_value_in_colls after_conversion.trxs

converted : (convert_currencies env trxs []).1 ≡ ok stored
unfolding convert_currencies convert_all convert_ccy convert_trx use_pub_trades find_pub_trades
    search_synonymous get_public_trades poll price_trx emit_progress for_each get_trx_map_by_ccy
    collect_calculators place_triangulation_ccy_at_start calculators_of set_all set_ccy_calculator
    normalize_symb get_ccy_pair_for_conversion calc_price find_public_trade search_trade probe
    set_delisted_ccy_to_map update_exact_usd_value_in_colls store_from store_trx update_coll
converted = refl

prices_and_delisted :
    (map (λ p. p.trade.exec_price) after_conversion.trxs ≡ some (pos 3) ∷ none ∷ [])
    × (map (λ d. d.0) after_conversion.delisted ≡ "ETH" ∷ [])
    × (after_conversion.told
        ≡ (66, transaction_history_generation)
          ∷ (66, obtaining_currency_prices)
          ∷ (33, obtaining_currency_prices)
          ∷ [])
unfolding convert_currencies convert_all convert_ccy convert_trx use_pub_trades find_pub_trades
    search_synonymous get_public_trades poll price_trx emit_progress for_each get_trx_map_by_ccy
    collect_calculators place_triangulation_ccy_at_start calculators_of set_all set_ccy_calculator
    normalize_symb get_ccy_pair_for_conversion calc_price find_public_trade search_trade probe
    set_delisted_ccy_to_map
prices_and_delisted = (refl, refl, refl)

convert_currencies-AreSettled_example :
    All
      (λ entry. AreSettled entry after_conversion)
      (get_trx_map_by_ccy packages (map (λ (p : Priced). p.trade) trxs)).0
convert_currencies-AreSettled_example = convert_currencies-AreSettled env trxs [] stored converted

update_exact_usd_value_in_colls_lem_example :
    IsStored (λ t. t.is_trades) trxs (update_exact_usd_value_in_colls trxs).trades
    × IsStored (λ t. t.is_movements) trxs (update_exact_usd_value_in_colls trxs).movements
    × IsStored (λ t. t.is_ledgers) trxs (update_exact_usd_value_in_colls trxs).ledgers
update_exact_usd_value_in_colls_lem_example = update_exact_usd_value_in_colls_lem trxs
