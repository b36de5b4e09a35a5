-- ===== src/TaxReport/Conversion/Samples.antt =====
-- Small inputs of the remapping and of the prices, and what they give.
use bfx_reports_framework.Base.{
  ℕ, suc, ◌*◌, ◌/◌, ◌≡◌, refl, String, str_eq, Bool, ◌||◌, true, false, Option, none, some, List,
  [], ◌∷◌, length,
}
use bfx_reports_framework.Base.Int.{ℤ, pos, negsuc, ◌-ℤ◌}
use bfx_reports_framework.TaxReport.Trades.{Trade, Packages, abs}
use bfx_reports_framework.TaxReport.Remap.{
  Priced, RawTrade, Movement, trade_at, remap_trade, remap_movement,
}
use bfx_reports_framework.TaxReport.Conversion.{
  for_first, for_last, forex_ccy_for_triangulation, crypto_ccy_for_triangulation, normalize_symb,
  calculators_of, set_ccy_calculator, set_all, place_triangulation_ccy_at_start,
  collect_calculators, get_trx_map_by_ccy, get_ccy_pair_for_conversion, calc_price,
}
use bfx_reports_framework.TaxReport.Conversion.Grouped.{
  under, all_calculators, of_ccy, IsBtcFirst, get_trx_map_by_ccy_lem,
}

abbrev map_option : {A B : Type 0} → (A → B) → Option A → Option B
map_option f none = none
map_option f (some a) = some (f a)

-- Quotients of whole numbers, rounded
abbrev quotient : ℤ → ℤ → ℤ
quotient (pos a) (pos b) = pos (a / b)
quotient (pos a) (negsuc b) = pos 0 -ℤ pos (a / suc b)
quotient a b = pos 0

abbrev product : ℤ → ℤ → ℤ
product (pos a) (pos b) = pos (a * b)
product a b = pos 0

abbrev packages : Packages
packages = record {
  times = product;
  div = quotient;
  is_forex_symb = λ s. str_eq s "USD" || str_eq s "EUR";
  split_symbol_pairs = λ s. ("ETH", "USD");
}

abbrev pair_at : ℕ → String → String → Trade
pair_at mts first last = record (trade_at mts) { first_symb = first; last_symb = last }

-- Two crypto currencies of which one has the priority, a forex pair, and a futures pair
abbrev trxs : List Trade
trxs = pair_at 40 "XMR" "ETH" ∷ pair_at 30 "EUR" "USD" ∷ pair_at 20 "ETHF0" "USTF0" ∷ []

normalized : normalize_symb "ETHF0" ≡ "ETH"
unfolding normalize_symb
normalized = refl

grouped : get_trx_map_by_ccy packages trxs ≡ (
  ("BTC", for_first 1 (some crypto_ccy_for_triangulation) ∷ [])
      ∷ ("ETH", for_last 0 ∷ for_first 2 none ∷ [])
      ∷ ("EUR", for_first 1 (some forex_ccy_for_triangulation) ∷ [])
      ∷ [],
  4,
)
unfolding get_trx_map_by_ccy collect_calculators place_triangulation_ccy_at_start calculators_of
    set_all set_ccy_calculator normalize_symb
grouped = refl

get_trx_map_by_ccy_lem_example :
    let pairs = all_calculators packages 0 trxs in
    let (map, total) = get_trx_map_by_ccy packages trxs in
    ((symb : String) → under symb map ≡ of_ccy symb pairs) × (total ≡ length pairs) × IsBtcFirst map
get_trx_map_by_ccy_lem_example = get_trx_map_by_ccy_lem packages trxs

pair_forex : get_ccy_pair_for_conversion "EUR" (some forex_ccy_for_triangulation) ≡ "tBTCEUR"
unfolding get_ccy_pair_for_conversion
pair_forex = refl

pair_long : get_ccy_pair_for_conversion "DUSK" none ≡ "tDUSK:USD"
unfolding get_ccy_pair_for_conversion
pair_long = refl

-- A sale of 2 at 20 that is worth 40
abbrev raw_trade : RawTrade
raw_trade = record {
  symbol = "tETHUST";
  exec_amount = some (negsuc 1);
  exec_price = some (pos 20);
  mts_create = some 7;
  fee = none;
  fee_currency = "UST";
  exact_usd_value = some (pos 40);
}

remapped_trade :
    map_option {B = Option ℤ × Bool}
      (λ (p, is_for_conv). (p.trade.first_symb_price_usd, is_for_conv))
      (remap_trade packages raw_trade)
    ≡ some (some (pos 20), false)
unfolding remap_trade abs
remapped_trade = refl

abbrev movement : Movement
movement = record {
  currency = "EUR";
  amount = some (pos 2);
  mts_updated = some 7;
  fees = none;
  is_ledgers = true;
  exact_usd_value = none;
  is_airdrop_on_wallet = false;
  is_margin_funding_payment = true;
  is_affiliate_rebate = false;
  is_staking_payments = false;
}

remapped_movement :
    map_option {B = String × Bool}
      (λ (p, is_for_conv). (p.trade.symbol, is_for_conv))
      (remap_movement packages movement)
    ≡ some ("tEURUSD", true)
unfolding remap_movement abs
remapped_movement = refl

not_taxable : remap_movement packages (record movement { is_margin_funding_payment = false }) ≡ none
unfolding remap_movement abs
not_taxable = refl

abbrev eur : Priced
eur = record {
  trade = record (pair_at 30 "EUR" "USD") {
    is_additional_trx_movements = true;
    exec_amount = some (pos 2);
  };
  exact_usd_value = none;
  is_trades = false;
  is_movements = false;
  is_ledgers = true;
}

-- With BTC at 21 dollars and at 7 euros a euro is 3 dollars.
triangulated :
    map_option
      (λ p. p.trade.exec_price)
      (calc_price packages
        (for_first 1 (some forex_ccy_for_triangulation))
        (some (pos 21))
        (some (pos 7))
        eur)
    ≡ some (some (pos 3))
unfolding calc_price
triangulated = refl
