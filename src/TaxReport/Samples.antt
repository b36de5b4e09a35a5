-- ===== src/TaxReport/Samples.antt =====
-- Small inputs of the tax report's helpers, and what they give.
use bfx_reports_framework.Base.{
  ℕ, zero, suc, ◌*◌, ◌≡◌, refl, true, false, Option, none, some, List, [], ◌∷◌, map, arith, str_eq,
}
use bfx_reports_framework.Base.Int.{ℤ, pos, negsuc, ◌+ℤ◌, ◌-ℤ◌}
use bfx_reports_framework.TaxReport.Trades.{
  Trade, Packages, Opts, abs, get_trx_fee_usd, set_delisted_ccy_to_map, get_trx_tax_type,
}
use bfx_reports_framework.TaxReport.Matching.{
  is_considered, with_symbs, classify, sale_amount_of, sale_price_of, sale_asset_of, buy_amount_of,
  buy_price_of, buy_asset_of, is_no_purchase, fill, close_purchase,
}
use bfx_reports_framework.TaxReport.Matching.Amounts.{IsSaleFilled, IsBuyFilled}
use bfx_reports_framework.TaxReport.Purchases.{
  Look, put, put_both, polled, use_purchase, look_up_purchase, look_up_at, inner_body, inner_loop,
  range_from, inner_points, outer_points,
}
use bfx_reports_framework.TaxReport.Realized.{
  is_unrealized, flag_unrealized, realized, collect_realized,
}
use bfx_reports_framework.TaxReport.LookUp.{
  look_up_trades, mts_at, acquired, close_sale, after_sale, look_up_sale, outer_body, outer_loop,
  collect,
}
use bfx_reports_framework.TaxReport.LookUp.Sales.{trades_after}
use bfx_reports_framework.TaxReport.LookUp.Conservation.{
  IsConserved, IsWithinAmounts, look_up_trades-IsConserved, look_up_trades-IsWithinAmounts,
}
use bfx_reports_framework.TaxReport.PublicTrade.{
  PubTrade, IsNewestFirst, IsBeside, find_public_trade, search_trade, find_public_trade-IsBeside,
}

abbrev pub_trade : ℕ → ℕ → PubTrade
pub_trade mts price = record { mts = mts; price = price }

abbrev pub_trades : List PubTrade
pub_trades = pub_trade 50 7 ∷ pub_trade 20 5 ∷ pub_trade 10 4 ∷ []

find_exact : find_public_trade pub_trades 20 ≡ some (some (pub_trade 20 5))
unfolding find_public_trade search_trade
find_exact = refl

find_between : find_public_trade pub_trades 30 ≡ some (some (pub_trade 50 7))
unfolding find_public_trade search_trade
find_between = refl

pub_trades-IsNewestFirst : IsNewestFirst pub_trades
pub_trades-IsNewestFirst zero zero a b le at_i at_j = ground arith
pub_trades-IsNewestFirst zero (suc zero) a b le at_i at_j = ground arith
pub_trades-IsNewestFirst zero (suc (suc zero)) a b le at_i at_j = ground arith
pub_trades-IsNewestFirst (suc zero) (suc zero) a b le at_i at_j = ground arith
pub_trades-IsNewestFirst (suc zero) (suc (suc zero)) a b le at_i at_j = ground arith
pub_trades-IsNewestFirst (suc (suc zero)) (suc (suc zero)) a b le at_i at_j = ground arith
pub_trades-IsNewestFirst _ _ a b le at_i at_j = ground arith

find_public_trade-IsBeside_example :
    (m : ℕ) × (t : PubTrade) × (find_public_trade pub_trades 30 ≡ some (some t))
    × IsBeside pub_trades 30 m t
find_public_trade-IsBeside_example =
    find_public_trade-IsBeside pub_trades 30 pub_trades-IsNewestFirst (omega arith)

-- Two trades of BTC: a purchase of 5 at 10, and then a sale of 3 at 20. They stand newest first.
abbrev product : ℤ → ℤ → ℤ
product (pos a) (pos b) = pos (a * b)
product (pos a) (negsuc b) = pos 0 -ℤ pos (a * suc b)
product (negsuc a) (pos b) = pos 0 -ℤ pos (suc a * b)
product (negsuc a) (negsuc b) = pos (suc a * suc b)

abbrev packages : Packages
packages = record {
  times = product;
  div = λ a b. pos 0;
  is_forex_symb = λ s. str_eq s "USD";
  split_symbol_pairs = λ s. ("BTC", "USD");
}

abbrev opts : Opts
opts = record {
  is_back_iterative_sale_look_up = true;
  is_back_iterative_buy_look_up = true;
  is_buy_trades_with_unrealized_profit_required = false;
  is_not_gain_or_loss_required = false;
  should_fees_be_deducted = false;
  should_taxable_payment_flag_be_skipped = none;
}

abbrev btc_trade : ℤ → ℕ → ℕ → Trade
btc_trade amount price mts = record {
  symbol = "tBTCUSD";
  exec_price = some (pos price);
  exec_amount = some amount;
  first_symb = "";
  last_symb = "";
  first_symb_price_usd = some (pos price);
  last_symb_price_usd = some (pos 1);
  mts_create = mts;
  trx_fee = none;
  trx_fee_ccy = "";
  is_taxable_payment = false;
  is_additional_trx_movements = false;
  is_airdrop_on_wallet = false;
  is_margin_funding_payment = false;
  is_affiliate_rebate = false;
  is_staking_payments = false;
  is_prev_period = false;
  no_price_usd = false;
  is_sale_trx = false;
  is_sale_trx_hist_filled = false;
  sale_filled_amount = pos 0;
  cost_for_sale_trx_usd = pos 0;
  buy_trxs_for_realized_profit = [];
  is_buy_trx = false;
  is_buy_trx_hist_filled = false;
  buy_filled_amount = pos 0;
  proceeds_for_buy_trx_usd = pos 0;
  cumulative_trx_fees_usd = pos 0;
  sale_trxs_for_realized_profit = [];
  sale_asset = "";
  sale_amount = none;
  mts_acquired_for_sale_trx = none;
  mts_sold_for_sale_trx = none;
  proceeds_for_sale_trx_usd = none;
  gain_or_loss_usd = none;
  buy_asset = "";
  buy_amount = none;
  mts_acquired_for_buy_trx = none;
  mts_sold_for_buy_trx = none;
  cost_for_buy_trx_usd = none;
  gain_or_loss_for_buy_trx_usd = none;
}

abbrev look_before : Look
look_before = record {
  trades = btc_trade (negsuc 2) 20 200 ∷ btc_trade (pos 5) 10 100 ∷ [];
  delisted = [];
  polls = 0;
}

-- The sale has sold 3, and the purchase has given 3.
look_up_sells_three :
    map {B = ℤ × ℤ × Option ℤ}
      (λ t. (t.sale_filled_amount, t.buy_filled_amount, t.gain_or_loss_usd))
      (trades_after (look_up_trades packages opts (λ n. false) look_before))
    ≡ (pos 3, pos 0, some (pos 30)) ∷ (pos 0, pos 3, none) ∷ []
unfolding look_up_trades collect collect_realized flag_unrealized is_unrealized realized outer_loop
    outer_body look_up_sale after_sale close_sale acquired mts_at outer_points inner_points
    range_from inner_loop inner_body look_up_at look_up_purchase use_purchase put put_both polled
    fill close_purchase is_no_purchase buy_asset_of buy_price_of buy_amount_of sale_asset_of
    sale_price_of sale_amount_of classify with_symbs is_considered get_trx_fee_usd get_trx_tax_type
    set_delisted_ccy_to_map abs ◌+ℤ◌ ◌-ℤ◌
look_up_sells_three = refl

look_up_trades-IsConserved_example :
    IsConserved look_before.trades
      (trades_after (look_up_trades packages opts (λ n. false) look_before))
look_up_trades-IsConserved_example =
    look_up_trades-IsConserved packages opts (λ n. false) look_before

sale_of-IsSaleFilled : IsSaleFilled packages (btc_trade (negsuc 2) 20 200)
unfolding sale_amount_of abs
sale_of-IsSaleFilled = record { from = omega arith; upto = omega arith; whole = λ h. cc }

purchase_of-IsSaleFilled : IsSaleFilled packages (btc_trade (pos 5) 10 100)
unfolding sale_amount_of abs
purchase_of-IsSaleFilled = record { from = omega arith; upto = omega arith; whole = λ h. cc }

sale_of-IsBuyFilled : IsBuyFilled packages (btc_trade (negsuc 2) 20 200)
unfolding buy_amount_of abs ◌-ℤ◌
sale_of-IsBuyFilled = record { from = omega arith; upto = omega arith; whole = λ h. cc }

purchase_of-IsBuyFilled : IsBuyFilled packages (btc_trade (pos 5) 10 100)
unfolding buy_amount_of abs
purchase_of-IsBuyFilled = record { from = omega arith; upto = omega arith; whole = λ h. cc }

look_up_trades-IsWithinAmounts_example :
    IsWithinAmounts packages (trades_after (look_up_trades packages opts (λ n. false) look_before))
look_up_trades-IsWithinAmounts_example =
    look_up_trades-IsWithinAmounts packages opts (λ n. false) look_before
      (
        (sale_of-IsSaleFilled, (purchase_of-IsSaleFilled, tt)),
        (sale_of-IsBuyFilled, (purchase_of-IsBuyFilled, tt)),
      )
