-- ===== src/TaxReport/Matching.antt =====
-- look-up-trades.js: one sale against one purchase.
pub mod Amounts
use bfx_reports_framework.Base.{
  ℕ, String, Bool, true, false, not, ◌&&◌, ◌||◌, Option, none, some, List, [], ◌∷◌, ◌++◌, str_eq,
  if◌then◌else◌,
}
use bfx_reports_framework.Base.Int.{ℤ, pos, ◌+ℤ◌, ◌-ℤ◌, ltb_ℤ}
use bfx_reports_framework.TaxReport.Trades.{
  Trade, Packages, Opts, zero_amount, is_zero, is_positive, is_negative, abs, is_text, is_finite,
  value_or_zero, get_trx_fee_usd,
}

-- The guard on a trade, lines 96 to 107 and 217 to 229: false for a trade that is left out.
unfoldable pub is_considered : Opts → Trade → Bool
is_considered opts trade =
    is_text trade.symbol
    && is_finite trade.exec_price
    && (opts.is_buy_trades_with_unrealized_profit_required
        || not (is_zero (value_or_zero trade.exec_price)))
    && is_finite trade.exec_amount
    && not (is_zero (value_or_zero trade.exec_amount))

abbrev pub amount_of : Trade → ℤ
amount_of trade = value_or_zero trade.exec_amount

abbrev pub price_of : Trade → ℤ
price_of trade = value_or_zero trade.exec_price

-- The two currencies, from the trade or from its symbol.
unfoldable pub with_symbs : Packages → Trade → Trade
with_symbs packages trade =
    if is_text trade.first_symb && is_text trade.last_symb then trade else record trade {
      first_symb = (packages.split_symbol_pairs trade.symbol).0;
      last_symb = (packages.split_symbol_pairs trade.symbol).1;
    }

-- `isSaleTrx` and `isBuyTrx`
unfoldable pub classify : Packages → Trade → Trade
classify packages trade =
    let is_last_symb_forex = packages.is_forex_symb trade.last_symb in
    let is_distinct_sale = is_negative (amount_of trade) in
    let is_sale_between_crypto = is_positive (amount_of trade) && not is_last_symb_forex in
    record trade {
      is_sale_trx = is_distinct_sale || is_sale_between_crypto;
      is_buy_trx =
          (is_positive (amount_of trade) || not is_last_symb_forex)
          && (not trade.is_taxable_payment || not (packages.is_forex_symb trade.first_symb));
    }

-- What is sold: the first currency of a sale, and the last one of a purchase that pays with crypto.
unfoldable pub sale_amount_of : Packages → Trade → ℤ
sale_amount_of packages trade =
    if is_negative (amount_of trade)
    then abs (amount_of trade)
    else abs (packages.times (amount_of trade) (price_of trade))

unfoldable pub sale_price_of : Opts → Trade → Option ℤ
sale_price_of opts trade =
    if opts.is_not_gain_or_loss_required
    then some zero_amount
    else if is_negative (amount_of trade)
    then trade.first_symb_price_usd
    else trade.last_symb_price_usd

unfoldable pub sale_asset_of : Trade → String
sale_asset_of trade = if is_negative (amount_of trade) then trade.first_symb else trade.last_symb

-- What is bought.
unfoldable pub buy_amount_of : Packages → Trade → ℤ
buy_amount_of packages trade =
    if is_positive (amount_of trade)
    then abs (amount_of trade)
    else abs (packages.times (amount_of trade) (price_of trade))

unfoldable pub buy_price_of : Opts → Trade → Option ℤ
buy_price_of opts trade =
    if opts.is_not_gain_or_loss_required
    then some zero_amount
    else if is_positive (amount_of trade)
    then trade.first_symb_price_usd
    else trade.last_symb_price_usd

unfoldable pub buy_asset_of : Trade → String
buy_asset_of trade = if is_positive (amount_of trade) then trade.first_symb else trade.last_symb

-- Lines 261 to 272: trades that buy nothing that can be sold later.
unfoldable pub is_no_purchase : Packages → Trade → Bool
is_no_purchase packages trade =
    is_negative (amount_of trade) && packages.is_forex_symb trade.last_symb
    || trade.is_taxable_payment && packages.is_forex_symb trade.first_symb

-- Lines 316 to 357: the purchase runs out, the sale is filled, or both.
unfoldable pub fill : Packages → Opts → ℤ → ℤ → ℤ → ℤ → Trade → Trade → Trade × Trade
fill packages opts sale_amount buy_amount sale_price buy_price trade look_up =
    let buy_rest = buy_amount -ℤ look_up.buy_filled_amount in
    let sale_rest = sale_amount -ℤ trade.sale_filled_amount in
    let fee = get_trx_fee_usd packages opts look_up in
    if ltb_ℤ buy_rest sale_rest
    then (
      record trade {
        sale_filled_amount = trade.sale_filled_amount +ℤ buy_rest;
        cost_for_sale_trx_usd = trade.cost_for_sale_trx_usd +ℤ packages.times buy_rest buy_price;
        cumulative_trx_fees_usd = trade.cumulative_trx_fees_usd +ℤ fee;
      },
      record look_up {
        buy_filled_amount = buy_amount;
        proceeds_for_buy_trx_usd =
            look_up.proceeds_for_buy_trx_usd +ℤ packages.times buy_rest sale_price;
        is_buy_trx_hist_filled = true;
      },
    )
    else if ltb_ℤ sale_rest buy_rest
    then (
      record trade {
        sale_filled_amount = sale_amount;
        cost_for_sale_trx_usd = trade.cost_for_sale_trx_usd +ℤ packages.times sale_rest buy_price;
        cumulative_trx_fees_usd =
            trade.cumulative_trx_fees_usd +ℤ packages.times fee (packages.div sale_rest buy_rest);
        is_sale_trx_hist_filled = true;
      },
      record look_up {
        buy_filled_amount = look_up.buy_filled_amount +ℤ sale_rest;
        proceeds_for_buy_trx_usd =
            look_up.proceeds_for_buy_trx_usd +ℤ packages.times sale_rest sale_price;
      },
    )
    else (
      record trade {
        sale_filled_amount = sale_amount;
        cost_for_sale_trx_usd = trade.cost_for_sale_trx_usd +ℤ packages.times buy_rest buy_price;
        cumulative_trx_fees_usd = trade.cumulative_trx_fees_usd +ℤ fee;
        is_sale_trx_hist_filled = true;
      },
      record look_up {
        buy_filled_amount = buy_amount;
        proceeds_for_buy_trx_usd =
            look_up.proceeds_for_buy_trx_usd +ℤ packages.times buy_rest sale_price;
        is_buy_trx_hist_filled = true;
      },
    )

-- Lines 359 to 368
unfoldable pub close_purchase : Packages → ℤ → ℤ → ℕ → Trade → Trade
close_purchase packages buy_amount buy_price sold look_up =
    let cost = packages.times buy_amount buy_price in
    if look_up.is_buy_trx_hist_filled
    then record look_up {
      buy_asset = buy_asset_of look_up;
      buy_amount = some buy_amount;
      mts_acquired_for_buy_trx = some look_up.mts_create;
      mts_sold_for_buy_trx = some sold;
      cost_for_buy_trx_usd = some cost;
      gain_or_loss_for_buy_trx_usd = some (look_up.proceeds_for_buy_trx_usd -ℤ cost);
    }
    else look_up
