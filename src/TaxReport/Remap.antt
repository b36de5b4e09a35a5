-- ===== src/TaxReport/Remap.antt =====
-- remap-trades.js and remap-movements.js: the transactions of the report, from the rows of the tables.
--
-- A number that is no finite one is `none`, and "" is no text.
use Prim.Native.String.{◌++◌ as str_append, count}
use bfx_reports_framework.Base.{
  ℕ, ltb, String, str_eq, Bool, true, false, not, ◌&&◌, ◌||◌, Option, none, some, [], if◌then◌else◌,
}
use bfx_reports_framework.Base.Int.{ℤ, pos}
use bfx_reports_framework.TaxReport.Trades.{Trade, Packages, is_zero, is_text, value_or_zero, abs}

-- A transaction with the value in USD that its row has, and where it comes from
pub record Priced : Type 0 where
  pub trade : Trade
  pub exact_usd_value : Option ℤ
  pub is_trades : Bool
  pub is_movements : Bool
  pub is_ledgers : Bool

pub record RawTrade : Type 0 where
  pub symbol : String
  pub exec_amount : Option ℤ
  pub exec_price : Option ℤ
  pub mts_create : Option ℕ
  pub fee : Option ℤ
  pub fee_currency : String
  pub exact_usd_value : Option ℤ

pub record Movement : Type 0 where
  pub currency : String
  pub amount : Option ℤ
  pub mts_updated : Option ℕ
  pub fees : Option ℤ
  pub is_ledgers : Bool
  pub exact_usd_value : Option ℤ
  pub is_airdrop_on_wallet : Bool
  pub is_margin_funding_payment : Bool
  pub is_affiliate_rebate : Bool
  pub is_staking_payments : Bool

-- A finite number that is not 0
abbrev pub is_number : Option ℤ → Bool
is_number none = false
is_number (some price) = not (is_zero price)

abbrev pub is_longer_than_three : String → Bool
is_longer_than_three symb = ltb 3 (count symb)

-- A transaction of which nothing but its time is known
abbrev pub trade_at : ℕ → Trade
trade_at mts = record {
  symbol = "";
  exec_price = none;
  exec_amount = none;
  first_symb = "";
  last_symb = "";
  first_symb_price_usd = none;
  last_symb_price_usd = none;
  mts_create = mts;
  trx_fee = none;
  trx_fee_ccy = "";
  is_taxable_payment = false;
  is_additional_trx_movements = false;
  is_airdrop_on_wallet = false;
  is_margin_funding_payment = false;
  is_affiliate_rebate = false;
  is_staking_payments = false;
  is_prev_period = false;
  no_price_usd = false;
  is_sale_trx = false;
  is_sale_trx_hist_filled = false;
  sale_filled_amount = pos 0;
  cost_for_sale_trx_usd = pos 0;
  buy_trxs_for_realized_profit = [];
  is_buy_trx = false;
  is_buy_trx_hist_filled = false;
  buy_filled_amount = pos 0;
  proceeds_for_buy_trx_usd = pos 0;
  cumulative_trx_fees_usd = pos 0;
  sale_trxs_for_realized_profit = [];
  sale_asset = "";
  sale_amount = none;
  mts_acquired_for_sale_trx = none;
  mts_sold_for_sale_trx = none;
  proceeds_for_sale_trx_usd = none;
  gain_or_loss_usd = none;
  buy_asset = "";
  buy_amount = none;
  mts_acquired_for_buy_trx = none;
  mts_sold_for_buy_trx = none;
  cost_for_buy_trx_usd = none;
  gain_or_loss_for_buy_trx_usd = none;
}

-- `none` where the row is passed over; the flag is whether its prices are to be looked for.
abbrev pub Remapped : Type 0
Remapped = Option (Priced × Bool)

module _ (packages : Packages) where
  abbrev with_trade_prices : RawTrade → Trade → Priced × Bool
  with_trade_prices raw trade =
      let priced : Trade → Priced = λ t. record {
        trade = t;
        exact_usd_value = raw.exact_usd_value;
        is_trades = true;
        is_movements = false;
        is_ledgers = false;
      } in
      let value = value_or_zero raw.exact_usd_value in
      let amount = value_or_zero raw.exec_amount in
      if str_eq trade.last_symb "USD"
      then (
        priced (record trade {
          first_symb_price_usd = raw.exec_price;
          last_symb_price_usd = some (pos 1);
        }),
        false,
      )
      else if is_number raw.exact_usd_value
      then (
        priced (record trade {
          first_symb_price_usd = some (abs (packages.div value amount));
          last_symb_price_usd =
              some
                (abs (packages.div value (packages.times amount (value_or_zero raw.exec_price))));
        }),
        false,
      )
      else (priced trade, true)

  abbrev remap_at : RawTrade → Option ℕ → Remapped
  remap_at raw none = none
  remap_at raw (some mts) =
      if not (is_text raw.symbol)
        || (not (is_number raw.exec_amount) || not (is_number raw.exec_price))
      then none
      else some (
          with_trade_prices raw (record (trade_at mts) {
            symbol = raw.symbol;
            exec_price = raw.exec_price;
            exec_amount = raw.exec_amount;
            first_symb = (packages.split_symbol_pairs raw.symbol).0;
            last_symb = (packages.split_symbol_pairs raw.symbol).1;
            trx_fee = some (value_or_zero raw.fee);
            trx_fee_ccy = raw.fee_currency;
          }))

  -- The body of `remapTrades`
  unfoldable pub remap_trade : RawTrade → Remapped
  unfolding abs
  remap_trade raw = remap_at raw raw.mts_create

  abbrev is_taxable : Movement → Bool
  is_taxable m =
      m.is_airdrop_on_wallet
      || (m.is_margin_funding_payment || (m.is_affiliate_rebate || m.is_staking_payments))

  abbrev with_movement_prices : Movement → Trade → Priced × Bool
  with_movement_prices m trade =
      let priced : Trade → Priced = λ t. record {
        trade = t;
        exact_usd_value = m.exact_usd_value;
        is_trades = false;
        is_movements = not m.is_ledgers;
        is_ledgers = m.is_ledgers;
      } in
      let with_price : ℤ → Priced = λ price.
        priced (record trade { first_symb_price_usd = some price; exec_price = some price }) in
      if is_taxable m && str_eq m.currency "USD"
      then (with_price (pos 1), false)
      else if is_number m.exact_usd_value
      then (
        with_price (abs (packages.div (value_or_zero m.exact_usd_value) (value_or_zero m.amount))),
        false,
      )
      else (priced trade, true)

  abbrev remap_movement_at : Movement → Option ℕ → Remapped
  remap_movement_at m none = none
  remap_movement_at m (some mts) =
      if not (is_text m.currency)
        || (not (is_taxable m) && packages.is_forex_symb m.currency || not (is_number m.amount))
      then none
      else some (
          with_movement_prices m (record (trade_at mts) {
            symbol =
                str_append "t" (
                  str_append m.currency
                    (if is_longer_than_three m.currency then ":USD" else "USD"));
            exec_price = some (pos 0);
            exec_amount = m.amount;
            first_symb = m.currency;
            last_symb = "USD";
            last_symb_price_usd = some (pos 1);
            trx_fee = some (value_or_zero m.fees);
            trx_fee_ccy = m.currency;
            is_taxable_payment = is_taxable m;
            is_additional_trx_movements = true;
            is_airdrop_on_wallet = m.is_airdrop_on_wallet;
            is_margin_funding_payment = m.is_margin_funding_payment;
            is_affiliate_rebate = m.is_affiliate_rebate;
            is_staking_payments = m.is_staking_payments;
          }))

  -- The body of `remapMovements`
  unfoldable pub remap_movement : Movement → Remapped
  unfolding abs
  remap_movement m = remap_movement_at m m.mts_updated
