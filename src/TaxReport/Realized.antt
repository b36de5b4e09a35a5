-- ===== src/TaxReport/Realized.antt =====
-- look-up-trades.js, after its loops: the rows of the report, and the purchases that are not sold.
use bfx_reports_framework.Base.{
  ℕ, String, Bool, true, not, ◌&&◌, ◌||◌, Option, none, some, List, [], ◌∷◌, if◌then◌else◌,
}
use bfx_reports_framework.Base.Int.{ℤ, ◌+ℤ◌}
use bfx_reports_framework.TaxReport.Trades.{
  Trade, Packages, Opts, value_or_zero, get_trx_fee_usd, TrxTaxType, get_trx_tax_type,
}

-- An entry of `saleTradesWithRealizedProfit`
pub record TaxTrx : Type 0 where
  pub asset : String
  pub amount : Option ℤ
  pub mts_acquired : Option ℕ
  pub mts_sold : Option ℕ
  pub proceeds : Option ℤ
  pub cost : Option ℤ
  pub gain_or_loss : Option ℤ
  pub type : TrxTaxType

abbrev pub times_some : Packages → Option ℤ → Option ℤ → Option ℤ
times_some packages none y = none
times_some packages (some x) none = none
times_some packages (some x) (some y) = some (packages.times x y)

abbrev pub plus_some : Option ℤ → ℤ → Option ℤ
plus_some none y = none
plus_some (some x) y = some (x +ℤ y)

-- Lines 386 to 397: the purchases that are not sold.
unfoldable pub is_unrealized : Opts → Trade → Bool
is_unrealized opts trade =
    not trade.no_price_usd
    && (opts.is_buy_trades_with_unrealized_profit_required
        && trade.is_buy_trx
        && not trade.is_buy_trx_hist_filled)

unfoldable pub flag_unrealized : Opts → Trade → Trade
unfolding is_unrealized
flag_unrealized opts trade =
    if is_unrealized opts trade then record trade { is_prev_period = true } else trade

-- `{ shouldTaxablePaymentFlagBeSkipped: true, ...opts }`
abbrev pub with_default_skip : Opts → Opts
with_default_skip opts = elim opts.should_taxable_payment_flag_be_skipped [
  | none ↦ record opts { should_taxable_payment_flag_be_skipped = some true }
  | some b ↦ opts
]

-- Lines 399 to 452
unfoldable pub realized : Packages → Opts → Trade → Option TaxTrx
unfolding get_trx_fee_usd get_trx_tax_type
realized packages opts trade =
    let proceeds =
      plus_some (times_some packages trade.exec_amount trade.first_symb_price_usd)
        (get_trx_fee_usd packages (with_default_skip opts) trade) in
    if trade.no_price_usd
    then none
    else if opts.is_buy_trades_with_unrealized_profit_required
        || trade.is_prev_period
        || not trade.is_taxable_payment
          && (not trade.is_sale_trx || trade.is_additional_trx_movements)
    then none
    else if trade.is_taxable_payment
    then some (record {
      asset = trade.first_symb;
      amount = trade.exec_amount;
      mts_acquired = some trade.mts_create;
      mts_sold = none;
      proceeds = proceeds;
      cost = none;
      gain_or_loss = proceeds;
      type = get_trx_tax_type trade;
    })
    else some (record {
      asset = trade.sale_asset;
      amount = some (value_or_zero trade.sale_amount);
      mts_acquired = trade.mts_acquired_for_sale_trx;
      mts_sold = trade.mts_sold_for_sale_trx;
      proceeds = some (value_or_zero trade.proceeds_for_sale_trx_usd);
      cost = some trade.cost_for_sale_trx_usd;
      gain_or_loss = some (value_or_zero trade.gain_or_loss_usd);
      type = get_trx_tax_type trade;
    })

unfoldable pub collect_realized : Packages → Opts → List Trade → List TaxTrx
unfolding realized
collect_realized packages opts [] = []
collect_realized packages opts (trade ∷ trades) =
    let rest = collect_realized packages opts trades in
    elim (realized packages opts trade) [ none ↦ rest | some row ↦ row ∷ rest ]
