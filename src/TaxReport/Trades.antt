-- ===== src/TaxReport/Trades.antt =====
-- The trades of the tax report, and the helpers on one of them: get-trx-fee-usd.js,
-- get-trx-tax-type.js and set-delisted-ccy-to-map.js.
--
-- The source computes with bignumber.js. Its sums, differences and comparisons are exact: here a
-- number is an integer, counted in a smallest unit, and the products and quotients, which are
-- bignumber.js's, are parameters. A field that may be absent reads as its default (`?? false`,
-- `?? new BigNumber(0)`, `?? []`); `none` is a number that is not finite, and "" no text.
use bfx_reports_framework.Base.{
  ℕ, String, Bool, true, false, not, ◌&&◌, ◌||◌, Option, none, some, List, [], ◌∷◌, ◌++◌, str_eq,
  if◌then◌else◌,
}
use bfx_reports_framework.Base.Int.{ℤ, pos, negsuc, ltb_ℤ}

pub record Trade : Type 0 where
  pub symbol : String
  pub exec_price : Option ℤ
  pub exec_amount : Option ℤ
  pub first_symb : String
  pub last_symb : String
  pub first_symb_price_usd : Option ℤ
  pub last_symb_price_usd : Option ℤ
  pub mts_create : ℕ
  pub trx_fee : Option ℤ
  pub trx_fee_ccy : String
  pub is_taxable_payment : Bool
  pub is_additional_trx_movements : Bool
  pub is_airdrop_on_wallet : Bool
  pub is_margin_funding_payment : Bool
  pub is_affiliate_rebate : Bool
  pub is_staking_payments : Bool
  pub is_prev_period : Bool
  pub no_price_usd : Bool
  pub is_sale_trx : Bool
  pub is_sale_trx_hist_filled : Bool
  pub sale_filled_amount : ℤ
  pub cost_for_sale_trx_usd : ℤ
  pub buy_trxs_for_realized_profit : List ℕ
  pub is_buy_trx : Bool
  pub is_buy_trx_hist_filled : Bool
  pub buy_filled_amount : ℤ
  pub proceeds_for_buy_trx_usd : ℤ
  pub cumulative_trx_fees_usd : ℤ
  pub sale_trxs_for_realized_profit : List ℕ
  pub sale_asset : String
  pub sale_amount : Option ℤ
  pub mts_acquired_for_sale_trx : Option ℕ
  pub mts_sold_for_sale_trx : Option ℕ
  pub proceeds_for_sale_trx_usd : Option ℤ
  pub gain_or_loss_usd : Option ℤ
  pub buy_asset : String
  pub buy_amount : Option ℤ
  pub mts_acquired_for_buy_trx : Option ℕ
  pub mts_sold_for_buy_trx : Option ℕ
  pub cost_for_buy_trx_usd : Option ℤ
  pub gain_or_loss_for_buy_trx_usd : Option ℤ

-- What the report takes from packages: products and quotients, the forex currencies, and the split
-- of a symbol into its two currencies.
pub record Packages : Type 0 where
  pub times : ℤ → ℤ → ℤ
  pub div : ℤ → ℤ → ℤ
  pub is_forex_symb : String → Bool
  pub split_symbol_pairs : String → String × String

pub record Opts : Type 0 where
  pub is_back_iterative_sale_look_up : Bool
  pub is_back_iterative_buy_look_up : Bool
  pub is_buy_trades_with_unrealized_profit_required : Bool
  pub is_not_gain_or_loss_required : Bool
  pub should_fees_be_deducted : Bool
  pub should_taxable_payment_flag_be_skipped : Option Bool

abbrev pub zero_amount : ℤ
zero_amount = pos 0

abbrev pub is_zero : ℤ → Bool
is_zero x = not (ltb_ℤ x zero_amount) && not (ltb_ℤ zero_amount x)

abbrev pub is_positive : ℤ → Bool
is_positive x = ltb_ℤ zero_amount x

abbrev pub is_negative : ℤ → Bool
is_negative x = ltb_ℤ x zero_amount

unfoldable pub abs : ℤ → ℤ
abs (pos n) = pos n
abs (negsuc n) = pos (ℕ.suc n)

abbrev pub is_text : String → Bool
is_text s = not (str_eq s "")

abbrev pub is_finite : Option ℤ → Bool
is_finite none = false
is_finite (some x) = true

abbrev pub value_or_zero : Option ℤ → ℤ
value_or_zero none = zero_amount
value_or_zero (some x) = x

abbrev pub is_some_true : Option Bool → Bool
is_some_true none = false
is_some_true (some b) = b

-- get-trx-fee-usd.js
unfoldable pub get_trx_fee_usd : Packages → Opts → Trade → ℤ
get_trx_fee_usd packages opts trx =
    if opts.is_not_gain_or_loss_required
      || not opts.should_fees_be_deducted
      || not (is_some_true opts.should_taxable_payment_flag_be_skipped) && trx.is_taxable_payment
      || not (is_finite trx.trx_fee)
    then zero_amount
    else if str_eq trx.trx_fee_ccy trx.first_symb && is_finite trx.first_symb_price_usd
    then packages.times (value_or_zero trx.trx_fee) (value_or_zero trx.first_symb_price_usd)
    else if str_eq trx.trx_fee_ccy trx.last_symb && is_finite trx.last_symb_price_usd
    then packages.times (value_or_zero trx.trx_fee) (value_or_zero trx.last_symb_price_usd)
    else zero_amount

-- trx.tax.types.js
pub data TrxTaxType : Type 0 where
  airdrop_on_wallet margin_funding_payment affiliate_rebate staking_payment exchange : TrxTaxType

-- get-trx-tax-type.js
unfoldable pub get_trx_tax_type : Trade → TrxTaxType
get_trx_tax_type trx =
    if trx.is_airdrop_on_wallet
    then airdrop_on_wallet
    else if trx.is_margin_funding_payment
    then margin_funding_payment
    else if trx.is_affiliate_rebate
    then affiliate_rebate
    else if trx.is_staking_payments
    then staking_payment
    else exchange

-- set-delisted-ccy-to-map.js: the prices of the errors, for each symbol
unfoldable pub set_delisted_ccy_to_map :
    String → Option ℤ → List (String × List (Option ℤ)) → List (String × List (Option ℤ))
set_delisted_ccy_to_map symbol price [] = (symbol, price ∷ []) ∷ []
set_delisted_ccy_to_map symbol price ((s, errs) ∷ rest) =
    if str_eq s symbol
    then (s, errs ++ price ∷ []) ∷ rest
    else (s, errs) ∷ set_delisted_ccy_to_map symbol price rest
