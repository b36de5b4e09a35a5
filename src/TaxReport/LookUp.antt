-- ===== src/TaxReport/LookUp.antt =====
-- look-up-trades.js: the loop over the sales, and what the search returns.
pub mod Sales
pub mod Conservation
use mathlib.Core.List.{reverse}
use bfx_reports_framework.Base.{
  ℕ, zero, suc, ◌+◌, ◌-◌, String, Bool, true, false, not, ◌&&◌, ◌||◌, Option, none, some, List, [],
  ◌∷◌, ◌++◌, map, str_eq, if◌then◌else◌, length, get_elem?, set, ltb, filter,
}
use bfx_reports_framework.Base.Int.{ℤ, pos, ◌+ℤ◌, ◌-ℤ◌}
use bfx_reports_framework.TaxReport.Trades.{
  Trade, Packages, Opts, zero_amount, is_zero, is_positive, is_negative, is_text, is_finite,
  value_or_zero, get_trx_fee_usd, set_delisted_ccy_to_map, TrxTaxType, get_trx_tax_type,
}
use bfx_reports_framework.TaxReport.Matching.{
  is_considered, with_symbs, classify, sale_amount_of, sale_price_of, sale_asset_of, buy_amount_of,
  buy_price_of, buy_asset_of, is_no_purchase, fill, close_purchase,
}
use bfx_reports_framework.TaxReport.Purchases.{
  Look, Flow, next, leave, quit, throw, put, put_both, polled, use_purchase, look_up_purchase,
  look_up_at, inner_body, inner_loop, range_from, inner_points, outer_points,
}
use bfx_reports_framework.TaxReport.Realized.{
  TaxTrx, times_some, plus_some, is_unrealized, flag_unrealized, realized, collect_realized,
}

unfoldable pub mts_at : List Trade → ℕ → Option ℕ
mts_at trades i = elim (get_elem? trades i) [ none ↦ none | some t ↦ some t.mts_create ]

abbrev first_of_list : List ℕ → Option ℕ
first_of_list [] = none
first_of_list (x ∷ xs) = some x

abbrev last_of_list : List ℕ → Option ℕ
last_of_list [] = none
last_of_list (x ∷ []) = some x
last_of_list (x ∷ y ∷ xs) = last_of_list (y ∷ xs)

abbrev bind_mts : List Trade → Option ℕ → Option ℕ
bind_mts trades none = none
bind_mts trades (some i) = mts_at trades i

-- The earlier of the first and the last purchase, lines 373 to 378
unfoldable pub acquired : Option ℕ → Option ℕ → Option ℕ
acquired none last = none
acquired (some first) none = some first
acquired (some first) (some last) = if ltb last first then some last else some first

-- Lines 371 to 383
unfoldable pub close_sale : Packages → String → ℤ → ℤ → List Trade → Trade → Trade
unfolding acquired mts_at
close_sale packages sale_asset sale_amount sale_price trades trade =
    let bought = trade.buy_trxs_for_realized_profit in
    let proceeds = packages.times sale_amount sale_price in
    record trade {
      sale_asset = sale_asset;
      sale_amount = some sale_amount;
      mts_acquired_for_sale_trx =
          acquired (bind_mts trades (first_of_list bought)) (bind_mts trades (last_of_list bought));
      mts_sold_for_sale_trx = some trade.mts_create;
      proceeds_for_sale_trx_usd = some proceeds;
      gain_or_loss_usd =
          some (proceeds -ℤ trade.cost_for_sale_trx_usd +ℤ trade.cumulative_trx_fees_usd);
    }

module _ (packages : Packages) (opts : Opts) (interrupted : ℕ → Bool) where
  -- After the inner loop
  unfoldable pub after_sale : ℕ → String → ℤ → ℤ → Flow → Flow
  after_sale i sale_asset sale_amount sale_price (next look) = elim (get_elem? look.trades i) [
    | none ↦ next look
    | some trade ↦
        next (put i (close_sale packages sale_asset sale_amount sale_price look.trades trade) look)
  ]
  after_sale i sale_asset sale_amount sale_price (leave look) = next look
  after_sale i sale_asset sale_amount sale_price (quit look) = quit look
  after_sale i sale_asset sale_amount sale_price (throw symbol look) = throw symbol look

  -- A sale, lines 160 to 383
  unfoldable pub look_up_sale : ℕ → Trade → Look → Flow
  look_up_sale i trade look = elim (sale_price_of opts trade) [
    | none ↦ next (
        put i (record trade { no_price_usd = true })
          (record look {
            delisted = set_delisted_ccy_to_map (sale_asset_of trade) none look.delisted;
          }))
    | some sale_price ↦
        after_sale i (sale_asset_of trade) (sale_amount_of packages trade) sale_price (
          inner_loop packages opts interrupted i (sale_asset_of trade)
            (sale_amount_of packages trade) sale_price (inner_points opts (length look.trades) i)
            (put i (record trade { cumulative_trx_fees_usd = get_trx_fee_usd packages opts trade })
              look))
  ]

  -- The body of the outer loop
  unfoldable pub outer_body : ℕ → Option Trade → Look → Flow
  outer_body i none look = next look
  outer_body i (some trade) look =
      let t = classify packages (with_symbs packages trade) in
      if interrupted look.polls
      then quit (polled look)
      else if not (is_considered opts trade)
      then next (polled look)
      else if not t.is_sale_trx || t.is_prev_period
      then next (put i t (polled look))
      else if not (is_text t.first_symb) || not (is_text t.last_symb)
      then throw t.symbol (put i t (polled look))
      else look_up_sale i t (polled look)

  unfoldable pub outer_loop : List ℕ → Look → Flow
  outer_loop [] look = next look
  outer_loop (i ∷ is) look = elim (outer_body i (get_elem? look.trades i) look) [
    | next look' ↦ outer_loop is look'
    | leave look' ↦ outer_loop is look'
    | quit look' ↦ quit look'
    | throw symbol look' ↦ throw symbol look'
  ]

-- What the search returns: the sales, and the purchases that are not sold, by their indices.
pub record Found : Type 0 where
  pub sale_trades_with_realized_profit : List TaxTrx
  pub buy_trades_with_unrealized_profit : List Trade

pub data LookUpResult : Type 0 where
  found : Found → Look → LookUpResult
  currency_pair_separation_error : String → Look → LookUpResult

unfoldable pub collect : Packages → Opts → Look → LookUpResult
unfolding collect_realized flag_unrealized
collect packages opts look =
    let trades = map (flag_unrealized opts) look.trades in
    found
      (record {
        sale_trades_with_realized_profit = collect_realized packages opts trades;
        buy_trades_with_unrealized_profit =
            map (flag_unrealized opts) (filter (is_unrealized opts) look.trades);
      })
      (record look { trades = trades })

abbrev pub no_trades : Found
no_trades = record { sale_trades_with_realized_profit = []; buy_trades_with_unrealized_profit = [] }

abbrev pub result_of : Packages → Opts → Flow → LookUpResult
result_of packages opts (next look) = collect packages opts look
result_of packages opts (leave look) = collect packages opts look
result_of packages opts (quit look) = found no_trades look
result_of packages opts (throw symbol look) = currency_pair_separation_error symbol look

unfoldable pub look_up_trades : Packages → Opts → (ℕ → Bool) → Look → LookUpResult
look_up_trades packages opts interrupted look =
    result_of packages opts
      (outer_loop packages opts interrupted (outer_points opts (length look.trades)) look)
