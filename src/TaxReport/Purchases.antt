-- ===== src/TaxReport/Purchases.antt =====
-- look-up-trades.js: the search of the purchases for one sale. The trades are objects that the loops
-- change in place: here they stand in a list, and a trade is named by its index in it.
-- `interrupter.hasInterrupted()` is asked again and again: the answer to the n-th call is
-- `interrupted n`. A pause of the event loop (`setImmediate`) changes nothing.
pub mod Rule
pub mod Searching
use mathlib.Core.List.{reverse}
use bfx_reports_framework.Base.{
  ℕ, zero, suc, ◌+◌, ◌-◌, String, Bool, true, false, not, ◌&&◌, ◌||◌, Option, none, some, List, [],
  ◌∷◌, ◌++◌, map, str_eq, if◌then◌else◌, length, get_elem?, set, ltb, filter,
}
use bfx_reports_framework.Base.Int.{ℤ, pos, ◌+ℤ◌, ◌-ℤ◌}
use bfx_reports_framework.TaxReport.Trades.{
  Trade, Packages, Opts, zero_amount, is_zero, is_positive, is_negative, is_text, is_finite,
  value_or_zero, get_trx_fee_usd, set_delisted_ccy_to_map, TrxTaxType, get_trx_tax_type,
}
use bfx_reports_framework.TaxReport.Matching.{
  is_considered, with_symbs, classify, sale_amount_of, sale_price_of, sale_asset_of, buy_amount_of,
  buy_price_of, buy_asset_of, is_no_purchase, fill, close_purchase,
}

pub record Look : Type 0 where
  pub trades : List Trade
  pub delisted : List (String × List (Option ℤ))
  pub polls : ℕ

-- How a part of a loop ends: go on, `break`, return from the whole search, or throw the
-- CurrencyPairSeparationError of a symbol.
pub data Flow : Type 0 where
  next leave quit : Look → Flow
  throw : String → Look → Flow

unfoldable pub put : ℕ → Trade → Look → Look
put i trade look = record look { trades = set look.trades i trade }

unfoldable pub put_both : ℕ → Trade → ℕ → Trade → Look → Look
put_both i trade j look_up look = record look { trades = set (set look.trades i trade) j look_up }

unfoldable pub polled : Look → Look
polled look = record look { polls = look.polls + 1 }

module _ (packages : Packages) (opts : Opts) (interrupted : ℕ → Bool) where
  -- A purchase of the asset that is sold, lines 284 to 368
  unfoldable pub use_purchase : ℕ → ℕ → ℤ → ℤ → Trade → Trade → Look → Flow
  use_purchase i j sale_amount sale_price trade look_up look =
      let trade' = record trade {
        buy_trxs_for_realized_profit = trade.buy_trxs_for_realized_profit ++ j ∷ [];
      } in
      let look_up' = record look_up {
        sale_trxs_for_realized_profit = look_up.sale_trxs_for_realized_profit ++ i ∷ [];
      } in
      let buy_amount = buy_amount_of packages look_up in
      elim (buy_price_of opts look_up) [
        | none ↦ next (
            put_both i (record trade' { no_price_usd = true }) j look_up'
              (record look {
                delisted = set_delisted_ccy_to_map (buy_asset_of look_up) none look.delisted;
              }))
        | some buy_price ↦
            let (t, l) =
              fill packages opts sale_amount buy_amount sale_price buy_price trade' look_up' in
            next (
              put_both i t j (close_purchase packages buy_amount buy_price trade.mts_create l) look)
      ]

  -- Lines 217 to 282
  unfoldable pub look_up_purchase : ℕ → ℕ → String → ℤ → ℤ → Trade → Trade → Look → Flow
  look_up_purchase i j sale_asset sale_amount sale_price trade look_up look =
      let l = with_symbs packages look_up in
      if look_up.is_buy_trx_hist_filled || not (is_considered opts look_up)
      then next look
      else if not (is_text l.first_symb) || not (is_text l.last_symb)
      then throw l.symbol (put j l look)
      else if is_no_purchase packages l
      then next (put j l look)
      else if not (str_eq sale_asset (buy_asset_of l))
      then next (put j (record l { is_buy_trx = true }) look)
      else use_purchase i j sale_amount sale_price trade (record l { is_buy_trx = true }) look

  -- The trade at `j` is not there, or the one that is.
  unfoldable pub look_up_at : ℕ → ℕ → String → ℤ → ℤ → Trade → Option Trade → Look → Flow
  look_up_at i j sale_asset sale_amount sale_price trade none look = next look
  look_up_at i j sale_asset sale_amount sale_price trade (some look_up) look =
      look_up_purchase i j sale_asset sale_amount sale_price trade look_up look

  -- The body of the inner loop
  unfoldable pub inner_body : ℕ → String → ℤ → ℤ → ℕ → Option Trade → Look → Flow
  inner_body i sale_asset sale_amount sale_price j none look = next look
  inner_body i sale_asset sale_amount sale_price j (some trade) look =
      if interrupted look.polls
      then quit (polled look)
      else if trade.is_sale_trx_hist_filled
      then leave (polled look)
      else look_up_at i j sale_asset sale_amount sale_price trade (get_elem? look.trades j)
          (polled look)

  -- The inner loop over the points `j`
  unfoldable pub inner_loop : ℕ → String → ℤ → ℤ → List ℕ → Look → Flow
  inner_loop i sale_asset sale_amount sale_price [] look = next look
  inner_loop i sale_asset sale_amount sale_price (j ∷ js) look =
      elim (inner_body i sale_asset sale_amount sale_price j (get_elem? look.trades i) look) [
        | next look' ↦ inner_loop i sale_asset sale_amount sale_price js look'
        | leave look' ↦ next look'
        | quit look' ↦ quit look'
        | throw symbol look' ↦ throw symbol look'
      ]

unfoldable pub range_from : ℕ → ℕ → List ℕ
range_from a zero = []
range_from a (suc n) = a ∷ range_from (a + 1) n

-- `startPoint`, `checkPoint` and `shiftPoint`: the points after `i`, upwards or downwards.
unfoldable pub inner_points : Opts → ℕ → ℕ → List ℕ
unfolding range_from
inner_points opts count i =
    let up = range_from (i + 1) (count - (i + 1)) in
    if opts.is_back_iterative_buy_look_up then reverse up else up

-- `tradeIterator.entries()`
unfoldable pub outer_points : Opts → ℕ → List ℕ
unfolding range_from
outer_points opts count =
    if opts.is_back_iterative_sale_look_up then reverse (range_from 0 count) else range_from 0 count
