-- ===== src/TaxReport/Convert.antt =====
-- #convertCurrencies of transaction.tax.report/index.js: the loop over the calculators of each currency,
-- which looks for public trades and gives the transactions their prices.
--
-- The transactions stand in a list, and a calculator names its one by the index. The answer of
-- #getPublicTrades to the n-th request, of the interrupter to the n-th question, and the synonyms of
-- a currency are arguments.
pub mod Prices
pub mod Kept
pub mod Settled
mod Samples
use mathlib.Core.Option.{Option, none, some}
use bfx_reports_framework.Base.{
  ℕ, zero, suc, ◌+◌, ◌*◌, ◌/◌, ltb, ◌==◌, String, str_eq, Bool, true, false, not, ◌&&◌, ◌||◌, List,
  [], ◌∷◌, ◌++◌, map, length, get_elem?, set, if◌then◌else◌,
}
use bfx_reports_framework.Base.Int.{ℤ, pos}
use bfx_reports_framework.Base.Actions.{
  Action, Result, ok, err, pure, gets, modify, after, for_each, raise_if, ◌>>=◌, ◌>>◌,
}
use bfx_reports_framework.TaxReport.Trades.{Packages, value_or_zero, set_delisted_ccy_to_map}
use bfx_reports_framework.TaxReport.PublicTrade.{PubTrade, find_public_trade}
use bfx_reports_framework.TaxReport.Remap.{Priced}
use bfx_reports_framework.TaxReport.Conversion.{
  Kind, crypto_ccy_for_triangulation, Calculator, CcyMap, get_trx_map_by_ccy,
  get_ccy_pair_for_conversion, calc_price,
}
use bfx_reports_framework.TaxReport.Stored.{Colls, update_exact_usd_value_in_colls}

-- How the loop ends early: it returns, or calcPrice throws its PubTradePriceFindForTrxTaxError.
pub data Stop : Type 0 where
  has_interrupted pub_trade_price_find : Stop

pub record Env : Type 0 where
  pub packages : Packages
  pub interrupted : ℕ → Bool
  pub public_trades : ℕ → String → ℕ → List PubTrade
  pub synonymous : String → Option (List (String × ℕ))

-- The state of a progress message
pub data Stage : Type 0 where
  obtaining_currency_prices transaction_history_generation : Stage

-- `btc_prices` has the `pubTradePrice` of the calculators for triangulation, by their transactions, and
-- `told` the newest message first.
pub record Conv : Type 0 where
  pub trxs : List Priced
  pub btc_prices : List (ℕ × ℤ)
  pub delisted : List (String × List (Option ℤ))
  pub polls : ℕ
  pub requests : ℕ
  pub count : ℕ
  pub progress : ℕ
  pub told : List (ℕ × Stage)
  pub pub_trades : List PubTrade
  pub pub_trade_start : Option ℕ
  pub pub_trade_end : Option ℕ

abbrev pub ConvAction : Type 0 → Type 0
ConvAction A = Action Conv Stop A

abbrev pub is_empty : List PubTrade → Bool
is_empty [] = true
is_empty (t ∷ ts) = false

abbrev pub last_mts : List PubTrade → Option ℕ
last_mts [] = none
last_mts (t ∷ []) = some t.mts
last_mts (t ∷ u ∷ ts) = last_mts (u ∷ ts)

-- `start > mts || end < mts`, where a comparison with `undefined` is false
abbrev pub is_outside : Option ℕ → Option ℕ → ℕ → Bool
is_outside start end mts =
    elim start [ none ↦ false | some s ↦ ltb mts s ]
    || elim end [ none ↦ false | some e ↦ ltb e mts ]

abbrev pub is_missing : Option ℕ → Bool
is_missing none = true
is_missing (some n) = false

-- Whether no price can be looked up in the public trades
abbrev pub is_uncovered : ℕ → Conv → Bool
is_uncovered mts c =
    is_empty c.pub_trades
    || (is_missing c.pub_trade_start || is_missing c.pub_trade_end)
    || is_outside c.pub_trade_start c.pub_trade_end mts

abbrev pub mts_of : Option Priced → ℕ
mts_of none = 0
mts_of (some p) = p.trade.mts_create

abbrev pub price_of : Option (Option PubTrade) → Option ℤ
price_of (some (some t)) = some (pos t.price)
price_of _ = none

abbrev pub btc_price_of : ℕ → List (ℕ × ℤ) → Option ℤ
btc_price_of i [] = none
btc_price_of i ((j, price) ∷ prices) = if j == i then some price else btc_price_of i prices

abbrev pub times_price : ℕ → PubTrade → PubTrade
times_price conversion t = record t { price = t.price * conversion }

abbrev pub noted : Option Kind → ℕ → ℤ → List (ℕ × ℤ) → List (ℕ × ℤ)
noted (some crypto_ccy_for_triangulation) i price prices = (i, price) ∷ prices
noted _ i price prices = prices

-- `pubTradePrice` is kept where another calculator needs it, and the transaction is the one that calcPrice leaves.
abbrev pub with_price : Calculator → Option ℤ → Option Priced → Conv → Conv × Result Stop (Unit {0})
with_price calculator price none c = (c, err pub_trade_price_find)
with_price calculator price (some p) c = (
  record c {
    trxs = set c.trxs calculator.trx p;
    btc_prices = noted calculator.kind calculator.trx (value_or_zero price) c.btc_prices;
  },
  ok tt,
)

abbrev pub delist : String → ConvAction (Unit {0})
delist symbol = modify (λ c. record c { delisted = set_delisted_ccy_to_map symbol none c.delisted })

module _ (env : Env) where
  unfoldable pub poll : ConvAction (Unit {0})
  poll c = (
    record c { polls = c.polls + 1 },
    if env.interrupted c.polls then err has_interrupted else ok tt,
  )

  unfoldable pub get_public_trades : String → ℕ → ConvAction (List PubTrade)
  get_public_trades symbol end c =
      (record c { requests = c.requests + 1 }, ok (env.public_trades c.requests symbol end))

  -- The loop over the synonyms
  unfoldable pub search_synonymous : Calculator → ℕ → List (String × ℕ) → ConvAction (List PubTrade)
  search_synonymous calculator end [] = pure []
  search_synonymous calculator end ((symbol, conversion) ∷ synonymous) = do
    poll
    res ← get_public_trades (get_ccy_pair_for_conversion symbol calculator.kind) end
    if is_empty res
        then search_synonymous calculator end synonymous
        else pure (map (times_price conversion) res)

  -- Where the currency itself has no public trades: `none` for `continue`.
  abbrev pub search_others :
      String → Calculator → ℕ → Option (List (String × ℕ)) → ConvAction (Option (List PubTrade))
  search_others symbol calculator end none = do
    poll
    delist symbol
    modify (λ c. record c { pub_trades = [] })
    pure none
  search_others symbol calculator end (some synonymous) = do
    pub_trades ← search_synonymous calculator end synonymous
    pure (some pub_trades)

  abbrev pub synonymous_for : String → Option Kind → Option (List (String × ℕ))
  synonymous_for symbol none = env.synonymous symbol
  synonymous_for symbol (some kind) = none

  unfoldable pub find_pub_trades : String → Calculator → ℕ → ConvAction (Option (List PubTrade))
  unfolding poll get_public_trades search_synonymous
  find_pub_trades symbol calculator end = do
    res ← get_public_trades (get_ccy_pair_for_conversion symbol calculator.kind) end
    if is_empty res
        then search_others symbol calculator end (synonymous_for symbol calculator.kind)
        else pure (some res)

  -- `calcPrice` with the public trade that is found
  abbrev pub set_trx_price : Calculator → Option Priced → ConvAction (Unit {0})
  set_trx_price calculator none c = (c, ok tt)
  set_trx_price calculator (some p) c =
      let price = price_of (find_public_trade c.pub_trades p.trade.mts_create) in
      with_price calculator price
        (calc_price env.packages calculator (btc_price_of calculator.trx c.btc_prices) price p) c

  unfoldable pub price_trx : Calculator → ConvAction (Unit {0})
  price_trx calculator c = set_trx_price calculator (get_elem? c.trxs calculator.trx) c

  -- `#emitProgress` for a percent between 0 and 100, rounded down
  unfoldable pub emit_progress : ℕ → ConvAction (Unit {0})
  emit_progress total = modify (λ c.
      if ltb 0 (c.count * 100) && ltb (c.count * 100) (total * 100)
      then record c {
        progress = c.count * 100 / total;
        told = (c.count * 100 / total, obtaining_currency_prices) ∷ c.told;
      }
      else c)

  -- After the public trades are there
  unfoldable pub use_pub_trades : ℕ → String → Calculator → ℕ → ConvAction (Unit {0})
  unfolding poll price_trx emit_progress
  use_pub_trades total symbol calculator mts = do
    uncovered ← gets (is_uncovered mts)
    if uncovered then (poll >> delist symbol) else (price_trx calculator >> emit_progress total)

  abbrev pub with_pub_trades :
      ℕ → String → Calculator → ℕ → Option (List PubTrade) → ConvAction (Unit {0})
  with_pub_trades total symbol calculator mts none = pure tt
  with_pub_trades total symbol calculator mts (some pub_trades) = do
    modify (λ c. record c {
      pub_trades = pub_trades;
      pub_trade_start = last_mts pub_trades;
      pub_trade_end = some mts;
    })
    use_pub_trades total symbol calculator mts

  -- With public trades that are looked for first, or those of the transaction before
  abbrev pub search_if : Bool → ℕ → String → Calculator → ℕ → ConvAction (Unit {0})
  search_if true total symbol calculator mts =
      find_pub_trades symbol calculator mts >>= with_pub_trades total symbol calculator mts
  search_if false total symbol calculator mts = use_pub_trades total symbol calculator mts

  abbrev pub is_needed : ℕ → Conv → Bool
  is_needed mts c = is_empty c.pub_trades || is_outside c.pub_trade_start c.pub_trade_end mts

  abbrev pub convert_at : ℕ → String → Calculator → ℕ → ConvAction (Unit {0})
  convert_at total symbol calculator mts c =
      search_if (is_needed mts c) total symbol calculator mts c

  abbrev pub convert_polled : ℕ → String → Calculator → ConvAction (Unit {0})
  convert_polled total symbol calculator c =
      convert_at total symbol calculator (mts_of (get_elem? c.trxs calculator.trx)) c

  -- The body of the inner loop
  unfoldable pub convert_trx : ℕ → String → Calculator → ConvAction (Unit {0})
  unfolding poll find_pub_trades use_pub_trades
  convert_trx total symbol calculator = do
    modify (λ c. record c { count = c.count + 1 })
    poll
    convert_polled total symbol calculator

  -- The body of the outer loop
  unfoldable pub convert_ccy : ℕ → String × List Calculator → ConvAction (Unit {0})
  unfolding poll convert_trx
  convert_ccy total (symbol, calculators) = do
    poll
    modify (λ c. record c { pub_trades = []; pub_trade_start = none; pub_trade_end = none })
    for_each calculators (convert_trx total symbol)

  unfoldable pub convert_all : CcyMap × ℕ → ConvAction Colls
  unfolding convert_ccy
  convert_all (map, total) = do
    for_each map (convert_ccy total)
    modify (λ c. record c { told = (c.progress, transaction_history_generation) ∷ c.told })
    gets (λ c. update_exact_usd_value_in_colls c.trxs)

  -- What `#convertCurrencies` starts from
  abbrev pub start_conv : List Priced → List (String × List (Option ℤ)) → Conv
  start_conv trxs delisted = record {
    trxs = trxs;
    btc_prices = [];
    delisted = delisted;
    polls = 0;
    requests = 0;
    count = 0;
    progress = 0;
    told = [];
    pub_trades = [];
    pub_trade_start = none;
    pub_trade_end = none;
  }

  unfoldable pub convert_currencies :
      List Priced → List (String × List (Option ℤ)) → Conv × Result Stop Colls
  unfolding convert_all
  convert_currencies trxs delisted =
      convert_all (get_trx_map_by_ccy env.packages (map (λ p. p.trade) trxs))
        (start_conv trxs delisted)
