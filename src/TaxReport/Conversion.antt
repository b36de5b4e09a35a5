-- ===== src/TaxReport/Conversion.antt =====
-- get-trx-map-by-ccy.js, trx.price.calculator.js, get-ccy-pair-for-conversion.js and
-- priority.currency.list.js: which prices are looked for, and what a price is for.
pub mod Grouped
mod Samples
use Prim.Native.Char.{code}
use Prim.Native.String.{◌++◌ as str_append}
use bfx_reports_framework.Base.{
  ℕ, zero, suc, ◌+◌, leb, ltb, ◌==◌, String, str_eq, Bool, true, false, not, ◌&&◌, ◌||◌, Option,
  none, some, List, [], ◌∷◌, ◌++◌, length, if◌then◌else◌,
}
use bfx_reports_framework.Base.Int.{ℤ, pos, negsuc}
use bfx_reports_framework.TaxReport.Trades.{Trade, Packages, value_or_zero}
use bfx_reports_framework.TaxReport.Remap.{Priced, is_number, is_longer_than_three}

-- The property of a trade that a calculator reads or sets
pub data PriceProp : Type 0 where
  first_symb_price last_symb_price : PriceProp

pub data Kind : Type 0 where
  crypto_ccy_for_triangulation forex_ccy_for_triangulation : Kind

-- A TrxPriceCalculator. `trx` is the index of its transaction; the calculator for triangulation that a
-- forex calculator has is the one for BTC of the same transaction.
pub record Calculator : Type 0 where
  pub trx : ℕ
  pub conv_price_prop : PriceProp
  pub calc_price_prop : PriceProp
  pub kind : Option Kind

abbrev pub CcyMap : Type 0
CcyMap = List (String × List Calculator)

abbrev pub btc : String
btc = "BTC"

-- `replace(/F0$/i, '')`
unfoldable pub normalize_symb : String → String
normalize_symb String.[] = ""
normalize_symb (String.◌∷◌ f String.[]) = String.◌∷◌ f String.[]
normalize_symb (String.◌∷◌ f (String.◌∷◌ o String.[])) =
    if (code f == b'F' || code f == b'f') && code o == b'0'
    then ""
    else String.◌∷◌ f (String.◌∷◌ o String.[])
normalize_symb (String.◌∷◌ f (String.◌∷◌ o (String.◌∷◌ p symb))) =
    String.◌∷◌ f (normalize_symb (String.◌∷◌ o (String.◌∷◌ p symb)))

-- `indexOf` in the priority list, `none` for -1
abbrev pub priority_of : String → Option ℕ
priority_of symb =
    if str_eq symb "BTC"
    then some 0
    else if str_eq symb "ETH"
    then some 1
    else if str_eq symb "UST"
    then some 2
    else none

-- Whether the first index is in the list, and the second is not or not before it
abbrev pub is_preferred : Option ℕ → Option ℕ → Bool
is_preferred none other = false
is_preferred (some i) none = true
is_preferred (some i) (some j) = leb i j

abbrev pub for_first : ℕ → Option Kind → Calculator
for_first i kind = record {
  trx = i;
  conv_price_prop = first_symb_price;
  calc_price_prop = last_symb_price;
  kind = kind;
}

abbrev pub for_last : ℕ → Calculator
for_last i = record {
  trx = i;
  conv_price_prop = last_symb_price;
  calc_price_prop = first_symb_price;
  kind = none;
}

module _ (packages : Packages) where
  -- What the body of the loop gives to `setCcyCalculator`, in this order
  unfoldable pub calculators_of : ℕ → Trade → List (String × Calculator)
  unfolding normalize_symb
  calculators_of i trx =
      let first_symb = normalize_symb trx.first_symb in
      let last_symb = normalize_symb trx.last_symb in
      let is_first_forex = packages.is_forex_symb trx.first_symb in
      let prior_first = priority_of first_symb in
      let prior_last = priority_of last_symb in
      if is_first_forex && str_eq last_symb "USD"
      then ((btc, for_first i (some crypto_ccy_for_triangulation))
          ∷ (first_symb, for_first i (some forex_ccy_for_triangulation))
          ∷ [])
      else if is_first_forex
      then (last_symb, for_last i) ∷ []
      else if packages.is_forex_symb trx.last_symb
      then (first_symb, for_first i none) ∷ []
      else if is_preferred prior_first prior_last
      then (first_symb, for_first i none) ∷ []
      else if is_preferred prior_last prior_first
      then (last_symb, for_last i) ∷ []
      else (first_symb, for_first i none) ∷ []

-- `setCcyCalculator` on a Map, which keeps the order in which its keys came
unfoldable pub set_ccy_calculator : CcyMap → String → Calculator → CcyMap
set_ccy_calculator [] symb calculator = (symb, calculator ∷ []) ∷ []
set_ccy_calculator ((key, calculators) ∷ map) symb calculator =
    if str_eq key symb
    then (key, calculators ++ (calculator ∷ [])) ∷ map
    else (key, calculators) ∷ set_ccy_calculator map symb calculator

unfoldable pub set_all : CcyMap → List (String × Calculator) → CcyMap
unfolding set_ccy_calculator
set_all map [] = map
set_all map ((symb, calculator) ∷ pairs) = set_all (set_ccy_calculator map symb calculator) pairs

abbrev pub find_ccy : String → CcyMap → Option (List Calculator)
find_ccy symb [] = none
find_ccy symb ((key, calculators) ∷ map) =
    if str_eq key symb then some calculators else find_ccy symb map

-- `delete` of a Map
abbrev pub without_ccy : String → CcyMap → CcyMap
without_ccy symb [] = []
without_ccy symb ((key, calculators) ∷ map) =
    if str_eq key symb then map else (key, calculators) ∷ without_ccy symb map

-- `calcTotalTrxAmount`
abbrev pub calc_total_trx_amount : CcyMap → ℕ
calc_total_trx_amount [] = 0
calc_total_trx_amount ((key, calculators) ∷ map) = length calculators + calc_total_trx_amount map

abbrev pub with_btc_first : CcyMap → Option (List Calculator) → CcyMap
with_btc_first map none = map
with_btc_first map (some calculators) = (btc, calculators) ∷ without_ccy btc map

-- `placeTriangulationCcyAtStart`
unfoldable pub place_triangulation_ccy_at_start : CcyMap → CcyMap × ℕ
place_triangulation_ccy_at_start map =
    let placed = with_btc_first map (find_ccy btc map) in (placed, calc_total_trx_amount placed)

module _ (packages : Packages) where
  -- The loop of `getTrxMapByCcy`, from the transaction with the index `i` on
  unfoldable pub collect_calculators : ℕ → List Trade → CcyMap → CcyMap
  unfolding calculators_of set_all
  collect_calculators i [] map = map
  collect_calculators i (trx ∷ trxs) map =
      collect_calculators (i + 1) trxs (set_all map (calculators_of packages i trx))

  unfoldable pub get_trx_map_by_ccy : List Trade → CcyMap × ℕ
  unfolding collect_calculators place_triangulation_ccy_at_start
  get_trx_map_by_ccy trxs = place_triangulation_ccy_at_start (collect_calculators 0 trxs [])

-- `getCcyPairForConversion`. The second test of the source compares the text BTC with 3, which is
-- false.
unfoldable pub get_ccy_pair_for_conversion : String → Option Kind → String
get_ccy_pair_for_conversion symb (some forex_ccy_for_triangulation) =
    if is_longer_than_three symb then str_append "tBTC:" symb else str_append "tBTC" symb
get_ccy_pair_for_conversion symb kind =
    str_append "t" (str_append symb (if is_longer_than_three symb then ":USD" else "USD"))

abbrev pub set_price : PriceProp → Option ℤ → Trade → Trade
set_price first_symb_price price trade = record trade { first_symb_price_usd = price }
set_price last_symb_price price trade = record trade { last_symb_price_usd = price }

module _ (packages : Packages) where
  abbrev pub set_conv_price : Calculator → ℤ → Priced → Priced
  set_conv_price calculator price p =
      let trade = set_price calculator.conv_price_prop (some price) p.trade in
      record p {
        trade =
            if trade.is_additional_trx_movements
            then record trade { exec_price = some price }
            else trade;
      }

  abbrev pub set_calc_price : PriceProp → ℤ → Priced → Priced
  set_calc_price first_symb_price price p =
      let price_usd = packages.times price (value_or_zero p.trade.exec_price) in
      record p {
        trade = set_price first_symb_price (some price_usd) p.trade;
        exact_usd_value = some (packages.times (value_or_zero p.trade.exec_amount) price_usd);
      }
  set_calc_price last_symb_price price p = record p {
    trade =
        set_price last_symb_price (some (packages.div price (value_or_zero p.trade.exec_price)))
          p.trade;
    exact_usd_value = some (packages.times (value_or_zero p.trade.exec_amount) price);
  }

  abbrev pub set_prices : Calculator → ℤ → Priced → Priced
  set_prices calculator price p =
      let converted = set_conv_price calculator price p in
      if is_number converted.trade.exec_price
      then set_calc_price calculator.calc_price_prop price converted
      else converted

  -- `calcPrice`, for a price that a public trade has or not: `none` is the
  -- PubTradePriceFindForTrxTaxError. `btc_price` is the price of the calculator for triangulation.
  unfoldable pub calc_price : Calculator → Option ℤ → Option ℤ → Priced → Option Priced
  calc_price calculator btc_price pub_trade_price p =
      if not (is_number pub_trade_price) then none else elim calculator.kind [
        | none ↦ some (set_prices calculator (value_or_zero pub_trade_price) p)
        | some crypto_ccy_for_triangulation ↦ some p
        | some forex_ccy_for_triangulation ↦
            (if is_number btc_price
              then some (
                  set_prices calculator
                    (packages.div (value_or_zero btc_price) (value_or_zero pub_trade_price)) p)
              else none)
      ]
