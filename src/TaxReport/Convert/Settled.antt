-- ===== src/TaxReport/Convert/Settled.antt =====
-- #convertCurrencies of transaction.tax.report/index.js: what becomes of each calculator.
use text.Mathlib.TextEquality.{eq_iff}
use bfx_reports_framework.Base.{
  ℕ, ◌+◌, ◌≡◌, refl, ap, subst, ◌∙◌, String, Bool, true, false, ◌||◌, Option, none, some, List, [],
  ◌∷◌, map, get_elem?, set, get_elem?-set_self, All, if_ind, arith,
}
use bfx_reports_framework.Base.Int.{ℤ}
use bfx_reports_framework.Base.Actions.{Action, Result, ok, gets, modify, for_each, ◌>>◌}
use bfx_reports_framework.Base.ActionRules.{Keeps}
use bfx_reports_framework.Base.Ensures.{
  OnOk, Ensures, if-Ensures, >>=-Ensures, >>=-Ensures_kept, for_each-Ensures,
}
use bfx_reports_framework.TaxReport.Trades.{value_or_zero}
use bfx_reports_framework.TaxReport.Remap.{Priced}
use bfx_reports_framework.TaxReport.Conversion.{
  Kind, crypto_ccy_for_triangulation, forex_ccy_for_triangulation, Calculator, CcyMap,
  get_trx_map_by_ccy, set_prices,
}
use bfx_reports_framework.TaxReport.Convert.{
  is_empty, is_uncovered, search_if, is_needed, convert_polled, mts_of, price_of, Env, Conv,
  ConvAction, Stop, btc_price_of, noted, with_price, delist, poll, get_public_trades,
  search_synonymous, search_others, synonymous_for, find_pub_trades, set_trx_price, price_trx,
  emit_progress, use_pub_trades, with_pub_trades, convert_trx, convert_ccy, convert_all, start_conv,
  convert_currencies,
}
use bfx_reports_framework.TaxReport.Convert.Prices.{
  has_key, is_some, price_at, has_price, is_priced, IsSettled, has_key-set_delisted, price_at-own,
  has_price-set_prices, AllSome, calc_price-AllSome, is_known,
}
use bfx_reports_framework.Base.ActionRules.{after-ends}
use bfx_reports_framework.TaxReport.PublicTrade.{PubTrade, find_public_trade}
use bfx_reports_framework.TaxReport.Convert.Kept.{
  emit_progress-Keeps, convert_ccy-Keeps, convert_trx-Keeps,
}
use bfx_reports_framework.TaxReport.Convert.{transaction_history_generation}
use bfx_reports_framework.TaxReport.Stored.{Colls, update_exact_usd_value_in_colls}

module _ (env : Env) (symbol : String) (calculator : Calculator) where
  abbrev P : Conv → Type 0
  P = IsSettled symbol calculator

  -- The calculator's own turn
  delist-Ensures : Ensures P (delist symbol)
  delist-Ensures = record {
    at = λ c. ground (arith, has_key-set_delisted symbol symbol c.delisted, eq_iff symbol symbol);
  }

  abbrev HasOwn : Option Kind → Priced → Type 0
  HasOwn (some crypto_ccy_for_triangulation) q = Unit
  HasOwn _ q = is_some (price_at calculator.conv_price_prop q.trade) ≡ true

  set_prices-HasOwn :
      (k : Option Kind) (x : ℤ) (p : Priced) → HasOwn k (set_prices env.packages calculator x p)
  set_prices-HasOwn none x p =
      has_price-set_prices env.packages calculator.conv_price_prop calculator x p
        (price_at-own calculator.conv_price_prop x p.trade)
  set_prices-HasOwn (some crypto_ccy_for_triangulation) x p = tt
  set_prices-HasOwn (some forex_ccy_for_triangulation) x p =
      has_price-set_prices env.packages calculator.conv_price_prop calculator x p
        (price_at-own calculator.conv_price_prop x p.trade)

  is_priced_of :
      (k : Option Kind) (x : ℤ) (trxs : List Priced) (btc : List (ℕ × ℤ)) (p q : Priced)
      → get_elem? trxs calculator.trx ≡ some p
      → HasOwn k q
      → is_priced k calculator (set trxs calculator.trx q) (noted k calculator.trx x btc) ≡ true
  is_priced_of none x trxs btc p q at_i own =
      ap (has_price calculator.conv_price_prop) (get_elem?-set_self trxs calculator.trx q p at_i)
      ∙ own
  is_priced_of (some crypto_ccy_for_triangulation) x trxs btc p q at_i own =
      ap (λ o. is_known o (btc_price_of calculator.trx ((calculator.trx, x) ∷ btc)))
        (get_elem?-set_self trxs calculator.trx q p at_i)
      ∙ ground arith
  is_priced_of (some forex_ccy_for_triangulation) x trxs btc p q at_i own =
      ap (has_price calculator.conv_price_prop) (get_elem?-set_self trxs calculator.trx q p at_i)
      ∙ own

  ||-right : (a b : Bool) → b ≡ true → (a || b) ≡ true
  ||-right a b h = ground arith

  with_price-Ensures :
      (price : Option ℤ) (o : Option Priced) (c : Conv) (p : Priced)
      → get_elem? c.trxs calculator.trx ≡ some p
      → AllSome env.packages (HasOwn calculator.kind) o
      → OnOk P (with_price calculator price o c).0 (with_price calculator price o c).1
  with_price-Ensures price none c p at_i own = tt
  with_price-Ensures price (some q) c p at_i own =
      ||-right (has_key symbol c.delisted) _
        (is_priced_of calculator.kind (value_or_zero price) c.trxs c.btc_prices p q at_i own)

  is_priced-none :
      (k : Option Kind) (trxs : List Priced) (btc : List (ℕ × ℤ))
      → get_elem? trxs calculator.trx ≡ none
      → is_priced k calculator trxs btc ≡ true
  is_priced-none none trxs btc at = ap (has_price calculator.conv_price_prop) at
  is_priced-none (some crypto_ccy_for_triangulation) trxs btc at =
      ap (λ o. is_known o (btc_price_of calculator.trx btc)) at
  is_priced-none (some forex_ccy_for_triangulation) trxs btc at =
      ap (has_price calculator.conv_price_prop) at

  set_trx_price-Ensures :
      (o : Option Priced) (c : Conv)
      → get_elem? c.trxs calculator.trx ≡ o
      → OnOk P (set_trx_price env calculator o c).0 (set_trx_price env calculator o c).1
  set_trx_price-Ensures none c at =
      ||-right (has_key symbol c.delisted) _ (is_priced-none calculator.kind c.trxs c.btc_prices at)
  set_trx_price-Ensures (some p) c at =
      with_price-Ensures (price_of (find_public_trade c.pub_trades p.trade.mts_create)) _ c p at (
        calc_price-AllSome env.packages HasOwn calculator _ _ p tt (λ k x. set_prices-HasOwn k x p))

  price_trx-Ensures : Ensures P (price_trx env calculator)
  unfolding price_trx
  price_trx-Ensures = record {
    at = λ c. set_trx_price-Ensures (get_elem? c.trxs calculator.trx) c refl;
  }

  use_pub_trades-Ensures :
      (total mts : ℕ) → Ensures P (use_pub_trades env total symbol calculator mts)
  unfolding use_pub_trades
  use_pub_trades-Ensures total mts = record {
    at = λ c.
        (if-Ensures P (is_uncovered mts c) (poll env >> delist symbol)
            (price_trx env calculator >> emit_progress env total)
            (>>=-Ensures P (poll env) (λ _. delist symbol) (λ _. delist-Ensures))
            (>>=-Ensures_kept P (price_trx env calculator) (λ _. emit_progress env total)
              price_trx-Ensures (λ _. emit_progress-Keeps env symbol calculator total))).at
          c;
  }

  -- No trades are found, and the currency is delisted, or some are.
  abbrev Searched : Conv → Result Stop (Option (List PubTrade)) → Type 0
  Searched c (ok none) = P c
  Searched c _ = Unit

  search_others-Searched :
      (end : ℕ) (o : Option (List (String × ℕ))) (c : Conv)
      → Searched
          (search_others env symbol calculator end o c).0
          (search_others env symbol calculator end o c).1
  search_others-Searched end none c =
      after-ends (λ d r. Unit {0}) Searched _ (λ _ d _. delist-Ensures.at d) (λ e d _. tt) _
        (poll env c).1 tt
  search_others-Searched end (some synonymous) c =
      after-ends (λ d r. Unit {0}) Searched _ (λ trades d _. tt) (λ e d _. tt) _
        (search_synonymous env calculator end synonymous c).1 tt

  find_pub_trades-Searched :
      (end : ℕ) (c : Conv)
      → Searched
          (find_pub_trades env symbol calculator end c).0
          (find_pub_trades env symbol calculator end c).1
  unfolding find_pub_trades get_public_trades
  find_pub_trades-Searched end c =
      if_ind (λ (m : ConvAction (Option (List PubTrade))). (d : Conv) → Searched (m d).0 (m d).1)
        (is_empty (env.public_trades c.requests _ end))
        (λ _. search_others-Searched end (synonymous_for env symbol calculator.kind)) (λ _ d. tt) _

  with_pub_trades-Ensures :
      (total mts : ℕ) (o : Option (List PubTrade)) (c : Conv)
      → Searched c (ok o)
      → OnOk P
          (with_pub_trades env total symbol calculator mts o c).0
          (with_pub_trades env total symbol calculator mts o c).1
  with_pub_trades-Ensures total mts none c h = h
  with_pub_trades-Ensures total mts (some trades) c h = (use_pub_trades-Ensures total mts).at _

  search_if-Ensures :
      (is_needed : Bool) (total mts : ℕ)
      → Ensures P (search_if env is_needed total symbol calculator mts)
  search_if-Ensures true total mts = record {
    at = λ c.
        after-ends Searched (OnOk P) (with_pub_trades env total symbol calculator mts)
          (with_pub_trades-Ensures total mts) (λ e d _. tt) _ _ (find_pub_trades-Searched mts c);
  }
  search_if-Ensures false total mts = use_pub_trades-Ensures total mts

  convert_trx-Ensures : (total : ℕ) → Ensures P (convert_trx env total symbol calculator)
  unfolding convert_trx
  convert_trx-Ensures total = record {
    at = λ c.
        (>>=-Ensures P (poll env) (λ _. convert_polled env total symbol calculator)
            (λ _. record {
              at = λ d.
                  let mts = mts_of (get_elem? d.trxs calculator.trx) in
                  (search_if-Ensures (is_needed env mts d) total mts).at d;
            })).at
          (record c { count = c.count + 1 });
  }

-- The calculators of a currency
abbrev pub AreSettled : String × List Calculator → Conv → Type 0
AreSettled (symbol, calculators) c = All (λ calculator. IsSettled symbol calculator c) calculators

All-Keeps :
    {S E A B : Type 0} (P : A → S → Type 0) (m : Action S E B)
    → ((a : A) → Keeps (P a) m)
    → (xs : List A) → Keeps (λ s. All (λ a. P a s) xs) m
All-Keeps P m keep [] s h = tt
All-Keeps P m keep (x ∷ xs) s h = (keep x s h.0, All-Keeps P m keep xs s h.1)

module _ (env : Env) where
  convert_ccy-Ensures :
      (total : ℕ) (entry : String × List Calculator)
      → Ensures (AreSettled entry) (convert_ccy env total entry)
  unfolding convert_ccy
  convert_ccy-Ensures total (symbol, calculators) = record {
    at = λ c.
        (>>=-Ensures (AreSettled (symbol, calculators)) (poll env)
            (λ _.
              modify
                (λ d. record d { pub_trades = []; pub_trade_start = none; pub_trade_end = none })
              >> for_each calculators (convert_trx env total symbol))
            (λ _. record {
              at = λ d.
                  (for_each-Ensures (IsSettled symbol) (convert_trx env total symbol)
                      (λ calculator. convert_trx-Ensures env symbol calculator total)
                      (λ calculator other.
                        convert_trx-Keeps env symbol calculator total symbol other)
                      calculators).at
                    (record d { pub_trades = []; pub_trade_start = none; pub_trade_end = none });
            })).at
          c;
  }

  convert_all-Ensures :
      (map : CcyMap) (total : ℕ)
      → Ensures (λ c. All (λ entry. AreSettled entry c) map) (convert_all env (map, total))
  unfolding convert_all
  convert_all-Ensures map total = record {
    at = λ c.
        (>>=-Ensures_kept (λ d. All (λ entry. AreSettled entry d) map)
            (for_each map (convert_ccy env total))
            (λ _.
              modify
                (λ d. record d { told = (d.progress, transaction_history_generation) ∷ d.told })
              >> gets (λ d. update_exact_usd_value_in_colls d.trxs))
            (for_each-Ensures AreSettled (convert_ccy env total) (convert_ccy-Ensures total)
              (λ (symbol, calculators) other.
                All-Keeps (IsSettled symbol) (convert_ccy env total other)
                  (λ calculator. convert_ccy-Keeps env symbol calculator total other) calculators)
              map)
            (λ _ d h. h)).at
          c;
  }

-- A conversion that is not interrupted and in which calcPrice does not throw leaves no transaction
-- without an answer: for each calculator of the map by currency the currency is in the list of the
-- delisted ones, or its transaction, where it is in the list, has the price that the calculator is to
-- set, or, for a calculator for triangulation, the price of BTC is known.
pub convert_currencies-AreSettled :
    (env : Env) (trxs : List Priced) (delisted : List (String × List (Option ℤ))) (colls : Colls)
    → let (c, result) = convert_currencies env trxs delisted in
      result ≡ ok colls
      → All
          (λ entry. AreSettled entry c)
          (get_trx_map_by_ccy env.packages (map (λ p. p.trade) trxs)).0
unfolding convert_currencies
convert_currencies-AreSettled env trxs delisted colls h =
    let (map, total) = get_trx_map_by_ccy env.packages (map (λ p. p.trade) trxs) in
    let start = start_conv env trxs delisted in
    subst (OnOk (λ c. All (λ entry. AreSettled entry c) map) (convert_all env (map, total) start).0)
      h ((convert_all-Ensures env map total).at start)
