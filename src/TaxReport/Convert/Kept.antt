-- ===== src/TaxReport/Convert/Kept.antt =====
-- #convertCurrencies of transaction.tax.report/index.js: a calculator that is settled stays so.
use bfx_reports_framework.Base.{
  ℕ, ◌+◌, ◌≡◌, refl, ◌*◌, ltb, String, Bool, true, false, ◌&&◌, Option, none, some, List, [], ◌∷◌,
  get_elem?, if_ind, arith,
}
use bfx_reports_framework.Base.Int.{ℤ}
use bfx_reports_framework.Base.Actions.{◌>>◌}
use bfx_reports_framework.Base.ActionRules.{Keeps, if-Keeps, for_each-Keeps, >>-Keeps, All-every}
use bfx_reports_framework.TaxReport.Remap.{Priced}
use bfx_reports_framework.TaxReport.Conversion.{Calculator}
use bfx_reports_framework.TaxReport.Convert.{
  is_empty, is_uncovered, search_if, is_needed, convert_polled, mts_of, price_of, Env, Conv,
  with_price, delist, poll, get_public_trades, search_synonymous, search_others, synonymous_for,
  find_pub_trades, set_trx_price, price_trx, emit_progress, use_pub_trades, with_pub_trades,
  convert_trx, convert_ccy,
}
use bfx_reports_framework.TaxReport.Convert.Prices.{
  has_key, is_some, price_at, IsSettled, has_key-set_delisted, price_at-set_price,
  has_price-set_prices, AllSome, calc_price-AllSome, has_price-set, noted-keeps, ||-keeps,
  is_priced-keeps, is_known-set,
}
use bfx_reports_framework.Base.ActionRules.{after-Keeps}
use bfx_reports_framework.TaxReport.PublicTrade.{PubTrade, find_public_trade}

module _ (env : Env) (symbol : String) (calculator : Calculator) where
  abbrev P : Conv → Type 0
  P = IsSettled symbol calculator

  pub delist-Keeps : (key : String) → Keeps P (delist key)
  delist-Keeps key c h = ground (arith, has_key-set_delisted symbol key c.delisted, h)

  pub poll-Keeps : Keeps P (poll env)
  unfolding poll
  poll-Keeps c h = h

  get_public_trades-Keeps : (s : String) (end : ℕ) → Keeps P (get_public_trades env s end)
  unfolding get_public_trades
  get_public_trades-Keeps s end c h = h

  search_synonymous-Keeps :
      (other : Calculator) (end : ℕ) (synonymous : List (String × ℕ))
      → Keeps P (search_synonymous env other end synonymous)
  unfolding search_synonymous get_public_trades
  search_synonymous-Keeps other end [] c h = h
  search_synonymous-Keeps other end ((s, conversion) ∷ synonymous) c h =
      after-Keeps P _
        (λ _ d.
          if-Keeps P (is_empty (env.public_trades d.requests _ end)) _ _
            (λ _. search_synonymous-Keeps other end synonymous) (λ _ e k. k) _)
        _ _ (poll-Keeps c h)

  search_others-Keeps :
      (s : String) (other : Calculator) (end : ℕ) (o : Option (List (String × ℕ)))
      → Keeps P (search_others env s other end o)
  search_others-Keeps s other end none c h =
      after-Keeps P _ (λ _ d k. delist-Keeps s d k) _ _ (poll-Keeps c h)
  search_others-Keeps s other end (some synonymous) c h =
      after-Keeps P _ (λ trades d k. k) _ _ (search_synonymous-Keeps other end synonymous c h)

  find_pub_trades-Keeps :
      (s : String) (other : Calculator) (end : ℕ) → Keeps P (find_pub_trades env s other end)
  unfolding find_pub_trades get_public_trades
  find_pub_trades-Keeps s other end c h =
      if-Keeps P (is_empty (env.public_trades c.requests _ end)) _ _
        (λ _. search_others-Keeps s other end (synonymous_for env s other.kind)) (λ _ e k. k) _ h

  -- The new transaction has the price if the old one had it.
  abbrev HasToo : Priced → Priced → Type 0
  HasToo p q =
      is_some (price_at calculator.conv_price_prop p.trade) ≡ true
      → is_some (price_at calculator.conv_price_prop q.trade) ≡ true

  with_price-Keeps :
      (other : Calculator) (price : Option ℤ) (o : Option Priced) (c : Conv) (p : Priced)
      → get_elem? c.trxs other.trx ≡ some p
      → AllSome env.packages (HasToo p) o
      → P c
      → P (with_price other price o c).0
  with_price-Keeps other price none c p at_i keep h = h
  with_price-Keeps other price (some q) c p at_i keep h =
      ||-keeps (has_key symbol c.delisted) _ _
        (is_priced-keeps calculator.kind calculator c.trxs _ c.btc_prices _
          (is_known-set c.trxs other.trx calculator.trx p q _ _ at_i
            (noted-keeps other.kind other.trx calculator.trx _ c.btc_prices))
          (has_price-set calculator.conv_price_prop c.trxs other.trx calculator.trx p q at_i keep))
        h

  set_trx_price-Keeps :
      (other : Calculator) (o : Option Priced) (c : Conv)
      → get_elem? c.trxs other.trx ≡ o
      → P c
      → P (set_trx_price env other o c).0
  set_trx_price-Keeps other none c at_i h = h
  set_trx_price-Keeps other (some p) c at_i h =
      with_price-Keeps other (price_of (find_public_trade c.pub_trades p.trade.mts_create)) _ c p
        at_i
        (calc_price-AllSome env.packages (λ k q. HasToo p q) other _ _ p (λ has. has)
          (λ k x has.
            has_price-set_prices env.packages calculator.conv_price_prop other x p
              (price_at-set_price calculator.conv_price_prop other.conv_price_prop x p.trade has)))
        h

  price_trx-Keeps : (other : Calculator) → Keeps P (price_trx env other)
  unfolding price_trx
  price_trx-Keeps other c h = set_trx_price-Keeps other (get_elem? c.trxs other.trx) c refl h

  pub emit_progress-Keeps : (total : ℕ) → Keeps P (emit_progress env total)
  unfolding emit_progress
  emit_progress-Keeps total c h =
      if_ind P (ltb 0 (c.count * 100) && ltb (c.count * 100) (total * 100)) (λ _. h) (λ _. h)

  use_pub_trades-Keeps :
      (total : ℕ) (s : String) (other : Calculator) (mts : ℕ)
      → Keeps P (use_pub_trades env total s other mts)
  unfolding use_pub_trades
  use_pub_trades-Keeps total s other mts c h =
      if-Keeps P (is_uncovered mts c) (poll env >> delist s)
        (price_trx env other >> emit_progress env total)
        (λ _. >>-Keeps P (poll env) (delist s) poll-Keeps (delist-Keeps s))
        (λ _.
          >>-Keeps P (price_trx env other) (emit_progress env total) (price_trx-Keeps other)
            (emit_progress-Keeps total))
        c h

  with_pub_trades-Keeps :
      (total : ℕ) (s : String) (other : Calculator) (mts : ℕ) (o : Option (List PubTrade))
      → Keeps P (with_pub_trades env total s other mts o)
  with_pub_trades-Keeps total s other mts none c h = h
  with_pub_trades-Keeps total s other mts (some trades) c h =
      use_pub_trades-Keeps total s other mts _ h

  search_if-Keeps :
      (is_needed : Bool) (total : ℕ) (s : String) (other : Calculator) (mts : ℕ)
      → Keeps P (search_if env is_needed total s other mts)
  search_if-Keeps true total s other mts c h =
      after-Keeps P (with_pub_trades env total s other mts)
        (with_pub_trades-Keeps total s other mts) _ _ (find_pub_trades-Keeps s other mts c h)
  search_if-Keeps false total s other mts c h = use_pub_trades-Keeps total s other mts c h

  pub convert_trx-Keeps :
      (total : ℕ) (s : String) (other : Calculator) → Keeps P (convert_trx env total s other)
  unfolding convert_trx
  convert_trx-Keeps total s other c h =
      >>-Keeps P (poll env) (convert_polled env total s other) poll-Keeps
        (λ d.
          let mts = mts_of (get_elem? d.trxs other.trx) in
          search_if-Keeps (is_needed env mts d) total s other mts d)
        (record c { count = c.count + 1 }) h

  pub convert_ccy-Keeps :
      (total : ℕ) (entry : String × List Calculator) → Keeps P (convert_ccy env total entry)
  unfolding convert_ccy
  convert_ccy-Keeps total (s, calculators) c h =
      after-Keeps P _
        (λ _ d.
          for_each-Keeps P (convert_trx env total s) calculators
            (All-every _ calculators (convert_trx-Keeps total s)) _)
        _ _ (poll-Keeps c h)
