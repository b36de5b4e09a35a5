-- ===== src/TaxReport/LookUp/Sales.antt =====
-- The rule for the whole search of look-up-trades.js: over all sales, and for every way it ends.
use bfx_reports_framework.Base.{
  ℕ, String, ◌≡◌, refl, Bool, true, not, ◌||◌, Option, none, some, List, [], ◌∷◌, if_ind, arith,
  length, get_elem?, ◌∙◌, set, get_elem?-set_self, sym, subst,
}
use mathlib.Core.Option.{some-injective}
use bfx_reports_framework.Base.Int.{ℤ}
use bfx_reports_framework.TaxReport.Trades.{
  Trade, Packages, Opts, is_text, get_trx_fee_usd, set_delisted_ccy_to_map,
}
use bfx_reports_framework.TaxReport.Matching.{
  is_considered, with_symbs, classify, sale_amount_of, sale_price_of, sale_asset_of,
}
use bfx_reports_framework.TaxReport.Matching.Amounts.{
  Quiet, sale_amount_of-SameAmounts, classify-Quiet,
}
use bfx_reports_framework.TaxReport.Purchases.{
  Look, Flow, next, leave, quit, throw, put, polled, inner_loop, inner_points, outer_points,
}
use bfx_reports_framework.TaxReport.Realized.{flag_unrealized}
use bfx_reports_framework.TaxReport.LookUp.{
  close_sale, after_sale, look_up_sale, outer_body, outer_loop, LookUpResult, found,
  currency_pair_separation_error, collect, look_up_trades, result_of,
}
use bfx_reports_framework.TaxReport.Purchases.Rule.{Kept, OnFlow, on_next, All-inner_points}
use bfx_reports_framework.TaxReport.Purchases.Searching.{Searching, inner_loop-Searching}

abbrev classified : Packages → Trade → Trade
classified packages t = classify packages (with_symbs packages t)

-- Fields that no sum depends on.
module _ (t : Trade) where
  no_price-Quiet : Quiet t (record t { no_price_usd = true })
  no_price-Quiet = record {
    amounts = record { amount = refl; price = refl };
    sale = record { filled = refl; flag = refl };
    buy = record { filled = refl; flag = refl };
  }

  fees-Quiet : (x : ℤ) → Quiet t (record t { cumulative_trx_fees_usd = x })
  fees-Quiet x = record {
    amounts = record { amount = refl; price = refl };
    sale = record { filled = refl; flag = refl };
    buy = record { filled = refl; flag = refl };
  }

  close_sale-Quiet :
      (packages : Packages) (asset : String) (amount price : ℤ) (trades : List Trade)
      → Quiet t (close_sale packages asset amount price trades t)
  unfolding close_sale
  close_sale-Quiet packages asset amount price trades = record {
    amounts = record { amount = refl; price = refl };
    sale = record { filled = refl; flag = refl };
    buy = record { filled = refl; flag = refl };
  }

  flag_unrealized-Quiet : (opts : Opts) → Quiet t (flag_unrealized opts t)
  unfolding flag_unrealized
  flag_unrealized-Quiet opts = ground arith

Quiet-trans : {a b c : Trade} → Quiet a b → Quiet b c → Quiet a c
Quiet-trans p q = record {
  amounts = record {
    amount = q.amounts.amount ∙ p.amounts.amount;
    price = q.amounts.price ∙ p.amounts.price;
  };
  sale = record { filled = q.sale.filled ∙ p.sale.filled; flag = q.sale.flag ∙ p.sale.flag };
  buy = record { filled = q.buy.filled ∙ p.buy.filled; flag = q.buy.flag ∙ p.buy.flag };
}

-- The trades as the search leaves them, whichever way it ends.
abbrev pub trades_after : LookUpResult → List Trade
trades_after (found f look) = look.trades
trades_after (currency_pair_separation_error symbol look) = look.trades

module _ (packages : Packages) (opts : Opts) (interrupted : ℕ → Bool) (I : List Trade → Type 0)
    (kept : Kept packages I) where
  abbrev Inv : Look → Type 0
  Inv look = I look.trades

  flow_then :
      (k : Look → Flow)
      → ((look : Look) → Inv look → OnFlow Inv (k look))
      → (f : Flow) → OnFlow Inv f
      → OnFlow Inv (elim f [
        | next look' ↦ k look'
        | leave look' ↦ k look'
        | quit look' ↦ quit look'
        | throw symbol look' ↦ throw symbol look'
      ])
  unfolding OnFlow
  flow_then k h (next look) p = h look p
  flow_then k h (leave look) p = h look p
  flow_then k h (quit look) p = p
  flow_then k h (throw symbol look) p = p

  after_sale-Inv :
      (i : ℕ) (asset : String) (amount price : ℤ) (f : Flow)
      → OnFlow (Searching packages opts interrupted I kept i amount) f
      → OnFlow Inv (after_sale packages opts interrupted i asset amount price f)
  unfolding after_sale OnFlow put
  after_sale-Inv i asset amount price (next look) h = go (get_elem? look.trades i) refl
    where
      go :
          (o : Option Trade)
          → get_elem? look.trades i ≡ o
          → OnFlow Inv (elim o [
            | none ↦ next look
            | some trade ↦
                next (put i (close_sale packages asset amount price look.trades trade) look)
          ])
      go none e = h.0
      go (some t) e =
          kept.quiet look.trades i t _ e
            (close_sale-Quiet t packages asset amount price look.trades) h.0
  after_sale-Inv i asset amount price (leave look) h = h.0
  after_sale-Inv i asset amount price (quit look) h = h.0
  after_sale-Inv i asset amount price (throw symbol look) h = h.0

  -- `t` is the trade at `i` after `isSaleTrx` and the currencies are set.
  look_up_sale-Inv :
      (i : ℕ) (trade t : Trade) (look : Look)
      → get_elem? look.trades i ≡ some trade
      → Quiet trade t
      → Inv look
      → OnFlow Inv (look_up_sale packages opts interrupted i t look)
  unfolding look_up_sale put
  look_up_sale-Inv i trade t look e q inv = go (sale_price_of opts t)
    where
      fees : ℤ
      fees = get_trx_fee_usd packages opts t

      searching :
          Searching packages opts interrupted I kept i
            (sale_amount_of packages t)
            (put i (record t { cumulative_trx_fees_usd = fees }) look)
      searching = (
        kept.quiet look.trades i trade _ e (Quiet-trans q (fees-Quiet t fees)) inv,
        λ u h.
            subst (λ x. sale_amount_of packages x ≡ sale_amount_of packages t)
              (some-injective _ u (sym (get_elem?-set_self look.trades i _ trade e) ∙ h))
              (sale_amount_of-SameAmounts packages (fees-Quiet t fees).amounts),
      )

      go :
          (o : Option ℤ)
          → OnFlow Inv (elim o [
            | none ↦ next (
                put i
                  (record t { no_price_usd = true })
                  (record look {
                    delisted = set_delisted_ccy_to_map (sale_asset_of t) none look.delisted;
                  }))
            | some sale_price ↦
                after_sale packages opts interrupted i
                  (sale_asset_of t)
                  (sale_amount_of packages t)
                  sale_price
                  (inner_loop packages opts interrupted i
                    (sale_asset_of t)
                    (sale_amount_of packages t)
                    sale_price
                    (inner_points opts (length look.trades) i)
                    (put i
                      (record t { cumulative_trx_fees_usd = get_trx_fee_usd packages opts t })
                      look))
          ])
      go none =
          on_next Inv _ (kept.quiet look.trades i trade _ e (Quiet-trans q (no_price-Quiet t)) inv)
      go (some price) = after_sale-Inv i (sale_asset_of t) (sale_amount_of packages t) price _ (
          inner_loop-Searching packages opts interrupted I kept i (sale_amount_of packages t)
            (sale_asset_of t) price (inner_points opts (length look.trades) i) _
            (All-inner_points opts (length look.trades) i) searching)

  outer_body-Inv :
      (i : ℕ) (o : Option Trade) (look : Look)
      → get_elem? look.trades i ≡ o
      → Inv look
      → OnFlow Inv (outer_body packages opts interrupted i o look)
  unfolding outer_body polled put OnFlow
  outer_body-Inv i none look e inv = inv
  outer_body-Inv i (some trade) look e inv =
      if_ind (OnFlow Inv) (interrupted look.polls) (λ _. inv)
        (λ _.
          if_ind (OnFlow Inv) (not (is_considered opts trade)) (λ _. inv)
            (λ _.
              if_ind (OnFlow Inv)
                (not (classified packages trade).is_sale_trx
                  || (classified packages trade).is_prev_period)
                {x = next (put i (classified packages trade) (polled look))} (λ _. quietly)
                (λ _.
                  if_ind (OnFlow Inv)
                    (not (is_text (classified packages trade).first_symb)
                      || not (is_text (classified packages trade).last_symb))
                    {x = throw (classified packages trade).symbol
                      (put i (classified packages trade) (polled look))}
                    {y = look_up_sale packages opts interrupted i (classified packages trade)
                      (polled look)}
                    (λ _. quietly)
                    (λ _.
                      look_up_sale-Inv i trade (classified packages trade) (polled look) e
                        (classify-Quiet packages trade) inv))))
    where
      quietly : I (set look.trades i (classified packages trade))
      quietly = kept.quiet look.trades i trade _ e (classify-Quiet packages trade) inv

  outer_loop-Inv :
      (points : List ℕ) (look : Look)
      → Inv look
      → OnFlow Inv (outer_loop packages opts interrupted points look)
  unfolding outer_loop
  outer_loop-Inv [] look inv = on_next Inv look inv
  outer_loop-Inv (i ∷ points) look inv =
      flow_then (outer_loop packages opts interrupted points)
        (λ look' h. outer_loop-Inv points look' h)
        (outer_body packages opts interrupted i (get_elem? look.trades i) look)
        (outer_body-Inv i (get_elem? look.trades i) look refl inv)

  result_of-Inv : (f : Flow) → OnFlow Inv f → I (trades_after (result_of packages opts f))
  unfolding OnFlow collect
  result_of-Inv (next look) h =
      kept.mapped look.trades (flag_unrealized opts) (λ t. flag_unrealized-Quiet t opts) h
  result_of-Inv (leave look) h =
      kept.mapped look.trades (flag_unrealized opts) (λ t. flag_unrealized-Quiet t opts) h
  result_of-Inv (quit look) h = h
  result_of-Inv (throw symbol look) h = h

  pub look_up_trades-Kept :
      (look : Look)
      → I look.trades
      → I (trades_after (look_up_trades packages opts interrupted look))
  unfolding look_up_trades
  look_up_trades-Kept look inv =
      result_of-Inv _ (outer_loop-Inv (outer_points opts (length look.trades)) look inv)
