-- ===== src/TaxReport/Purchases/Searching.antt =====
-- look-up-trades.js, the search of the purchases for one sale: what a rule keeps, its loop keeps.
use bfx_reports_framework.Base.{
  ℕ, ◌<◌, String, ◌≡◌, refl, subst, ◌∙◌, sym, Bool, true, false, not, ◌||◌, Option, none, some,
  List, [], ◌∷◌, ◌++◌, str_eq, arith, if_ind, get_elem?, set, All, get_elem?-set_self,
  get_elem?-set_ne,
}
use mathlib.Core.Option.{some-injective}
use bfx_reports_framework.Base.Int.{ℤ}
use bfx_reports_framework.TaxReport.Trades.{Trade, Packages, Opts, is_text, set_delisted_ccy_to_map}
use bfx_reports_framework.TaxReport.Matching.{
  is_considered, with_symbs, sale_amount_of, buy_amount_of, buy_price_of, buy_asset_of,
  is_no_purchase, fill, close_purchase,
}
use bfx_reports_framework.TaxReport.Matching.Amounts.{
  SameAmounts, Quiet, sale_amount_of-SameAmounts, Moves-after, Moves-before, fill_with-Moves,
  buy_amount_of-SameAmounts, close_purchase-Quiet,
}
use bfx_reports_framework.TaxReport.Purchases.{
  Look, Flow, next, put, put_both, polled, use_purchase, look_up_purchase, look_up_at, inner_body,
  inner_loop,
}
use bfx_reports_framework.TaxReport.Purchases.Rule.{
  Kept, OnFlow, on_next, on_throw, OnFlow-then, with_symbs-Quiet, bought, bought-Quiet,
  ||-false_left,
}

module _ (packages : Packages) (opts : Opts) (interrupted : ℕ → Bool) (I : List Trade → Type 0)
    (kept : Kept packages I) where
  -- While sale `i` searches, its amount is the one it started with.
  abbrev pub Searching : ℕ → ℤ → Look → Type 0
  Searching i sale_amount look =
      I look.trades
      × ((t : Trade) → get_elem? look.trades i ≡ some t → sale_amount_of packages t ≡ sale_amount)

  module _ (i : ℕ) (sale_amount : ℤ) where
    abbrev S : Flow → Type 0
    S = OnFlow (Searching i sale_amount)

    Searching-other :
        (j : ℕ) (look : Look) (l l' : Trade)
        → i < j
        → get_elem? look.trades j ≡ some l
        → Quiet l l'
        → Searching i sale_amount look
        → Searching i sale_amount (put j l' look)
    unfolding put
    Searching-other j look l l' lt at_j q (inv, amount) = (
      kept.quiet look.trades j l l' at_j q inv,
      λ t e. amount t (sym (get_elem?-set_ne look.trades j i l' (λ p. omega (arith, p, lt))) ∙ e),
    )

    get_i-put_both :
        (j : ℕ) (look : Look) (t t' l' u : Trade)
        → i < j
        → get_elem? look.trades i ≡ some t
        → get_elem? (set (set look.trades i t') j l') i ≡ some u
        → t' ≡ u
    get_i-put_both j look t t' l' u lt at_i e = some-injective t' u (
        sym (get_elem?-set_self look.trades i t' t at_i)
        ∙ sym (get_elem?-set_ne (set look.trades i t') j i l' (λ p. omega (arith, p, lt)))
        ∙ e)

    Searching-both :
        (j : ℕ) (look : Look) (t l t' l' : Trade)
        → i < j
        → get_elem? look.trades i ≡ some t
        → get_elem? look.trades j ≡ some l
        → SameAmounts t t'
        → I (set (set look.trades i t') j l')
        → Searching i sale_amount look
        → Searching i sale_amount (put_both i t' j l' look)
    unfolding put_both
    Searching-both j look t l t' l' lt at_i at_j same inv' (inv, amount) = (
      inv',
      λ u e.
          subst (λ x. sale_amount_of packages x ≡ sale_amount)
            (get_i-put_both j look t t' l' u lt at_i e)
            (sale_amount_of-SameAmounts packages same ∙ amount t at_i),
    )

    use_purchase-Searching :
        (j : ℕ) (sale_asset_price : ℤ) (look : Look) (t l m : Trade)
        → i < j
        → get_elem? look.trades i ≡ some t
        → get_elem? look.trades j ≡ some l
        → Quiet l m
        → t.is_sale_trx_hist_filled ≡ false
        → m.is_buy_trx_hist_filled ≡ false
        → Searching i sale_amount look
        → OnFlow
            (Searching i sale_amount)
            (use_purchase packages opts interrupted i j sale_amount sale_asset_price t m look)
    unfolding use_purchase put_both OnFlow
    use_purchase-Searching j price look t l m lt at_i at_j q open_i open_j s =
        elim (buy_price_of opts m)
          as (λ o. OnFlow (Searching i sale_amount) (elim o [
            | none ↦ next (
                put_both i (record (told t) { no_price_usd = true }) j (heard m)
                  (record look {
                    delisted = set_delisted_ccy_to_map (buy_asset_of m) none look.delisted;
                  }))
            | some buy_price ↦ next (
                put_both i (filled buy_price).0 j
                  (close_purchase packages (buy_amount_of packages m) buy_price t.mts_create
                    (filled buy_price).1)
                  look)
          ])) [
            | none ↦
                Searching-both j look t l (record (told t) { no_price_usd = true }) (heard m) lt
                  at_i at_j (record { amount = refl; price = refl })
                  (kept.quiet (set look.trades i (record (told t) { no_price_usd = true })) j l
                    (heard m)
                    (get_elem?-set_ne look.trades i j _ (λ p. omega (arith, p, lt)) ∙ at_j)
                    heard_quiet
                    (kept.quiet look.trades i t (record (told t) { no_price_usd = true }) at_i
                      (record {
                        amounts = record { amount = refl; price = refl };
                        sale = record { filled = refl; flag = refl };
                        buy = record { filled = refl; flag = refl };
                      })
                      s.0))
                  s
            | some buy_price ↦
                let moves = Moves-before packages told_quiet heard_quiet (
                  Moves-after packages
                    (fill_with-Moves packages opts sale_amount (buy_amount_of packages m) price
                      buy_price (told t) (heard m)
                      (sale_amount_of-SameAmounts packages told_quiet.amounts ∙ s.1 t at_i)
                      (buy_amount_of-SameAmounts packages (record { amount = refl; price = refl }))
                      open_i open_j)
                    (close_purchase-Quiet packages (buy_amount_of packages m) buy_price t.mts_create
                      (filled buy_price).1)) in
                Searching-both j look t l _ _ lt at_i at_j moves.sale_amounts
                  (kept.matched look.trades i j t l _ _ lt at_i at_j moves s.0) s
          ]
      where
        told : Trade → Trade
        told x = record x {
          buy_trxs_for_realized_profit = x.buy_trxs_for_realized_profit ++ j ∷ [];
        }

        heard : Trade → Trade
        heard x = record x {
          sale_trxs_for_realized_profit = x.sale_trxs_for_realized_profit ++ i ∷ [];
        }

        filled : ℤ → Trade × Trade
        filled buy_price =
            fill packages opts sale_amount (buy_amount_of packages m) price buy_price (told t)
              (heard m)

        told_quiet : Quiet t (told t)
        told_quiet = record {
          amounts = record { amount = refl; price = refl };
          sale = record { filled = refl; flag = refl };
          buy = record { filled = refl; flag = refl };
        }

        heard_quiet : Quiet l (heard m)
        heard_quiet = record {
          amounts = record { amount = q.amounts.amount; price = q.amounts.price };
          sale = record { filled = q.sale.filled; flag = q.sale.flag };
          buy = record { filled = q.buy.filled; flag = q.buy.flag };
        }

    look_up_purchase-Searching :
        (j : ℕ) (sale_asset : String) (price : ℤ) (look : Look) (t l : Trade)
        → i < j
        → get_elem? look.trades i ≡ some t
        → get_elem? look.trades j ≡ some l
        → t.is_sale_trx_hist_filled ≡ false
        → Searching i sale_amount look
        → OnFlow
            (Searching i sale_amount)
            (look_up_purchase packages opts interrupted i j sale_asset sale_amount price t l look)
    unfolding look_up_purchase
    look_up_purchase-Searching j sale_asset price look t l lt at_i at_j open_i s =
        if_ind S (l.is_buy_trx_hist_filled || not (is_considered opts l)) (λ _. on_next _ look s)
          (λ considered.
            if_ind S
              (not (is_text (with_symbs packages l).first_symb)
                || not (is_text (with_symbs packages l).last_symb))
              (λ _.
                on_throw _ (with_symbs packages l).symbol (put j (with_symbs packages l) look)
                  quietly)
              (λ _.
                if_ind S (is_no_purchase packages (with_symbs packages l))
                  (λ _. on_next _ (put j (with_symbs packages l) look) quietly)
                  (λ _.
                    if_ind S (not (str_eq sale_asset (buy_asset_of (with_symbs packages l))))
                      (λ _. on_next _ (put j (bought packages l) look) (
                        Searching-other j look l (bought packages l) lt at_j
                          (bought-Quiet packages l) s))
                      (λ _.
                        use_purchase-Searching j price look t l (bought packages l) lt at_i at_j
                          (bought-Quiet packages l) open_i
                          ((bought-Quiet packages l).buy.flag
                            ∙ ||-false_left l.is_buy_trx_hist_filled (not (is_considered opts l))
                                considered)
                          s))))
      where
        quietly : Searching i sale_amount (put j (with_symbs packages l) look)
        quietly =
            Searching-other j look l (with_symbs packages l) lt at_j (with_symbs-Quiet packages l) s

    inner_body-Searching :
        (sale_asset : String) (price : ℤ) (j : ℕ) (look : Look) (o : Option Trade)
        → i < j
        → get_elem? look.trades i ≡ o
        → Searching i sale_amount look
        → OnFlow
            (Searching i sale_amount)
            (inner_body packages opts interrupted i sale_asset sale_amount price j o look)
    unfolding inner_body look_up_at polled OnFlow
    inner_body-Searching sale_asset price j look none lt at_i s = s
    inner_body-Searching sale_asset price j look (some t) lt at_i s =
        if_ind (OnFlow (Searching i sale_amount)) (interrupted look.polls) (λ _. s)
          (λ _.
            if_ind (OnFlow (Searching i sale_amount)) t.is_sale_trx_hist_filled (λ _. s)
              (λ open_i. at_j (get_elem? look.trades j) refl open_i))
      where
        at_j :
            (l : Option Trade)
            → get_elem? look.trades j ≡ l
            → t.is_sale_trx_hist_filled ≡ false
            → OnFlow (Searching i sale_amount) (
                look_up_at packages opts interrupted i j sale_asset sale_amount price t l
                  (polled look))
        at_j none e open_i = s
        at_j (some l) e open_i =
            look_up_purchase-Searching j sale_asset price (polled look) t l lt at_i e open_i s

    pub inner_loop-Searching :
        (sale_asset : String) (price : ℤ) (js : List ℕ) (look : Look)
        → All (λ j. i < j) js
        → Searching i sale_amount look
        → OnFlow
            (Searching i sale_amount)
            (inner_loop packages opts interrupted i sale_asset sale_amount price js look)
    unfolding inner_loop
    inner_loop-Searching sale_asset price [] look a s = on_next _ look s
    inner_loop-Searching sale_asset price (j ∷ js) look a s =
        OnFlow-then (Searching i sale_amount)
          (inner_loop packages opts interrupted i sale_asset sale_amount price js)
          (λ look' h. inner_loop-Searching sale_asset price js look' a.1 h)
          (inner_body packages opts interrupted i sale_asset sale_amount price j
            (get_elem? look.trades i) look)
          (inner_body-Searching sale_asset price j look (get_elem? look.trades i) a.0 refl s)
