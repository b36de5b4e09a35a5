-- ===== src/TaxReport/LookUp/Conservation.antt =====
-- look-up-trades.js: the sums of the amounts that are sold and bought, and the bounds of each.
use bfx_reports_framework.Base.{
  ℕ, ◌<◌, Bool, All-map_list, zero, suc, ◌≡◌, refl, ap, ◌∙◌, some, List, [], ◌∷◌, map, get_elem?,
  set, All, All-set, All-get_elem?, get_elem?-set_ne, arith,
}
use mathlib.Core.Option.{some-injective}
use bfx_reports_framework.Base.Int.{ℤ, pos, ◌+ℤ◌, pos_part, neg_part, int_laws}
use bfx_reports_framework.TaxReport.Trades.{Trade, Packages, Opts}
use bfx_reports_framework.TaxReport.Matching.Amounts.{
  Quiet, Moves, IsSaleFilled, IsBuyFilled, IsSaleFilled-Same, IsBuyFilled-Same,
}
use bfx_reports_framework.TaxReport.Purchases.{Look}
use bfx_reports_framework.TaxReport.LookUp.{look_up_trades}
use bfx_reports_framework.TaxReport.Purchases.Rule.{Kept}
use bfx_reports_framework.TaxReport.LookUp.Sales.{trades_after, look_up_trades-Kept}

abbrev pub sum_by : (Trade → ℤ) → List Trade → ℤ
sum_by f [] = pos 0
sum_by f (t ∷ ts) = f t +ℤ sum_by f ts

-- The amount that all sales have sold, and that all purchases have given.
abbrev pub total_sold : List Trade → ℤ
total_sold trades = sum_by (λ t. t.sale_filled_amount) trades

abbrev pub total_bought : List Trade → ℤ
total_bought trades = sum_by (λ t. t.buy_filled_amount) trades

sum_by-set :
    (f : Trade → ℤ) (ts : List Trade) (i : ℕ) (t t' : Trade)
    → get_elem? ts i ≡ some t
    → sum_by f (set ts i t') +ℤ f t ≡ sum_by f ts +ℤ f t'
sum_by-set f [] i t t' h = cc
sum_by-set f (x ∷ ts) zero t t' h =
    let e = ap f (some-injective x t h) in omega (int_laws, ap pos_part e, ap neg_part e)
sum_by-set f (x ∷ ts) (suc i) t t' h =
    let e = sum_by-set f ts i t t' h in omega (int_laws, ap pos_part e, ap neg_part e)

sum_by-map :
    (f : Trade → ℤ) (g : Trade → Trade) (ts : List Trade)
    → ((t : Trade) → f (g t) ≡ f t)
    → sum_by f (map g ts) ≡ sum_by f ts
sum_by-map f g [] h = refl
sum_by-map f g (t ∷ ts) h = rw (h t, sum_by-map f g ts h)

abbrev pub IsConserved : List Trade → List Trade → Type 0
IsConserved before after =
    total_sold after +ℤ total_bought before ≡ total_sold before +ℤ total_bought after

-- What two exchanges at distinct indices do to a sum.
sum_by-set_two :
    (f : Trade → ℤ) (ts : List Trade) (i j : ℕ) (t l t' l' : Trade)
    → i < j
    → get_elem? ts i ≡ some t
    → get_elem? ts j ≡ some l
    → sum_by f (set (set ts i t') j l') +ℤ (f t +ℤ f l) ≡ sum_by f ts +ℤ (f t' +ℤ f l')
sum_by-set_two f ts i j t l t' l' lt at_i at_j =
    let p = sum_by-set f ts i t t' at_i in
    let q =
      sum_by-set f (set ts i t') j l l'
        (get_elem?-set_ne ts i j t' (λ p. omega (arith, p, lt)) ∙ at_j) in
    omega (int_laws, ap pos_part p, ap neg_part p, ap pos_part q, ap neg_part q)

-- Both sides of the balance change alike.
balance :
    (s b s' b' s0 b0 ds ds' db db' : ℤ)
    → s' +ℤ ds ≡ s +ℤ ds'
    → b' +ℤ db ≡ b +ℤ db'
    → ds' +ℤ db ≡ ds +ℤ db'
    → s +ℤ b0 ≡ s0 +ℤ b
    → s' +ℤ b0 ≡ s0 +ℤ b'
balance s b s' b' s0 b0 ds ds' db db' p q r e = omega (
  int_laws,
  ap pos_part p,
  ap neg_part p,
  ap pos_part q,
  ap neg_part q,
  ap pos_part r,
  ap neg_part r,
  ap pos_part e,
  ap neg_part e,
)

module _ (before : List Trade) where
  IsConserved-Quiet :
      (ts : List Trade) (i : ℕ) (t t' : Trade)
      → get_elem? ts i ≡ some t
      → Quiet t t'
      → IsConserved before ts
      → IsConserved before (set ts i t')
  IsConserved-Quiet ts i t t' e q inv =
      balance (total_sold ts) (total_bought ts) (total_sold (set ts i t'))
        (total_bought (set ts i t')) (total_sold before) (total_bought before) t.sale_filled_amount
        t'.sale_filled_amount t.buy_filled_amount t'.buy_filled_amount
        (sum_by-set (λ t. t.sale_filled_amount) ts i t t' e)
        (sum_by-set (λ t. t.buy_filled_amount) ts i t t' e) (simp (q.sale.filled, q.buy.filled)) inv

  moved_balance :
      (packages : Packages) (t l t' l' : Trade)
      → Moves packages t l t' l'
      → (t'.sale_filled_amount +ℤ l'.sale_filled_amount)
          +ℤ (t.buy_filled_amount +ℤ l.buy_filled_amount)
        ≡ (t.sale_filled_amount +ℤ l.sale_filled_amount)
          +ℤ (t'.buy_filled_amount +ℤ l'.buy_filled_amount)
  moved_balance packages t l t' l' m =
      let e = m.moved in
      let b = m.sale_buy.filled in
      let s = m.buy_sale.filled in
      omega (
        int_laws,
        ap pos_part e,
        ap neg_part e,
        ap pos_part b,
        ap neg_part b,
        ap pos_part s,
        ap neg_part s,
      )

  IsConserved-Kept : (packages : Packages) → Kept packages (IsConserved before)
  IsConserved-Kept packages = record {
    quiet = IsConserved-Quiet;
    matched = λ ts i j t l t' l' lt at_i at_j m inv.
        balance (total_sold ts) (total_bought ts) (total_sold (set (set ts i t') j l'))
          (total_bought (set (set ts i t') j l')) (total_sold before) (total_bought before)
          (t.sale_filled_amount +ℤ l.sale_filled_amount)
          (t'.sale_filled_amount +ℤ l'.sale_filled_amount)
          (t.buy_filled_amount +ℤ l.buy_filled_amount)
          (t'.buy_filled_amount +ℤ l'.buy_filled_amount)
          (sum_by-set_two (λ t. t.sale_filled_amount) ts i j t l t' l' lt at_i at_j)
          (sum_by-set_two (λ t. t.buy_filled_amount) ts i j t l t' l' lt at_i at_j)
          (moved_balance packages t l t' l' m) inv;
    mapped = λ ts f q inv. simp (
      sum_by-map (λ t. t.sale_filled_amount) f ts (λ t. (q t).sale.filled),
      sum_by-map (λ t. t.buy_filled_amount) f ts (λ t. (q t).buy.filled),
      inv,
    );
  }

-- Every trade is sold and bought up to its amount, and wholly once it counts as filled.
abbrev pub IsWithinAmounts : Packages → List Trade → Type 0
IsWithinAmounts packages trades =
    All (IsSaleFilled packages) trades × All (IsBuyFilled packages) trades

IsWithinAmounts-Kept : (packages : Packages) → Kept packages (IsWithinAmounts packages)
IsWithinAmounts-Kept packages = record {
  quiet = λ ts i t t' e q (s, b). (
    All-set (IsSaleFilled packages) ts i t' s (
        IsSaleFilled-Same packages q.amounts q.sale
          (All-get_elem? (IsSaleFilled packages) ts i t s e)),
    All-set (IsBuyFilled packages) ts i t' b (
        IsBuyFilled-Same packages q.amounts q.buy
          (All-get_elem? (IsBuyFilled packages) ts i t b e)),
  );
  matched = λ ts i j t l t' l' lt at_i at_j m (s, b).
      let st = All-get_elem? (IsSaleFilled packages) ts i t s at_i in
      let sl = All-get_elem? (IsSaleFilled packages) ts j l s at_j in
      let bt = All-get_elem? (IsBuyFilled packages) ts i t b at_i in
      let bl = All-get_elem? (IsBuyFilled packages) ts j l b at_j in
      (
        All-set (IsSaleFilled packages) (set ts i t') j l'
            (All-set (IsSaleFilled packages) ts i t' s (m.sale_filled st bl))
            (IsSaleFilled-Same packages m.buy_amounts m.buy_sale sl),
        All-set (IsBuyFilled packages) (set ts i t') j l'
            (All-set (IsBuyFilled packages) ts i t' b
              (IsBuyFilled-Same packages m.sale_amounts m.sale_buy bt))
            (m.buy_filled st bl),
      );
  mapped = λ ts f q (s, b). (
    All-map_list (IsSaleFilled packages) f ts
        (λ t h. IsSaleFilled-Same packages (q t).amounts (q t).sale h) s,
    All-map_list (IsBuyFilled packages) f ts
        (λ t h. IsBuyFilled-Same packages (q t).amounts (q t).buy h) b,
  );
}

-- For every list of trades, options, packages and times of interruption, the search moves amounts:
-- what all sales have sold has grown by what all purchases have given, whether it runs to its end,
-- is interrupted, or stops at a symbol that has no two currencies.
pub look_up_trades-IsConserved :
    (packages : Packages) (opts : Opts) (interrupted : ℕ → Bool) (look : Look)
    → IsConserved look.trades (trades_after (look_up_trades packages opts interrupted look))
look_up_trades-IsConserved packages opts interrupted look =
    look_up_trades-Kept packages opts interrupted (IsConserved look.trades)
      (IsConserved-Kept look.trades packages) look refl

-- When every trade of the list has sold and has given no more than its amount, and the whole of it
-- where it counts as filled, this is so after the search as well, whichever way the search ends.
pub look_up_trades-IsWithinAmounts :
    (packages : Packages) (opts : Opts) (interrupted : ℕ → Bool) (look : Look)
    → IsWithinAmounts packages look.trades
    → IsWithinAmounts packages (trades_after (look_up_trades packages opts interrupted look))
look_up_trades-IsWithinAmounts packages opts interrupted look h =
    look_up_trades-Kept packages opts interrupted (IsWithinAmounts packages)
      (IsWithinAmounts-Kept packages) look h
