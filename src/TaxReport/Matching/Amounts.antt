-- ===== src/TaxReport/Matching/Amounts.antt =====
-- look-up-trades.js: the amounts of one sale and one purchase.
use bfx_reports_framework.Base.{ℕ, ◌≡◌, refl, subst, ◌∙◌, sym, true, false, arith, if_ind}
use bfx_reports_framework.Base.Int.{ℤ, pos, ◌+ℤ◌, ◌-ℤ◌, ◌≤ℤ◌, ltb_ℤ, int_laws, ltb_ℤ→lt, ltb_ℤ→le}
use bfx_reports_framework.TaxReport.Trades.{Trade, Packages, Opts}
use bfx_reports_framework.TaxReport.Matching.{
  with_symbs, classify, sale_amount_of, buy_amount_of, fill, close_purchase,
}

-- The amount that has been sold lies between nothing and the amount of the sale, and is all of it
-- once the sale counts as filled. So for a purchase.
pub record IsSaleFilled (packages : Packages) (t : Trade) : Type 0 where
  pub from : pos 0 ≤ℤ t.sale_filled_amount
  pub upto : t.sale_filled_amount ≤ℤ sale_amount_of packages t
  pub whole : t.is_sale_trx_hist_filled ≡ true → t.sale_filled_amount ≡ sale_amount_of packages t

pub record IsBuyFilled (packages : Packages) (t : Trade) : Type 0 where
  pub from : pos 0 ≤ℤ t.buy_filled_amount
  pub upto : t.buy_filled_amount ≤ℤ buy_amount_of packages t
  pub whole : t.is_buy_trx_hist_filled ≡ true → t.buy_filled_amount ≡ buy_amount_of packages t

-- The trade's own amounts.
pub record SameAmounts (t t' : Trade) : Type 0 where
  pub amount : t'.exec_amount ≡ t.exec_amount
  pub price : t'.exec_price ≡ t.exec_price

pub record SameSale (t t' : Trade) : Type 0 where
  pub filled : t'.sale_filled_amount ≡ t.sale_filled_amount
  pub flag : t'.is_sale_trx_hist_filled ≡ t.is_sale_trx_hist_filled

pub record SameBuy (t t' : Trade) : Type 0 where
  pub filled : t'.buy_filled_amount ≡ t.buy_filled_amount
  pub flag : t'.is_buy_trx_hist_filled ≡ t.is_buy_trx_hist_filled

-- Nothing of what has been sold or bought changes.
pub record Quiet (t t' : Trade) : Type 0 where
  pub amounts : SameAmounts t t'
  pub sale : SameSale t t'
  pub buy : SameBuy t t'

module _ (packages : Packages) {t t' : Trade} (same : SameAmounts t t') where
  pub sale_amount_of-SameAmounts : sale_amount_of packages t' ≡ sale_amount_of packages t
  unfolding sale_amount_of
  sale_amount_of-SameAmounts = rw (same.amount, same.price)

  pub buy_amount_of-SameAmounts : buy_amount_of packages t' ≡ buy_amount_of packages t
  unfolding buy_amount_of
  buy_amount_of-SameAmounts = rw (same.amount, same.price)

-- Trade `t`, a sale, takes from the purchase `l`, and they become `t'` and `l'`.
pub record Moves (packages : Packages) (t l t' l' : Trade) : Type 0 where
  pub moved :
      t'.sale_filled_amount +ℤ l.buy_filled_amount ≡ t.sale_filled_amount +ℤ l'.buy_filled_amount
  pub sale_amounts : SameAmounts t t'
  pub sale_buy : SameBuy t t'
  pub buy_amounts : SameAmounts l l'
  pub buy_sale : SameSale l l'
  pub sale_filled : IsSaleFilled packages t → IsBuyFilled packages l → IsSaleFilled packages t'
  pub buy_filled : IsSaleFilled packages t → IsBuyFilled packages l → IsBuyFilled packages l'

pub classify-Quiet :
    (packages : Packages) (t : Trade) → Quiet t (classify packages (with_symbs packages t))
unfolding classify with_symbs
classify-Quiet packages t = ground arith

-- A trade with the same sums is filled as well.
module _ (packages : Packages) {t t' : Trade} (same : SameAmounts t t') where
  pub IsSaleFilled-Same : SameSale t t' → IsSaleFilled packages t → IsSaleFilled packages t'
  unfolding sale_amount_of
  IsSaleFilled-Same sale f = record {
    from = rw sale.filled f.from;
    upto = rw (sale.filled, sale_amount_of-SameAmounts packages same) f.upto;
    whole = λ h.
        sale.filled ∙ f.whole (sym sale.flag ∙ h) ∙ sym (sale_amount_of-SameAmounts packages same);
  }

  pub IsBuyFilled-Same : SameBuy t t' → IsBuyFilled packages t → IsBuyFilled packages t'
  unfolding buy_amount_of
  IsBuyFilled-Same buy f = record {
    from = rw buy.filled f.from;
    upto = rw (buy.filled, buy_amount_of-SameAmounts packages same) f.upto;
    whole = λ h.
        buy.filled ∙ f.whole (sym buy.flag ∙ h) ∙ sym (buy_amount_of-SameAmounts packages same);
  }

SameAmounts-trans : {a b c : Trade} → SameAmounts a b → SameAmounts b c → SameAmounts a c
SameAmounts-trans p q = record { amount = q.amount ∙ p.amount; price = q.price ∙ p.price }

SameAmounts-refl : (t : Trade) → SameAmounts t t
SameAmounts-refl t = record { amount = refl; price = refl }

module _ (packages : Packages) {t l t' l' : Trade} where
  -- The same with other records of the purchase, and of the two trades before.
  pub Moves-after : {m : Trade} → Moves packages t l t' l' → Quiet l' m → Moves packages t l t' m
  Moves-after {m} moves q = record {
    moved = rw q.buy.filled moves.moved;
    sale_amounts = moves.sale_amounts;
    sale_buy = moves.sale_buy;
    buy_amounts = SameAmounts-trans moves.buy_amounts q.amounts;
    buy_sale = record {
      filled = q.sale.filled ∙ moves.buy_sale.filled;
      flag = q.sale.flag ∙ moves.buy_sale.flag;
    };
    sale_filled = moves.sale_filled;
    buy_filled = λ s b. IsBuyFilled-Same packages q.amounts q.buy (moves.buy_filled s b);
  }

  pub Moves-before :
      {s m : Trade} → Quiet s t → Quiet m l → Moves packages t l t' l' → Moves packages s m t' l'
  Moves-before {s} {m} p q moves = record {
    moved = rw (← p.sale.filled, ← q.buy.filled) moves.moved;
    sale_amounts = SameAmounts-trans p.amounts moves.sale_amounts;
    sale_buy = record {
      filled = moves.sale_buy.filled ∙ p.buy.filled;
      flag = moves.sale_buy.flag ∙ p.buy.flag;
    };
    buy_amounts = SameAmounts-trans q.amounts moves.buy_amounts;
    buy_sale = record {
      filled = moves.buy_sale.filled ∙ q.sale.filled;
      flag = moves.buy_sale.flag ∙ q.sale.flag;
    };
    sale_filled = λ a b.
        moves.sale_filled (IsSaleFilled-Same packages p.amounts p.sale a)
          (IsBuyFilled-Same packages q.amounts q.buy b);
    buy_filled = λ a b.
        moves.buy_filled (IsSaleFilled-Same packages p.amounts p.sale a)
          (IsBuyFilled-Same packages q.amounts q.buy b);
  }

module _ (packages : Packages) (opts : Opts) (sale_price buy_price : ℤ) (t l : Trade)
    (sale_open : t.is_sale_trx_hist_filled ≡ false)
    (buy_open : l.is_buy_trx_hist_filled ≡ false) where
  abbrev sale_amount : ℤ
  sale_amount = sale_amount_of packages t

  abbrev buy_amount : ℤ
  buy_amount = buy_amount_of packages l

  abbrev sale_rest : ℤ
  sale_rest = sale_amount -ℤ t.sale_filled_amount

  abbrev buy_rest : ℤ
  buy_rest = buy_amount -ℤ l.buy_filled_amount

  abbrev MovesPair : Trade × Trade → Type 0
  MovesPair (t', l') = Moves packages t l t' l'

  fill-Moves : MovesPair (fill packages opts sale_amount buy_amount sale_price buy_price t l)
  unfolding fill sale_amount_of buy_amount_of
  fill-Moves =
      if_ind MovesPair (ltb_ℤ buy_rest sale_rest)
        (λ purchase_runs_out. record {
          moved = omega int_laws;
          sale_amounts = record { amount = refl; price = refl };
          sale_buy = record { filled = refl; flag = refl };
          buy_amounts = record { amount = refl; price = refl };
          buy_sale = record { filled = refl; flag = refl };
          sale_filled = λ s b. record {
            from = omega (int_laws, s.from, b.upto);
            upto = omega (int_laws, s.from, b.upto, ltb_ℤ→lt buy_rest sale_rest purchase_runs_out);
            whole = λ h. cc;
          };
          buy_filled = λ s b. record {
            from = omega (int_laws, b.from, b.upto);
            upto = omega (int_laws);
            whole = λ h. refl;
          };
        })
        (λ enough.
          if_ind MovesPair (ltb_ℤ sale_rest buy_rest)
            (λ sale_is_filled. record {
              moved = omega int_laws;
              sale_amounts = record { amount = refl; price = refl };
              sale_buy = record { filled = refl; flag = refl };
              buy_amounts = record { amount = refl; price = refl };
              buy_sale = record { filled = refl; flag = refl };
              sale_filled = λ s b. record {
                from = omega (int_laws, s.from, s.upto);
                upto = omega (int_laws);
                whole = λ h. refl;
              };
              buy_filled = λ s b. record {
                from = omega (int_laws, b.from, s.upto);
                upto = omega (int_laws, ltb_ℤ→lt sale_rest buy_rest sale_is_filled);
                whole = λ h. cc;
              };
            })
            (λ both. record {
              moved =
                  omega (
                    int_laws,
                    ltb_ℤ→le buy_rest sale_rest enough,
                    ltb_ℤ→le sale_rest buy_rest both,
                  );
              sale_amounts = record { amount = refl; price = refl };
              sale_buy = record { filled = refl; flag = refl };
              buy_amounts = record { amount = refl; price = refl };
              buy_sale = record { filled = refl; flag = refl };
              sale_filled = λ s b. record {
                from = omega (int_laws, s.from, s.upto);
                upto = omega (int_laws);
                whole = λ h. refl;
              };
              buy_filled = λ s b. record {
                from = omega (int_laws, b.from, b.upto);
                upto = omega (int_laws);
                whole = λ h. refl;
              };
            }))

-- The same for amounts that are known to be the trades'.
pub fill_with-Moves :
    (packages : Packages) (opts : Opts) (a b sale_price buy_price : ℤ) (t l : Trade)
    → sale_amount_of packages t ≡ a
    → buy_amount_of packages l ≡ b
    → t.is_sale_trx_hist_filled ≡ false
    → l.is_buy_trx_hist_filled ≡ false
    → Moves packages t l
        (fill packages opts a b sale_price buy_price t l).0
        (fill packages opts a b sale_price buy_price t l).1
fill_with-Moves packages opts a b sale_price buy_price t l p q open_t open_l =
    subst
      (λ x.
        Moves packages t l (fill packages opts x b sale_price buy_price t l).0
          (fill packages opts x b sale_price buy_price t l).1)
      p
      (subst
        (λ y.
          Moves packages t l
            (fill packages opts (sale_amount_of packages t) y sale_price buy_price t l).0
            (fill packages opts (sale_amount_of packages t) y sale_price buy_price t l).1)
        q (fill-Moves packages opts sale_price buy_price t l open_t open_l))

pub close_purchase-Quiet :
    (packages : Packages) (buy_amount buy_price : ℤ) (sold : ℕ) (l : Trade)
    → Quiet l (close_purchase packages buy_amount buy_price sold l)
unfolding close_purchase
close_purchase-Quiet packages buy_amount buy_price sold l = ground arith
