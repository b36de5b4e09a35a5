-- ===== src/TaxReport/Purchases/Rule.antt =====
-- A rule for the search of look-up-trades.js: what holds of the trades, and is kept when a trade
-- changes quietly and when a sale takes from a purchase, holds when the search ends.
use bfx_reports_framework.Base.{
  ℕ, zero, suc, ◌+◌, ◌-◌, ◌<◌, String, ◌≡◌, Bool, true, false, ◌||◌, some, List, map, arith, if_ind,
  get_elem?, set, All, All-reverse,
}
use bfx_reports_framework.TaxReport.Trades.{Trade, Packages, Opts}
use bfx_reports_framework.TaxReport.Matching.{with_symbs}
use bfx_reports_framework.TaxReport.Matching.Amounts.{Quiet, Moves}
use bfx_reports_framework.TaxReport.Purchases.{
  Look, Flow, next, leave, quit, throw, range_from, inner_points,
}

pub record Kept (packages : Packages) (I : List Trade → Type 0) : Type 0 where
  pub quiet :
      (trades : List Trade) (i : ℕ) (t t' : Trade)
      → get_elem? trades i ≡ some t
      → Quiet t t'
      → I trades
      → I (set trades i t')
  pub matched :
      (trades : List Trade) (i j : ℕ) (t l t' l' : Trade)
      → i < j
      → get_elem? trades i ≡ some t
      → get_elem? trades j ≡ some l
      → Moves packages t l t' l'
      → I trades
      → I (set (set trades i t') j l')
  pub mapped :
      (trades : List Trade) (f : Trade → Trade)
      → ((t : Trade) → Quiet t (f t))
      → I trades
      → I (map f trades)

unfoldable pub OnFlow : (Look → Type 0) → Flow → Type 0
OnFlow P (next look) = P look
OnFlow P (leave look) = P look
OnFlow P (quit look) = P look
OnFlow P (throw symbol look) = P look

pub on_next : (P : Look → Type 0) (look : Look) → P look → OnFlow P (next look)
unfolding OnFlow
on_next P look h = h

pub on_throw :
    (P : Look → Type 0) (symbol : String) (look : Look) → P look → OnFlow P (throw symbol look)
unfolding OnFlow
on_throw P symbol look h = h

pub OnFlow-then :
    (P : Look → Type 0) (k : Look → Flow)
    → ((look : Look) → P look → OnFlow P (k look))
    → (f : Flow) → OnFlow P f
    → OnFlow P (elim f [
      | next look' ↦ k look'
      | leave look' ↦ next look'
      | quit look' ↦ quit look'
      | throw symbol look' ↦ throw symbol look'
    ])
unfolding OnFlow
OnFlow-then P k h (next look) p = h look p
OnFlow-then P k h (leave look) p = p
OnFlow-then P k h (quit look) p = p
OnFlow-then P k h (throw symbol look) p = p

pub with_symbs-Quiet : (packages : Packages) (t : Trade) → Quiet t (with_symbs packages t)
unfolding with_symbs
with_symbs-Quiet packages t = ground arith

abbrev pub bought : Packages → Trade → Trade
bought packages t = record (with_symbs packages t) { is_buy_trx = true }

pub bought-Quiet : (packages : Packages) (t : Trade) → Quiet t (bought packages t)
unfolding with_symbs
bought-Quiet packages t = ground arith

pub ||-false_left : (a b : Bool) → (a || b) ≡ false → a ≡ false
||-false_left a b h = ground arith

All-range_from : (i a n : ℕ) → i < a → All (λ j. i < j) (range_from a n)
unfolding range_from
All-range_from i a zero h = tt
All-range_from i a (suc n) h = (h, All-range_from i (a + 1) n (omega (arith, h)))

pub All-inner_points : (opts : Opts) (n i : ℕ) → All (λ j. i < j) (inner_points opts n i)
unfolding inner_points
All-inner_points opts n i =
    if_ind (All (λ j. i < j)) opts.is_back_iterative_buy_look_up
      (λ _.
        All-reverse (λ j. i < j) (range_from (i + 1) (n - (i + 1)))
          (All-range_from i (i + 1) _ (omega arith)))
      (λ _. All-range_from i (i + 1) _ (omega arith))
