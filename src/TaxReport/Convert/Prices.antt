-- ===== src/TaxReport/Convert/Prices.antt =====
-- #convertCurrencies of transaction.tax.report/index.js: which prices stay, and which are set.
use text.Mathlib.TextEquality.{eq_iff}
use bfx_reports_framework.Base.{
  ℕ, ◌≡◌, refl, sym, ap, subst, Bool-cases, inl, inr, ◌∙◌, ◌==◌, ==_iff, String, str_eq, Bool, true,
  false, not, ◌||◌, Option, none, some, List, [], ◌∷◌, get_elem?, set, get_elem?-set_self,
  get_elem?-set_ne, if_ind, if◌then◌else◌, arith,
}
use bfx_reports_framework.Base.Int.{ℤ}
use bfx_reports_framework.TaxReport.Trades.{Trade, Packages, value_or_zero, set_delisted_ccy_to_map}
use bfx_reports_framework.TaxReport.Remap.{Priced, is_number}
use bfx_reports_framework.TaxReport.Conversion.{
  PriceProp, first_symb_price, last_symb_price, Kind, crypto_ccy_for_triangulation,
  forex_ccy_for_triangulation, Calculator, set_price, set_conv_price, set_calc_price, set_prices,
  calc_price,
}
use bfx_reports_framework.TaxReport.Convert.{Conv, btc_price_of, noted}

abbrev pub has_key : String → List (String × List (Option ℤ)) → Bool
has_key symbol [] = false
has_key symbol ((key, errs) ∷ delisted) = str_eq key symbol || has_key symbol delisted

abbrev pub is_some : Option ℤ → Bool
is_some none = false
is_some (some x) = true

abbrev pub price_at : PriceProp → Trade → Option ℤ
price_at first_symb_price trade = trade.first_symb_price_usd
price_at last_symb_price trade = trade.last_symb_price_usd

abbrev pub has_price : PriceProp → Option Priced → Bool
has_price prop none = true
has_price prop (some p) = is_some (price_at prop p.trade)

-- The price of BTC is known, or the transaction has the price that the calculator is for.
abbrev pub is_known : Option Priced → Option ℤ → Bool
is_known none btc_price = true
is_known (some p) btc_price = is_some btc_price

abbrev pub is_priced : Option Kind → Calculator → List Priced → List (ℕ × ℤ) → Bool
is_priced (some crypto_ccy_for_triangulation) calculator trxs btc_prices =
    is_known (get_elem? trxs calculator.trx) (btc_price_of calculator.trx btc_prices)
is_priced _ calculator trxs btc_prices =
    has_price calculator.conv_price_prop (get_elem? trxs calculator.trx)

-- The currency is in the list of the delisted ones, or there is the price.
abbrev pub is_settled : String → Calculator → Conv → Bool
is_settled symbol calculator c =
    has_key symbol c.delisted || is_priced calculator.kind calculator c.trxs c.btc_prices

abbrev pub IsSettled : String → Calculator → Conv → Type 0
IsSettled symbol calculator c = is_settled symbol calculator c ≡ true

pub has_key-set_delisted :
    (symbol key : String) (delisted : List (String × List (Option ℤ)))
    → has_key symbol (set_delisted_ccy_to_map key none delisted)
      ≡ (str_eq key symbol || has_key symbol delisted)
unfolding set_delisted_ccy_to_map
has_key-set_delisted symbol key [] = refl
has_key-set_delisted symbol key ((k, errs) ∷ delisted) = ground (
  arith,
  has_key-set_delisted symbol key delisted,
  eq_iff k key,
  eq_iff k symbol,
  eq_iff key symbol,
)

pub price_at-set_price :
    (prop q : PriceProp) (x : ℤ) (trade : Trade)
    → is_some (price_at prop trade) ≡ true
    → is_some (price_at prop (set_price q (some x) trade)) ≡ true
price_at-set_price first_symb_price first_symb_price x trade h = refl
price_at-set_price first_symb_price last_symb_price x trade h = h
price_at-set_price last_symb_price first_symb_price x trade h = h
price_at-set_price last_symb_price last_symb_price x trade h = refl

pub price_at-own :
    (prop : PriceProp) (x : ℤ) (trade : Trade)
    → is_some (price_at prop (set_price prop (some x) trade)) ≡ true
price_at-own first_symb_price x trade = refl
price_at-own last_symb_price x trade = refl

module _ (packages : Packages) where
  price_at-exec :
      (prop : PriceProp) (b : Bool) (x : ℤ) (trade : Trade)
      → price_at prop (if b then record trade { exec_price = some x } else trade)
        ≡ price_at prop trade
  price_at-exec first_symb_price b x trade = ground arith
  price_at-exec last_symb_price b x trade = ground arith

  has_price-conv :
      (prop : PriceProp) (calculator : Calculator) (x : ℤ) (p : Priced)
      → price_at prop (set_conv_price packages calculator x p).trade
        ≡ price_at prop (set_price calculator.conv_price_prop (some x) p.trade)
  has_price-conv prop calculator x p =
      price_at-exec prop
        (set_price calculator.conv_price_prop (some x) p.trade).is_additional_trx_movements x
        (set_price calculator.conv_price_prop (some x) p.trade)

  has_price-calc :
      (prop q : PriceProp) (x : ℤ) (p : Priced)
      → is_some (price_at prop p.trade) ≡ true
      → is_some (price_at prop (set_calc_price packages q x p).trade) ≡ true
  has_price-calc prop first_symb_price x p h = price_at-set_price prop first_symb_price _ p.trade h
  has_price-calc prop last_symb_price x p h = price_at-set_price prop last_symb_price _ p.trade h

  pub has_price-set_prices :
      (prop : PriceProp) (calculator : Calculator) (x : ℤ) (p : Priced)
      → is_some (price_at prop (set_price calculator.conv_price_prop (some x) p.trade)) ≡ true
      → is_some (price_at prop (set_prices packages calculator x p).trade) ≡ true
  has_price-set_prices prop calculator x p h =
      let converted = set_conv_price packages calculator x p in
      let has = ap is_some (has_price-conv prop calculator x p) ∙ h in
      if_ind (λ (q : Priced). is_some (price_at prop q.trade) ≡ true)
        (is_number converted.trade.exec_price)
        (λ _. has_price-calc prop calculator.calc_price_prop x converted has) (λ _. has)

  abbrev pub AllSome : (Priced → Type 0) → Option Priced → Type 0
  AllSome P none = Unit
  AllSome P (some p) = P p

  -- What calcPrice leaves, by the kind of the calculator
  pub calc_price-AllSome :
      (Q : Option Kind → Priced → Type 0) (calculator : Calculator) (btc_price price : Option ℤ)
      (p : Priced)
      → Q (some crypto_ccy_for_triangulation) p
      → ((k : Option Kind) (x : ℤ) → Q k (set_prices packages calculator x p))
      → AllSome (Q calculator.kind) (calc_price packages calculator btc_price price p)
  unfolding calc_price
  calc_price-AllSome Q calculator btc_price price p crypto other =
      if_ind (AllSome (Q calculator.kind)) (not (is_number price)) (λ _. tt)
        (λ _. of_kind calculator.kind)
    where
      of_kind :
          (k : Option Kind)
          → AllSome (Q k) (elim k [
            | none ↦ some (set_prices packages calculator (value_or_zero price) p)
            | some crypto_ccy_for_triangulation ↦ some p
            | some forex_ccy_for_triangulation ↦
                (if is_number btc_price
                  then some (
                      set_prices packages calculator
                        (packages.div (value_or_zero btc_price) (value_or_zero price))
                        p)
                  else none)
          ])
      of_kind none = other none _
      of_kind (some crypto_ccy_for_triangulation) = crypto
      of_kind (some forex_ccy_for_triangulation) =
          if_ind (AllSome (Q (some forex_ccy_for_triangulation))) (is_number btc_price)
            (λ _. other _ _) (λ _. tt)

pub has_price-set :
    (prop : PriceProp) (trxs : List Priced) (i j : ℕ) (p p' : Priced)
    → get_elem? trxs i ≡ some p
    → (is_some (price_at prop p.trade) ≡ true → is_some (price_at prop p'.trade) ≡ true)
    → has_price prop (get_elem? trxs j) ≡ true
    → has_price prop (get_elem? (set trxs i p') j) ≡ true
has_price-set prop trxs i j p p' at_i keep h = elim (Bool-cases (i == j)) [
  | inl e ↦
      let same = (==_iff i j).0 e in
      subst (λ k. has_price prop (get_elem? (set trxs i p') k) ≡ true) same
        (ap (has_price prop) (get_elem?-set_self trxs i p' p at_i)
          ∙ keep (
              ap (has_price prop) (sym at_i)
              ∙ subst (λ k. has_price prop (get_elem? trxs k) ≡ true) (sym same) h))
  | inr e ↦ ap (has_price prop) (get_elem?-set_ne trxs i j p' (λ s. ground (arith, s, e))) ∙ h
]

pub noted-keeps :
    (k : Option Kind) (i j : ℕ) (x : ℤ) (prices : List (ℕ × ℤ))
    → is_some (btc_price_of j prices) ≡ true
    → is_some (btc_price_of j (noted k i x prices)) ≡ true
noted-keeps none i j x prices h = h
noted-keeps (some forex_ccy_for_triangulation) i j x prices h = h
noted-keeps (some crypto_ccy_for_triangulation) i j x prices h = ground (arith, h)

pub ||-keeps : (a b c : Bool) → (b ≡ true → c ≡ true) → (a || b) ≡ true → (a || c) ≡ true
||-keeps true b c h e = refl
||-keeps false b c h e = h e

pub is_priced-keeps :
    (k : Option Kind) (calculator : Calculator) (trxs trxs' : List Priced) (btc btc' : List (ℕ × ℤ))
    → (is_known (get_elem? trxs calculator.trx) (btc_price_of calculator.trx btc) ≡ true
        → is_known (get_elem? trxs' calculator.trx) (btc_price_of calculator.trx btc') ≡ true)
    → (has_price calculator.conv_price_prop (get_elem? trxs calculator.trx) ≡ true
        → has_price calculator.conv_price_prop (get_elem? trxs' calculator.trx) ≡ true)
    → is_priced k calculator trxs btc ≡ true
    → is_priced k calculator trxs' btc' ≡ true
is_priced-keeps none calculator trxs trxs' btc btc' known price = price
is_priced-keeps (some crypto_ccy_for_triangulation) calculator trxs trxs' btc btc' known price =
    known
is_priced-keeps (some forex_ccy_for_triangulation) calculator trxs trxs' btc btc' known price =
    price

pub is_known-set :
    (trxs : List Priced) (i j : ℕ) (p p' : Priced) (o o' : Option ℤ)
    → get_elem? trxs i ≡ some p
    → (is_some o ≡ true → is_some o' ≡ true)
    → is_known (get_elem? trxs j) o ≡ true
    → is_known (get_elem? (set trxs i p') j) o' ≡ true
is_known-set trxs i j p p' o o' at_i keep h = elim (Bool-cases (i == j)) [
  | inl e ↦
      let same = (==_iff i j).0 e in
      subst (λ k. is_known (get_elem? (set trxs i p') k) o' ≡ true) same
        (ap (λ q. is_known q o') (get_elem?-set_self trxs i p' p at_i)
          ∙ keep (
              ap (λ q. is_known q o) (sym at_i)
              ∙ subst (λ k. is_known (get_elem? trxs k) o ≡ true) (sym same) h))
  | inr e ↦
      ap (λ q. is_known q o') (get_elem?-set_ne trxs i j p' (λ s. ground (arith, s, e)))
      ∙ known (get_elem? trxs j) h
]
  where
    known : (q : Option Priced) → is_known q o ≡ true → is_known q o' ≡ true
    known none k = refl
    known (some q) k = keep k
