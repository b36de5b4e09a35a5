-- ===== src/TaxReport/Conversion/Grouped.antt =====
-- get-trx-map-by-ccy.js: the map of the calculators by currency, against the list of them.
use text.Mathlib.TextEquality.{eq_iff}
use bfx_reports_framework.Base.{
  ℕ, ◌+◌, ◌≡◌, ◌⊎◌, inl, inr, refl, sym, ap, ◌∙◌, String, str_eq, false, Option, none, some, List,
  [], ◌∷◌, ◌++◌, append_assoc, append-nil, length, length-append, if◌then◌else◌, arith,
}
use bfx_reports_framework.TaxReport.Trades.{Trade, Packages}
use bfx_reports_framework.TaxReport.Conversion.{
  Calculator, CcyMap, btc, calculators_of, set_ccy_calculator, set_all, find_ccy, without_ccy,
  calc_total_trx_amount, with_btc_first, place_triangulation_ccy_at_start, collect_calculators,
  get_trx_map_by_ccy,
}

-- The calculators under a currency, none where it is no key
abbrev pub under : String → CcyMap → List Calculator
under symb [] = []
under symb ((key, calculators) ∷ map) = if str_eq key symb then calculators else under symb map

-- The independent description: all calculators in the order of the transactions, and those of one
-- currency among them.
abbrev pub all_calculators : Packages → ℕ → List Trade → List (String × Calculator)
all_calculators packages i [] = []
all_calculators packages i (trx ∷ trxs) =
    calculators_of packages i trx ++ all_calculators packages (i + 1) trxs

abbrev pub of_ccy : String → List (String × Calculator) → List Calculator
of_ccy symb [] = []
of_ccy symb ((key, calculator) ∷ pairs) =
    if str_eq key symb then calculator ∷ of_ccy symb pairs else of_ccy symb pairs

of_ccy-append :
    (symb : String) (xs ys : List (String × Calculator))
    → of_ccy symb (xs ++ ys) ≡ of_ccy symb xs ++ of_ccy symb ys
of_ccy-append symb [] ys = refl
of_ccy-append symb ((key, c) ∷ xs) ys = ground (arith, of_ccy-append symb xs ys)

under-set :
    (symb key : String) (c : Calculator) (map : CcyMap)
    → under symb (set_ccy_calculator map key c) ≡ under symb map ++ of_ccy symb ((key, c) ∷ [])
unfolding set_ccy_calculator
under-set symb key c [] = ground arith
under-set symb key c ((k, calculators) ∷ map) = ground (
  arith,
  under-set symb key c map,
  eq_iff k key,
  eq_iff k symb,
  eq_iff key symb,
  append-nil calculators,
  append-nil (under symb map),
)

calc_total-set :
    (key : String) (c : Calculator) (map : CcyMap)
    → calc_total_trx_amount (set_ccy_calculator map key c) ≡ calc_total_trx_amount map + 1
unfolding set_ccy_calculator
calc_total-set key c [] = refl
calc_total-set key c ((k, calculators) ∷ map) =
    ground (arith, calc_total-set key c map, length-append calculators (c ∷ []))

under-set_all :
    (symb : String) (pairs : List (String × Calculator)) (map : CcyMap)
    → under symb (set_all map pairs) ≡ under symb map ++ of_ccy symb pairs
unfolding set_all
under-set_all symb [] map = sym (append-nil (under symb map))
under-set_all symb ((key, c) ∷ pairs) map =
    under-set_all symb pairs (set_ccy_calculator map key c)
    ∙ ap (λ cs. cs ++ of_ccy symb pairs) (under-set symb key c map)
    ∙ append_assoc (under symb map) (of_ccy symb ((key, c) ∷ [])) (of_ccy symb pairs)
    ∙ ap (λ cs. under symb map ++ cs) (sym (of_ccy-append symb ((key, c) ∷ []) pairs))

calc_total-set_all :
    (pairs : List (String × Calculator)) (map : CcyMap)
    → calc_total_trx_amount (set_all map pairs) ≡ calc_total_trx_amount map + length pairs
unfolding set_all
calc_total-set_all [] map = omega arith
calc_total-set_all ((key, c) ∷ pairs) map =
    omega (arith, calc_total-set_all pairs (set_ccy_calculator map key c), calc_total-set key c map)

module _ (packages : Packages) where
  under-collect :
      (symb : String) (i : ℕ) (trxs : List Trade) (map : CcyMap)
      → under symb (collect_calculators packages i trxs map)
        ≡ under symb map ++ of_ccy symb (all_calculators packages i trxs)
  unfolding collect_calculators
  under-collect symb i [] map = sym (append-nil (under symb map))
  under-collect symb i (trx ∷ trxs) map =
      let pairs = calculators_of packages i trx in
      under-collect symb (i + 1) trxs (set_all map pairs)
      ∙ ap (λ cs. cs ++ of_ccy symb (all_calculators packages (i + 1) trxs))
          (under-set_all symb pairs map)
      ∙ append_assoc (under symb map) (of_ccy symb pairs)
          (of_ccy symb (all_calculators packages (i + 1) trxs))
      ∙ ap (λ cs. under symb map ++ cs)
          (sym (of_ccy-append symb pairs (all_calculators packages (i + 1) trxs)))

  calc_total-collect :
      (i : ℕ) (trxs : List Trade) (map : CcyMap)
      → calc_total_trx_amount (collect_calculators packages i trxs map)
        ≡ calc_total_trx_amount map + length (all_calculators packages i trxs)
  unfolding collect_calculators
  calc_total-collect i [] map = omega arith
  calc_total-collect i (trx ∷ trxs) map = omega (
    arith,
    calc_total-collect (i + 1) trxs (set_all map (calculators_of packages i trx)),
    calc_total-set_all (calculators_of packages i trx) map,
    length-append (calculators_of packages i trx) (all_calculators packages (i + 1) trxs),
  )

under-without :
    (symb key : String) (map : CcyMap)
    → str_eq key symb ≡ false
    → under symb (without_ccy key map) ≡ under symb map
under-without symb key [] h = refl
under-without symb key ((k, calculators) ∷ map) h =
    ground (arith, under-without symb key map h, eq_iff k key, eq_iff k symb, eq_iff key symb)

under-find :
    (symb : String) (map : CcyMap) (calculators : List Calculator)
    → find_ccy symb map ≡ some calculators
    → under symb map ≡ calculators
under-find symb [] calculators h = cc
under-find symb ((k, cs) ∷ map) calculators h = ground (arith, under-find symb map calculators)

under-find_none : (symb : String) (map : CcyMap) → find_ccy symb map ≡ none → under symb map ≡ []
under-find_none symb [] h = refl
under-find_none symb ((k, cs) ∷ map) h = ground (arith, under-find_none symb map)

calc_total-without :
    (symb : String) (map : CcyMap) (calculators : List Calculator)
    → find_ccy symb map ≡ some calculators
    → length calculators + calc_total_trx_amount (without_ccy symb map) ≡ calc_total_trx_amount map
calc_total-without symb [] calculators h = cc
calc_total-without symb ((k, cs) ∷ map) calculators h =
    ground (arith, calc_total-without symb map calculators)

-- BTC is the first key, or has no calculators.
abbrev pub IsBtcFirst : CcyMap → Type 0
IsBtcFirst map = (under btc map ≡ []) ⊎ ((rest : CcyMap) × (map ≡ (btc, under btc map) ∷ rest))

abbrev Keeps : CcyMap → CcyMap → Type 0
Keeps map placed =
    ((symb : String) → under symb placed ≡ under symb map)
    × (calc_total_trx_amount placed ≡ calc_total_trx_amount map)
    × IsBtcFirst placed

with_btc_first-Keeps :
    (map : CcyMap) (o : Option (List Calculator))
    → find_ccy btc map ≡ o
    → Keeps map (with_btc_first map o)
with_btc_first-Keeps map none h = (λ symb. refl, refl, inl (under-find_none btc map h))
with_btc_first-Keeps map (some calculators) h =
    (λ symb. same symb, calc_total-without btc map calculators h, inr (without_ccy btc map, refl))
  where
    same : (symb : String) → under symb ((btc, calculators) ∷ without_ccy btc map) ≡ under symb map
    same symb =
        ground
          (arith, under-without symb btc map, under-find btc map calculators h, eq_iff btc symb)

-- The map is the list of all calculators, in the order of the transactions, grouped by currency: under
-- each currency stand its calculators in this order, the total is the number of all, and BTC, whose
-- prices the forex calculators need, comes first where it has calculators.
pub get_trx_map_by_ccy_lem :
    (packages : Packages) (trxs : List Trade)
    → let pairs = all_calculators packages 0 trxs in
      let (map, total) = get_trx_map_by_ccy packages trxs in
      ((symb : String) → under symb map ≡ of_ccy symb pairs)
      × (total ≡ length pairs)
      × IsBtcFirst map
unfolding get_trx_map_by_ccy place_triangulation_ccy_at_start
get_trx_map_by_ccy_lem packages trxs =
    let map = collect_calculators packages 0 trxs [] in
    let (same, total, first) = with_btc_first-Keeps map (find_ccy btc map) refl in
    (
      λ symb. same symb ∙ under-collect packages symb 0 trxs [],
      omega (arith, total, calc_total-collect packages 0 trxs []),
      first,
    )
