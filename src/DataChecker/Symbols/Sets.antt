-- ===== src/DataChecker/Symbols/Sets.antt =====
-- data.checker/index.js: the sets of symbols and of pairs.
use bfx_reports_framework.Base.{
  ◌≡◌, refl, true, false, not, ◌||◌, Bool-cases, inl, inr, Option, none, some, List, [], ◌∷◌, ◌++◌,
  filter, if_ind, All, All-map, arith,
}
use bfx_reports_framework.DataChecker.Symbols.{
  Symb, same_symb, has, add, add_synonymous, add_currency, unique_symbs, without_f0, usd_pair,
  btc_pair, add_usd_pair, with_synonymous, add_usd_pairs, add_btc_pairs, candles_pairs,
}

same_symb_self : (s : Symb) → same_symb s s ≡ true
same_symb_self [] = refl
same_symb_self (c ∷ s) = ground (arith, same_symb_self s)

same_symb_comm : (s t : Symb) → same_symb s t ≡ same_symb t s
same_symb_comm [] [] = refl
same_symb_comm [] (d ∷ t) = refl
same_symb_comm (c ∷ s) [] = refl
same_symb_comm (c ∷ s) (d ∷ t) = ground (arith, same_symb_comm s t)

-- No element of a Set is there twice.
abbrev pub IsUnique : List Symb → Type 0
IsUnique [] = Unit
IsUnique (s ∷ set) = (has s set ≡ false) × IsUnique set

has-append : (s t : Symb) (set : List Symb) → has s (set ++ (t ∷ [])) ≡ has s set || same_symb s t
has-append s t [] = ground arith
has-append s t (u ∷ set) = ground (arith, has-append s t set)

append-IsUnique :
    (set : List Symb) (t : Symb) → IsUnique set → has t set ≡ false → IsUnique (set ++ (t ∷ []))
append-IsUnique [] t u h = (refl, tt)
append-IsUnique (s ∷ set) t (n, u) h =
    (ground (arith, has-append s t set, same_symb_comm s t), append-IsUnique set t u (ground arith))

-- `after` has what `before` has, and is a set where `before` is one.
abbrev Grows : List Symb → List Symb → Type 0
Grows before after =
    (IsUnique before → IsUnique after) × ((s : Symb) → has s before ≡ true → has s after ≡ true)

Grows-refl : (set : List Symb) → Grows set set
Grows-refl set = (λ u. u, λ s h. h)

Grows-trans : (a b c : List Symb) → Grows a b → Grows b c → Grows a c
Grows-trans a b c (u, h) (v, k) = (λ x. v (u x), λ s x. k s (h s x))

add-Grows : (set : List Symb) (t : Symb) → Grows set (add set t)
unfolding add
add-Grows set t = (
  λ u. if_ind IsUnique (has t set) (λ _. u) (λ h. append-IsUnique set t u h),
  λ s h. ground (arith, has-append s t set),
)

has-add : (set : List Symb) (t : Symb) → has t (add set t) ≡ true
unfolding add
has-add set t = ground (arith, has-append t t set, same_symb_self t)

add_synonymous-Grows : (set synonymous : List Symb) → Grows set (add_synonymous set synonymous)
add_synonymous-Grows set [] = Grows-refl set
add_synonymous-Grows set (syn ∷ synonymous) = add-Grows set syn

with_synonymous-Grows :
    (set : List Symb) (o : Option (List Symb)) → Grows set (with_synonymous set o)
with_synonymous-Grows set none = Grows-refl set
with_synonymous-Grows set (some synonymous) =
    add_synonymous-Grows set (filter (λ syn. not (has syn set)) synonymous)

-- What is added of one currency, of one symbol
abbrev IsIn : List Symb → Symb → Type 0
IsIn set [] = Unit
IsIn set (c ∷ s) = has (c ∷ s) set ≡ true

IsIn-Grows :
    (before after : List Symb) (s : Symb) → Grows before after → IsIn before s → IsIn after s
IsIn-Grows before after [] g h = tt
IsIn-Grows before after (c ∷ s) g h = g.1 (c ∷ s) h

module _ (synonymous_of : Symb → Option (List Symb)) where
  add_currency-Grows : (set : List Symb) (t : Symb) → Grows set (add_currency synonymous_of set t)
  unfolding add_currency
  add_currency-Grows set [] = Grows-refl set
  add_currency-Grows set (c ∷ t) =
      Grows-trans _ _ _ (add-Grows set (c ∷ t))
        (with_synonymous-Grows (add set (c ∷ t)) (synonymous_of (c ∷ t)))

  add_currency-IsIn : (set : List Symb) (t : Symb) → IsIn (add_currency synonymous_of set t) t
  unfolding add_currency
  add_currency-IsIn set [] = tt
  add_currency-IsIn set (c ∷ t) =
      (with_synonymous-Grows (add set (c ∷ t)) (synonymous_of (c ∷ t))).1 (c ∷ t)
        (has-add set (c ∷ t))

  unique_symbs-Grows :
      (set ledgers : List Symb) → Grows set (unique_symbs synonymous_of set ledgers)
  unfolding unique_symbs
  unique_symbs-Grows set [] = Grows-refl set
  unique_symbs-Grows set (t ∷ ledgers) =
      Grows-trans _ _ _ (add_currency-Grows set t)
        (unique_symbs-Grows (add_currency synonymous_of set t) ledgers)

  unique_symbs-IsIn :
      (set ledgers : List Symb) → All (IsIn (unique_symbs synonymous_of set ledgers)) ledgers
  unfolding unique_symbs
  unique_symbs-IsIn set [] = tt
  unique_symbs-IsIn set (t ∷ ledgers) = (
    IsIn-Grows (add_currency synonymous_of set t) _ t
        (unique_symbs-Grows (add_currency synonymous_of set t) ledgers) (add_currency-IsIn set t),
    unique_symbs-IsIn (add_currency synonymous_of set t) ledgers,
  )

-- The pair of a currency, if there is one left without F0
abbrev pub HasPair : List Symb → Symb → Type 0
HasPair pairs [] = Unit
HasPair pairs (c ∷ currency) = has (usd_pair (c ∷ currency)) pairs ≡ true

HasPair-Grows :
    (before after : List Symb) (s : Symb) → Grows before after → HasPair before s → HasPair after s
HasPair-Grows before after [] g h = tt
HasPair-Grows before after (c ∷ s) g h = g.1 (usd_pair (c ∷ s)) h

add_usd_pair-Grows : (pairs : List Symb) (s : Symb) → Grows pairs (add_usd_pair pairs s)
add_usd_pair-Grows pairs [] = Grows-refl pairs
add_usd_pair-Grows pairs (c ∷ s) = add-Grows pairs (usd_pair (c ∷ s))

add_usd_pair-HasPair : (pairs : List Symb) (s : Symb) → HasPair (add_usd_pair pairs s) s
add_usd_pair-HasPair pairs [] = tt
add_usd_pair-HasPair pairs (c ∷ s) = has-add pairs (usd_pair (c ∷ s))

add_usd_pairs-Grows : (pairs symbs : List Symb) → Grows pairs (add_usd_pairs pairs symbs)
unfolding add_usd_pairs
add_usd_pairs-Grows pairs [] = Grows-refl pairs
add_usd_pairs-Grows pairs (s ∷ symbs) =
    Grows-trans _ _ _ (add_usd_pair-Grows pairs (without_f0 s))
      (add_usd_pairs-Grows (add_usd_pair pairs (without_f0 s)) symbs)

same_symb-eq : (s t : Symb) → same_symb s t ≡ true → s ≡ t
same_symb-eq [] [] h = refl
same_symb-eq [] (d ∷ t) h = cc
same_symb-eq (c ∷ s) [] h = cc
same_symb-eq (c ∷ s) (d ∷ t) h = ground (arith, same_symb-eq s t)

add_usd_pairs-HasPair :
    (pairs symbs : List Symb) (s : Symb)
    → has s symbs ≡ true
    → HasPair (add_usd_pairs pairs symbs) (without_f0 s)
unfolding add_usd_pairs
add_usd_pairs-HasPair pairs [] s h = cc
add_usd_pairs-HasPair pairs (t ∷ symbs) s h = elim (Bool-cases (same_symb s t)) [
  | inl e ↦ rw (same_symb-eq s t e) (
      HasPair-Grows (add_usd_pair pairs (without_f0 t)) _ (without_f0 t)
        (add_usd_pairs-Grows (add_usd_pair pairs (without_f0 t)) symbs)
        (add_usd_pair-HasPair pairs (without_f0 t)))
  | inr e ↦ add_usd_pairs-HasPair (add_usd_pair pairs (without_f0 t)) symbs s (ground arith)
]

add_btc_pairs-Grows : (pairs symbs : List Symb) → Grows pairs (add_btc_pairs pairs symbs)
unfolding add_btc_pairs
add_btc_pairs-Grows pairs [] = Grows-refl pairs
add_btc_pairs-Grows pairs (s ∷ symbs) =
    Grows-trans _ _ _ (add-Grows pairs (btc_pair s))
      (add_btc_pairs-Grows (add pairs (btc_pair s)) symbs)

IsIn-HasPair :
    (symbs forex_symbs : List Symb) (t : Symb)
    → IsIn symbs t
    → HasPair (candles_pairs symbs forex_symbs) (without_f0 t)
unfolding candles_pairs without_f0
IsIn-HasPair symbs forex_symbs [] h = tt
IsIn-HasPair symbs forex_symbs (c ∷ t) h =
    HasPair-Grows (add_usd_pairs [] symbs) _ (without_f0 (c ∷ t))
      (add_btc_pairs-Grows (add_usd_pairs [] symbs) forex_symbs)
      (add_usd_pairs-HasPair [] symbs (c ∷ t) h)

-- The pairs whose candles are synced for the ledgers of both tables: none is there twice, and for each
-- currency of the ledgers its pair with USD, where the currency is not empty without F0 at its end, is
-- there, whatever its synonyms are.
pub candles_pairs-HasPair :
    (synonymous_of : Symb → Option (List Symb)) (ledgers forex_symbs : List Symb)
    → let pairs = candles_pairs (unique_symbs synonymous_of [] ledgers) forex_symbs in
      IsUnique pairs × All (λ t. HasPair pairs (without_f0 t)) ledgers
unfolding candles_pairs
candles_pairs-HasPair synonymous_of ledgers forex_symbs =
    let symbs = unique_symbs synonymous_of [] ledgers in
    (
      (add_btc_pairs-Grows (add_usd_pairs [] symbs) forex_symbs).0
          ((add_usd_pairs-Grows [] symbs).0 tt),
      All-map (IsIn symbs) _ ledgers (IsIn-HasPair symbs forex_symbs)
          (unique_symbs-IsIn synonymous_of [] ledgers),
    )
