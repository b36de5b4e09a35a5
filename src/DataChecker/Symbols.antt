-- ===== src/DataChecker/Symbols.antt =====
-- data.checker/index.js: the pairs of the candles that the currency converter needs. A symbol is the
-- list of its code points.
pub mod Sets
use bfx_reports_framework.Base.{
  ℕ, ltb, leb, ◌+◌, ◌==◌, Bool, true, false, not, ◌&&◌, ◌||◌, Option, none, some, List, [], ◌∷◌,
  ◌++◌, any, filter, length, if◌then◌else◌,
}

abbrev pub Symb : Type 0
Symb = List ℕ

abbrev pub same_symb : Symb → Symb → Bool
same_symb [] [] = true
same_symb [] (d ∷ t) = false
same_symb (c ∷ s) [] = false
same_symb (c ∷ s) (d ∷ t) = c == d && same_symb s t

-- A Set, in the order in which its elements were added
abbrev pub has : Symb → List Symb → Bool
has symb = any (same_symb symb)

unfoldable pub add : List Symb → Symb → List Symb
add set symb = if has symb set then set else set ++ (symb ∷ [])

-- `accum.add(...uniqueSynonymous)`: a Set's `add` takes its first argument only.
abbrev pub add_synonymous : List Symb → List Symb → List Symb
add_synonymous set [] = set
add_synonymous set (syn ∷ synonymous) = add set syn

abbrev pub with_synonymous : List Symb → Option (List Symb) → List Symb
with_synonymous set none = set
with_synonymous set (some synonymous) =
    add_synonymous set (filter (λ syn. not (has syn set)) synonymous)

unfoldable pub add_currency : (Symb → Option (List Symb)) → List Symb → Symb → List Symb
add_currency synonymous_of set [] = set
add_currency synonymous_of set (c ∷ currency) =
    with_synonymous (add set (c ∷ currency)) (synonymous_of (c ∷ currency))

-- The reducer of `_getUniqueSymbsFromLedgers`, over the currencies of both tables
unfoldable pub unique_symbs : (Symb → Option (List Symb)) → List Symb → List Symb → List Symb
unfolding add_currency
unique_symbs synonymous_of set [] = set
unique_symbs synonymous_of set (currency ∷ ledgers) =
    unique_symbs synonymous_of (add_currency synonymous_of set currency) ledgers

-- `symbol.replace(/F0$/i, '')`
unfoldable pub without_f0 : Symb → Symb
without_f0 [] = []
without_f0 (f ∷ []) = f ∷ []
without_f0 (f ∷ o ∷ []) = if (f == b'F' || f == b'f') && o == b'0' then [] else f ∷ o ∷ []
without_f0 (f ∷ o ∷ p ∷ symb) = f ∷ without_f0 (o ∷ p ∷ symb)

abbrev pub usd : Symb
usd = b'U' ∷ b'S' ∷ b'D' ∷ []

abbrev pub separator : Symb → Symb
separator currency = if ltb 3 (length currency) then b':' ∷ [] else []

abbrev pub usd_pair : Symb → Symb
usd_pair currency = b't' ∷ currency ++ separator currency ++ usd

abbrev pub btc_pair : Symb → Symb
btc_pair forex_symb = b't' ∷ b'B' ∷ b'T' ∷ b'C' ∷ forex_symb

abbrev pub add_usd_pair : List Symb → Symb → List Symb
add_usd_pair pairs [] = pairs
add_usd_pair pairs (c ∷ currency) = add pairs (usd_pair (c ∷ currency))

unfoldable pub add_usd_pairs : List Symb → List Symb → List Symb
unfolding without_f0
add_usd_pairs pairs [] = pairs
add_usd_pairs pairs (symb ∷ symbs) = add_usd_pairs (add_usd_pair pairs (without_f0 symb)) symbs

unfoldable pub add_btc_pairs : List Symb → List Symb → List Symb
add_btc_pairs pairs [] = pairs
add_btc_pairs pairs (symb ∷ symbs) = add_btc_pairs (add pairs (btc_pair symb)) symbs

-- `candlesPairsSet` of `_checkNewCandlesData`
unfoldable pub candles_pairs : List Symb → List Symb → List Symb
unfolding add_usd_pairs add_btc_pairs
candles_pairs symbs forex_symbs = add_btc_pairs (add_usd_pairs [] symbs) forex_symbs
