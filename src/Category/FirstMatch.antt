-- ===== src/Category/FirstMatch.antt =====
-- The loop of get-category-from-description.js over its rules.
use Prim.Native.Nat.{ℕ}
use bfx_reports_framework.Base.{
  ◌≡◌, ◌≢◌, refl, ap, Bool, true, false, ◌&&◌, ◌||◌, Option, none, some, List, [], ◌∷◌, ◌++◌, inl,
  inr, arith, leb, ◌==◌, ==_iff, All, Any, filter, Bool-cases,
}
use bfx_reports_framework.Category.Patterns.{lower, to_lower_case, starts_with, codes}
use bfx_reports_framework.Category.Schema.{Rule, rule, schema}
use bfx_reports_framework.Category.{first_category, get_category_from_description}

-- The rule that decides: the first whose tester accepts.
pub record Decides (rules : List Rule) (d : List ℕ) (category : ℕ) : Type 0 where
  pub before : List Rule
  pub chosen : Rule
  pub after : List Rule
  pub split : rules ≡ before ++ chosen ∷ after
  pub accepts : chosen.tester d ≡ true
  pub named : chosen.category ≡ category
  pub earlier_refuse : All (λ r. r.tester d ≡ false) before

first_category-Decides :
    (rules : List Rule) (d : List ℕ) (c : ℕ) → first_category rules d ≡ some c → Decides rules d c
unfolding first_category
first_category-Decides [] d c h = cc
first_category-Decides (r ∷ rs) d c h = elim (Bool-cases (r.tester d)) [
  | inl accepted ↦ record {
    before = [];
    chosen = r;
    after = rs;
    split = refl;
    accepts = accepted;
    named = ground arith;
    earlier_refuse = tt;
  }
  | inr refused ↦
      let rest = first_category-Decides rs d c (ground arith) in
      record {
        before = r ∷ rest.before;
        chosen = rest.chosen;
        after = rest.after;
        split = ap (λ l. r ∷ l) rest.split;
        accepts = rest.accepts;
        named = rest.named;
        earlier_refuse = (refused, rest.earlier_refuse);
      }
]

first_category-none :
    (rules : List Rule) (d : List ℕ)
    → first_category rules d ≡ none
    → All (λ r. r.tester d ≡ false) rules
unfolding first_category
first_category-none [] d h = tt
first_category-none (r ∷ rs) d h = (ground arith, first_category-none rs d (ground arith))

-- The outcome of a description, by the answer.
abbrev pub Outcome : List Rule → List ℕ → Option ℕ → Type 0
Outcome rules d none = All (λ r. r.tester d ≡ false) rules
Outcome rules d (some c) = Decides rules d c

first_category-Outcome :
    (rules : List Rule) (d : List ℕ) (o : Option ℕ) → first_category rules d ≡ o → Outcome rules d o
first_category-Outcome rules d none h = first_category-none rules d h
first_category-Outcome rules d (some c) h = first_category-Decides rules d c h

-- A category is that of the first rule in the schema that accepts the description in lower case,
-- while all earlier rules refuse it; no category means that every rule refuses it.
pub get_category-Outcome :
    (d : List ℕ) → Outcome schema (to_lower_case d) (get_category_from_description d)
unfolding get_category_from_description
get_category-Outcome d = first_category-Outcome schema (to_lower_case d) _ refl

first_category-some :
    (rules : List Rule) (d : List ℕ) (c : ℕ)
    → first_category rules d ≡ some c
    → Any (λ r. r.tester d ≡ true) (filter (λ r. r.category == c) rules)
unfolding first_category
first_category-some [] d c h = cc
first_category-some (r ∷ rs) d c h = elim (Bool-cases (r.tester d)) [
  | inl accepted ↦ rw ((==_iff r.category c).1 (ground arith), filter) (inl accepted)
  | inr refused ↦ elim (Bool-cases (r.category == c)) [
    | inl same ↦ rw (same, filter) (inr (first_category-some rs d c (ground arith)))
    | inr other ↦ rw (other, filter) (first_category-some rs d c (ground arith))
  ]
]

-- a letter that `toLowerCase` never gives
abbrev is_upper : ℕ → Bool
is_upper c = leb b'A' c && leb c b'Z'

abbrev has_upper : List ℕ → Bool
has_upper [] = false
has_upper (c ∷ d) = is_upper c || has_upper d

lower-not-upper : (c : ℕ) → is_upper (lower c) ≡ false
unfolding lower
lower-not-upper c = ground arith

starts_with-upper : (d p : List ℕ) → has_upper p ≡ true → starts_with d p ≡ false
unfolding starts_with
starts_with-upper d [] h = cc
starts_with-upper [] (p ∷ ps) h = refl
starts_with-upper (c ∷ d) (p ∷ ps) h = ground (arith, lower-not-upper c, starts_with-upper d ps)

-- No description whatsoever gets category 243: the pattern of its rule has capital letters, and
-- is compared with a text in lower case.
pub get_category-ne-loyalty_fee : (d : List ℕ) → get_category_from_description d ≢ some 243
unfolding get_category_from_description schema
get_category-ne-loyalty_fee d h =
    elim (loyalty_fee_only (to_lower_case d) (first_category-some schema (to_lower_case d) 243 h)) [
      | inl accepted ↦ cc (starts_with-upper (to_lower_case d) (codes "ETHFX loyalty fee") refl)
      | inr none_left ↦ none_left
    ]
  where
    loyalty_fee_only :
        (text : List ℕ)
        → Any (λ r. r.tester text ≡ true) (filter (λ r. r.category == 243) schema)
        → Any
            (λ r. r.tester text ≡ true)
            (rule (λ d. starts_with d (codes "ETHFX loyalty fee")) 243 ∷ [])
    loyalty_fee_only text found = found
