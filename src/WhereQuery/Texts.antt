-- ===== src/WhereQuery/Texts.antt =====
-- get-where-query.js: comparisons one after another, and joined.
use text.Mathlib.TextLemmas.{
  append_assoc as str_append_assoc, append-nil as str_append_nil, nil-append as str_nil_append,
}
use bfx_reports_framework.Base.{
  ℕ, ◌+◌, ◌≡◌, refl, sym, ap, ◌∙◌, ltb, String, Bool, true, false, ◌||◌, Option, none, some, List,
  [], ◌∷◌, ◌++◌, map, if◌then◌else◌, arith,
}
use bfx_reports_framework.WhereQuery.Comparison.{Values, Leaf, is_nil, ◌⊕◌, join, merge_values}
use bfx_reports_framework.WhereQuery.{op_if}

abbrev pub cons_leaf : Option Leaf → Option (List Leaf) → Option (List Leaf)
cons_leaf none leaves = none
cons_leaf (some leaf) none = none
cons_leaf (some leaf) (some leaves) = some (leaf ∷ leaves)

abbrev pub append_leaves : Option (List Leaf) → Option (List Leaf) → Option (List Leaf)
append_leaves none leaves = none
append_leaves (some first) none = none
append_leaves (some first) (some leaves) = some (first ++ leaves)

-- The comparisons one after another, each behind the operator, but for the first one where `is_set` is
-- false
abbrev pub texts : String → Bool → List Leaf → String
texts operator is_set [] = ""
texts operator is_set (leaf ∷ leaves) =
    op_if is_set operator ⊕ leaf.sub_query ⊕ texts operator true leaves

abbrev pub merged : Values → List Leaf → Values
merged values [] = values
merged values (leaf ∷ leaves) = merged (merge_values values leaf.sub_values) leaves

abbrev pub written : String → Bool → String × Values → Option (List Leaf) → Option (String × Values)
written operator is_set state none = none
written operator is_set (accum, values) (some leaves) =
    some (accum ⊕ texts operator is_set leaves, merged values leaves)

pub written-cons :
    (operator : String) (is_set : Bool) (accum : String) (values : Values) (leaf : Leaf)
    (leaves : Option (List Leaf))
    → written operator true
        (accum ⊕ op_if is_set operator ⊕ leaf.sub_query, merge_values values leaf.sub_values)
        leaves
      ≡ written operator is_set (accum, values) (cons_leaf (some leaf) leaves)
written-cons operator is_set accum values leaf none = refl
written-cons operator is_set accum values leaf (some leaves) =
    ap (λ t. some (t, merged (merge_values values leaf.sub_values) leaves))
      (str_append_assoc accum (op_if is_set operator ⊕ leaf.sub_query) (texts operator true leaves)
        ∙ ap (λ t. accum ⊕ t)
            (str_append_assoc (op_if is_set operator) leaf.sub_query (texts operator true leaves)))

-- What is written in two parts
pub texts-append :
    (operator : String) (is_set : Bool) (xs ys : List Leaf)
    → texts operator is_set xs ⊕ texts operator true ys
      ≡ (if is_nil xs then texts operator true ys else texts operator is_set (xs ++ ys))
texts-append operator is_set [] ys = str_nil_append (texts operator true ys)
texts-append operator is_set (x ∷ []) ys =
    str_append_assoc (op_if is_set operator) (x.sub_query ⊕ "") (texts operator true ys)
    ∙ ap (λ t. op_if is_set operator ⊕ t)
        (ap (λ t. t ⊕ texts operator true ys) (str_append_nil x.sub_query))
texts-append operator is_set (x ∷ y ∷ xs) ys =
    str_append_assoc (op_if is_set operator) (x.sub_query ⊕ texts operator true (y ∷ xs))
      (texts operator true ys)
    ∙ ap (λ t. op_if is_set operator ⊕ t)
        (str_append_assoc x.sub_query (texts operator true (y ∷ xs)) (texts operator true ys)
          ∙ ap (λ t. x.sub_query ⊕ t) (texts-append operator true (y ∷ xs) ys))

pub merged-append :
    (values : Values) (xs ys : List Leaf) → merged (merged values xs) ys ≡ merged values (xs ++ ys)
merged-append values [] ys = refl
merged-append values (x ∷ xs) ys = merged-append (merge_values values x.sub_values) xs ys

pub if_written :
    (operator : String) (is_set : Bool) (state : String × Values) (b : Bool)
    (x y : Option (String × Values)) (u v : Option (List Leaf))
    → x ≡ written operator is_set state u
    → y ≡ written operator is_set state v
    → (if b then x else y) ≡ written operator is_set state (if b then u else v)
if_written operator is_set state true x y u v p q = p
if_written operator is_set state false x y u v p q = q

pub or_suc : (i j : ℕ) → (ltb 0 i || ltb 0 (j + 1)) ≡ true
or_suc i j = ground arith

pub or_zero : (i : ℕ) → (ltb 0 i || ltb 0 0) ≡ ltb 0 i
or_zero i = ground arith

pub texts-append_set :
    (operator : String) (xs ys : List Leaf)
    → texts operator true xs ⊕ texts operator true ys ≡ texts operator true (xs ++ ys)
texts-append_set operator [] ys = str_nil_append (texts operator true ys)
texts-append_set operator (x ∷ xs) ys = texts-append operator true (x ∷ xs) ys

pub join-texts :
    (operator : String) (xs : List Leaf)
    → texts operator false xs ≡ join (" " ⊕ operator ⊕ " ") (map (λ leaf. leaf.sub_query) xs)
join-texts operator [] = refl
join-texts operator (x ∷ []) = str_nil_append (x.sub_query ⊕ "") ∙ str_append_nil x.sub_query
join-texts operator (x ∷ y ∷ xs) =
    str_nil_append _
    ∙ ap (λ t. x.sub_query ⊕ (" " ⊕ operator ⊕ " ") ⊕ t)
        (sym (str_nil_append (y.sub_query ⊕ texts operator true xs)) ∙ join-texts operator (y ∷ xs))
