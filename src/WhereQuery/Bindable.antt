-- ===== src/WhereQuery/Bindable.antt =====
-- get-where-query.js: the values that it gives to the database.
use bfx_reports_framework.Base.{
  ℕ, ◌+◌, ◌≡◌, refl, subst, ◌∙◌, sym, String, str_eq, Bool, true, false, Option, none, some, List,
  [], ◌∷◌, ◌++◌, All, All-append, if_ind,
}
use bfx_reports_framework.WhereQuery.Conditions.{
  Names, Scalar, null, undefined, number, boolean, text, Value, scalar, array, Entry, value, object,
  Bound, bound, json_array, json_object, Fields, serialize_val,
}
use bfx_reports_framework.WhereQuery.Comparison.{
  Opts, Values, Keyed, Leaf, set_value, merge_values, item_values, scalar_values, keys_and_values,
  leaf_of, plain_leaf, cond_leaf, field_at, entries_of, keys_of, visible, ◌⊕◌, alias_with,
}
use bfx_reports_framework.WhereQuery.{
  Filter, is_array, is_condition, is_null_operator, cond_filter, get_where_query,
}
use bfx_reports_framework.WhereQuery.Texts.{cons_leaf, append_leaves, merged}
use bfx_reports_framework.WhereQuery.Written.{cond_leaves, leaves_of, key_leaves, all_leaves}
use bfx_reports_framework.WhereQuery.Joined.{clause, described, described_for, get_where_query_lem}

-- What the database takes: no Boolean
abbrev pub is_bindable : Bound → Bool
is_bindable (bound (boolean b)) = false
is_bindable _ = true

abbrev pub AreBindable : Values → Type 0
AreBindable values = All (λ v. is_bindable v.1 ≡ true) values

abbrev OnSome : {A : Type 0} → (A → Type 0) → Option A → Type 0
OnSome P none = Unit
OnSome P (some a) = P a

serialize_val-bindable : (entry : Entry) → is_bindable (serialize_val entry) ≡ true
unfolding serialize_val
serialize_val-bindable (value (scalar null)) = refl
serialize_val-bindable (value (scalar undefined)) = refl
serialize_val-bindable (value (scalar (number n))) = refl
serialize_val-bindable (value (scalar (boolean true))) = refl
serialize_val-bindable (value (scalar (boolean false))) = refl
serialize_val-bindable (value (scalar (text s))) = refl
serialize_val-bindable (value (array items)) = refl
serialize_val-bindable (object fields) = refl

set_value-AreBindable :
    (values : Values) (key : String) (b : Bound)
    → is_bindable b ≡ true
    → AreBindable values
    → AreBindable (set_value values (key, b))
unfolding set_value
set_value-AreBindable [] key b h a = (h, tt)
set_value-AreBindable ((k, c) ∷ values) key b h a =
    if_ind AreBindable (str_eq k key) (λ _. (h, a.1))
      (λ _. (a.0, set_value-AreBindable values key b h a.1))

merge_values-AreBindable :
    (values sub_values : Values)
    → AreBindable values
    → AreBindable sub_values
    → AreBindable (merge_values values sub_values)
unfolding merge_values
merge_values-AreBindable values [] a b = a
merge_values-AreBindable values ((key, v) ∷ rest) a b =
    merge_values-AreBindable (set_value values (key, v)) rest
      (set_value-AreBindable values key v b.0 a) b.1

item_values-AreBindable :
    (opts : Opts) (name : String) (j : ℕ) (items : List Scalar)
    → AreBindable (item_values opts name j items)
unfolding item_values
item_values-AreBindable opts name j [] = tt
item_values-AreBindable opts name j (item ∷ items) =
    (serialize_val-bindable (value (scalar item)), item_values-AreBindable opts name (j + 1) items)

scalar_values-AreBindable :
    (opts : Opts) (name : String) (b : Bound)
    → is_bindable b ≡ true
    → AreBindable (scalar_values opts name b)
scalar_values-AreBindable opts name (bound null) h = tt
scalar_values-AreBindable opts name (bound undefined) h = (h, tt)
scalar_values-AreBindable opts name (bound (number n)) h = (h, tt)
scalar_values-AreBindable opts name (bound (boolean b)) h = (h, tt)
scalar_values-AreBindable opts name (bound (text s)) h = (h, tt)
scalar_values-AreBindable opts name (json_array items) h = (h, tt)
scalar_values-AreBindable opts name (json_object fields) h = (h, tt)

keys_and_values-AreBindable :
    (opts : Opts) (field : String) (is_arr : Bool) (entry : Option Entry)
    → OnSome
        (λ (keyed : Keyed). AreBindable keyed.sub_values)
        (keys_and_values opts field is_arr entry)
unfolding keys_and_values
keys_and_values-AreBindable opts field false none =
    scalar_values-AreBindable opts (alias_with opts "_" ⊕ field) (bound undefined) refl
keys_and_values-AreBindable opts field false (some entry) =
    scalar_values-AreBindable opts (alias_with opts "_" ⊕ field) (serialize_val entry)
      (serialize_val-bindable entry)
keys_and_values-AreBindable opts field true none = tt
keys_and_values-AreBindable opts field true (some (value (scalar s))) = tt
keys_and_values-AreBindable opts field true (some (value (array items))) =
    item_values-AreBindable opts (alias_with opts "_" ⊕ field) 0 items
keys_and_values-AreBindable opts field true (some (object fields)) = tt

abbrev IsBindable : Option Leaf → Type 0
IsBindable = OnSome (λ (leaf : Leaf). AreBindable leaf.sub_values)

abbrev AllBindable : Option (List Leaf) → Type 0
AllBindable = OnSome (All (λ (leaf : Leaf). AreBindable leaf.sub_values))

merged-AreBindable :
    (values : Values) (leaves : List Leaf)
    → AreBindable values
    → AllBindable (some leaves)
    → AreBindable (merged values leaves)
merged-AreBindable values [] a b = a
merged-AreBindable values (leaf ∷ leaves) a b =
    merged-AreBindable (merge_values values leaf.sub_values) leaves
      (merge_values-AreBindable values leaf.sub_values a b.0) b.1

cons_leaf-AllBindable :
    (o : Option Leaf) (os : Option (List Leaf))
    → IsBindable o
    → AllBindable os
    → AllBindable (cons_leaf o os)
cons_leaf-AllBindable none os a b = tt
cons_leaf-AllBindable (some leaf) none a b = tt
cons_leaf-AllBindable (some leaf) (some leaves) a b = (a, b)

append_leaves-AllBindable :
    (xs ys : Option (List Leaf))
    → AllBindable xs
    → AllBindable ys
    → AllBindable (append_leaves xs ys)
append_leaves-AllBindable none ys a b = tt
append_leaves-AllBindable (some xs) none a b = tt
append_leaves-AllBindable (some xs) (some ys) a b = All-append _ xs ys a b

module _ (names : Names) (opts : Opts) where
  leaf_of-IsBindable :
      (field name : String) (is_arr : Bool) (o : Option Keyed)
      → OnSome (λ (keyed : Keyed). AreBindable keyed.sub_values) o
      → IsBindable (leaf_of names opts field name is_arr o)
  leaf_of-IsBindable field name is_arr none a = tt
  leaf_of-IsBindable field name is_arr (some keyed) a = a

  plain_leaf-IsBindable :
      (name : String) (fields : Fields) (is_arr : Bool)
      → IsBindable (plain_leaf names opts name fields is_arr)
  plain_leaf-IsBindable name fields is_arr =
      leaf_of-IsBindable _ name is_arr (keys_and_values opts name is_arr (field_at name fields))
        (keys_and_values-AreBindable opts name is_arr (field_at name fields))

  cond_leaf-IsBindable :
      (name : String) (fields : List (String × Value)) (field : String) (is_arr : Bool)
      → IsBindable (cond_leaf names opts name fields field is_arr)
  cond_leaf-IsBindable name fields field is_arr =
      if_ind IsBindable (str_eq field "")
        (λ _. plain_leaf-IsBindable name (entries_of fields) is_arr)
        (λ _. leaf_of-IsBindable field name is_arr _ (
          keys_and_values-AreBindable opts (field ⊕ "_" ⊕ name) is_arr
            (field_at field (entries_of fields))))

  cond_leaves-AllBindable :
      (name : String) (fields : List (String × Value)) (keys : List String)
      → AllBindable (cond_leaves names opts name fields keys)
  cond_leaves-AllBindable name fields [] = tt
  cond_leaves-AllBindable name fields (field ∷ rest) =
      cons_leaf-AllBindable _ (cond_leaves names opts name fields rest)
        (cond_leaf-IsBindable name fields field (is_array (field_at field (entries_of fields))))
        (cond_leaves-AllBindable name fields rest)

  leaves_of-AllBindable :
      (outer : Fields) (key : String) (entry : Option Entry) (o : Option String)
      → AllBindable (leaves_of names opts outer key entry o)
  leaves_of-AllBindable outer key entry (some null_op) = (tt, tt)
  leaves_of-AllBindable outer key entry none =
      if_ind AllBindable (is_condition names opts key)
        (λ _.
          cond_leaves-AllBindable key (cond_filter entry) (visible (keys_of (cond_filter entry))))
        (λ _.
          cons_leaf-AllBindable (plain_leaf names opts key outer (is_array entry)) (some [])
            (plain_leaf-IsBindable key outer (is_array entry)) tt)

  module _ (own outer : Fields) where
    key_leaves-AllBindable : (key : String) → AllBindable (key_leaves names opts own outer key)
    key_leaves-AllBindable key =
        leaves_of-AllBindable outer key (field_at key own)
          (is_null_operator names opts key (field_at key own))

    all_leaves-AllBindable :
        (keys : List String) → AllBindable (all_leaves names opts own outer keys)
    all_leaves-AllBindable [] = tt
    all_leaves-AllBindable (key ∷ keys) =
        append_leaves-AllBindable (key_leaves names opts own outer key)
          (all_leaves names opts own outer keys) (key_leaves-AllBindable key)
          (all_leaves-AllBindable keys)

  abbrev HasBindable : Option (String × Values) → Type 0
  HasBindable = OnSome (λ (result : String × Values). AreBindable result.1)

  clause-HasBindable :
      (operator start : String) (first others : Option (List Leaf))
      → AllBindable first
      → AllBindable others
      → HasBindable (clause names opts operator start first others)
  clause-HasBindable operator start none others a b = tt
  clause-HasBindable operator start (some first) none a b = tt
  clause-HasBindable operator start (some first) (some others) a b =
      merged-AreBindable [] (first ++ others) tt (All-append _ first others a b)

  described-HasBindable :
      (operator : String) (own outer : Fields) (keys : List String)
      → HasBindable (described_for names opts operator own outer keys)
  described-HasBindable operator own outer [] = tt
  described-HasBindable operator own outer (key ∷ keys) =
      clause-HasBindable operator _ (key_leaves names opts own outer key)
        (all_leaves names opts own outer keys) (key_leaves-AllBindable own outer key)
        (all_leaves-AllBindable own outer keys)

-- Whatever the filter, no Boolean is among the values of its clause's placeholders, which the database
-- would not take: serializeVal has made each a number.
pub get_where_query-AreBindable :
    (names : Names) (opts : Opts) (f : Filter) (where_text : String) (values : Values)
    → get_where_query names opts f ≡ some (where_text, values)
    → AreBindable values
get_where_query-AreBindable names opts f where_text values e =
    subst (HasBindable names opts) (sym (get_where_query_lem names opts f) ∙ e) (of_or f.or_fields)
  where
    of_or :
        (o : Option Fields)
        → HasBindable names opts (elim o [
          | none ↦ described names opts "AND" f.fields f.fields
          | some own ↦ described names opts "OR" own f.fields
        ])
    of_or none =
        described-HasBindable names opts "AND" f.fields f.fields (visible (keys_of f.fields))
    of_or (some own) = described-HasBindable names opts "OR" own f.fields (visible (keys_of own))
