-- ===== src/WhereQuery/Lost.antt =====
-- get-where-query.js: the values that do not reach their placeholders.
use package.text.Mathlib.TextEquality.{eq_iff}
use package.text.Mathlib.TextPositions.{eq_refl}
use bfx_reports_framework.Base.{
  ◌≡◌, ◌++◌, refl, sym, ap, subst, ◌∙◌, String, str_eq, Bool, true, false, ◌&&◌, ◌||◌, none, some,
  List, [], ◌∷◌, if◌then◌else◌, arith,
}
use bfx_reports_framework.WhereQuery.Conditions.{
  Names, Scalar, Entry, null, undefined, number, boolean, text, scalar, value, Fields,
  serialize_val, names_to_disable,
}
use bfx_reports_framework.WhereQuery.Comparison.{
  Opts, Values, field_at, keys_of, visible, alias_with, ◌⊕◌, query_val_key, Keyed, scalar_values,
  is_null_value, without_dollar, is_set_no_case_op, compare_op_and_key, compare_operator, leaf_of,
  cond_leaf, keys_and_values, plain_leaf,
}
use bfx_reports_framework.WhereQuery.{
  is_array, is_null_operator, is_condition, start_text, get_where_query,
}
use bfx_reports_framework.WhereQuery.Texts.{cons_leaf, append_leaves}
use bfx_reports_framework.WhereQuery.Written.{leaves_at, all_leaves}
use bfx_reports_framework.WhereQuery.Joined.{clause, described, described_for, get_where_query_lem}

abbrev pub is_nullish : Scalar → Bool
is_nullish null = true
is_nullish _ = false

neither :
    (p q b : Bool) (x y z : String)
    → b ≡ false
    → (if p && b then x else if q && b then y else z) ≡ z
neither p q b x y z h = ground (arith, h)

module _ (names : Names) (opts : Opts) where
  abbrev op_and_key : String → String → String → String → String
  op_and_key operator key field name =
      let no_case =
        if is_set_no_case_op (names_to_disable names [] opts.requested_filter) field name
        then "COLLATE NOCASE"
        else "" in
      if str_eq operator "LIKE"
      then operator ⊕ " " ⊕ key ⊕ " ESCAPE '\\'"
      else if str_eq operator "IN" || str_eq operator "NOT IN"
      then no_case ⊕ " " ⊕ operator ⊕ " " ⊕ key
      else if str_eq operator "=" || str_eq operator "!="
      then operator ⊕ " " ⊕ key ⊕ " " ⊕ no_case
      else operator ⊕ " " ⊕ key

  compare_op_and_key-not_null :
      (operator : String) (keyed : Keyed) (field name : String)
      → ((key : String) → is_null_value (field_at key keyed.sub_values) ≡ false)
      → compare_op_and_key names opts operator keyed field name
        ≡ op_and_key operator keyed.key field name
  unfolding compare_op_and_key
  compare_op_and_key-not_null operator keyed field name h =
      neither (str_eq operator "=") (str_eq operator "!=") _ "IS NULL" "IS NOT NULL" _
        (h (if opts.is_prefixed then keyed.key else without_dollar keyed.key))

  -- No value of a scalar is null.
  scalar_values-not_null :
      (name : String) (s : Scalar) (key : String)
      → is_null_value (field_at key (scalar_values opts name (serialize_val (value (scalar s)))))
        ≡ false
  unfolding serialize_val
  scalar_values-not_null name null key = refl
  scalar_values-not_null name undefined key = ground arith
  scalar_values-not_null name (number n) key = ground arith
  scalar_values-not_null name (boolean true) key = ground arith
  scalar_values-not_null name (boolean false) key = ground arith
  scalar_values-not_null name (text t) key = ground arith

  leaf_of-scalar :
      (field name key_name : String) (s : Scalar)
      → leaf_of names opts field name false
          (keys_and_values opts key_name false (some (value (scalar s))))
        ≡ some (record {
          sub_query =
              alias_with opts "."
              ⊕ field
              ⊕ " "
              ⊕ op_and_key
                  (compare_operator names name false)
                  ("$" ⊕ alias_with opts "_" ⊕ key_name)
                  field
                  name;
          sub_values =
              scalar_values opts
                (alias_with opts "_" ⊕ key_name)
                (serialize_val (value (scalar s)));
        })
  unfolding keys_and_values
  leaf_of-scalar field name key_name s = λ i. some (record {
    sub_query =
        alias_with opts "."
        ⊕ field
        ⊕ " "
        ⊕ compare_op_and_key-not_null (compare_operator names name false)
            (record {
              key = "$" ⊕ alias_with opts "_" ⊕ key_name;
              sub_values =
                  scalar_values opts (alias_with opts "_" ⊕ key_name)
                    (serialize_val (value (scalar s)));
            })
            field name (scalar_values-not_null (alias_with opts "_" ⊕ key_name) s) i;
    sub_values =
        scalar_values opts (alias_with opts "_" ⊕ key_name) (serialize_val (value (scalar s)));
  })

  serialize_val-not_null :
      (name : String) (s : Scalar)
      → is_nullish s ≡ false
      → scalar_values opts name (serialize_val (value (scalar s)))
        ≡ (query_val_key opts name, serialize_val (value (scalar s))) ∷ []
  unfolding serialize_val
  serialize_val-not_null name null h = cc
  serialize_val-not_null name undefined h = refl
  serialize_val-not_null name (number n) h = refl
  serialize_val-not_null name (boolean true) h = refl
  serialize_val-not_null name (boolean false) h = refl
  serialize_val-not_null name (text t) h = refl

-- A comparison of a field with null under a condition is written as the one with any other value is,
-- with the condition's operator and the placeholder, but the placeholder gets no value: the operator
-- never becomes IS NULL or IS NOT NULL.
pub cond_leaf-null :
    (names : Names) (opts : Opts) (name field : String) (s : Scalar)
    → str_eq field "" ≡ false
    → is_nullish s ≡ false
    → let leaf = λ (t : Scalar). cond_leaf names opts name ((field, scalar t) ∷ []) field false in
      let key = alias_with opts "_" ⊕ field ⊕ "_" ⊕ name in
      (q : String) × (leaf null ≡ some (record { sub_query = q; sub_values = [] }))
      × (leaf s
          ≡ some (record {
            sub_query = q;
            sub_values = (query_val_key opts key, serialize_val (value (scalar s))) ∷ [];
          }))
unfolding serialize_val
cond_leaf-null names opts name field s named h =
    let key = field ⊕ "_" ⊕ name in
    let q =
      alias_with opts "."
      ⊕ field
      ⊕ " "
      ⊕ op_and_key names opts (compare_operator names name false) ("$" ⊕ alias_with opts "_" ⊕ key)
          field name in
    (
      q,
      rw (named, eq_refl field) (leaf_of-scalar names opts field name key null),
      rw (named, eq_refl field)
          (leaf_of-scalar names opts field name key s
            ∙ ap (λ (v : Values). some (record { sub_query = q; sub_values = v }))
                (serialize_val-not_null names opts (alias_with opts "_" ⊕ key) s h)),
    )

module _ (names : Names) (opts : Opts) (key : String) (before rest outer : Fields)
    (plain : is_condition names opts key ≡ false) (not_null : str_eq key names.is_null ≡ false)
    (not_not_null : str_eq key names.is_not_null ≡ false) where
  abbrev pub with_value : Entry → Fields
  with_value v = before ++ ((key, v) ∷ rest)

  is_null_operator-none : (v : Entry) → is_null_operator names opts key (some v) ≡ none
  unfolding is_null_operator
  is_null_operator-none v = rw (not_null, not_not_null) refl

  leaves_at-own :
      (v : Entry)
      → leaves_at names opts outer key (some v)
        ≡ cons_leaf (plain_leaf names opts key outer (is_array (some v))) (some [])
  leaves_at-own v = rw (is_null_operator-none v, plain) refl

  keys_of-value :
      (v w : Entry) (fields : Fields)
      → keys_of (fields ++ ((key, v) ∷ rest)) ≡ keys_of (fields ++ ((key, w) ∷ rest))
  keys_of-value v w [] = refl
  keys_of-value v w ((k, e) ∷ fields) = ap (λ (ks : List String). k ∷ ks) (keys_of-value v w fields)

  module _ (v w : Entry) (both : is_array (some v) ≡ is_array (some w)) where
    leaves_at-both :
        leaves_at names opts outer key (some v) ≡ leaves_at names opts outer key (some w)
    leaves_at-both =
        leaves_at-own v
        ∙ ap (λ is_arr. cons_leaf (plain_leaf names opts key outer is_arr) (some [])) both
        ∙ sym (leaves_at-own w)

    leaves_at-same :
        (k : String) (b : Bool)
        → str_eq key k ≡ b
        → leaves_at names opts outer k (if b then some v else field_at k rest)
          ≡ leaves_at names opts outer k (if b then some w else field_at k rest)
    leaves_at-same k true e =
        subst (λ j. leaves_at names opts outer j (some v) ≡ leaves_at names opts outer j (some w))
          ((eq_iff key k).0 e) leaves_at-both
    leaves_at-same k false e = refl

    leaves_at-value :
        (k : String) (fields : Fields)
        → leaves_at names opts outer k (field_at k (fields ++ ((key, v) ∷ rest)))
          ≡ leaves_at names opts outer k (field_at k (fields ++ ((key, w) ∷ rest)))
    leaves_at-value k [] = leaves_at-same k (str_eq key k) refl
    leaves_at-value k ((j, e) ∷ fields) =
        elim (str_eq j k)
          as (λ b.
            leaves_at names opts outer k
              (if b then some e else field_at k (fields ++ ((key, v) ∷ rest)))
            ≡ leaves_at names opts outer k
                (if b then some e else field_at k (fields ++ ((key, w) ∷ rest)))) [
                  | true ↦ refl
                  | false ↦ leaves_at-value k fields
                ]

    all_leaves-same :
        (keys : List String)
        → all_leaves names opts (with_value v) outer keys
          ≡ all_leaves names opts (with_value w) outer keys
    all_leaves-same [] = refl
    all_leaves-same (k ∷ keys) =
        λ i. append_leaves (leaves_at-value k before i) (all_leaves-same keys i)

    described_for-same :
        (keys : List String)
        → described_for names opts "OR" (with_value v) outer keys
          ≡ described_for names opts "OR" (with_value w) outer keys
    described_for-same [] = refl
    described_for-same (k ∷ ks) = λ i.
        clause names opts "OR" (start_text names opts (k ∷ ks)) (leaves_at-value k before i)
          (all_leaves-same ks i)

    described-same :
        described names opts "OR" (with_value v) outer
        ≡ described names opts "OR" (with_value w) outer
    described-same =
        described_for-same (visible (keys_of (with_value v)))
        ∙ ap (λ ks. described_for names opts "OR" (with_value w) outer (visible ks))
            (keys_of-value v w before)

    -- The clause and the values of a filter with $or are the same, and it is a TypeError for the same
    -- filters, whatever the value is that a field under $or has, wherever it stands among the fields,
    -- which is no condition: the code looks it up in the filter itself. Of the value only whether it is
    -- a list is seen.
    pub get_where_query-or_ignored :
        get_where_query names opts (record { fields = outer; or_fields = some (with_value v) })
        ≡ get_where_query names opts (record { fields = outer; or_fields = some (with_value w) })
    get_where_query-or_ignored =
        get_where_query_lem names opts (record { fields = outer; or_fields = some (with_value v) })
        ∙ described-same
        ∙ sym (
            get_where_query_lem names opts
              (record { fields = outer; or_fields = some (with_value w) }))
