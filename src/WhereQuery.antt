-- ===== src/WhereQuery.antt =====
-- workers/loc.api/sync/dao/helpers/get-where-query.js with sql.operators.js and serialize-val.js: the
-- WHERE clause of a filter, and the values of its placeholders.
--
-- An object is the list of its fields in their order. The names of the conditions are the package's.
-- `none` is a TypeError: the `map` of a value that is no array.
pub mod Conditions
pub mod Comparison
pub mod Texts
pub mod Written
pub mod Joined
pub mod Lost
pub mod Bindable
mod Samples
use Prim.Native.Char.{code}
use Prim.Native.String.{◌++◌ as str_append}
use bfx_reports_framework.Base.{
  ℕ, zero, suc, ◌+◌, ltb, ◌==◌, String, str_eq, Bool, true, false, not, ◌&&◌, ◌||◌, Option, none,
  some, List, [], ◌∷◌, ◌++◌, map, filter, any, if◌then◌else◌,
}
use bfx_reports_framework.WhereQuery.Conditions.{
  Names, Scalar, null, undefined, text, Value, scalar, array, Entry, value, object, Bound, bound,
  Fields, index_text, shown, serialize_val, names_to_disable, Disabled,
}
use bfx_reports_framework.WhereQuery.Comparison.{
  Values, is_nil, ◌⊕◌, field_at, keys_of, visible, set_value, merge_values, join, compare_operator,
  alias_with, query_val_key, item_keys, item_values, scalar_values, serialize_field,
  keys_and_values, is_null_value, without_dollar, is_set_no_case_op, compare_op_and_key, shown_item,
  shown_entry, leaf_of, entries_of, plain_leaf, cond_leaf, Opts, Keyed, Leaf,
}

pub record Filter : Type 0 where
  pub fields : Fields
  pub or_fields : Option Fields

abbrev pub is_array : Option Entry → Bool
is_array (some (value (array items))) = true
is_array _ = false

abbrev pub null_names : Option Entry → List String
null_names (some (value (array items))) = map shown items
null_names entry = shown_entry entry ∷ []

abbrev pub indexed : ℕ → List Scalar → List (String × Value)
indexed j [] = []
indexed j (item ∷ items) = (index_text j, scalar item) ∷ indexed (j + 1) items

-- `condFilter`
abbrev pub cond_filter : Option Entry → List (String × Value)
cond_filter (some (object fields)) = fields
cond_filter (some (value (array items))) = indexed 0 items
cond_filter _ = []

abbrev pub added : String × Values → String → Option Leaf → Option (String × Values)
added state op none = none
added (accum, values) op (some leaf) =
    some (accum ⊕ op ⊕ leaf.sub_query, merge_values values leaf.sub_values)

abbrev pub op_if : Bool → String → String
op_if is_set operator = if is_set then " " ⊕ operator ⊕ " " else ""

abbrev pub after_cond : String → Option (String × Values) → Option (String × Values)
after_cond accum none = none
after_cond accum (some (query, values)) = some (accum ⊕ query, values)

module _ (names : Names) (opts : Opts) where
  -- `_getIsNullOperator`, `none` for false
  unfoldable pub is_null_operator : String → Option Entry → Option String
  unfolding shown
  is_null_operator name entry =
      let operator = if str_eq name names.is_not_null then "IS NOT NULL" else "IS NULL" in
      let fields = null_names entry in
      if not (str_eq name names.is_null || str_eq name names.is_not_null) || is_nil fields
      then none
      else some (join " AND " (map (λ field. alias_with opts "." ⊕ field ⊕ " " ⊕ operator) fields))

  unfoldable pub is_condition : String → Bool
  is_condition name =
      any (λ n. str_eq n name)
        (names.gt ∷ names.gte ∷ names.lt ∷ names.lte ∷ names.not_eq ∷ names.like ∷ names.eq
          ∷ names.ne ∷ names.in_list ∷ names.nin ∷ [])

  -- The inner `reduce`, from the field with the index `j` on
  unfoldable pub cond_loop :
      String
      → String
      → List (String × Value)
      → ℕ
      → ℕ
      → List String
      → Option (String × Values)
      → Option (String × Values)
  unfolding compare_op_and_key compare_operator keys_and_values merge_values
  cond_loop operator name fields i j [] state = state
  cond_loop operator name fields i j (field ∷ rest) none = none
  cond_loop operator name fields i j (field ∷ rest) (some state) =
      cond_loop operator name fields i (j + 1) rest (
        added state (op_if (ltb 0 i || ltb 0 j) operator)
          (cond_leaf names opts name fields field (is_array (field_at field (entries_of fields)))))

  -- The body of the outer `reduce`: `own` is the object that is walked through, `outer` the filter.
  abbrev pub key_step :
      String
      → Fields
      → Fields
      → ℕ
      → String
      → Option String
      → String × Values
      → Option (String × Values)
  key_step operator own outer i key (some null_op) (accum, values) =
      some (accum ⊕ op_if (ltb 0 i) operator ⊕ null_op, values)
  key_step operator own outer i key none (accum, values) =
      let entry = field_at key own in
      let fields = cond_filter entry in
      if is_condition key
      then after_cond accum
          (cond_loop operator key fields i 0 (visible (keys_of fields)) (some ("", values)))
      else added (accum, values) (op_if (ltb 0 i) operator)
          (plain_leaf names opts key outer (is_array entry))

  unfoldable pub key_loop :
      String
      → Fields
      → Fields
      → ℕ
      → List String
      → Option (String × Values)
      → Option (String × Values)
  unfolding is_null_operator is_condition cond_loop compare_op_and_key compare_operator
      keys_and_values merge_values
  key_loop operator own outer i [] state = state
  key_loop operator own outer i (key ∷ rest) none = none
  key_loop operator own outer i (key ∷ rest) (some state) =
      key_loop operator own outer (i + 1) rest
        (key_step operator own outer i key (is_null_operator key (field_at key own)) state)

  abbrev pub start_text : List String → String
  start_text keys = if opts.is_not_set_where_clause || is_nil keys then "" else "WHERE "

  abbrev pub where_query : String → Fields → Fields → Option (String × Values)
  where_query operator own outer =
      let keys = visible (keys_of own) in
      key_loop operator own outer 0 keys (some (start_text keys, []))

  -- `module.exports`
  unfoldable pub get_where_query : Filter → Option (String × Values)
  unfolding key_loop
  get_where_query f = elim f.or_fields [
    | none ↦ where_query "AND" f.fields f.fields
    | some own ↦ where_query "OR" own f.fields
  ]
