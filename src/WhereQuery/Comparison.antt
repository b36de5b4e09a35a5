-- ===== src/WhereQuery/Comparison.antt =====
-- get-where-query.js: one comparison of the clause, with its values (_getWhereQueryAndValues).
use Prim.Native.Char.{code}
use Prim.Native.String.{◌++◌ as str_append}
use bfx_reports_framework.Base.{
  ℕ, ◌+◌, ◌==◌, String, str_eq, Bool, true, false, not, ◌&&◌, ◌||◌, Option, none, some, List, [],
  ◌∷◌, map, filter, any, if◌then◌else◌,
}
use bfx_reports_framework.WhereQuery.Conditions.{
  Names, Scalar, null, undefined, Value, scalar, array, Entry, value, object, Bound, bound, Fields,
  index_text, shown, serialize_val, names_to_disable, Disabled,
}

pub record Opts : Type 0 where
  pub is_prefixed : Bool
  pub is_not_set_where_clause : Bool
  pub requested_filter : Fields
  pub alias : String

abbrev pub Values : Type 0
Values = List (String × Bound)

abbrev pub is_nil : {A : Type 0} → List A → Bool
is_nil [] = true
is_nil (x ∷ xs) = false

infixr 5 ◌⊕◌
abbrev pub ◌⊕◌ : String → String → String
a ⊕ b = str_append a b

module _ {A : Type 0} where
  -- `object[key]`
  abbrev pub field_at : String → List (String × A) → Option A
  field_at key [] = none
  field_at key ((k, a) ∷ fields) = if str_eq k key then some a else field_at key fields

  abbrev pub keys_of : List (String × A) → List String
  keys_of [] = []
  keys_of ((k, a) ∷ fields) = k ∷ keys_of fields

-- `omit(object, ['_dateFieldName'])`
abbrev pub visible : List String → List String
visible keys = filter (λ key. not (str_eq key "_dateFieldName")) keys

-- `{ ...values, ...subValues }`
unfoldable pub set_value : Values → String × Bound → Values
set_value [] (key, s) = (key, s) ∷ []
set_value ((k, t) ∷ values) (key, s) =
    if str_eq k key then (k, s) ∷ values else (k, t) ∷ set_value values (key, s)

unfoldable pub merge_values : Values → Values → Values
unfolding set_value
merge_values values [] = values
merge_values values (pair ∷ sub_values) = merge_values (set_value values pair) sub_values

-- `array.join(separator)`
abbrev pub join : String → List String → String
join separator [] = ""
join separator (s ∷ []) = s
join separator (s ∷ t ∷ rest) = s ⊕ separator ⊕ join separator (t ∷ rest)

unfoldable pub compare_operator : Names → String → Bool → String
compare_operator names name is_arr =
    if str_eq name "start"
    then ">="
    else if str_eq name "end"
    then "<="
    else if str_eq name names.gt
    then ">"
    else if str_eq name names.gte
    then ">="
    else if str_eq name names.lt
    then "<"
    else if str_eq name names.lte
    then "<="
    else if str_eq name names.like
    then "LIKE"
    else if str_eq name names.ne
    then "!="
    else if str_eq name names.eq
    then "="
    else if is_arr && str_eq name names.in_list
    then "IN"
    else if is_arr && str_eq name names.nin
    then "NOT IN"
    else if str_eq name names.not_eq
    then (if is_arr then "NOT IN" else "!=")
    else if is_arr
    then "IN"
    else "="

-- `alias` with what stands after it
abbrev pub alias_with : Opts → String → String
alias_with opts after = if str_eq opts.alias "" then "" else opts.alias ⊕ after

-- `queryValKey`
abbrev pub query_val_key : Opts → String → String
query_val_key opts name = if opts.is_prefixed then "$" ⊕ name else name

pub record Keyed : Type 0 where
  pub key : String
  pub sub_values : Values

unfoldable pub item_keys : String → ℕ → List Scalar → List String
item_keys name j [] = []
item_keys name j (item ∷ items) = ("$" ⊕ name ⊕ "_" ⊕ index_text j) ∷ item_keys name (j + 1) items

unfoldable pub item_values : Opts → String → ℕ → List Scalar → Values
unfolding serialize_val
item_values opts name j [] = []
item_values opts name j (item ∷ items) =
    (query_val_key opts (name ⊕ "_" ⊕ index_text j), serialize_val (value (scalar item)))
    ∷ item_values opts name (j + 1) items

-- A null gets no value.
abbrev pub scalar_values : Opts → String → Bound → Values
scalar_values opts name (bound null) = []
scalar_values opts name b = (query_val_key opts name, b) ∷ []

abbrev pub serialize_field : Option Entry → Bound
serialize_field none = bound undefined
serialize_field (some entry) = serialize_val entry

-- `_getKeysAndValuesForWhereQuery`, by `isArr` and what the filter has for the field
unfoldable pub keys_and_values : Opts → String → Bool → Option Entry → Option Keyed
unfolding item_keys item_values serialize_val
keys_and_values opts field false entry =
    let name = alias_with opts "_" ⊕ field in
    some (record { key = "$" ⊕ name; sub_values = scalar_values opts name (serialize_field entry) })
keys_and_values opts field true (some (value (array items))) =
    let name = alias_with opts "_" ⊕ field in
    some (record {
      key = "(" ⊕ join ", " (item_keys name 0 items) ⊕ ")";
      sub_values = item_values opts name 0 items;
    })
keys_and_values opts field true _ = none

-- `subValues[key] === null`
abbrev pub is_null_value : Option Bound → Bool
is_null_value (some (bound null)) = true
is_null_value _ = false

-- `key.replace(/^[$]/, '')`
abbrev pub without_dollar : String → String
without_dollar String.[] = ""
without_dollar (String.◌∷◌ c s) = if code c == b'$' then s else String.◌∷◌ c s

-- `_isSetNoCaseOp`
unfoldable pub is_set_no_case_op : Disabled → String → String → Bool
is_set_no_case_op [] field name = false
is_set_no_case_op ((op, fields) ∷ disabled) field name =
    (str_eq op name && any (λ f. str_eq f field) fields) || is_set_no_case_op disabled field name

-- `_getCompareOpAndKey`: the operator with the key after it
unfoldable pub compare_op_and_key : Names → Opts → String → Keyed → String → String → String
unfolding is_set_no_case_op names_to_disable
compare_op_and_key names opts operator keyed field name =
    let query_key = if opts.is_prefixed then keyed.key else without_dollar keyed.key in
    let no_case =
      if is_set_no_case_op (names_to_disable names [] opts.requested_filter) field name
      then "COLLATE NOCASE"
      else "" in
    let is_null_sub = is_null_value (field_at query_key keyed.sub_values) in
    if str_eq operator "=" && is_null_sub
    then "IS NULL"
    else if str_eq operator "!=" && is_null_sub
    then "IS NOT NULL"
    else if str_eq operator "LIKE"
    then operator ⊕ " " ⊕ keyed.key ⊕ " ESCAPE '\\'"
    else if str_eq operator "IN" || str_eq operator "NOT IN"
    then no_case ⊕ " " ⊕ operator ⊕ " " ⊕ keyed.key
    else if str_eq operator "=" || str_eq operator "!="
    then operator ⊕ " " ⊕ keyed.key ⊕ " " ⊕ no_case
    else operator ⊕ " " ⊕ keyed.key

-- One comparison: its text, without what stands before it, and its values
pub record Leaf : Type 0 where
  pub sub_query : String
  pub sub_values : Values

-- An item in the text of an array
abbrev pub shown_item : Scalar → String
shown_item null = ""
shown_item undefined = ""
shown_item s = shown s

abbrev pub shown_entry : Option Entry → String
shown_entry none = "undefined"
shown_entry (some (value (scalar s))) = shown s
shown_entry (some (value (array items))) = join "," (map shown_item items)
shown_entry (some (object fields)) = "[object Object]"

abbrev pub leaf_of : Names → Opts → String → String → Bool → Option Keyed → Option Leaf
leaf_of names opts field name is_arr none = none
leaf_of names opts field name is_arr (some keyed) = some (record {
  sub_query =
      alias_with opts "."
      ⊕ field
      ⊕ " "
      ⊕ compare_op_and_key names opts (compare_operator names name is_arr) keyed field name;
  sub_values = keyed.sub_values;
})

abbrev pub entries_of : List (String × Value) → Fields
entries_of [] = []
entries_of ((k, v) ∷ fields) = (k, value v) ∷ entries_of fields

module _ (names : Names) (opts : Opts) where
  -- `_getWhereQueryAndValues` with no condition's field: `name` is looked up in the filter.
  abbrev pub plain_leaf : String → Fields → Bool → Option Leaf
  plain_leaf name fields is_arr =
      let field =
        if str_eq name "start" || str_eq name "end"
        then shown_entry (field_at "_dateFieldName" fields)
        else name in
      leaf_of names opts field name is_arr (keys_and_values opts name is_arr (field_at name fields))

  -- and with the field that the condition `name` is about
  abbrev pub cond_leaf : String → List (String × Value) → String → Bool → Option Leaf
  cond_leaf name fields field is_arr =
      if str_eq field ""
      then plain_leaf name (entries_of fields) is_arr
      else leaf_of names opts field name is_arr
          (keys_and_values opts (field ⊕ "_" ⊕ name) is_arr (field_at field (entries_of fields)))
