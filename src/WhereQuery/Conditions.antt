-- ===== src/WhereQuery/Conditions.antt =====
-- get-where-query.js: the filters, their conditions, and the fields whose letters' case is not to count
-- (_getFieldsNamesToDisableCaseSensitivity).
use Prim.Native.String.{◌++◌ as str_append}
use bfx_reports_framework.Base.{
  ℕ, zero, suc, ◌/◌, ◌%◌, ltb, ◌==◌, String, str_eq, Bool, true, false, not, List, [], ◌∷◌, ◌++◌,
  any, if◌then◌else◌,
}
use bfx_reports_framework.Base.Int.{ℤ, pos, negsuc}

-- FILTER_CONDITIONS
pub record Names : Type 0 where
  pub gt : String
  pub gte : String
  pub lt : String
  pub lte : String
  pub like : String
  pub ne : String
  pub eq : String
  pub in_list : String
  pub nin : String
  pub not_eq : String
  pub is_null : String
  pub is_not_null : String
  pub or_op : String

pub data Scalar : Type 0 where
  null undefined : Scalar
  number : ℤ → Scalar
  boolean : Bool → Scalar
  text : String → Scalar

pub data Value : Type 0 where
  scalar : Scalar → Value
  array : List Scalar → Value

-- What a field of a filter holds. `object` is what a condition holds.
pub data Entry : Type 0 where
  value : Value → Entry
  object : List (String × Value) → Entry

abbrev pub Fields : Type 0
Fields = List (String × Entry)

abbrev digit : ℕ → String
digit n =
    if n == 0
    then "0"
    else if n == 1
    then "1"
    else if n == 2
    then "2"
    else if n == 3
    then "3"
    else if n == 4
    then "4"
    else if n == 5
    then "5"
    else if n == 6
    then "6"
    else if n == 7
    then "7"
    else if n == 8
    then "8"
    else "9"

-- A number has no more digits than it is large, but 0 has one.
unfoldable pub digits : ℕ → ℕ → String
digits zero n = digit n
digits (suc fuel) n =
    let front = digits fuel (n / 10) in
    if ltb n 10 then digit n else str_append front (digit (n % 10))

abbrev pub index_text : ℕ → String
index_text n = digits n n

-- A value in a template string
unfoldable pub shown : Scalar → String
unfolding digits
shown null = "null"
shown undefined = "undefined"
shown (number (pos n)) = index_text n
shown (number (negsuc n)) = str_append "-" (index_text (suc n))
shown (boolean true) = "true"
shown (boolean false) = "false"
shown (text s) = s

-- What is given to the database. A JSON text stands as what it is the text of.
pub data Bound : Type 0 where
  bound : Scalar → Bound
  json_array : List Scalar → Bound
  json_object : List (String × Value) → Bound

-- serialize-val.js
unfoldable pub serialize_val : Entry → Bound
serialize_val (value (scalar (boolean true))) = bound (number (pos 1))
serialize_val (value (scalar (boolean false))) = bound (number (pos 0))
serialize_val (value (scalar s)) = bound s
serialize_val (value (array items)) = json_array items
serialize_val (object fields) = json_object fields

abbrev pub is_text : Scalar → Bool
is_text (text s) = not (str_eq s "")
is_text _ = false

abbrev pub has_text : Value → Bool
has_text (scalar s) = is_text s
has_text (array items) = any is_text items

-- `_isCondField`, with all conditions
unfoldable pub is_cond_field : Names → String → Bool
is_cond_field names field =
    any (λ name. str_eq name field)
      (names.gt ∷ names.gte ∷ names.lt ∷ names.lte ∷ names.like ∷ names.ne ∷ names.eq
        ∷ names.in_list ∷ names.nin ∷ names.not_eq ∷ names.is_null ∷ names.is_not_null ∷ names.or_op
        ∷ [])

abbrev pub Disabled : Type 0
Disabled = List (String × List String)

-- `[...new Set([...names, name])]`
abbrev pub add_name : String → List String → List String
add_name name names = if any (λ n. str_eq n name) names then names else names ++ (name ∷ [])

unfoldable pub disable : String → String → Disabled → Disabled
disable out_key name [] = (out_key, name ∷ []) ∷ []
disable out_key name ((key, names) ∷ rest) =
    if str_eq key out_key
    then (key, add_name name names) ∷ rest
    else (key, names) ∷ disable out_key name rest

module _ (names : Names) where
  -- The fields of a condition. A value that is no object, under a condition's name, gives `{}`.
  unfoldable pub disable_fields : String → Disabled → List (String × Value) → Disabled
  unfolding is_cond_field disable
  disable_fields out_key accum [] = accum
  disable_fields out_key accum ((key, v) ∷ fields) =
      disable_fields out_key
        (if is_cond_field names key
          then []
          else if has_text v
          then disable out_key key accum
          else accum)
        fields

  abbrev pub disable_entry : String → Disabled → Entry → Disabled
  disable_entry out_key accum (value v) = []
  disable_entry out_key accum (object fields) = disable_fields out_key accum fields

  -- `_getFieldsNamesToDisableCaseSensitivity`, for a requested filter of conditions on fields
  unfoldable pub names_to_disable : Disabled → Fields → Disabled
  unfolding disable_fields
  names_to_disable accum [] = accum
  names_to_disable accum ((key, entry) ∷ fields) =
      names_to_disable (if is_cond_field names key then disable_entry key accum entry else accum)
        fields
