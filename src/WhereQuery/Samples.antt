-- ===== src/WhereQuery/Samples.antt =====
-- Small filters, and their clauses.
use bfx_reports_framework.Base.{◌≡◌, refl, String, false, true, none, some, [], ◌∷◌}
use bfx_reports_framework.Base.Int.{pos}
use bfx_reports_framework.WhereQuery.Conditions.{
  Names, Scalar, null, number, boolean, text, scalar, array, value, object, bound, Fields, digits,
  shown, serialize_val, is_cond_field, disable, disable_fields, names_to_disable,
}
use bfx_reports_framework.WhereQuery.Comparison.{
  Opts, Values, set_value, merge_values, compare_operator, item_keys, item_values, keys_and_values,
  is_set_no_case_op, compare_op_and_key, cond_leaf, query_val_key, alias_with, ◌⊕◌,
}
use bfx_reports_framework.WhereQuery.{
  Filter, is_null_operator, is_condition, cond_loop, key_loop, get_where_query,
}
use bfx_reports_framework.WhereQuery.Joined.{described, get_where_query_lem}
use bfx_reports_framework.WhereQuery.Bindable.{AreBindable, get_where_query-AreBindable}
use bfx_reports_framework.WhereQuery.Lost.{cond_leaf-null, get_where_query-or_ignored}

abbrev names : Names
names = record {
  gt = "$gt";
  gte = "$gte";
  lt = "$lt";
  lte = "$lte";
  like = "$like";
  ne = "$ne";
  eq = "$eq";
  in_list = "$in";
  nin = "$nin";
  not_eq = "$not";
  is_null = "$isNull";
  is_not_null = "$isNotNull";
  or_op = "$or";
}

abbrev opts : Opts
opts = record {
  is_prefixed = false;
  is_not_set_where_clause = false;
  requested_filter = [];
  alias = "";
}

abbrev of_fields : Fields → Filter
of_fields fields = record { fields = fields; or_fields = none }

-- The jobs of an owner in two states, up to a time
abbrev jobs : Fields
jobs =
    ("$eq", object (("ownerUserId", scalar (number (pos 7))) ∷ []))
    ∷ ("$in", object (("state", array (text "NEW" ∷ text "ERROR" ∷ [])) ∷ []))
    ∷ ("$isNull", value (array (text "subUserId" ∷ [])))
    ∷ ("end", value (scalar (number (pos 500))))
    ∷ ("_dateFieldName", value (scalar (text "updatedAt")))
    ∷ []

jobs_clause :
    get_where_query names opts (of_fields jobs)
    ≡ some (
      "WHERE ownerUserId = $ownerUserId_$eq  AND state  IN ($state_$in_0, $state_$in_1) AND subUserId IS NULL AND updatedAt <= $end",
      ("ownerUserId_$eq", bound (number (pos 7)))
          ∷ ("state_$in_0", bound (text "NEW"))
          ∷ ("state_$in_1", bound (text "ERROR"))
          ∷ ("end", bound (number (pos 500)))
          ∷ [],
    )
unfolding get_where_query key_loop is_null_operator is_condition cond_loop compare_op_and_key
    is_set_no_case_op names_to_disable keys_and_values item_keys item_values compare_operator
    merge_values set_value serialize_val shown digits
jobs_clause = refl

-- Letters' case does not count for the fields of the requested filter.
no_case_clause :
    get_where_query names
      (record opts {
        requested_filter = ("$eq", object (("symbol", scalar (text "BTC")) ∷ [])) ∷ [];
        alias = "t";
      })
      (of_fields (("$eq", object (("symbol", scalar (text "BTC")) ∷ [])) ∷ []))
    ≡ some
        ("WHERE t.symbol = $t_symbol_$eq COLLATE NOCASE", ("t_symbol_$eq", bound (text "BTC")) ∷ [])
unfolding get_where_query key_loop is_null_operator is_condition cond_loop compare_op_and_key
    is_set_no_case_op names_to_disable disable_fields is_cond_field disable keys_and_values
    compare_operator merge_values set_value serialize_val
no_case_clause = refl

-- A condition that is no object, after the fields of another one, and they are forgotten.
forgotten_names :
    names_to_disable names [] (
      ("$eq", object (("symbol", scalar (text "BTC")) ∷ []))
      ∷ ("$isNull", value (array (text "fees" ∷ [])))
      ∷ [])
    ≡ []
unfolding names_to_disable disable_fields is_cond_field disable
forgotten_names = refl

-- An empty condition in front leaves the operator in front.
empty_condition :
    get_where_query names opts
      (of_fields (("$eq", object []) ∷ ("_id", value (scalar (number (pos 3)))) ∷ []))
    ≡ some ("WHERE  AND _id = $_id ", ("_id", bound (number (pos 3))) ∷ [])
unfolding get_where_query key_loop is_null_operator is_condition cond_loop compare_op_and_key
    is_set_no_case_op names_to_disable keys_and_values compare_operator merge_values set_value
    serialize_val
empty_condition = refl

null_clause :
    get_where_query names opts (of_fields (("$eq", object (("_id", scalar null) ∷ [])) ∷ []))
    ≡ some ("WHERE _id = $_id_$eq ", [])
unfolding get_where_query key_loop is_null_operator is_condition cond_loop compare_op_and_key
    is_set_no_case_op names_to_disable keys_and_values compare_operator merge_values set_value
    serialize_val
null_clause = refl

like_clause :
    get_where_query names opts
      (of_fields (("$like", object (("name", scalar (text "a%")) ∷ [])) ∷ []))
    ≡ some ("WHERE name LIKE $name_$like ESCAPE '\\'", ("name_$like", bound (text "a%")) ∷ [])
unfolding get_where_query key_loop is_null_operator is_condition cond_loop compare_op_and_key
    is_set_no_case_op names_to_disable keys_and_values compare_operator merge_values set_value
    serialize_val
like_clause = refl

get_where_query_lem_example :
    get_where_query names opts (of_fields jobs) ≡ described names opts "AND" jobs jobs
get_where_query_lem_example = get_where_query_lem names opts (of_fields jobs)

cond_leaf-null_example :
    let leaf = λ (t : Scalar). cond_leaf names opts "$eq" (("_id", scalar t) ∷ []) "_id" false in
    let key = alias_with opts "_" ⊕ "_id" ⊕ "_" ⊕ "$eq" in
    (q : String) × (leaf null ≡ some (record { sub_query = q; sub_values = [] }))
    × (leaf (number (pos 3))
        ≡ some (record {
          sub_query = q;
          sub_values =
              (query_val_key opts key, serialize_val (value (scalar (number (pos 3))))) ∷ [];
        }))
cond_leaf-null_example = cond_leaf-null names opts "$eq" "_id" (number (pos 3)) refl refl

not_condition : is_condition names opts "state" ≡ false
unfolding is_condition
not_condition = refl

get_where_query-or_ignored_example :
    get_where_query names opts (record {
      fields = [];
      or_fields =
          some (("id", value (scalar (text "1"))) ∷ ("state", value (scalar (text "NEW"))) ∷ []);
    })
    ≡ get_where_query names opts (record {
      fields = [];
      or_fields =
          some (("id", value (scalar (text "1"))) ∷ ("state", value (scalar (text "ERROR"))) ∷ []);
    })
get_where_query-or_ignored_example =
    get_where_query-or_ignored names opts "state" (("id", value (scalar (text "1"))) ∷ []) [] []
      not_condition refl refl (value (scalar (text "NEW"))) (value (scalar (text "ERROR"))) refl

-- A Boolean becomes a number.
abbrev flags : Fields
flags = ("$eq", object (("hidden", scalar (boolean true)) ∷ [])) ∷ []

abbrev flag_values : Values
flag_values = ("hidden_$eq", bound (number (pos 1))) ∷ []

flags_clause :
    get_where_query names opts (of_fields flags) ≡ some ("WHERE hidden = $hidden_$eq ", flag_values)
unfolding get_where_query key_loop is_null_operator is_condition cond_loop compare_op_and_key
    is_set_no_case_op names_to_disable keys_and_values compare_operator merge_values set_value
    serialize_val
flags_clause = refl

get_where_query-AreBindable_example : AreBindable flag_values
get_where_query-AreBindable_example =
    get_where_query-AreBindable names opts (of_fields flags) "WHERE hidden = $hidden_$eq "
      flag_values flags_clause
