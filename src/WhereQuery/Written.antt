-- ===== src/WhereQuery/Written.antt =====
-- get-where-query.js: what its loops write, from the list of the comparisons.
use text.Mathlib.TextLemmas.{
  append_assoc as str_append_assoc, append-nil as str_append_nil, nil-append as str_nil_append,
}
use bfx_reports_framework.Base.{
  ℕ, ◌+◌, ◌≡◌, refl, sym, ap, ◌∙◌, ltb, String, Bool, true, ◌||◌, Option, none, some, List, [], ◌∷◌,
  if◌then◌else◌, arith,
}
use bfx_reports_framework.WhereQuery.Conditions.{Names, Value, Entry, Fields}
use bfx_reports_framework.WhereQuery.Comparison.{
  Opts, Values, Leaf, field_at, keys_of, visible, ◌⊕◌, merge_values, plain_leaf, entries_of,
  cond_leaf,
}
use bfx_reports_framework.WhereQuery.{
  is_array, is_null_operator, is_condition, cond_filter, added, op_if, cond_loop, after_cond,
  key_step, key_loop,
}
use bfx_reports_framework.WhereQuery.Texts.{
  cons_leaf, append_leaves, texts, merged, written, written-cons, merged-append, if_written, or_suc,
  or_zero, texts-append_set,
}

module _ (names : Names) (opts : Opts) where
  -- The comparisons of one condition
  abbrev pub cond_leaves : String → List (String × Value) → List String → Option (List Leaf)
  cond_leaves name fields [] = some []
  cond_leaves name fields (field ∷ rest) =
      cons_leaf
        (cond_leaf names opts name fields field (is_array (field_at field (entries_of fields))))
        (cond_leaves name fields rest)

  abbrev pub leaves_of : Fields → String → Option Entry → Option String → Option (List Leaf)
  leaves_of outer key entry (some null_op) =
      some (record { sub_query = null_op; sub_values = [] } ∷ [])
  leaves_of outer key entry none =
      let fields = cond_filter entry in
      if is_condition names opts key
      then cond_leaves key fields (visible (keys_of fields))
      else cons_leaf (plain_leaf names opts key outer (is_array entry)) (some [])

  abbrev pub leaves_at : Fields → String → Option Entry → Option (List Leaf)
  leaves_at outer key entry = leaves_of outer key entry (is_null_operator names opts key entry)

  abbrev pub key_leaves : Fields → Fields → String → Option (List Leaf)
  key_leaves own outer key = leaves_at outer key (field_at key own)

  abbrev pub all_leaves : Fields → Fields → List String → Option (List Leaf)
  all_leaves own outer [] = some []
  all_leaves own outer (key ∷ keys) =
      append_leaves (key_leaves own outer key) (all_leaves own outer keys)

  cond_loop-none :
      (operator name : String) (fields : List (String × Value)) (i j : ℕ) (keys : List String)
      → cond_loop names opts operator name fields i j keys none ≡ none
  unfolding cond_loop
  cond_loop-none operator name fields i j [] = refl
  cond_loop-none operator name fields i j (key ∷ keys) = refl

  pub cond_loop-written :
      (operator name : String) (fields : List (String × Value)) (i j : ℕ) (keys : List String)
      (accum : String) (values : Values)
      → cond_loop names opts operator name fields i j keys (some (accum, values))
        ≡ written operator (ltb 0 i || ltb 0 j) (accum, values) (cond_leaves name fields keys)
  unfolding cond_loop
  cond_loop-written operator name fields i j [] accum values =
      ap (λ t. some (t, values)) (sym (str_append_nil accum))
  cond_loop-written operator name fields i j (key ∷ keys) accum values =
      next (cond_leaf names opts name fields key (is_array (field_at key (entries_of fields))))
        (cond_loop-written operator name fields i (j + 1) keys)
    where
      next :
          (o : Option Leaf)
          → ((accum' : String) (values' : Values)
              → cond_loop names opts operator name fields i (j + 1) keys (some (accum', values'))
                ≡ written operator
                    (ltb 0 i || ltb 0 (j + 1))
                    (accum', values')
                    (cond_leaves name fields keys))
          → cond_loop names opts operator name fields i
              (j + 1)
              keys
              (added (accum, values) (op_if (ltb 0 i || ltb 0 j) operator) o)
            ≡ written operator
                (ltb 0 i || ltb 0 j)
                (accum, values)
                (cons_leaf o (cond_leaves name fields keys))
      next none ih = cond_loop-none operator name fields i (j + 1) keys
      next (some leaf) ih =
          ih _ _
          ∙ ap
              (λ b.
                written operator b
                  (
                    accum ⊕ op_if (ltb 0 i || ltb 0 j) operator ⊕ leaf.sub_query,
                    merge_values values leaf.sub_values,
                  )
                  (cond_leaves name fields keys))
              (or_suc i j)
          ∙ written-cons operator (ltb 0 i || ltb 0 j) accum values leaf
              (cond_leaves name fields keys)

  after_cond-written :
      (operator : String) (i : ℕ) (accum : String) (values : Values) (leaves : Option (List Leaf))
      → after_cond accum (written operator (ltb 0 i || ltb 0 0) ("", values) leaves)
        ≡ written operator (ltb 0 i) (accum, values) leaves
  after_cond-written operator i accum values none = refl
  after_cond-written operator i accum values (some leaves) =
      ap (λ t. some (accum ⊕ t, merged values leaves))
        (str_nil_append _ ∙ ap (λ b. texts operator b leaves) (or_zero i))

  added-written :
      (operator : String) (is_set : Bool) (accum : String) (values : Values) (o : Option Leaf)
      → added (accum, values) (op_if is_set operator) o
        ≡ written operator is_set (accum, values) (cons_leaf o (some []))
  added-written operator is_set accum values none = refl
  added-written operator is_set accum values (some leaf) =
      ap (λ t. some (accum ⊕ op_if is_set operator ⊕ t, merge_values values leaf.sub_values))
        (sym (str_append_nil leaf.sub_query))

  module _ (operator : String) (own outer : Fields) where
    key_step-written :
        (i : ℕ) (key accum : String) (values : Values) (o : Option String)
        → key_step names opts operator own outer i key o (accum, values)
          ≡ written operator (ltb 0 i) (accum, values) (leaves_of outer key (field_at key own) o)
    unfolding merge_values
    key_step-written i key accum values (some null_op) =
        ap (λ t. some (accum ⊕ op_if (ltb 0 i) operator ⊕ t, values)) (sym (str_append_nil null_op))
    key_step-written i key accum values none =
        let entry = field_at key own in
        let fields = cond_filter entry in
        let keys = visible (keys_of fields) in
        if_written operator (ltb 0 i) (accum, values) (is_condition names opts key) _ _
          (cond_leaves key fields keys)
          (cons_leaf (plain_leaf names opts key outer (is_array entry)) (some []))
          (ap (after_cond accum) (cond_loop-written operator key fields i 0 keys "" values)
            ∙ after_cond-written operator i accum values (cond_leaves key fields keys))
          (added-written operator (ltb 0 i) accum values
            (plain_leaf names opts key outer (is_array entry)))

    pub key_loop-none :
        (i : ℕ) (keys : List String) → key_loop names opts operator own outer i keys none ≡ none
    unfolding key_loop
    key_loop-none i [] = refl
    key_loop-none i (key ∷ keys) = refl

    pub key_loop-nil :
        (state : Option (String × Values))
        → key_loop names opts operator own outer 0 [] state ≡ state
    unfolding key_loop
    key_loop-nil state = refl

    pub key_loop-cons :
        (i : ℕ) (key : String) (keys : List String) (accum : String) (values : Values)
        → key_loop names opts operator own outer i (key ∷ keys) (some (accum, values))
          ≡ key_loop names opts operator own outer
              (i + 1)
              keys
              (written operator (ltb 0 i) (accum, values) (key_leaves own outer key))
    unfolding key_loop
    key_loop-cons i key keys accum values =
        ap (key_loop names opts operator own outer (i + 1) keys)
          (key_step-written i key accum values (is_null_operator names opts key (field_at key own)))

    pub key_loop-written :
        (i : ℕ) (keys : List String) (accum : String) (values : Values)
        → ltb 0 i ≡ true
        → key_loop names opts operator own outer i keys (some (accum, values))
          ≡ written operator true (accum, values) (all_leaves own outer keys)
    unfolding key_loop
    key_loop-written i [] accum values h = ap (λ t. some (t, values)) (sym (str_append_nil accum))
    key_loop-written i (key ∷ keys) accum values h =
        key_loop-cons i key keys accum values
        ∙ ap
            (λ b.
              key_loop names opts operator own outer (i + 1) keys
                (written operator b (accum, values) (key_leaves own outer key)))
            h
        ∙ two (key_leaves own outer key) (λ a v. key_loop-written (i + 1) keys a v (ground arith))
      where
        parts :
            (first : List Leaf) (others : Option (List Leaf))
            → written operator true (accum ⊕ texts operator true first, merged values first) others
              ≡ written operator true (accum, values) (append_leaves (some first) others)
        parts first none = refl
        parts first (some others) = λ k. some (
          (str_append_assoc accum (texts operator true first) (texts operator true others)
                ∙ ap (λ t. accum ⊕ t) (texts-append_set operator first others))
              k,
          merged-append values first others k,
        )

        two :
            (first : Option (List Leaf))
            → ((a : String) (v : Values)
                → key_loop names opts operator own outer (i + 1) keys (some (a, v))
                  ≡ written operator true (a, v) (all_leaves own outer keys))
            → key_loop names opts operator own outer
                (i + 1)
                keys
                (written operator true (accum, values) first)
              ≡ written operator true
                  (accum, values)
                  (append_leaves first (all_leaves own outer keys))
        two none ih = key_loop-none (i + 1) keys
        two (some first) ih = ih _ _ ∙ parts first (all_leaves own outer keys)
