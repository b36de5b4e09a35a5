-- ===== src/WhereQuery/Joined.antt =====
-- get-where-query.js: the clause, against the list of its comparisons.
use text.Mathlib.TextLemmas.{append_assoc as str_append_assoc}
use bfx_reports_framework.Base.{
  ◌≡◌, refl, ap, ◌∙◌, String, true, false, Option, none, some, List, [], ◌∷◌, ◌++◌, map,
  if◌then◌else◌, arith,
}
use bfx_reports_framework.WhereQuery.Conditions.{Names, Fields}
use bfx_reports_framework.WhereQuery.Comparison.{
  Opts, Values, Leaf, keys_of, visible, is_nil, ◌⊕◌, join,
}
use bfx_reports_framework.WhereQuery.{Filter, key_loop, start_text, where_query, get_where_query}
use bfx_reports_framework.WhereQuery.Texts.{
  texts, merged, written, texts-append, merged-append, join-texts,
}
use bfx_reports_framework.WhereQuery.Written.{
  key_leaves, all_leaves, key_loop-none, key_loop-nil, key_loop-cons, key_loop-written,
}

module _ (names : Names) (opts : Opts) where
  -- The clause, from the comparisons of the first key and of the others
  abbrev pub clause :
      String → String → Option (List Leaf) → Option (List Leaf) → Option (String × Values)
  clause operator start none others = none
  clause operator start (some first) none = none
  clause operator start (some first) (some others) =
      let separator = " " ⊕ operator ⊕ " " in
      some (
        start
            ⊕ (if is_nil first
                then texts operator true others
                else join separator (map (λ leaf. leaf.sub_query) (first ++ others))),
        merged [] (first ++ others),
      )

  abbrev pub described_for : String → Fields → Fields → List String → Option (String × Values)
  described_for operator own outer [] = some (start_text names opts [], [])
  described_for operator own outer (key ∷ keys) =
      clause operator (start_text names opts (key ∷ keys)) (key_leaves names opts own outer key)
        (all_leaves names opts own outer keys)

  abbrev pub described : String → Fields → Fields → Option (String × Values)
  described operator own outer = described_for operator own outer (visible (keys_of own))

  module _ (operator : String) (own outer : Fields) where
    clause_parts :
        (start : String) (first : List Leaf) (others : Option (List Leaf))
        → written operator true (start ⊕ texts operator false first, merged [] first) others
          ≡ clause operator start (some first) others
    clause_parts start first none = refl
    clause_parts start first (some others) = λ k. some (
      (str_append_assoc start (texts operator false first) (texts operator true others)
            ∙ ap (λ t. start ⊕ t)
                (texts-append operator false first others
                  ∙ ap (λ t. if is_nil first then texts operator true others else t)
                      (join-texts operator (first ++ others))))
          k,
      merged-append [] first others k,
    )

    clause_first :
        (key : String) (keys : List String) (start : String) (first : Option (List Leaf))
        → key_loop names opts operator own outer 1 keys (written operator false (start, []) first)
          ≡ clause operator start first (all_leaves names opts own outer keys)
    clause_first key keys start none = key_loop-none names opts operator own outer 1 keys
    clause_first key keys start (some first) =
        key_loop-written names opts operator own outer 1 keys _ _ (ground arith)
        ∙ clause_parts start first (all_leaves names opts own outer keys)

    where_query-described : where_query names opts operator own outer ≡ described operator own outer
    where_query-described = of_keys (visible (keys_of own))
      where
        of_keys :
            (keys : List String)
            → key_loop names opts operator own outer 0 keys (some (start_text names opts keys, []))
              ≡ described_for operator own outer keys
        of_keys [] = key_loop-nil names opts operator own outer _
        of_keys (key ∷ rest) =
            key_loop-cons names opts operator own outer 0 key rest
              (start_text names opts (key ∷ rest)) []
            ∙ clause_first key rest (start_text names opts (key ∷ rest))
                (key_leaves names opts own outer key)

-- The clause of a filter is its comparisons, in the order of its keys, joined by AND, or by OR for the
-- fields under $or, behind WHERE where it is asked for and there is a key; and its values are those of the
-- comparisons, the later ones over the earlier. Only where the first key has no comparison, which is an
-- empty condition, every comparison has an operator before it. The result is a TypeError exactly where one
-- of the comparisons is one.
pub get_where_query_lem :
    (names : Names) (opts : Opts) (f : Filter)
    → get_where_query names opts f ≡ elim f.or_fields [
      | none ↦ described names opts "AND" f.fields f.fields
      | some own ↦ described names opts "OR" own f.fields
    ]
unfolding get_where_query
get_where_query_lem names opts f = of_or f.or_fields
  where
    of_or :
        (o : Option Fields)
        → elim o [
          | none ↦ where_query names opts "AND" f.fields f.fields
          | some own ↦ where_query names opts "OR" own f.fields
        ]
          ≡ elim o [
            | none ↦ described names opts "AND" f.fields f.fields
            | some own ↦ described names opts "OR" own f.fields
          ]
    of_or none = where_query-described names opts "AND" f.fields f.fields
    of_or (some own) = where_query-described names opts "OR" own f.fields
