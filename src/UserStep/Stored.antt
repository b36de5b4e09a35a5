-- ===== src/UserStep/Stored.antt =====
-- sync.user.step.manager/index.js: updateOrInsertSyncInfoForCurrColl, with the unique indexes of
-- schema/models/sync-user-steps.js. A step's other columns are an abstract type: an update writes the
-- given ones over those of the row.
use text.Mathlib.TextPositions.{eq_refl}
use bfx_reports_framework.Base.{
  ℕ, ◌==◌, ◌≡◌, refl, sym, ◌∙◌, ltb, filter-append, String, str_eq, Bool, true, false, not, ◌&&◌,
  ◌||◌, Option, none, some, List, [], ◌∷◌, ◌++◌, append-nil, filter, any, map, length,
  if◌then◌else◌, arith,
}

pub record Step (I : Type 0) : Type 0 where
  pub coll_name : String
  pub user_id : Option ℕ
  pub sub_user_id : Option ℕ
  pub info : I

abbrev pub is_same_id : Option ℕ → Option ℕ → Bool
is_same_id none none = true
is_same_id (some a) (some b) = a == b
is_same_id _ _ = false

abbrev pub is_nobody : Option ℕ → Bool
is_nobody none = true
is_nobody (some id) = false

module _ {I : Type 0} where
  -- The filter of the update
  abbrev pub is_of : Step I → Step I → Bool
  is_of step row =
      str_eq row.coll_name step.coll_name
      && (is_same_id row.user_id step.user_id && is_same_id row.sub_user_id step.sub_user_id)

  -- Whether a row stands where an index lets only one stand
  abbrev pub is_replaced : Step I → Step I → Bool
  is_replaced step row =
      str_eq row.coll_name step.coll_name
      && (is_same_id row.user_id step.user_id
          && (is_nobody step.user_id || is_same_id row.sub_user_id step.sub_user_id))

  module _ (write : I → I → I) where
    abbrev pub updated : Step I → Step I → Step I
    updated step row =
        if is_of step row then record row { info = write step.info row.info } else row

    -- `updateCollBy`
    unfoldable pub update_coll_by : Step I → List (Step I) → List (Step I)
    update_coll_by step rows = map (updated step) rows

    -- `insertElemToDb` with `isReplacedIfExists`
    unfoldable pub insert_elem : Step I → List (Step I) → List (Step I)
    insert_elem step rows = filter (λ row. not (is_replaced step row)) rows ++ (step ∷ [])

    -- `updateOrInsertSyncInfoForCurrColl`, `none` for the SyncInfoUpdatingError
    unfoldable pub update_or_insert : Step I → List (Step I) → Option (List (Step I))
    unfolding update_coll_by insert_elem
    update_or_insert step rows =
        if str_eq step.coll_name ""
        then none
        else if any (is_of step) rows
        then some (update_coll_by step rows)
        else some (insert_elem step rows)

    is_of-updated : (step row : Step I) → is_of step (updated step row) ≡ is_of step row
    is_of-updated step row = ground arith

    -- What the row of the step is after the call, from what it was
    abbrev pub overwritten : Step I → Step I → Step I
    overwritten step row = record {
      coll_name = row.coll_name;
      user_id = row.user_id;
      sub_user_id = row.sub_user_id;
      info = write step.info row.info;
    }

    filter-updated :
        (step : Step I) (rows : List (Step I))
        → filter (is_of step) (map (updated step) rows)
          ≡ map (overwritten step) (filter (is_of step) rows)
    filter-updated step [] = refl
    filter-updated step (row ∷ rows) =
        ground (arith, is_of-updated step row, filter-updated step rows)

    kept-updated :
        (step : Step I) (rows : List (Step I))
        → filter (λ row. not (is_replaced step row)) (map (updated step) rows)
          ≡ filter (λ row. not (is_replaced step row)) rows
    kept-updated step [] = refl
    kept-updated step (row ∷ rows) = ground (arith, kept-updated step rows)

    any-filter :
        (p : Step I → Bool) (rows : List (Step I)) → any p rows ≡ ltb 0 (length (filter p rows))
    any-filter p [] = refl
    any-filter p (row ∷ rows) = ground (arith, any-filter p rows)

    -- A row of the step is one that the indexes allow once.
    kept-none :
        (step : Step I) (rows : List (Step I))
        → filter (is_of step) (filter (λ row. not (is_replaced step row)) rows) ≡ []
    kept-none step [] = refl
    kept-none step (row ∷ rows) = ground (arith, kept-none step rows)

    kept_idem :
        (step : Step I) (rows : List (Step I))
        → filter
            (λ row. not (is_replaced step row))
            (filter (λ row. not (is_replaced step row)) rows)
          ≡ filter (λ row. not (is_replaced step row)) rows
    kept_idem step [] = refl
    kept_idem step (row ∷ rows) = ground (arith, kept_idem step rows)

    is_same_id_refl : (id : Option ℕ) → is_same_id id id ≡ true
    is_same_id_refl none = refl
    is_same_id_refl (some id) = ground arith

    is_of_self : (step : Step I) → is_of step step ≡ true
    is_of_self step = ground (
      arith,
      eq_refl step.coll_name,
      is_same_id_refl step.user_id,
      is_same_id_refl step.sub_user_id,
    )

    is_replaced_self : (step : Step I) → is_replaced step step ≡ true
    is_replaced_self step = ground (
      arith,
      eq_refl step.coll_name,
      is_same_id_refl step.user_id,
      is_same_id_refl step.sub_user_id,
    )

    filter-of_self : (step : Step I) → filter (is_of step) (step ∷ []) ≡ step ∷ []
    filter-of_self step = ground (arith, is_of_self step)

    filter-kept_self : (step : Step I) → filter (λ row. not (is_replaced step row)) (step ∷ []) ≡ []
    filter-kept_self step = ground (arith, is_replaced_self step)

    -- The rows of the step from what they were
    abbrev pub stored : Step I → List (Step I) → List (Step I)
    stored step [] = step ∷ []
    stored step (row ∷ rows) = map (overwritten step) (row ∷ rows)

    -- The rows of the step hold what is stored, and those that no index forbids are untouched.
    abbrev pub IsStored : Step I → List (Step I) → List (Step I) → Type 0
    IsStored step rows after =
        (filter (is_of step) after ≡ stored step (filter (is_of step) rows))
        × (filter (λ row. not (is_replaced step row)) after
            ≡ filter (λ row. not (is_replaced step row)) rows)

    stored_some :
        (step : Step I) (rows : List (Step I))
        → ltb 0 (length rows) ≡ true
        → map (overwritten step) rows ≡ stored step rows
    stored_some step [] h = ground (arith, h)
    stored_some step (row ∷ rows) h = refl

    stored_none :
        (step : Step I) (rows : List (Step I))
        → ltb 0 (length rows) ≡ false
        → step ∷ [] ≡ stored step rows
    stored_none step [] h = refl
    stored_none step (row ∷ rows) h = ground (arith, h)

    update-IsStored :
        (step : Step I) (rows : List (Step I))
        → any (is_of step) rows ≡ true
        → IsStored step rows (update_coll_by step rows)
    unfolding update_coll_by
    update-IsStored step rows h = (
      filter-updated step rows
          ∙ stored_some step (filter (is_of step) rows) (sym (any-filter (is_of step) rows) ∙ h),
      kept-updated step rows,
    )

    insert-IsStored :
        (step : Step I) (rows : List (Step I))
        → any (is_of step) rows ≡ false
        → IsStored step rows (insert_elem step rows)
    unfolding insert_elem
    insert-IsStored step rows h =
        let kept = filter (λ row. not (is_replaced step row)) rows in
        (
          filter-append (is_of step) kept (step ∷ [])
              ∙ (λ i. kept-none step rows i ++ filter-of_self step i)
              ∙ stored_none step (filter (is_of step) rows)
                  (sym (any-filter (is_of step) rows) ∙ h),
          filter-append (λ row. not (is_replaced step row)) kept (step ∷ [])
              ∙ (λ i. kept_idem step rows i ++ filter-kept_self step i)
              ∙ append-nil kept,
        )

    -- After the call for a step with a collection the rows of its collection, user and sub-user are
    -- those from before, each with what the step writes over its columns, or, where there was none, the
    -- step itself. The rows that no unique index forbids beside it are as they were, in their order.
    pub update_or_insert-IsStored :
        (step : Step I) (rows after : List (Step I))
        → update_or_insert step rows ≡ some after
        → IsStored step rows after
    unfolding update_or_insert
    update_or_insert-IsStored step rows after h =
        ground (arith, h, update-IsStored step rows, insert-IsStored step rows)
