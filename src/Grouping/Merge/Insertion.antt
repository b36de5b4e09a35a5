-- ===== src/Grouping/Merge/Insertion.antt =====
-- workers/loc.api/sync/helpers/calc-grouped-data.js: the order of the rows of `_mergeData`, and
-- insertion into a sorted list.
use bfx_reports_framework.Base.{
  ℕ, zero, suc, ◌+◌, ◌<◌, ◌≤◌, ◌≡◌, refl, sym, subst, ap, ◌∙◌, String, Bool, true, false, ltb, ◌==◌,
  Option, none, some, List, [], ◌∷◌, ◌++◌, if_ind, Bool-cases, inl, inr, ltb→lt, All-map,
  if◌then◌else◌, length, get_elem?, set, All, All-get_elem?, arith,
}
use bfx_reports_framework.Grouping.Frames.{last?}
use bfx_reports_framework.Grouping.Merge.{
  Row, Item, new_row, with_cell, insert_at, is_between, visit, back_loop, is_before_last,
  place_item, merge_item, merge_at, merge_from, merge_data, get_max_length,
}

ltb→ge : (a b : ℕ) → ltb a b ≡ false → b ≤ a
ltb→ge a b h = ground arith

module _ {V : Type 0} where
  -- Newest first, each time once
  abbrev pub IsDescending : List (Row V) → Type 0
  IsDescending [] = Unit
  IsDescending (row ∷ rows) = All (λ r. r.mts < row.mts) rows × IsDescending rows

  module _ (key : String) (mts : ℕ) (vals : V) where
    abbrev with_value : Row V → Row V
    with_value = with_cell key vals

    abbrev new : Row V
    new = new_row key mts vals

    -- Into a sorted list: where the time is there, its row gets the cell; else a row comes in between.
    abbrev pub insert : List (Row V) → List (Row V)
    insert [] = new ∷ []
    insert (row ∷ rows) =
        if ltb row.mts mts
        then new ∷ row ∷ rows
        else if mts == row.mts
        then with_value row ∷ rows
        else row ∷ insert rows

    visit-earlier :
        (i : ℕ) (res rest : List (Row V)) (here next : Option (Row V))
        → ((r : Row V) → here ≡ some r → r.mts < mts)
        → visit key mts vals i res rest here next ≡ rest
    unfolding visit is_between
    visit-earlier i res rest none next h = refl
    visit-earlier i res rest (some row) none h = let lt = h row refl in ground arith
    visit-earlier i res rest (some row) (some n) h = let lt = h row refl in ground arith

    two_tests :
        (x : Row V) (b c : Bool) (p q r : List (Row V))
        → (if b then x ∷ p else if c then x ∷ q else x ∷ r)
          ≡ x ∷ (if b then p else if c then q else r)
    two_tests x true c p q r = refl
    two_tests x false true p q r = refl
    two_tests x false false p q r = refl

    visit-later :
        (x : Row V) (i : ℕ) (res rest : List (Row V)) (here next : Option (Row V))
        → visit key mts vals (suc i) (x ∷ res) (x ∷ rest) here next
          ≡ x ∷ visit key mts vals i res rest here next
    unfolding visit insert_at
    visit-later x i res rest none next = refl
    visit-later x i res rest (some row) next =
        two_tests x (mts == row.mts) (is_between mts row next) (set res i (with_value row))
          (insert_at (suc i) new res) rest

    back-earlier :
        (x : Row V) (rows : List (Row V)) (i : ℕ)
        → All (λ r. r.mts < mts) rows
        → back_loop key mts vals (suc i) (x ∷ rows) ≡ back_loop key mts vals 1 (x ∷ rows)
    unfolding back_loop
    back-earlier x rows zero a = refl
    back-earlier x rows (suc i) a =
        visit-earlier (suc i) (x ∷ rows) (back_loop key mts vals (suc i) (x ∷ rows))
          (get_elem? rows i) (get_elem? rows (suc i))
          (λ r e. All-get_elem? (λ r. r.mts < mts) rows i r a e)
        ∙ back-earlier x rows i a

    back-later :
        (x y : Row V) (rows : List (Row V)) (i : ℕ)
        → mts < x.mts
        → mts ≤ y.mts
        → back_loop key mts vals (suc i) (x ∷ y ∷ rows) ≡ x ∷ back_loop key mts vals i (y ∷ rows)
    unfolding back_loop visit is_between insert_at
    back-later x y rows zero lt le = ground arith
    back-later x y rows (suc i) lt le =
        ap
          (λ rest.
            visit key mts vals (suc i) (x ∷ y ∷ rows) rest (get_elem? (y ∷ rows) i)
              (get_elem? (y ∷ rows) (suc i)))
          (back-later x y rows i lt le)
        ∙ visit-later x i (y ∷ rows) (back_loop key mts vals i (y ∷ rows)) (get_elem? (y ∷ rows) i)
            (get_elem? (y ∷ rows) (suc i))

    back_loop-single :
        (row : Row V) → row.mts ≡ mts → back_loop key mts vals 1 (row ∷ []) ≡ insert (row ∷ [])
    unfolding back_loop visit
    back_loop-single row e = ground arith

    back_loop-first :
        (row next : Row V) (rows : List (Row V))
        → mts ≤ row.mts
        → next.mts < mts
        → back_loop key mts vals 1 (row ∷ next ∷ rows) ≡ insert (row ∷ next ∷ rows)
    unfolding back_loop visit is_between insert_at
    back_loop-first row next rows le lt = ground arith

    insert-later :
        (row : Row V) (rows : List (Row V))
        → mts < row.mts
        → insert (row ∷ rows) ≡ row ∷ insert rows
    insert-later row rows lt = ground arith

    -- Between the first and the last row, the loop inserts.
    back_loop-insert :
        (row : Row V) (rows : List (Row V))
        → IsDescending (row ∷ rows)
        → mts ≤ row.mts
        → ((r : Row V) → last? (row ∷ rows) ≡ some r → r.mts ≤ mts)
        → back_loop key mts vals (length (row ∷ rows)) (row ∷ rows) ≡ insert (row ∷ rows)
    back_loop-insert row [] d le last = back_loop-single row (omega (arith, le, last row refl))
    back_loop-insert row (next ∷ rows) d le last = elim (Bool-cases (ltb next.mts mts)) [
      | inl test ↦
          let lt = ltb→lt next.mts mts test in
          back-earlier row (next ∷ rows) (length (next ∷ rows))
            (lt, All-map _ (λ r. r.mts < mts) rows (λ r below. omega (arith, below, lt)) d.1.0)
          ∙ back_loop-first row next rows le lt
      | inr test ↦
          let ge = ltb→ge next.mts mts test in
          let later : mts < row.mts = omega (arith, ge, d.0.0) in
          back-later row next rows (length (next ∷ rows)) later ge
          ∙ ap (λ xs. row ∷ xs) (back_loop-insert next rows d.1 ge last)
          ∙ sym (insert-later row (next ∷ rows) later)
    ]

    insert-last :
        (rows : List (Row V)) → All (λ r. mts < r.mts) rows → rows ++ new ∷ [] ≡ insert rows
    insert-last [] a = refl
    insert-last (row ∷ rows) a =
        ap (λ xs. row ∷ xs) (insert-last rows a.1) ∙ sym (insert-later row rows a.0)

    insert-first :
        (row : Row V) (rows : List (Row V))
        → ltb row.mts mts ≡ true
        → new ∷ row ∷ rows ≡ insert (row ∷ rows)
    insert-first row rows test = sym (
        ap
          (λ b.
            if b
            then new ∷ row ∷ rows
            else if mts == row.mts
            then with_value row ∷ rows
            else row ∷ insert rows)
          test)

    above_last :
        (row : Row V) (rows : List (Row V))
        → IsDescending (row ∷ rows)
        → is_before_last mts (last? (row ∷ rows)) ≡ true
        → All (λ r. mts < r.mts) (row ∷ rows)
    above_last row [] d test = (ltb→lt mts row.mts test, tt)
    above_last row (next ∷ rows) d test =
        let rest = above_last next rows d.1 test in (omega (arith, d.0.0, rest.0), rest)

    below_last :
        (rows : List (Row V))
        → is_before_last mts (last? rows) ≡ false
        → (r : Row V) → last? rows ≡ some r
        → r.mts ≤ mts
    below_last rows test r e = ltb→ge mts r.mts (sym (ap (is_before_last mts) e) ∙ test)

    -- On rows that are newest first, each time once, the callback's five ways to place an item together
    -- are the insertion into a sorted list: the row of that time gets the values under the key, or a
    -- new row comes where it keeps the order.
    pub place_item-insert :
        (rows : List (Row V)) → IsDescending rows → place_item key mts vals rows ≡ insert rows
    unfolding place_item
    place_item-insert [] d = refl
    place_item-insert (first ∷ rows) d =
        if_ind (λ placed. placed ≡ insert (first ∷ rows)) (ltb first.mts mts)
          (λ test. insert-first first rows test)
          (λ test.
            if_ind (λ placed. placed ≡ insert (first ∷ rows))
              (is_before_last mts (last? (first ∷ rows)))
              (λ before. insert-last (first ∷ rows) (above_last first rows d before))
              (λ after.
                back_loop-insert first rows d (ltb→ge first.mts mts test)
                  (below_last (first ∷ rows) after)))

    insert-All :
        (k : ℕ) (rows : List (Row V))
        → mts < k
        → All (λ r. r.mts < k) rows
        → All (λ r. r.mts < k) (insert rows)
    insert-All k [] lt a = (lt, tt)
    insert-All k (row ∷ rows) lt a =
        if_ind (All (λ r. r.mts < k)) (ltb row.mts mts) {x = new ∷ row ∷ rows} (λ _. (lt, a))
          (λ _.
            if_ind (All (λ r. r.mts < k)) (mts == row.mts) {x = with_value row ∷ rows}
              {y = row ∷ insert rows} (λ _. (a.0, a.1)) (λ _. (a.0, insert-All k rows lt a.1)))

    insert-IsDescending : (rows : List (Row V)) → IsDescending rows → IsDescending (insert rows)
    insert-IsDescending [] d = (tt, tt)
    insert-IsDescending (row ∷ rows) d =
        if_ind IsDescending (ltb row.mts mts) {x = new ∷ row ∷ rows}
          (λ test.
            let lt = ltb→lt row.mts mts test in
            ((lt, All-map _ (λ r. r.mts < mts) rows (λ r below. omega (arith, below, lt)) d.0), d))
          (λ test.
            if_ind IsDescending (mts == row.mts) {x = with_value row ∷ rows} {y = row ∷ insert rows}
              (λ _. (d.0, d.1))
              (λ other. (
                insert-All row.mts rows (not_equal row.mts test other) d.0,
                insert-IsDescending rows d.1,
              )))
      where
        not_equal : (n : ℕ) → ltb n mts ≡ false → (mts == n) ≡ false → mts < n
        not_equal n h k = ground arith

  merge_item-IsDescending :
      (key : String) (item : Option (Item V)) (rows : List (Row V))
      → IsDescending rows
      → IsDescending (merge_item key item rows)
  unfolding merge_item
  merge_item-IsDescending key none rows d = d
  merge_item-IsDescending key (some item) rows d = go item.mts item.vals
    where
      go :
          (at : Option ℕ) (of : Option V)
          → IsDescending (elim at [
            | none ↦ rows
            | some mts ↦ elim of [ none ↦ rows | some vals ↦ place_item key mts vals rows ]
          ])
      go none of = d
      go (some mts) none = d
      go (some mts) (some vals) =
          subst IsDescending (sym (place_item-insert key mts vals rows d))
            (insert-IsDescending key mts vals rows d)

  merge_at-IsDescending :
      (i : ℕ) (columns : List (String × List (Item V))) (rows : List (Row V))
      → IsDescending rows
      → IsDescending (merge_at i columns rows)
  unfolding merge_at
  merge_at-IsDescending i [] rows d = d
  merge_at-IsDescending i ((key, items) ∷ columns) rows d =
      merge_at-IsDescending i columns (merge_item key (get_elem? items i) rows)
        (merge_item-IsDescending key (get_elem? items i) rows d)

  merge_from-IsDescending :
      (i n : ℕ) (columns : List (String × List (Item V))) (rows : List (Row V))
      → IsDescending rows
      → IsDescending (merge_from i n columns rows)
  unfolding merge_from
  merge_from-IsDescending i zero columns rows d = d
  merge_from-IsDescending i (suc n) columns rows d =
      merge_from-IsDescending (i + 1) n columns (merge_at i columns rows)
        (merge_at-IsDescending i columns rows d)

  -- The merged rows are newest first, with each time once, for all data: whatever the order of the
  -- lists, their lengths, repeated times and items that are not valid.
  pub merge_data-IsDescending :
      (columns : List (String × List (Item V))) → IsDescending (merge_data columns)
  unfolding merge_data
  merge_data-IsDescending columns = merge_from-IsDescending 0 (get_max_length columns) columns [] tt
