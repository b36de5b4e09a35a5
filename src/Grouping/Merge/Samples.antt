-- ===== src/Grouping/Merge/Samples.antt =====
-- Small inputs of the merge, and what they give.
use bfx_reports_framework.Base.{ℕ, String, ◌≡◌, refl, some, List, [], ◌∷◌, arith}
use bfx_reports_framework.Grouping.Merge.{
  Row, Item, set_cell, insert_at, is_between, visit, back_loop, place_item, merge_item, merge_at,
  merge_from, get_max_length, merge_data,
}
use bfx_reports_framework.Grouping.Merge.Insertion.{
  IsDescending, insert, place_item-insert, merge_data-IsDescending,
}

abbrev item_at : ℕ → ℕ → Item ℕ
item_at mts vals = record { mts = some mts; vals = some vals }

-- Two lists, whose times interleave
abbrev columns : List (String × List (Item ℕ))
columns =
    ("trades", item_at 30 1 ∷ item_at 20 2 ∷ item_at 10 3 ∷ [])
    ∷ ("fees", item_at 30 4 ∷ item_at 15 5 ∷ [])
    ∷ []

abbrev rows : List (Row ℕ)
rows =
    record { mts = 30; cells = ("trades", 1) ∷ ("fees", 4) ∷ [] }
    ∷ record { mts = 20; cells = ("trades", 2) ∷ [] }
    ∷ record { mts = 15; cells = ("fees", 5) ∷ [] }
    ∷ record { mts = 10; cells = ("trades", 3) ∷ [] }
    ∷ []

merge_columns : merge_data columns ≡ rows
unfolding merge_data merge_from merge_at merge_item place_item back_loop visit is_between insert_at
    set_cell get_max_length
merge_columns = refl

merge_data-IsDescending_example : IsDescending (merge_data columns)
merge_data-IsDescending_example = merge_data-IsDescending columns

rows-IsDescending : IsDescending rows
rows-IsDescending = (
  (omega arith, (omega arith, (omega arith, tt))),
  ((omega arith, (omega arith, tt)), ((omega arith, tt), (tt, tt))),
)

place_item-insert_example : place_item "fees" 18 6 rows ≡ insert "fees" 18 6 rows
place_item-insert_example = place_item-insert "fees" 18 6 rows rows-IsDescending
