-- ===== src/Grouping/Merge.antt =====
-- workers/loc.api/sync/helpers/calc-grouped-data.js: `_mergeData`, which merges lists of groups, newest
-- first, into one list of rows. The iterator of get-back-iterable.js goes from the last row to the
-- first. A value of the data that is no array is an empty list, which `_getDataKeys` leaves out too.
pub mod Insertion
mod Samples
use bfx_reports_framework.Base.{
  ℕ, zero, suc, ◌+◌, String, Bool, true, false, ◌&&◌, ltb, leb, ◌==◌, str_eq, Option, none, some,
  List, [], ◌∷◌, ◌++◌, if◌then◌else◌, length, get_elem?, set,
}
use bfx_reports_framework.Grouping.Frames.{last?}

-- A row has its time and, by key, the values of that time.
pub record Row (V : Type 0) : Type 0 where
  pub mts : ℕ
  pub cells : List (String × V)

-- An item of one list: `none` is an `mts` that is no integer, and `vals` without keys.
pub record Item (V : Type 0) : Type 0 where
  pub mts : Option ℕ
  pub vals : Option V

module _ {V : Type 0} where
  unfoldable pub set_cell : String → V → List (String × V) → List (String × V)
  set_cell key vals [] = (key, vals) ∷ []
  set_cell key vals ((k, v) ∷ cells) =
      if str_eq k key then (k, vals) ∷ cells else (k, v) ∷ set_cell key vals cells

  abbrev pub new_row : String → ℕ → V → Row V
  new_row key mts vals = record { mts = mts; cells = (key, vals) ∷ [] }

  abbrev pub with_cell : String → V → Row V → Row V
  with_cell key vals row = record row { cells = set_cell key vals row.cells }

  -- `splice` with nothing removed
  unfoldable pub insert_at : ℕ → Row V → List (Row V) → List (Row V)
  insert_at zero row rows = row ∷ rows
  insert_at (suc i) row [] = row ∷ []
  insert_at (suc i) row (r ∷ rows) = r ∷ insert_at i row rows

  -- The two tests of the loop: a later row, and an earlier one behind it
  unfoldable pub is_between : ℕ → Row V → Option (Row V) → Bool
  is_between mts row none = false
  is_between mts row (some next) = ltb next.mts mts && ltb mts row.mts

  -- The body of the loop over `iterator.entries()`, at `index` i: the row there, and the one behind it
  unfoldable pub visit :
      String
      → ℕ
      → V
      → ℕ
      → List (Row V)
      → List (Row V)
      → Option (Row V)
      → Option (Row V)
      → List (Row V)
  unfolding insert_at is_between
  visit key mts vals i res rest none next = rest
  visit key mts vals i res rest (some row) next =
      if mts == row.mts
      then set res i (with_cell key vals row)
      else if is_between mts row next
      then insert_at (suc i) (new_row key mts vals) res
      else rest

  -- The loop, from the row before index `i` back
  unfoldable pub back_loop : String → ℕ → V → ℕ → List (Row V) → List (Row V)
  unfolding visit
  back_loop key mts vals zero res = res
  back_loop key mts vals (suc i) res =
      visit key mts vals i res (back_loop key mts vals i res) (get_elem? res i)
        (get_elem? res (suc i))

  abbrev pub is_before_last : ℕ → Option (Row V) → Bool
  is_before_last mts none = true
  is_before_last mts (some row) = ltb mts row.mts

  -- The callback for one key and one item that is valid
  unfoldable pub place_item : String → ℕ → V → List (Row V) → List (Row V)
  unfolding back_loop
  place_item key mts vals [] = new_row key mts vals ∷ []
  place_item key mts vals (first ∷ rows) =
      if ltb first.mts mts
      then new_row key mts vals ∷ first ∷ rows
      else if is_before_last mts (last? (first ∷ rows))
      then (first ∷ rows) ++ new_row key mts vals ∷ []
      else back_loop key mts vals (length (first ∷ rows)) (first ∷ rows)

  unfoldable pub merge_item : String → Option (Item V) → List (Row V) → List (Row V)
  unfolding place_item
  merge_item key none res = res
  merge_item key (some item) res = elim item.mts [
    | none ↦ res
    | some mts ↦ elim item.vals [ none ↦ res | some vals ↦ place_item key mts vals res ]
  ]

  -- `dataKeys.forEach`, at index `i`
  unfoldable pub merge_at : ℕ → List (String × List (Item V)) → List (Row V) → List (Row V)
  unfolding merge_item
  merge_at i [] res = res
  merge_at i ((key, items) ∷ columns) res =
      merge_at i columns (merge_item key (get_elem? items i) res)

  unfoldable pub get_max_length : List (String × List (Item V)) → ℕ
  get_max_length [] = 0
  get_max_length ((key, items) ∷ columns) =
      if leb (get_max_length columns) (length items) then length items else get_max_length columns

  unfoldable pub merge_from : ℕ → ℕ → List (String × List (Item V)) → List (Row V) → List (Row V)
  unfolding merge_at
  merge_from i zero columns res = res
  merge_from i (suc n) columns res = merge_from (i + 1) n columns (merge_at i columns res)

  unfoldable pub merge_data : List (String × List (Item V)) → List (Row V)
  unfolding merge_from get_max_length
  merge_data columns = merge_from 0 (get_max_length columns) columns []
