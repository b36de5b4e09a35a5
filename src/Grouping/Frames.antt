-- ===== src/Grouping/Frames.antt =====
-- workers/loc.api/sync/helpers/group-by-timeframe.js and set-mts-to-starting-and-ending-frames.js.
-- `start_of` is get-start-mts-by-timeframe.js, which computes with moment. A pause of the event loop
-- (`setImmediate`) changes nothing.
pub mod Partition
pub mod Ends
use mathlib.Core.List.{reverse}
use bfx_reports_framework.Base.{
  ℕ, Bool, true, false, not, ◌&&◌, ◌||◌, ltb, ◌==◌, Option, none, some, List, [], ◌∷◌,
  if◌then◌else◌,
}

-- `custom` is a timeframe that is an integer, `without` anything else.
pub data Timeframe : Type 0 where
  day week month year without : Timeframe
  custom : ℕ → Timeframe

-- `_isTimeframe`, and `typeof timeframe === 'string'`
unfoldable pub is_timeframe : Timeframe → Bool
is_timeframe day = true
is_timeframe week = true
is_timeframe month = true
is_timeframe year = true
is_timeframe without = false
is_timeframe (custom n) = false

pub record Group (V : Type 0) : Type 0 where
  pub mts : ℕ
  pub vals : V

-- `_getMtsIfInTimeframe`
unfoldable pub get_mts_if_in_timeframe : (Timeframe → ℕ → ℕ) → ℕ → ℕ → Timeframe → ℕ
unfolding is_timeframe
get_mts_if_in_timeframe start_of native_mts mts timeframe =
    if not (is_timeframe timeframe) || (start_of timeframe mts == start_of timeframe native_mts)
    then mts
    else native_mts

module _ {V : Type 0} where
  abbrev pub with_mts : ℕ → Group V → Group V
  with_mts mts group = record group { mts = mts }

  unfoldable pub set_frame : (Timeframe → ℕ → ℕ) → Option ℕ → Timeframe → Group V → Group V
  unfolding get_mts_if_in_timeframe
  set_frame start_of none timeframe group = group
  set_frame start_of (some mts) timeframe group =
      with_mts (get_mts_if_in_timeframe start_of group.mts mts timeframe) group

  -- The last frame, where there is more than one
  unfoldable pub set_starting_frame :
      (Timeframe → ℕ → ℕ) → Option ℕ → Timeframe → List (Group V) → List (Group V)
  unfolding set_frame
  set_starting_frame start_of start timeframe [] = []
  set_starting_frame start_of start timeframe (group ∷ []) =
      set_frame start_of start timeframe group ∷ []
  set_starting_frame start_of start timeframe (group ∷ next ∷ groups) =
      group ∷ set_starting_frame start_of start timeframe (next ∷ groups)

  unfoldable pub set_mts_to_starting_and_ending_frames :
      (Timeframe → ℕ → ℕ) → List (Group V) → Option ℕ → Option ℕ → Timeframe → List (Group V)
  unfolding set_frame set_starting_frame
  set_mts_to_starting_and_ending_frames start_of [] start end timeframe = []
  set_mts_to_starting_and_ending_frames start_of (group ∷ []) start end timeframe =
      set_frame start_of end timeframe group ∷ []
  set_mts_to_starting_and_ending_frames start_of (group ∷ next ∷ groups) start end timeframe =
      set_frame start_of end timeframe group
      ∷ set_starting_frame start_of start timeframe (next ∷ groups)

abbrev pub last? {ℓ} : {A : Type ℓ} → List A → Option A
last? [] = none
last? (x ∷ []) = some x
last? (x ∷ y ∷ xs) = last? (y ∷ xs)

-- `date` is the date of an item, where it is an integer; `calc` is `calcDataFn`, given the items of the
-- fragment and the `mts`: what it returns does not hold the array itself, which the loop then empties, and `is_non_empty` says whether an object has keys.
module _ {A V : Type 0} (start_of : Timeframe → ℕ → ℕ) (date : A → Option ℕ)
    (calc : List A → Option ℕ → V) (is_non_empty : V → Bool) where
  abbrev pub date_of : Option A → Option ℕ
  date_of none = none
  date_of (some x) = date x

  abbrev is_later : Timeframe → Option ℕ → Option ℕ → Bool
  is_later timeframe none last = false
  is_later timeframe (some first) none = false
  is_later timeframe (some first) (some last) =
      ltb (start_of timeframe last) (start_of timeframe first)

  abbrev last_or : Option A → List A → Option A
  last_or next [] = next
  last_or next (x ∷ xs) = last? (x ∷ xs)

  -- `_checkTimeframe`, on the next item and the fragment
  unfoldable pub check_timeframe : Timeframe → Option A → List A → Bool → Bool
  check_timeframe timeframe next sub_res is_last_iter =
      is_later timeframe (date_of next) (date_of (last_or next sub_res)) || is_last_iter

  -- Whether an iteration ends a fragment: `isWithoutTimeframe` and the four timeframes
  unfoldable pub is_fragment_end : Timeframe → Option A → List A → Bool → Bool
  unfolding is_timeframe check_timeframe
  is_fragment_end timeframe next sub_res is_last_iter =
      if is_timeframe timeframe
      then check_timeframe timeframe next sub_res is_last_iter
      else is_last_iter

  -- The `mts` of `_getGroupItem`; there is none where the fragment is empty.
  unfoldable pub group_mts : Timeframe → List A → Option ℕ
  unfolding is_timeframe
  group_mts (custom n) items = some n
  group_mts without items = date_of (last? items)
  group_mts timeframe items = elim (date_of (last? items)) [
    | none ↦ none
    | some mts ↦ some (start_of timeframe mts)
  ]

  -- `_getGroupItem` and `_addFragment`
  unfoldable pub add_fragment : Timeframe → List A → List (Group V) → List (Group V)
  unfolding group_mts
  add_fragment timeframe sub_res res =
      let vals = calc sub_res (group_mts timeframe sub_res) in
      elim (group_mts timeframe sub_res) [
        | none ↦ res
        | some mts ↦ if is_non_empty vals then record { mts = mts; vals = vals } ∷ res else res
      ]

  abbrev push : A → List A → List A
  push item sub_res = elim (date item) [ none ↦ sub_res | some mts ↦ item ∷ sub_res ]

  -- The loop, from the last item to the first: the items still to come, the oldest first
  unfoldable pub group_loop : Timeframe → List A → List A → List (Group V) → List (Group V)
  unfolding is_fragment_end add_fragment
  group_loop timeframe [] sub_res res = res
  group_loop timeframe (item ∷ []) sub_res res =
      if is_fragment_end timeframe none (push item sub_res) true
      then add_fragment timeframe (push item sub_res) res
      else res
  group_loop timeframe (item ∷ next ∷ items) sub_res res =
      let ended =
        group_loop timeframe (next ∷ items) [] (add_fragment timeframe (push item sub_res) res) in
      let unended = group_loop timeframe (next ∷ items) (push item sub_res) res in
      if is_fragment_end timeframe (some next) (push item sub_res) false then ended else unended

  unfoldable pub group_by_timeframe : Timeframe → Option ℕ → Option ℕ → List A → List (Group V)
  unfolding group_loop set_mts_to_starting_and_ending_frames
  group_by_timeframe timeframe start end items =
      set_mts_to_starting_and_ending_frames start_of (group_loop timeframe (reverse items) [] [])
        start end timeframe
