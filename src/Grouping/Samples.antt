-- ===== src/Grouping/Samples.antt =====
-- Small inputs of the grouping, and what they give.
use bfx_reports_framework.Base.{ℕ, ◌*◌, ◌/◌, ◌≡◌, refl, true, some, List, [], ◌∷◌, arith}
use bfx_reports_framework.Grouping.Frames.{
  Timeframe, is_timeframe, get_mts_if_in_timeframe, set_frame, set_starting_frame,
  set_mts_to_starting_and_ending_frames, check_timeframe, is_fragment_end, group_mts, add_fragment,
  group_loop, group_by_timeframe,
}
use bfx_reports_framework.Grouping.Frames.Partition.{
  IsFrameStart, is_some_item, vals_of, AreFrames, IsNewestFirst,
}
use bfx_reports_framework.Grouping.Frames.Ends.{group_by_timeframe-AreFrames}

-- Frames of ten
abbrev tens : Timeframe → ℕ → ℕ
tens timeframe mts = mts / 10 * 10

tens-IsFrameStart : IsFrameStart tens
tens-IsFrameStart = record {
  monotone = λ timeframe a b h. omega (arith, h);
  idempotent = λ timeframe a. omega arith;
}

abbrev times : List ℕ
times = 25 ∷ 21 ∷ 13 ∷ 4 ∷ []

-- The first group gets the end of the request, which is in its frame.
group_by_ten :
    group_by_timeframe tens
      (λ x. some x)
      (λ items at. items)
      is_some_item
      Timeframe.day
      (some 40)
      (some 28)
      times
    ≡ record { mts = 28; vals = 25 ∷ 21 ∷ [] }
      ∷ record { mts = 10; vals = 13 ∷ [] }
      ∷ record { mts = 0; vals = 4 ∷ [] }
      ∷ []
unfolding group_by_timeframe group_loop add_fragment group_mts is_fragment_end check_timeframe
    set_mts_to_starting_and_ending_frames set_starting_frame set_frame get_mts_if_in_timeframe
    is_timeframe
group_by_ten = refl

is_day : is_timeframe Timeframe.day ≡ true
unfolding is_timeframe
is_day = refl

times-IsNewestFirst : IsNewestFirst tens (λ x. x) Timeframe.day times
times-IsNewestFirst = (
  (omega arith, (omega arith, (omega arith, tt))),
  ((omega arith, (omega arith, tt)), ((omega arith, tt), (tt, tt))),
)

group_by_timeframe-AreFrames_example :
    AreFrames tens
      (λ x. x)
      Timeframe.day
      (group_by_timeframe tens
        (λ x. some x)
        (λ items at. items)
        is_some_item
        Timeframe.day
        (some 40)
        (some 28)
        times)
    × (vals_of (
          group_by_timeframe tens
            (λ x. some x)
            (λ items at. items)
            is_some_item
            Timeframe.day
            (some 40)
            (some 28)
            times)
        ≡ times)
group_by_timeframe-AreFrames_example =
    group_by_timeframe-AreFrames tens (λ x. x) Timeframe.day (some 40) (some 28) times
      tens-IsFrameStart is_day times-IsNewestFirst
