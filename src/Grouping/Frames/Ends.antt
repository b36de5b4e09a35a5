-- ===== src/Grouping/Frames/Ends.antt =====
-- workers/loc.api/sync/helpers/group-by-timeframe.js with set-mts-to-starting-and-ending-frames.js: the
-- first and the last group, and the whole.
use mathlib.Core.List.{reverse, reverse-reverse, reverse-cons}
use bfx_reports_framework.Base.{
  ℕ, ◌<◌, ◌≤◌, ◌≡◌, refl, sym, ap, ◌∙◌, subst, true, not, ◌||◌, ◌==◌, ==_iff, Option, none, some,
  List, [], ◌∷◌, ◌++◌, All, All-map, All-reverse, append-nil, if_ind, arith,
}
use bfx_reports_framework.Grouping.Frames.{
  Timeframe, is_timeframe, Group, get_mts_if_in_timeframe, set_frame, set_starting_frame,
  set_mts_to_starting_and_ending_frames, group_loop, group_by_timeframe,
}
use bfx_reports_framework.Grouping.Frames.Partition.{
  IsFrameStart, is_some_item, vals_of, AreFrames, IsNewestFirst, IsOldestFirst, Result, loop,
  group_loop_lem,
}

module _ {A : Type 0} (start_of : Timeframe → ℕ → ℕ) (mts : A → ℕ) (timeframe : Timeframe)
    (is_text : is_timeframe timeframe ≡ true) where
  abbrev frame : ℕ → ℕ
  frame = start_of timeframe

  -- The same fragments, at times of the same frames
  abbrev IsLike : Group (List A) → Group (List A) → Type 0
  IsLike group other = (frame other.mts ≡ frame group.mts) × (other.vals ≡ group.vals)

  abbrev AreLike : List (Group (List A)) → List (Group (List A)) → Type 0
  AreLike [] [] = Unit
  AreLike [] (g ∷ gs) = ⊥
  AreLike (g ∷ gs) [] = ⊥
  AreLike (g ∷ gs) (o ∷ os) = IsLike g o × AreLike gs os

  AreLike-refl : (gs : List (Group (List A))) → AreLike gs gs
  AreLike-refl [] = tt
  AreLike-refl (g ∷ gs) = ((refl, refl), AreLike-refl gs)

  in_frame :
      (native mts : ℕ)
      → frame (get_mts_if_in_timeframe start_of native mts timeframe) ≡ frame native
  unfolding get_mts_if_in_timeframe
  in_frame native mts =
      if_ind (λ m. frame m ≡ frame native)
        (not (is_timeframe timeframe) || (frame mts == frame native))
        (λ test.
          (==_iff (frame mts) (frame native)).0
            (sym (ap (λ b. not b || (frame mts == frame native)) is_text) ∙ test))
        (λ _. refl)

  set_frame-IsLike :
      (end : Option ℕ) (g : Group (List A)) → IsLike g (set_frame start_of end timeframe g)
  unfolding set_frame
  set_frame-IsLike none g = (refl, refl)
  set_frame-IsLike (some m) g = (in_frame g.mts m, refl)

  set_starting_frame-AreLike :
      (start : Option ℕ) (gs : List (Group (List A)))
      → AreLike gs (set_starting_frame start_of start timeframe gs)
  unfolding set_starting_frame
  set_starting_frame-AreLike start [] = tt
  set_starting_frame-AreLike start (g ∷ []) = (set_frame-IsLike start g, tt)
  set_starting_frame-AreLike start (g ∷ next ∷ gs) =
      ((refl, refl), set_starting_frame-AreLike start (next ∷ gs))

  set_mts-AreLike :
      (start end : Option ℕ) (gs : List (Group (List A)))
      → AreLike gs (set_mts_to_starting_and_ending_frames start_of gs start end timeframe)
  unfolding set_mts_to_starting_and_ending_frames
  set_mts-AreLike start end [] = tt
  set_mts-AreLike start end (g ∷ []) = (set_frame-IsLike end g, tt)
  set_mts-AreLike start end (g ∷ next ∷ gs) =
      (set_frame-IsLike end g, set_starting_frame-AreLike start (next ∷ gs))

  below_like :
      (k k' : ℕ) (gs os : List (Group (List A)))
      → k' ≡ k
      → AreLike gs os
      → All (λ g. frame g.mts < k) gs
      → All (λ g. frame g.mts < k') os
  below_like k k' [] [] e like a = tt
  below_like k k' [] (o ∷ os) e like a = elim like [ ]
  below_like k k' (g ∷ gs) [] e like a = elim like [ ]
  below_like k k' (g ∷ gs) (o ∷ os) e like a =
      (omega (arith, e, like.0.0, a.0), below_like k k' gs os e like.1 a.1)

  frames_like :
      (gs os : List (Group (List A)))
      → AreLike gs os
      → AreFrames start_of mts timeframe gs
      → AreFrames start_of mts timeframe os × (vals_of os ≡ vals_of gs)
  frames_like [] [] like f = ((tt, tt), refl)
  frames_like [] (o ∷ os) like f = elim like [ ]
  frames_like (g ∷ gs) [] like f = elim like [ ]
  frames_like (g ∷ gs) (o ∷ os) ((at, vals), like) ((frame_g, frames), (below, descending)) =
      let ((frames', descending'), all) = frames_like gs os like (frames, descending) in
      (
        (
          (
            subst (λ xs. All (λ x. frame (mts x) ≡ frame o.mts) xs) (sym vals)
                (All-map _ (λ x. frame (mts x) ≡ frame o.mts) g.vals (λ x e. e ∙ sym at) frame_g),
            frames',
          ),
          (below_like (frame g.mts) (frame o.mts) gs os at like below, descending'),
        ),
        ap (λ xs. xs ++ vals_of os) vals ∙ ap (λ xs. g.vals ++ xs) all,
      )

  oldest_append :
      (xs : List A) (y : A)
      → IsOldestFirst start_of mts timeframe xs
      → All (λ x. mts x ≤ mts y) xs
      → IsOldestFirst start_of mts timeframe (xs ++ y ∷ [])
  oldest_append [] y o a = tt
  oldest_append (x ∷ []) y o a = (a.0, tt)
  oldest_append (x ∷ z ∷ xs) y o a = (o.0, oldest_append (z ∷ xs) y o.1 a.1)

  oldest_reverse :
      (xs : List A)
      → IsNewestFirst start_of mts timeframe xs
      → IsOldestFirst start_of mts timeframe (reverse xs)
  oldest_reverse [] h = tt
  oldest_reverse (x ∷ xs) h =
      subst (IsOldestFirst start_of mts timeframe) (sym (reverse-cons x xs)) (
        oldest_append (reverse xs) x (oldest_reverse xs h.1)
          (All-reverse (λ y. mts y ≤ mts x) xs h.0))

  module _ (h : IsFrameStart start_of) where
    loop_result :
        (items : List A)
        → IsOldestFirst start_of mts timeframe items
        → Result start_of mts timeframe h is_text
            (reverse items)
            (loop start_of mts timeframe h is_text items [] [])
    unfolding group_loop
    loop_result [] o = ((tt, tt), refl)
    loop_result (item ∷ rest) o =
        let (frames, all) =
          group_loop_lem start_of mts timeframe h is_text item rest [] [] ((tt, tt), tt, tt) o in
        (frames, all ∙ append-nil (reverse (item ∷ rest)))

-- For a timeframe of a day, a week, a month or a year, moment's start of it being monotone and
-- idempotent, and data with dates, newest first: grouped with a callback that returns a copy of its
-- fragment, every group is of one frame of the timeframe, the groups come newest first with each frame once,
-- and one after another they hold the data, in its order, for every start and end of the request.
pub group_by_timeframe-AreFrames :
    {A : Type 0} (start_of : Timeframe → ℕ → ℕ) (mts : A → ℕ) (timeframe : Timeframe)
    (start end : Option ℕ) (items : List A)
    → IsFrameStart start_of
    → is_timeframe timeframe ≡ true
    → IsNewestFirst start_of mts timeframe items
    → AreFrames start_of mts timeframe (
        group_by_timeframe start_of
          (λ x. some (mts x))
          (λ items at. items)
          is_some_item
          timeframe
          start
          end
          items)
      × (vals_of (
            group_by_timeframe start_of
              (λ x. some (mts x))
              (λ items at. items)
              is_some_item
              timeframe
              start
              end
              items)
          ≡ items)
unfolding group_by_timeframe
group_by_timeframe-AreFrames start_of mts timeframe start end items h is_text newest =
    let (frames, all) =
      loop_result start_of mts timeframe is_text h (reverse items)
        (oldest_reverse start_of mts timeframe is_text items newest) in
    let (frames', all') =
      frames_like start_of mts timeframe is_text _ _
        (set_mts-AreLike start_of mts timeframe is_text start end _) frames in
    (frames', all' ∙ all ∙ reverse-reverse items)
