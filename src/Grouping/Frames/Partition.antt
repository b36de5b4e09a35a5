-- ===== src/Grouping/Frames/Partition.antt =====
-- workers/loc.api/sync/helpers/group-by-timeframe.js: the loop, and the frames of the data.
use mathlib.Core.List.{reverse, reverse-cons}
use bfx_reports_framework.Base.{
  ℕ, ◌<◌, ◌≤◌, ◌≡◌, refl, sym, ap, ◌∙◌, subst, Bool, true, false, ◌||◌, ltb, none, some, List, [],
  ◌∷◌, ◌++◌, All, All-map, append_assoc, if_ind, if◌then◌else◌, ltb→lt, arith,
}
use bfx_reports_framework.Grouping.Frames.{
  Timeframe, is_timeframe, Group, last?, check_timeframe, is_fragment_end, group_mts, add_fragment,
  group_loop,
}

-- moment's start of a frame keeps the order of times, and is its own start.
pub record IsFrameStart (start_of : Timeframe → ℕ → ℕ) : Type 0 where
  pub monotone :
      (timeframe : Timeframe) (a b : ℕ) → a ≤ b → start_of timeframe a ≤ start_of timeframe b
  pub idempotent :
      (timeframe : Timeframe) (a : ℕ)
      → start_of timeframe (start_of timeframe a) ≡ start_of timeframe a

abbrev pub is_some_item {ℓ} : {A : Type ℓ} → List A → Bool
is_some_item [] = false
is_some_item (x ∷ xs) = true

abbrev pub vals_of : {A : Type 0} → List (Group (List A)) → List A
vals_of [] = []
vals_of (group ∷ groups) = group.vals ++ vals_of groups

ltb→ge : (a b : ℕ) → ltb a b ≡ false → b ≤ a
ltb→ge a b h = ground arith

or_false : (b : Bool) → (b || false) ≡ b
or_false true = refl
or_false false = refl

module _ {A : Type 0} (start_of : Timeframe → ℕ → ℕ) (mts : A → ℕ) (timeframe : Timeframe) where
  abbrev pub frame : ℕ → ℕ
  frame = start_of timeframe

  -- The items of a group are those of one frame, which is the group's.
  abbrev pub IsFrame : Group (List A) → Type 0
  IsFrame group = All (λ x. frame (mts x) ≡ frame group.mts) group.vals

  -- Newest first, each frame once
  abbrev pub AreDescending : List (Group (List A)) → Type 0
  AreDescending [] = Unit
  AreDescending (group ∷ groups) =
      All (λ other. frame other.mts < frame group.mts) groups × AreDescending groups

  abbrev pub AreFrames : List (Group (List A)) → Type 0
  AreFrames groups = All IsFrame groups × AreDescending groups

  abbrev pub IsNewestFirst : List A → Type 0
  IsNewestFirst [] = Unit
  IsNewestFirst (x ∷ xs) = All (λ y. mts y ≤ mts x) xs × IsNewestFirst xs

  abbrev pub IsOldestFirst : List A → Type 0
  IsOldestFirst [] = Unit
  IsOldestFirst (x ∷ []) = Unit
  IsOldestFirst (x ∷ y ∷ xs) = (mts x ≤ mts y) × IsOldestFirst (y ∷ xs)

  module _ (h : IsFrameStart start_of) (is_text : is_timeframe timeframe ≡ true) where
    abbrev pub loop : List A → List A → List (Group (List A)) → List (Group (List A))
    loop items sub_res res =
        group_loop start_of (λ x. some (mts x)) (λ items at. items) is_some_item timeframe items
          sub_res res

    -- Where the loop stands: the groups are frames before that of the next item, and the fragment
    -- is of its frame.
    abbrev Stands : A → List A → List (Group (List A)) → Type 0
    Stands item sub_res res =
        AreFrames res
        × All (λ group. frame group.mts < frame (mts item)) res
        × All (λ x. frame (mts x) ≡ frame (mts item)) sub_res

    last-All :
        (P : A → Type 0) (x : A) (xs : List A)
        → All P (x ∷ xs)
        → (l : A) × (last? (x ∷ xs) ≡ some l) × P l
    last-All P x [] a = (x, refl, a.0)
    last-All P x (y ∷ xs) a = last-All P y xs a.1

    group_mts_lem :
        (tf : Timeframe) (items : List A) (l : A)
        → is_timeframe tf ≡ true
        → last? items ≡ some l
        → group_mts start_of (λ x. some (mts x)) (λ items at. items) is_some_item tf items
          ≡ some (start_of tf (mts l))
    unfolding group_mts is_timeframe
    group_mts_lem Timeframe.day items l t e = rw (e, group_mts)
    group_mts_lem Timeframe.week items l t e = rw (e, group_mts)
    group_mts_lem Timeframe.month items l t e = rw (e, group_mts)
    group_mts_lem Timeframe.year items l t e = rw (e, group_mts)
    group_mts_lem Timeframe.without items l t e = cc
    group_mts_lem (Timeframe.custom n) items l t e = cc

    abbrev add : List A → List (Group (List A)) → List (Group (List A))
    add = add_fragment start_of (λ x. some (mts x)) (λ items at. items) is_some_item timeframe

    -- The group that a fragment becomes
    add_fragment_lem :
        (item : A) (sub_res : List A) (res : List (Group (List A)))
        → All (λ x. frame (mts x) ≡ frame (mts item)) sub_res
        → (group : Group (List A)) × (add (item ∷ sub_res) res ≡ group ∷ res)
          × (group.vals ≡ item ∷ sub_res)
          × (frame group.mts ≡ frame (mts item))
    unfolding add_fragment
    add_fragment_lem item sub_res res a =
        let (l, at_last, same) =
          last-All (λ x. frame (mts x) ≡ frame (mts item)) item sub_res (refl, a) in
        (
          record { mts = frame (mts l); vals = item ∷ sub_res },
          rw (group_mts_lem timeframe (item ∷ sub_res) l is_text at_last, add_fragment),
          refl,
          h.idempotent timeframe (mts l) ∙ same,
        )

    added-AreFrames :
        (item : A) (sub_res : List A) (res : List (Group (List A))) (group : Group (List A))
        → Stands item sub_res res
        → group.vals ≡ item ∷ sub_res
        → frame group.mts ≡ frame (mts item)
        → AreFrames (group ∷ res)
    added-AreFrames item sub_res res group (frames, before, same) vals at = (
      (
        subst (λ xs. All (λ x. frame (mts x) ≡ frame group.mts) xs) (sym vals)
            (
              sym at,
              All-map _ (λ x. frame (mts x) ≡ frame group.mts) sub_res (λ x e. e ∙ sym at) same,
            ),
        frames.0,
      ),
      (
        All-map _ (λ other. frame other.mts < frame group.mts) res
            (λ g lt. subst (λ k. frame g.mts < k) (sym at) lt) before,
        frames.1,
      ),
    )

    -- A fragment ends before the next item exactly where the next item is of a later frame.
    fragment_end_lem :
        (item next : A) (sub_res : List A)
        → All (λ x. frame (mts x) ≡ frame (mts item)) sub_res
        → is_fragment_end start_of
            (λ x. some (mts x))
            (λ items at. items)
            is_some_item
            timeframe
            (some next)
            (item ∷ sub_res)
            false
          ≡ ltb (frame (mts item)) (frame (mts next))
    unfolding is_fragment_end check_timeframe
    fragment_end_lem item next sub_res a =
        let (l, at_last, same) =
          last-All (λ x. frame (mts x) ≡ frame (mts item)) item sub_res (refl, a) in
        rw (is_text, at_last, same, is_fragment_end) (or_false _)

    last_end_lem :
        (item : A) (sub_res : List A)
        → is_fragment_end start_of
            (λ x. some (mts x))
            (λ items at. items)
            is_some_item
            timeframe
            none
            (item ∷ sub_res)
            true
          ≡ true
    unfolding is_fragment_end check_timeframe
    last_end_lem item sub_res = rw (is_text, is_fragment_end)

    -- The groups are frames, and they hold the items still to come, the fragment and the groups so far.
    abbrev pub Result : List A → List (Group (List A)) → Type 0
    Result items groups = AreFrames groups × (vals_of groups ≡ items)

    vals_of-added :
        (item : A) (sub_res : List A) (res : List (Group (List A))) (group : Group (List A))
        → group.vals ≡ item ∷ sub_res
        → vals_of (group ∷ res) ≡ item ∷ (sub_res ++ vals_of res)
    vals_of-added item sub_res res group e = ap (λ xs. xs ++ vals_of res) e

    reverse_step :
        (item : A) (rest xs : List A) → reverse rest ++ (item ∷ xs) ≡ reverse (item ∷ rest) ++ xs
    reverse_step item rest xs =
        sym (
          ap (λ ys. ys ++ xs) (reverse-cons item rest) ∙ append_assoc (reverse rest) (item ∷ []) xs)

    next_Stands :
        (item next : A) (sub_res : List A) (res : List (Group (List A)))
        → Stands item sub_res res
        → mts item ≤ mts next
        → ltb (frame (mts item)) (frame (mts next)) ≡ false
        → Stands next (item ∷ sub_res) res
    next_Stands item next sub_res res (frames, before, same) le test =
        let eq : frame (mts item) ≡ frame (mts next) = omega (
          arith,
          h.monotone timeframe (mts item) (mts next) le,
          ltb→ge (frame (mts item)) (frame (mts next)) test,
        ) in
        (
          frames,
          All-map _ (λ g. frame g.mts < frame (mts next)) res
              (λ g lt. subst (λ k. frame g.mts < k) eq lt) before,
          (eq, All-map _ (λ x. frame (mts x) ≡ frame (mts next)) sub_res (λ x e. e ∙ eq) same),
        )

    loop_last :
        (item : A) (sub_res : List A) (res : List (Group (List A)))
        → loop (item ∷ []) sub_res res ≡ add (item ∷ sub_res) res
    unfolding group_loop
    loop_last item sub_res res =
        ap (λ b. if b then add (item ∷ sub_res) res else res) (last_end_lem item sub_res)

    loop_next :
        (item next : A) (rest sub_res : List A) (res : List (Group (List A)))
        → All (λ x. frame (mts x) ≡ frame (mts item)) sub_res
        → loop (item ∷ next ∷ rest) sub_res res ≡ (
            if ltb (frame (mts item)) (frame (mts next))
            then loop (next ∷ rest) [] (add (item ∷ sub_res) res)
            else loop (next ∷ rest) (item ∷ sub_res) res)
    unfolding group_loop
    loop_next item next rest sub_res res a =
        ap
          (λ b.
            if b
            then loop (next ∷ rest) [] (add (item ∷ sub_res) res)
            else loop (next ∷ rest) (item ∷ sub_res) res)
          (fragment_end_lem item next sub_res a)

    ended_Stands :
        (item next : A) (sub_res : List A) (res : List (Group (List A))) (group : Group (List A))
        → Stands item sub_res res
        → group.vals ≡ item ∷ sub_res
        → frame group.mts ≡ frame (mts item)
        → ltb (frame (mts item)) (frame (mts next)) ≡ true
        → Stands next [] (group ∷ res)
    ended_Stands item next sub_res res group s vals at test =
        let lt = ltb→lt (frame (mts item)) (frame (mts next)) test in
        (
          added-AreFrames item sub_res res group s vals at,
          (
            omega (arith, lt, at),
            All-map _ (λ g. frame g.mts < frame (mts next)) res
                (λ g before. omega (arith, before, lt)) s.1,
          ),
          tt,
        )

    pub group_loop_lem :
        (item : A) (rest sub_res : List A) (res : List (Group (List A)))
        → Stands item sub_res res
        → IsOldestFirst (item ∷ rest)
        → Result
            (reverse (item ∷ rest) ++ (sub_res ++ vals_of res))
            (loop (item ∷ rest) sub_res res)
    group_loop_lem item [] sub_res res s o =
        let (group, e, vals, at) = add_fragment_lem item sub_res res s.2 in
        subst (Result (item ∷ (sub_res ++ vals_of res))) (sym (loop_last item sub_res res ∙ e)) (
          added-AreFrames item sub_res res group s vals at,
          vals_of-added item sub_res res group vals,
        )
    group_loop_lem item (next ∷ rest) sub_res res s o =
        let (group, e, vals, at) = add_fragment_lem item sub_res res s.2 in
        let ended = group_loop_lem next rest [] (group ∷ res) in
        let unended = group_loop_lem next rest (item ∷ sub_res) res in
        subst (Result (reverse (item ∷ next ∷ rest) ++ (sub_res ++ vals_of res)))
          (sym (loop_next item next rest sub_res res s.2))
          (if_ind (Result (reverse (item ∷ next ∷ rest) ++ (sub_res ++ vals_of res)))
            (ltb (frame (mts item)) (frame (mts next)))
            (λ test.
              let (frames, all) =
                ended (ended_Stands item next sub_res res group s vals at test) o.1 in
              subst
                (λ groups.
                  Result (reverse (item ∷ next ∷ rest) ++ (sub_res ++ vals_of res))
                    (loop (next ∷ rest) [] groups))
                (sym e)
                (
                  frames,
                  all
                      ∙ ap (λ ys. reverse (next ∷ rest) ++ ys)
                          (vals_of-added item sub_res res group vals)
                      ∙ reverse_step item (next ∷ rest) (sub_res ++ vals_of res),
                ))
            (λ test.
              let (frames, all) = unended (next_Stands item next sub_res res s o.0 test) o.1 in
              (frames, all ∙ reverse_step item (next ∷ rest) (sub_res ++ vals_of res))))
