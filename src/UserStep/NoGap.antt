-- ===== src/UserStep/NoGap.antt =====
-- workers/loc.api/sync/data.inserter/sync.user.step.manager/index.js: the next steps against the data
-- that the tables hold.
use bfx_reports_framework.Base.{
  ℕ, ◌≤◌, ◌≡◌, refl, inl, inr, sym, ap, ◌∙◌, subst, Bool, false, not, ◌&&◌, Option, none, some,
  List, [], ◌∷◌, Any, if_ind, if◌then◌else◌, arith,
}
use bfx_reports_framework.UserStep.{
  SyncUserStepData, Info, Elems, Coll, mts_of, is_empty, or_else, get_min_start, equal, first_step,
  stored_step, set_curr_step, set_base_step, mark_empty_step, next_step,
}

-- lib-js-util-base's `min` takes the numbers of a list that has other values as well.
pub record IsLeast (min : List (Option ℕ) → Option ℕ) : Type 0 where
  pub is_least :
      (xs : List (Option ℕ)) (n : ℕ)
      → Any (λ x. x ≡ some n) xs
      → (m : ℕ) × (min xs ≡ some m) × (m ≤ n)

abbrev pub IsFrom : Option ℕ → ℕ → Type 0
IsFrom start n = (s : ℕ) × (start ≡ some s) × (s ≤ n)

-- That an end comes no later than the first element of the temporary table, where that has one
abbrev pub IsUntil : Option ℕ → Option (Option ℕ) → Type 0
IsUntil end none = Unit {0}
IsUntil end (some none) = Unit {0}
IsUntil end (some (some t)) = IsFrom end t

module _ (min_start_mts : ℕ) (min max : List (Option ℕ) → Option ℕ) (coll : Coll) (info : Info)
    (elems : Elems) (default_start : Option ℕ) (curr_mts : ℕ) where
  abbrev pub next : SyncUserStepData
  next = next_step min_start_mts min max coll info elems default_start curr_mts

  -- A step from `start` to `end` against the data
  abbrev pub IsBetween : Option ℕ → Option ℕ → ℕ → Type 0
  IsBetween start end n = IsFrom start n × IsUntil end elems.first_temp

  start_lem :
      (start other : Option ℕ) (n : ℕ) (found : Option (Option ℕ))
      → IsLeast min
      → found ≡ some (some n)
      → IsFrom (or_else (min (start ∷ mts_of found ∷ [])) other) n
  start_lem start other n found least at_found =
      let (m, e, le) =
        least.is_least (start ∷ mts_of found ∷ []) n (inr (inl (ap mts_of at_found))) in
      (m, rw e refl, le)

  end_lem :
      (end other : Option ℕ) (temp : Option (Option ℕ))
      → IsLeast min
      → IsUntil (or_else (min (end ∷ mts_of temp ∷ [])) other) temp
  end_lem end other none least = tt
  end_lem end other (some none) least = tt
  end_lem end other (some (some t)) least = start_lem end other t (some (some t)) least refl

  abbrev AreBetween : SyncUserStepData → ℕ → Type 0
  AreBetween step first = IsBetween step.base_start step.base_end first

  mark_lem :
      (step : SyncUserStepData) (first : ℕ)
      → AreBetween step first
      → AreBetween (mark_empty_step min_start_mts min max step) first
  mark_lem step first h =
      if_ind {A = SyncUserStepData} (λ t. AreBetween t first) (equal step.base_start step.base_end)
        (λ _. h) (λ _. h)

  mark-curr :
      (step : SyncUserStepData)
      → ((mark_empty_step min_start_mts min max step).curr_start ≡ step.curr_start)
        × ((mark_empty_step min_start_mts min max step).curr_end ≡ step.curr_end)
  mark-curr step = ground arith

  set_base_step_lem :
      (step : SyncUserStepData) (first : ℕ)
      → IsLeast min
      → coll.is_updatable ≡ false
      → elems.first_main ≡ some (some first)
      → AreBetween
          (set_base_step min_start_mts min max coll info elems default_start curr_mts step)
          first
  unfolding set_base_step
  set_base_step_lem step first least plain at_first =
      rw (plain, set_base_step)
        (mark_lem _ first (
          start_lem _ default_start first elems.first_main least at_first,
          end_lem info.base_end _ elems.first_temp least,
        ))

  abbrev unmarked : SyncUserStepData → SyncUserStepData
  unmarked step =
      if coll.is_updatable
      then record step { base_start = default_start; base_end = some curr_mts }
      else record step {
        base_start =
            or_else
              (min (
                get_min_start min_start_mts min max info.base_start ∷ mts_of elems.first_main ∷ []))
              default_start;
        base_end =
            or_else (min (info.base_end ∷ mts_of elems.first_temp ∷ []))
              (or_else (mts_of elems.last_main) (some curr_mts));
      }

  set_base_step-curr :
      (step : SyncUserStepData)
      → coll.is_updatable ≡ false
      → ((set_base_step min_start_mts min max coll info elems default_start curr_mts
            step).curr_start
          ≡ step.curr_start)
        × ((set_base_step min_start_mts min max coll info elems default_start curr_mts
              step).curr_end
            ≡ step.curr_end)
  unfolding set_base_step
  set_base_step-curr step plain =
      let mark = mark-curr (unmarked step) in (mark.0 ∙ rw plain refl, mark.1 ∙ rw plain refl)

  set_curr_step_lem :
      (step : SyncUserStepData) (last : ℕ)
      → IsLeast min
      → coll.is_updatable ≡ false
      → elems.last_main ≡ some (some last)
      → let t = set_curr_step min_start_mts min max coll info elems default_start curr_mts step in
        IsBetween t.curr_start t.curr_end last
  unfolding set_curr_step
  set_curr_step_lem step last least plain at_last =
      rw (plain, set_curr_step)
        (
          start_lem info.curr_start default_start last elems.last_main least at_last,
          end_lem info.curr_end _ elems.first_temp least,
        )

  abbrev stored : SyncUserStepData
  stored = stored_step min_start_mts min max coll info

  abbrev curr : SyncUserStepData
  curr =
      if info.is_curr_step_ready
      then stored
      else set_curr_step min_start_mts min max coll info elems default_start curr_mts stored

  abbrev based : SyncUserStepData
  based = set_base_step min_start_mts min max coll info elems default_start curr_mts curr

  and_false : (a b : Bool) → (a && (false && b)) ≡ false
  and_false a b = ground arith

  next_step-not_first :
      (last : ℕ)
      → elems.last_main ≡ some (some last)
      → next ≡ (if info.is_base_step_ready then curr else based)
  unfolding next_step
  next_step-not_first last at_last =
      let nonempty : (not info.is_base_step_ready
            && (is_empty elems.last_main && is_empty elems.last_temp))
          ≡ false =
        ap (λ o. not info.is_base_step_ready && (is_empty o && is_empty elems.last_temp)) at_last
        ∙ and_false (not info.is_base_step_ready) (is_empty elems.last_temp) in
      ap
        (λ b.
          if b
          then first_step min_start_mts min max coll info default_start curr_mts
          else if info.is_base_step_ready
          then curr
          else based)
        nonempty

  -- Where the main table holds data, the collection is not synced anew as a whole, and lib-js-util-base's
  -- min takes the numbers: the current step, unless it is ready, starts at or before the last element
  -- of the table, and the base step, unless it is ready, at or before the first one; and each of these
  -- steps ends at or before the first element of the temporary table, where that has one.
  pub next_step-IsFrom :
      (first last : ℕ)
      → IsLeast min
      → coll.is_updatable ≡ false
      → elems.first_main ≡ some (some first)
      → elems.last_main ≡ some (some last)
      → (info.is_curr_step_ready ≡ false → IsBetween next.curr_start next.curr_end last)
        × (info.is_base_step_ready ≡ false → IsBetween next.base_start next.base_end first)
  next_step-IsFrom first last least plain at_first at_last =
      subst
        (λ step.
          (info.is_curr_step_ready ≡ false → IsBetween step.curr_start step.curr_end last)
          × (info.is_base_step_ready ≡ false → IsBetween step.base_start step.base_end first))
        (sym (next_step-not_first last at_last))
        (
          λ curr_open.
              let from : IsBetween curr.curr_start curr.curr_end last =
                subst
                  (λ b.
                    let t =
                      if b
                      then stored
                      else set_curr_step min_start_mts min max coll info elems default_start
                          curr_mts stored in
                    IsBetween t.curr_start t.curr_end last)
                  (sym curr_open) (set_curr_step_lem stored last least plain at_last) in
              let (same_start, same_end) = set_base_step-curr curr plain in
              if_ind {A = SyncUserStepData} (λ step. IsBetween step.curr_start step.curr_end last)
                info.is_base_step_ready (λ _. from)
                (λ _.
                  subst (λ (p : Option ℕ × Option ℕ). IsBetween p.0 p.1 last)
                    (sym (λ i. (same_start i, same_end i))) from),
          λ base_open.
              subst (λ b. AreBetween (if b then curr else based) first) (sym base_open)
                (set_base_step_lem curr first least plain at_first),
        )
