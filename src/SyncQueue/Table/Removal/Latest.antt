-- ===== src/SyncQueue/Table/Removal/Latest.antt =====
-- `_removeByState`: the jobs that stay are the latest of their state.
use bfx_reports_framework.Base.{
  ℕ, zero, suc, ◌≤◌, ◌<◌, ◌≡◌, refl, ap, min, Bool, true, false, not, ◌&&◌, ◌||◌, List, [], ◌∷◌,
  ltb, ◌==◌, length, filter, any, All, Any, ◌⊎◌, inl, inr, Bool-cases, arith,
}
use bfx_reports_framework.SyncQueue.Table.{
  Job, JobState, Table, comes_before, rank, same_state, has_id, remove_by_state,
}
use bfx_reports_framework.SyncQueue.Table.Ids.{HasOrderedIds}
use bfx_reports_framework.SyncQueue.Table.Removal.{
  count_mono, rank-lt, below-le, filter-filter, Any-filter, All-self, IsOf, ranks_below,
}

module _ {A : Type 0} where
  any-found :
      (p : A → Bool) (xs : List A) → any p xs ≡ true → (x : A) × Any (λ y. y ≡ x) xs × (p x ≡ true)
  any-found p [] h = ground (arith, h)
  any-found p (x ∷ xs) h = elim (Bool-cases (p x)) [
    | inl here ↦ (x, inl refl, here)
    | inr not_here ↦
        let (y, there, e) = any-found p xs (ground (arith, h, not_here)) in (y, inr there, e)
  ]

  count_mono_in :
      (p q : A → Bool) (xs : List A)
      → any (λ x. p x && not (q x)) xs ≡ false
      → length (filter p xs) ≤ length (filter q xs)
  count_mono_in p q [] h = omega arith
  count_mono_in p q (x ∷ xs) h = ground (arith, h, count_mono_in p q xs)

  All-filter :
      (P : A → Type 0) (p : A → Bool) (xs : List A)
      → ((x : A) → Any (λ y. y ≡ x) xs → p x ≡ true → P x)
      → All P (filter p xs)
  All-filter P p [] f = tt
  All-filter P p (x ∷ xs) f = elim (Bool-cases (p x)) [
    | inl yes_p ↦
        rw (yes_p, filter) (f x (inl refl) yes_p, All-filter P p xs (λ y there. f y (inr there)))
    | inr no_p ↦ rw (no_p, filter) (All-filter P p xs (λ y there. f y (inr there)))
  ]

has_id-member : (job : Job) (xs : List Job) → Any (λ x. x ≡ job) xs → has_id job.id xs ≡ true
unfolding has_id
has_id-member job [] h = absurd h
has_id-member job (x ∷ xs) (inl e) =
    let same : x.id ≡ job.id = ap (λ (j : Job). j.id) e in ground (arith, same)
has_id-member job (x ∷ xs) (inr there) = ground (arith, has_id-member job xs there)

-- Later by `updatedAt`, and by `_id` where that is the same
abbrev pub IsNewer : Job → Job → Type 0
IsNewer a b = (b.updated_at < a.updated_at) ⊎ ((a.updated_at ≡ b.updated_at) × (b.id < a.id))

IsNewer-before : (a b : Job) → comes_before a b ≡ true → IsNewer a b
unfolding comes_before
IsNewer-before a b h = ground (arith, h)

same-neither :
    (a b : Job)
    → comes_before a b ≡ false
    → comes_before b a ≡ false
    → (a.updated_at ≡ b.updated_at) × (a.id ≡ b.id)
unfolding comes_before
same-neither a b h k = ground (arith, h, k)

module _ (state : JobState) (rows : List Job) where
  rank-same :
      (a b : Job)
      → a.updated_at ≡ b.updated_at
      → a.id ≡ b.id
      → rank state rows a ≡ rank state rows b
  unfolding rank comes_before
  rank-same a b p q = λ i. length (
      filter
        (λ j.
          same_state j.state state
          && (ltb (p i) j.updated_at || (j.updated_at == p i && ltb (q i) j.id)))
        rows)

  -- A row of a lower rank is newer than one of a higher rank.
  IsNewer-rank :
      (a b : Job) → IsOf state rows b → rank state rows a < rank state rows b → IsNewer a b
  IsNewer-rank a b of_b lower = elim (Bool-cases (comes_before a b)) [
    | inl before ↦ IsNewer-before a b before
    | inr not_before ↦ elim (Bool-cases (comes_before b a)) [
      | inl after ↦ absurd (omega (arith, rank-lt state rows b a of_b after, lower))
      | inr not_after ↦
          let (p, q) = same-neither a b not_before not_after in
          absurd (omega (arith, rank-same a b p q, lower))
    ]
  ]

  abbrev later_than : Job → Job → Bool
  later_than r j = same_state j.state state && comes_before j r

  -- Where a row has 100 before it, the first 100 are there.
  kept_enough :
      (fuel : ℕ) (r : Job)
      → IsOf state rows r
      → rank state rows r ≤ fuel
      → 100 ≤ rank state rows r
      → 100 ≤ length (filter (ranks_below state rows 100) rows)
  unfolding rank
  kept_enough zero r of_r le many = absurd (omega (arith, le, many))
  kept_enough (suc fuel) r of_r le many =
      elim (Bool-cases (any (λ j. later_than r j && not (ranks_below state rows 100 j)) rows)) [
        | inl some_out ↦
            let (j, there, out) = any-found _ rows some_out in
            let (of_state, before, high) = split j out in
            kept_enough fuel j (of_state, there)
              (omega (arith, rank-lt state rows j r (of_state, there) before, le)) high
        | inr all_in ↦
            omega
              (arith, many, count_mono_in (later_than r) (ranks_below state rows 100) rows all_in)
      ]
    where
      split :
          (j : Job)
          → (later_than r j && not (ranks_below state rows 100 j)) ≡ true
          → (same_state j.state state ≡ true)
            × (comes_before j r ≡ true)
            × (100 ≤ rank state rows j)
      split j out = ground (arith, out)

  kept_count :
      length (filter (ranks_below state rows 100) rows) ≤ 100
      → length (filter (ranks_below state rows 100) rows)
        ≡ min 100 (length (filter (λ j. same_state j.state state) rows))
  kept_count few =
      let total =
        count_mono (ranks_below state rows 100) (λ j. same_state j.state state)
          (λ j h. ground (arith, h)) rows in
      elim (Bool-cases
        (any (λ j. same_state j.state state && not (ranks_below state rows 100 j)) rows)) [
          | inl some_out ↦
              let (j, there, out) = any-found _ rows some_out in
              let of_state : same_state j.state state ≡ true = ground (arith, out) in
              let high : 100 ≤ rank state rows j = ground (arith, out) in
              omega (
                arith,
                few,
                total,
                kept_enough (rank state rows j) j (of_state, there) (omega arith) high,
              )
          | inr all_in ↦ omega (
            arith,
            few,
            total,
            count_mono_in (λ j. same_state j.state state) (ranks_below state rows 100) rows all_in,
          )
        ]

module _ (state : JobState) (table : Table) where
  abbrev stays : Job → Bool
  stays job = not (same_state job.state state) || ltb (rank state table.rows job) 100

  -- The rows of the state that stay, and those that do not
  abbrev pub kept : List Job
  kept = filter (λ job. same_state job.state state) (remove_by_state state table).rows

  abbrev pub removed : List Job
  removed =
      filter
        (λ job.
          same_state job.state state && not (has_id job.id (remove_by_state state table).rows))
        table.rows

  kept_lem : kept ≡ filter (ranks_below state table.rows 100) table.rows
  unfolding remove_by_state
  kept_lem =
      filter-filter (λ (job : Job). same_state job.state state) stays
        (ranks_below state table.rows 100) table.rows (λ job. ground arith)

  high_rank :
      (job : Job)
      → Any (λ r. r ≡ job) table.rows
      → (same_state job.state state && not (has_id job.id (remove_by_state state table).rows))
        ≡ true
      → (same_state job.state state ≡ true) × (100 ≤ rank state table.rows job)
  unfolding remove_by_state
  high_rank job there h = elim (Bool-cases (stays job)) [
    | inl yes_stays ↦ absurd (
        ground (
          arith,
          h,
          has_id-member job (filter stays table.rows)
              (Any-filter stays job table.rows yes_stays there),
        ))
    | inr no_stays ↦ ground (arith, h, no_stays)
  ]

  -- In a table with its `_id`s in order, the removal leaves the latest 100 rows of the state, or all
  -- where there are fewer: as many stay, each is later by `updatedAt`, or by `_id` where that is the
  -- same, than each that goes; and the rows of all other states stay, in their order.
  pub remove_by_state_lem :
      HasOrderedIds table
      → (length kept ≡ min 100 (length (filter (λ job. same_state job.state state) table.rows)))
        × All (λ a. All (IsNewer a) removed) kept
        × (filter (λ job. not (same_state job.state state)) (remove_by_state state table).rows
            ≡ filter (λ job. not (same_state job.state state)) table.rows)
  unfolding remove_by_state
  remove_by_state_lem ordered = (
    rw kept_lem (
        kept_count state table.rows
          (below-le state table.rows 100 0 table.next_id table.rows ordered (All-self table.rows))),
    rw kept_lem (
        All-filter _ (ranks_below state table.rows 100) table.rows (λ a there low.
          All-filter (IsNewer a) _ table.rows (λ b at gone.
            let (of_state, high) = high_rank b at gone in
            let below : rank state table.rows a < 100 = ground (arith, low) in
            IsNewer-rank state table.rows a b (of_state, at) (omega (arith, below, high))))),
    filter-filter (λ (job : Job). not (same_state job.state state)) stays
        (λ job. not (same_state job.state state)) table.rows (λ job. ground arith),
  )
