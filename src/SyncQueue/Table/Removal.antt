-- ===== src/SyncQueue/Table/Removal.antt =====
-- `_removeByState`: the ranks of the jobs of one state.
pub mod Latest
use bfx_reports_framework.Base.{
  ℕ, zero, suc, ◌+◌, ◌≤◌, ◌<◌, ◌≡◌, ◌≢◌, refl, ap, Bool, true, false, not, ◌&&◌, ◌||◌, List, [],
  ◌∷◌, arith, ltb, ◌==◌, length, filter, All, Any, Any-map, &&_iff, ◌⊎◌, ◌∙◌, sym, All-map,
  Bool-cases, inl, inr, ==_iff,
}
use bfx_reports_framework.SyncQueue.Table.{
  Job, JobState, Table, comes_before, rank, same_state, remove_by_state,
}
use bfx_reports_framework.SyncQueue.Table.Ids.{Between, HasOrderedIds}

module _ {A : Type 0} (p q : A → Bool) where
  count-or :
      (r : A → Bool) (xs : List A)
      → ((x : A) → r x ≡ true → (p x || q x) ≡ true)
      → length (filter r xs) ≤ length (filter p xs) + length (filter q xs)
  count-or r [] h = omega arith
  count-or r (x ∷ xs) h = ground (arith, h x, count-or r xs h)

  module _ (implies : (x : A) → p x ≡ true → q x ≡ true) where
    pub count_mono : (xs : List A) → length (filter p xs) ≤ length (filter q xs)
    count_mono [] = omega arith
    count_mono (x ∷ xs) = ground (arith, implies x, count_mono xs)

    count_lt :
        (xs : List A)
        → Any (λ x. (q x ≡ true) × (p x ≡ false)) xs
        → length (filter p xs) < length (filter q xs)
    count_lt [] h = absurd h
    count_lt (x ∷ xs) (inl (yes_q, no_p)) = ground (arith, count_mono xs)
    count_lt (x ∷ xs) (inr later) = ground (arith, implies x, count_lt xs later)

comes_before_trans :
    (a b c : Job) → comes_before a b ≡ true → comes_before b c ≡ true → comes_before a c ≡ true
unfolding comes_before
comes_before_trans a b c h k = ground arith

comes_before_irrefl : (a : Job) → comes_before a a ≡ false
unfolding comes_before
comes_before_irrefl a = ground arith

comes_before_total :
    (a b : Job) → a.id < b.id → (comes_before a b ≡ true) ⊎ (comes_before b a ≡ true)
unfolding comes_before
comes_before_total a b h = ground arith

module _ (state : JobState) (rows : List Job) where
  abbrev pub IsOf : Job → Type 0
  IsOf job = (same_state job.state state ≡ true) × Any (λ r. r ≡ job) rows

  pub rank-lt :
      (a b : Job) → IsOf a → comes_before a b ≡ true → rank state rows a < rank state rows b
  unfolding rank
  rank-lt a b (of_state, there) before =
      count_lt (λ j. same_state j.state state && comes_before j a)
        (λ j. same_state j.state state && comes_before j b)
        (λ j h. ground (arith, h, comes_before_trans j a b, before)) rows
        (Any-map (λ r. r ≡ a) _ rows
          (λ r e. rw e (ground (arith, of_state, before), ground (arith, comes_before_irrefl a)))
          there)

  rank-ne : (a b : Job) → IsOf a → IsOf b → a.id < b.id → rank state rows a ≢ rank state rows b
  rank-ne a b of_a of_b ids e = elim (comes_before_total a b ids) [
    | inl first ↦ omega (arith, rank-lt a b of_a first)
    | inr second ↦ omega (arith, rank-lt b a of_b second)
  ]

  abbrev has_rank : ℕ → Job → Bool
  has_rank n job = same_state job.state state && rank state rows job == n

  none_of_rank :
      (n low high : ℕ) (a : Job) (xs : List Job)
      → IsOf a
      → rank state rows a ≡ n
      → a.id < low
      → Between low high xs
      → All (λ x. Any (λ r. r ≡ x) rows) xs
      → length (filter (has_rank n) xs) ≡ 0
  none_of_rank n low high a [] of_a is ids h there = refl
  none_of_rank n low high a (x ∷ xs) of_a is ids h there = elim (Bool-cases (has_rank n x)) [
    | inl again ↦
        let (of_state, ranked) = (&&_iff (same_state x.state state) _).0 again in
        absurd (
          rank-ne a x of_a (of_state, there.0) (omega (arith, h.0))
            (is ∙ sym ((==_iff _ _).0 ranked)))
    | inr other ↦
        rw (other, filter)
          (none_of_rank n (x.id + 1) high a xs of_a is (omega (arith, h.0)) h.1 there.1)
  ]

  one_of_rank :
      (n low high : ℕ) (xs : List Job)
      → Between low high xs
      → All (λ x. Any (λ r. r ≡ x) rows) xs
      → length (filter (has_rank n) xs) ≤ 1
  one_of_rank n low high [] h there = omega arith
  one_of_rank n low high (x ∷ xs) h there = elim (Bool-cases (has_rank n x)) [
    | inl here ↦
        let (of_state, ranked) = (&&_iff (same_state x.state state) _).0 here in
        rw (here, filter)
          (omega (
            arith,
            none_of_rank n (x.id + 1) high x xs (of_state, there.0) ((==_iff _ _).0 ranked)
                (omega arith) h.1 there.1,
          ))
    | inr other ↦ rw (other, filter) (one_of_rank n (x.id + 1) high xs h.1 there.1)
  ]

  abbrev pub ranks_below : ℕ → Job → Bool
  ranks_below n job = same_state job.state state && ltb (rank state rows job) n

  none_below_zero : (xs : List Job) → length (filter (ranks_below 0) xs) ≡ 0
  none_below_zero [] = refl
  none_below_zero (x ∷ xs) = ground (arith, none_below_zero xs)

  pub below-le :
      (n low high : ℕ) (xs : List Job)
      → Between low high xs
      → All (λ x. Any (λ r. r ≡ x) rows) xs
      → length (filter (ranks_below n) xs) ≤ n
  below-le zero low high xs h there = omega (arith, none_below_zero xs)
  below-le (suc n) low high xs h there = omega (
    arith,
    count-or (ranks_below n) (has_rank n) (ranks_below (suc n)) xs (λ x h. ground (arith, h)),
    below-le n low high xs h there,
    one_of_rank n low high xs h there,
  )

pub filter-filter :
    {A : Type 0} (p q r : A → Bool) (xs : List A)
    → ((x : A) → (q x && p x) ≡ r x)
    → filter p (filter q xs) ≡ filter r xs
filter-filter p q r [] h = refl
filter-filter p q r (x ∷ xs) h = ground (arith, h x, filter-filter p q r xs h)

pub Any-filter :
    {A : Type 0} (p : A → Bool) (a : A) (xs : List A)
    → p a ≡ true
    → Any (λ x. x ≡ a) xs
    → Any (λ x. x ≡ a) (filter p xs)
Any-filter p a [] h m = m
Any-filter p a (x ∷ xs) h (inl e) =
    let accepted : p x ≡ true = ap p e ∙ h in rw (accepted, filter) (inl e)
Any-filter p a (x ∷ xs) h (inr m) = elim (Bool-cases (p x)) [
  | inl yes_p ↦ rw (yes_p, filter) (inr (Any-filter p a xs h m))
  | inr no_p ↦ rw (no_p, filter) (Any-filter p a xs h m)
]

pub All-self : {A : Type 0} (xs : List A) → All (λ x. Any (λ y. y ≡ x) xs) xs
All-self [] = tt
All-self (x ∷ xs) = (inl refl, All-map _ _ xs (λ y h. inr h) (All-self xs))
