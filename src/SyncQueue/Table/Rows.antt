-- ===== src/SyncQueue/Table/Rows.antt =====
-- Rows of the job table under the queries of the queue.
use bfx_reports_framework.Base.{
  ℕ, ◌≡◌, refl, Bool, true, some, List, [], ◌∷◌, arith, ◌==◌, All, Any, filter, if_ind, subst,
  Bool-cases, inl, inr, ==_iff,
}
use bfx_reports_framework.SyncQueue.Table.{JobState, Job, head?, update_rows, has_id}

pub has_id-update_rows :
    (id j : ℕ) (state : JobState) (now : ℕ) (rows : List Job)
    → has_id j (update_rows id state now rows) ≡ has_id j rows
unfolding has_id update_rows
has_id-update_rows id j state now [] = refl
has_id-update_rows id j state now (job ∷ rows) =
    ground (arith, has_id-update_rows id j state now rows)

-- The later of two updates counts.
pub update_rows_twice :
    (id : ℕ) (s t : JobState) (now then_ : ℕ) (rows : List Job)
    → update_rows id t now (update_rows id s then_ rows) ≡ update_rows id t now rows
unfolding update_rows
update_rows_twice id s t now then_ [] = refl
update_rows_twice id s t now then_ (job ∷ rows) =
    ground (arith, update_rows_twice id s t now then_ rows)

pub has_id-head :
    (p : Job → Bool) (rows : List Job) (job : Job)
    → head? (filter p rows) ≡ some job
    → has_id job.id rows ≡ true
unfolding has_id
has_id-head p [] job h = cc
has_id-head p (r ∷ rows) job h = elim (Bool-cases (p r)) [
  | inl accepted ↦ ground arith
  | inr refused ↦ ground (arith, has_id-head p rows job (ground arith))
]

pub All-update_rows :
    (P : Job → Type 0) (id : ℕ) (state : JobState) (now : ℕ) (rows : List Job)
    → ((job : Job) → job.id ≡ id → P job → P (record job { state = state; updated_at = now }))
    → All P rows
    → All P (update_rows id state now rows)
unfolding update_rows
All-update_rows P id state now [] h a = tt
All-update_rows P id state now (job ∷ rows) h a = (
  if_ind P (job.id == id) (λ same. h job ((==_iff job.id id).0 same) a.0) (λ _. a.0),
  All-update_rows P id state now rows h a.1,
)

pub Any-update_rows :
    (id : ℕ) (state : JobState) (now : ℕ) (rows : List Job)
    → has_id id rows ≡ true
    → Any (λ job. (job.id ≡ id) × (job.state ≡ state)) (update_rows id state now rows)
unfolding update_rows has_id
Any-update_rows id state now [] h = cc
Any-update_rows id state now (job ∷ rows) h = elim (Bool-cases (job.id == id)) [
  | inl same ↦ rw same (inl ((==_iff job.id id).0 same, refl))
  | inr other ↦ inr (Any-update_rows id state now rows (ground arith))
]

pub head-filter :
    (P : Job → Type 0) (p : Job → Bool) (rows : List Job) (job : Job)
    → head? (filter p rows) ≡ some job
    → All P rows
    → P job × (p job ≡ true)
head-filter P p [] job h a = cc
head-filter P p (r ∷ rows) job h a = elim (Bool-cases (p r)) [
  | inl accepted ↦ let e : r ≡ job = ground arith in (subst P e a.0, rw (← e) accepted)
  | inr refused ↦ head-filter P p rows job (ground arith) a.1
]
