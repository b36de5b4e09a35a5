-- ===== src/SyncQueue/Add/Requests.antt =====
-- What `add` does to the table, for a request that passes its guards.
use bfx_reports_framework.Base.{
  filter-append, ℕ, ◌+◌, String, ◌≡◌, refl, Bool, true, false, ◌&&◌, ◌||◌, List, [], ◌∷◌, ◌++◌, map,
  ◌⊎◌, inl, inr, arith, any, All, All-map, filter, str_eq, if_ind,
}
use bfx_reports_framework.SyncQueue.Table.{Job, Table, get_all, insert_rows, is_in}
use bfx_reports_framework.SyncQueue.Table.Ids.{HasOrderedIds, Between-insert_rows}
use bfx_reports_framework.SyncQueue.Add.{
  ok, AddParams, all_colls, pending_states, owner_filter, owner_is_wrong, to_array, is_empty,
  new_row, names_to_insert, insert_elems, add_checked, add,
}
use bfx_reports_framework.SyncQueue.Add.Names.{
  has_job, has_name, get_unique_names_lem, All-has_name,
}

pub insert_elems-HasOrderedIds :
    (params : AddParams) (now : ℕ) (names : List String) (table : Table)
    → HasOrderedIds table
    → HasOrderedIds (insert_elems params now names table)
unfolding insert_elems
insert_elems-HasOrderedIds params now names table h =
    Between-insert_rows (new_row params now) 0 table.next_id table.rows names (λ name id. refl) h

-- The jobs that wait, as the owner of the request sees them.
abbrev pub waiting : List ℕ → AddParams → Table → List Job
waiting signed_in params table =
    get_all (owner_filter signed_in params.owner_user_id) pending_states table

-- A job waits for the name, or for all collections.
abbrev pub WaitsFor : List ℕ → AddParams → Table → String → Type 0
WaitsFor signed_in params table name =
    (has_job (waiting signed_in params table) name ≡ true)
    ⊎ (has_job (waiting signed_in params table) all_colls ≡ true)

any-append {ℓ} :
    {A : Type ℓ} (p : A → Bool) (xs ys : List A) → any p (xs ++ ys) ≡ (any p xs || any p ys)
any-append p [] ys = refl
any-append p (x ∷ xs) ys = ground (arith, any-append p xs ys)

module _ (signed_in : List ℕ) (params : AddParams) (now : ℕ)
    (right : owner_is_wrong params ≡ false) where
  -- The owner of a request sees the rows that it inserts.
  new_row-visible :
      (name : String) (id : ℕ)
      → (owner_filter signed_in params.owner_user_id (new_row params now name id)
          && is_in pending_states (new_row params now name id))
        ≡ true
  unfolding owner_filter is_in owner_is_wrong
  new_row-visible name id = ground arith

  has_job-inserted :
      (names : List String) (id : ℕ) (name : String)
      → has_name names name ≡ true
      → has_job
          (filter
            (λ job. owner_filter signed_in params.owner_user_id job && is_in pending_states job)
            (insert_rows id (map (new_row params now) names)))
          name
        ≡ true
  unfolding insert_rows
  has_job-inserted [] id name h = cc
  has_job-inserted (n ∷ names) id name h =
      rw (new_row-visible n id, filter) (ground (arith, h, has_job-inserted names (id + 1) name))

  has_job-insert_elems :
      (names : List String) (table : Table) (name : String)
      → (has_name names name ≡ true) ⊎ (has_job (waiting signed_in params table) name ≡ true)
      → has_job (waiting signed_in params (insert_elems params now names table)) name ≡ true
  unfolding get_all insert_elems
  has_job-insert_elems names table name h =
      let visible = λ (job : Job).
        owner_filter signed_in params.owner_user_id job && is_in pending_states job in
      let inserted = insert_rows table.next_id (map (new_row params now) names) in
      rw (filter-append visible table.rows inserted) (elim h [
        | inl named ↦ ground (
          arith,
          any-append (λ (item : Job). str_eq item.coll_name name) (filter visible table.rows)
              (filter visible inserted),
          has_job-inserted names table.next_id name named,
        )
        | inr waits ↦ ground (
          arith,
          any-append (λ (item : Job). str_eq item.coll_name name) (filter visible table.rows)
              (filter visible inserted),
          waits,
        )
      ])

  names_to_insert-cover :
      (jobs : List Job) (names : List String)
      → All
          (λ name. (has_name (names_to_insert jobs names) name ≡ true) ⊎ (has_job jobs name ≡ true))
          names
  names_to_insert-cover [] names = All-map _ _ names (λ name h. inl h) (All-has_name names)
  names_to_insert-cover (job ∷ jobs) names = (get_unique_names_lem (job ∷ jobs) names).3

  add_checked-WaitsFor :
      (names : List String) (table : Table)
      → All (WaitsFor signed_in params (add_checked signed_in params now names table)) names
  unfolding add_checked
  add_checked-WaitsFor names table =
      if_ind (λ t. All (WaitsFor signed_in params t) names)
        (has_job (waiting signed_in params table) all_colls) {x = table}
        (λ all_wait. All-map _ _ names (λ name _. inr all_wait) (All-has_name names))
        (λ _.
          All-map _ _ names
            (λ name h. inl (
              has_job-insert_elems (names_to_insert (waiting signed_in params table) names) table
                name h))
            (names_to_insert-cover (waiting signed_in params table) names))

module _ (allowed : List String) (signed_in : List ℕ) (params : AddParams) (now : ℕ)
    (table after : Table) (accepted : add allowed signed_in params now table ≡ ok after) where
  accepted-right : owner_is_wrong params ≡ false
  unfolding add
  accepted-right = ground arith

  accepted-after :
      (after ≡ table) × ((params.is_owner_scheduler && is_empty signed_in) ≡ true)
      ⊎ ((after ≡ add_checked signed_in params now (to_array params.sync_colls) table)
          × ((params.is_owner_scheduler && is_empty signed_in) ≡ false))
  unfolding add
  accepted-after = ground arith

  add_checked-HasOrderedIds :
      HasOrderedIds table
      → HasOrderedIds (add_checked signed_in params now (to_array params.sync_colls) table)
  unfolding add_checked
  add_checked-HasOrderedIds h =
      if_ind HasOrderedIds (has_job (waiting signed_in params table) all_colls) {x = table} (λ _. h)
        (λ _. insert_elems-HasOrderedIds params now _ table h)

  -- A request that is accepted keeps the order of the `_id`s: they ascend, and the next one is
  -- above all of them.
  add-HasOrderedIds : HasOrderedIds table → HasOrderedIds after
  add-HasOrderedIds h = elim accepted-after [
    | inl (same, _) ↦ rw same h
    | inr (changed, _) ↦ rw changed (add_checked-HasOrderedIds h)
  ]

  -- After a request that is accepted, unless it is the scheduler's while nobody is signed in, each
  -- requested collection has a waiting job that the owner of the request sees, or such a job waits
  -- for all collections.
  pub add-WaitsFor :
      (params.is_owner_scheduler && is_empty signed_in) ≡ false
      → All (WaitsFor signed_in params after) (to_array params.sync_colls)
  add-WaitsFor someone = elim accepted-after [
    | inl (_, nobody) ↦ cc
    | inr (changed, _) ↦ rw changed (
        add_checked-WaitsFor signed_in params now accepted-right (to_array params.sync_colls) table)
  ]
