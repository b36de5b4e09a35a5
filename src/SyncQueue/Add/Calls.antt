-- ===== src/SyncQueue/Add/Calls.antt =====
-- SyncQueue.add: what the insertion of new rows keeps, every call of `add` keeps.
use bfx_reports_framework.Base.{
  ℕ, ◌+◌, ◌≤◌, String, List, [], ◌∷◌, map, any, if_ind, if◌then◌else◌, str_eq, ◌&&◌, All,
  All-append, arith,
}
use bfx_reports_framework.SyncQueue.Table.{Job, Table, get_all, insert_rows}
use bfx_reports_framework.SyncQueue.Add.{
  Result, ok, err, AddParams, AddCall, all_colls, pending_states, owner_filter, owner_is_wrong,
  to_array, is_empty, check_coll_permission, new_row, names_to_insert, insert_elems, add_checked,
  add, table_of, run_adds, ◌>>=◌,
}

insert_rows-All :
    (P : Job → Type 0) (params : AddParams) (now low id : ℕ) (names : List String)
    → low ≤ id
    → ((name : String) (i : ℕ) → low ≤ i → P (new_row params now name i))
    → All P (insert_rows id (map (new_row params now) names))
unfolding insert_rows
insert_rows-All P params now low id [] le h = tt
insert_rows-All P params now low id (name ∷ names) le h =
    (h name id le, insert_rows-All P params now low (id + 1) names (omega arith) h)

pub insert_elems-All :
    (P : Job → Type 0) (params : AddParams) (now : ℕ) (names : List String) (table : Table)
    → ((name : String) (i : ℕ) → table.next_id ≤ i → P (new_row params now name i))
    → All P table.rows
    → All P (insert_elems params now names table).rows
unfolding insert_elems
insert_elems-All P params now names table h a =
    All-append P table.rows (insert_rows table.next_id (map (new_row params now) names)) a
      (insert_rows-All P params now table.next_id table.next_id names (omega arith) h)

module _ (I : Table → Type 0)
    (inserts : (params : AddParams) (now : ℕ) (names : List String) (table : Table)
      → I table
      → I (insert_elems params now names table)) where
  add_checked-keeps :
      (signed_in : List ℕ) (params : AddParams) (now : ℕ) (sync_colls : List String) (table : Table)
      → I table
      → I (add_checked signed_in params now sync_colls table)
  unfolding add_checked
  add_checked-keeps signed_in params now sync_colls table h =
      let all_syncs = get_all (owner_filter signed_in params.owner_user_id) pending_states table in
      if_ind {A = Table} I (any (λ item. str_eq item.coll_name all_colls) all_syncs) (λ _. h)
        (λ _. inserts params now (names_to_insert all_syncs sync_colls) table h)

  table_of-keeps :
      (signed_in : List ℕ) (params : AddParams) (now : ℕ) (table : Table)
      (checked : Result (Unit {0}))
      → I table
      → I (
          table_of table (
            checked >>= λ _.
            if params.is_owner_scheduler && is_empty signed_in
            then ok table
            else ok (add_checked signed_in params now (to_array params.sync_colls) table)))
  table_of-keeps signed_in params now table (err e) h = h
  table_of-keeps signed_in params now table (ok u) h =
      if_ind {A = Result Table} (λ r. I (table_of table r))
        (params.is_owner_scheduler && is_empty signed_in) (λ _. h)
        (λ _. add_checked-keeps signed_in params now (to_array params.sync_colls) table h)

  add-keeps :
      (call : AddCall) (table : Table)
      → I table
      → I (table_of table (add call.allowed call.signed_in call.params call.at table))
  unfolding add
  add-keeps call table h =
      if_ind {A = Result Table} (λ r. I (table_of table r)) (owner_is_wrong call.params) (λ _. h)
        (λ _.
          table_of-keeps call.signed_in call.params call.at table
            (check_coll_permission call.allowed (to_array call.params.sync_colls)) h)

  pub run_adds-keeps : (calls : List AddCall) (table : Table) → I table → I (run_adds calls table)
  unfolding run_adds
  run_adds-keeps [] table h = h
  run_adds-keeps (call ∷ calls) table h = run_adds-keeps calls _ (add-keeps call table h)
