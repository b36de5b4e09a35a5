-- ===== src/SyncQueue/Add.antt =====
-- SyncQueue.add.
pub mod Names
pub mod Calls
pub mod Requests
use bfx_reports_framework.Base.{
  ℕ, ◌+◌, String, Bool, true, false, ◌&&◌, ◌||◌, not, Option, none, some, List, [], ◌∷◌, ◌++◌, map,
  ltb, ◌==◌, length, any, all, if◌then◌else◌, str_eq,
}
use bfx_reports_framework.SyncQueue.Table.{
  JobState, locked_job, new_job, error_job, Job, Table, has_owner, get_all, insert_rows, is_in,
}

-- errors/index.js, the errors that this code throws
pub data QueueError : Type 0 where
  sync_queue_owner_setting coll_sync_permission : QueueError
  update_sync_queue_job : ℕ → QueueError
  data_inserter : QueueError

pub data Result (A : Type 0) : Type 0 where
  ok : A → Result A
  err : QueueError → Result A

infixl 5 ◌>>=◌ ◌>>◌
abbrev pub ◌>>=◌ : {A B : Type 0} → Result A → (A → Result B) → Result B
ok a >>= f = f a
err e >>= f = err e

abbrev pub ◌>>◌ : {B : Type 0} → Result (Unit {0}) → Result B → Result B
m >> k = m >>= λ _. k

-- schema/allowed.colls.js
abbrev pub all_colls : String
all_colls = "_ALL"

abbrev pub public_colls : String
public_colls = "_PUBLIC"

abbrev pub private_colls : String
private_colls = "_PRIVATE"

-- helpers/check-coll-permission.js; an empty name is no allowed collection
unfoldable pub check_coll_permission : List String → List String → Result (Unit {0})
check_coll_permission allowed [] = err coll_sync_permission
check_coll_permission allowed (name ∷ names) =
    if any (λ item. str_eq item "" || all (λ coll_name. not (str_eq item coll_name)) allowed)
      (name ∷ names)
    then err coll_sync_permission
    else ok tt

pub data SyncColls : Type 0 where
  one_coll : String → SyncColls
  array : List String → SyncColls

unfoldable pub to_array : SyncColls → List String
to_array (one_coll name) = name ∷ []
to_array (array names) = names

pub record AddParams : Type 0 where
  pub sync_colls : SyncColls
  pub owner_user_id : Option ℕ
  pub is_owner_scheduler : Bool

abbrev pub is_integer : Option ℕ → Bool
is_integer none = false
is_integer (some u) = true

-- The first guard: a user or the scheduler owns the jobs, and never both or neither.
unfoldable pub owner_is_wrong : AddParams → Bool
owner_is_wrong params =
    not (is_integer params.owner_user_id) && not params.is_owner_scheduler
    || is_integer params.owner_user_id && params.is_owner_scheduler

-- `subQueryFilter`
unfoldable pub owner_filter : List ℕ → Option ℕ → Job → Bool
unfolding has_owner
owner_filter signed_in none job = job.is_owner_scheduler || any (λ u. has_owner u job) signed_in
owner_filter signed_in (some user) job = job.is_owner_scheduler || has_owner user job

abbrev pub pending_states : List JobState
pending_states = new_job ∷ error_job ∷ locked_job ∷ []

-- `_getUniqueNames`: the `reduce` from the accumulator so far
unfoldable pub unique_names_from : List Job → List String → List String → List String
unique_names_from all_syncs accum [] = accum
unique_names_from all_syncs accum (curr ∷ rest) =
    unique_names_from all_syncs
      (if all (λ item. not (str_eq item.coll_name curr)) all_syncs
          && all (λ item. not (str_eq item curr)) accum
        then accum ++ curr ∷ []
        else accum)
      rest

unfoldable pub get_unique_names : List Job → List String → List String
unfolding unique_names_from
get_unique_names all_syncs sync_colls = unique_names_from all_syncs [] sync_colls

abbrev pub names_to_insert : List Job → List String → List String
names_to_insert [] sync_colls = sync_colls
names_to_insert (job ∷ jobs) sync_colls = get_unique_names (job ∷ jobs) sync_colls

abbrev pub new_row : AddParams → ℕ → String → ℕ → Job
new_row params now coll_name id = record {
  id = id;
  coll_name = coll_name;
  state = new_job;
  owner_user_id = params.owner_user_id;
  is_owner_scheduler = params.is_owner_scheduler;
  updated_at = now;
}

unfoldable pub insert_elems : AddParams → ℕ → List String → Table → Table
unfolding insert_rows
insert_elems params now names table = record {
  rows = table.rows ++ insert_rows table.next_id (map (new_row params now) names);
  next_id = table.next_id + length names;
}

unfoldable pub add_checked : List ℕ → AddParams → ℕ → List String → Table → Table
add_checked signed_in params now sync_colls table =
    let all_syncs = get_all (owner_filter signed_in params.owner_user_id) pending_states table in
    if any (λ item. str_eq item.coll_name all_colls) all_syncs
    then table
    else insert_elems params now (names_to_insert all_syncs sync_colls) table

abbrev pub is_empty : List ℕ → Bool
is_empty [] = true
is_empty (u ∷ us) = false

-- `allowed` are the values of ALLOWED_COLLS, `signed_in` the users that `#getSignedInUserIds` gives.
unfoldable pub add : List String → List ℕ → AddParams → ℕ → Table → Result Table
add allowed signed_in params now table =
    if owner_is_wrong params then err sync_queue_owner_setting else (do
      check_coll_permission allowed (to_array params.sync_colls)
      if params.is_owner_scheduler && is_empty signed_in
          then ok table
          else ok (add_checked signed_in params now (to_array params.sync_colls) table))

-- A call of `add` while something else runs: its error goes to its caller.
pub record AddCall : Type 0 where
  pub allowed : List String
  pub signed_in : List ℕ
  pub params : AddParams
  pub at : ℕ

abbrev pub table_of : Table → Result Table → Table
table_of table (ok after) = after
table_of table (err e) = table

unfoldable pub run_adds : List AddCall → Table → Table
unfolding add
run_adds [] table = table
run_adds (call ∷ calls) table =
    run_adds calls (table_of table (add call.allowed call.signed_in call.params call.at table))
