-- ===== src/TaxReport/Stored.antt =====
-- #updateExactUsdValueInColls of transaction.tax.report/index.js: the values in USD go back to the
-- three tables in batches. The updates of one table stand in their order.
pub mod Batches
use bfx_reports_framework.Base.{
  ℕ, ◌+◌, leb, ◌==◌, Bool, true, false, ◌||◌, List, [], ◌∷◌, ◌++◌, length, if◌then◌else◌,
}
use bfx_reports_framework.TaxReport.Remap.{Priced}

-- The transactions that wait for the next update of a table, and the updates so far
pub record Coll : Type 0 where
  pub waiting : List Priced
  pub updates : List (List Priced)

abbrev pub batch_size : ℕ
batch_size = 20000

abbrev pub pushed : Bool → Priced → List Priced → List Priced
pushed true trx trxs = trxs ++ (trx ∷ [])
pushed false trx trxs = trxs

-- The update is made for an empty batch too, where the transaction is the last one.
unfoldable pub update_coll : Bool → List Priced → Coll → Coll
update_coll is_last trxs coll =
    if leb batch_size (length trxs) || is_last
    then record { waiting = []; updates = coll.updates ++ (trxs ∷ []) }
    else record { waiting = trxs; updates = coll.updates }

-- One turn of the loop, for one table
unfoldable pub store_trx : (Priced → Bool) → ℕ → ℕ → Priced → Coll → Coll
unfolding update_coll
store_trx is_in count i trx coll =
    update_coll (i + 1 == count) (pushed (is_in trx) trx coll.waiting) coll

pub record Colls : Type 0 where
  pub trades : Coll
  pub movements : Coll
  pub ledgers : Coll

unfoldable pub store_from : ℕ → ℕ → List Priced → Colls → Colls
unfolding store_trx
store_from count i [] colls = colls
store_from count i (trx ∷ trxs) colls = store_from count (i + 1) trxs (record {
  trades = store_trx (λ t. t.is_trades) count i trx colls.trades;
  movements = store_trx (λ t. t.is_movements) count i trx colls.movements;
  ledgers = store_trx (λ t. t.is_ledgers) count i trx colls.ledgers;
})

abbrev pub no_updates : Coll
no_updates = record { waiting = []; updates = [] }

unfoldable pub update_exact_usd_value_in_colls : List Priced → Colls
unfolding store_from
update_exact_usd_value_in_colls trxs =
    store_from (length trxs) 0 trxs
      (record { trades = no_updates; movements = no_updates; ledgers = no_updates })
