-- ===== src/TaxReport/Stored/Batches.antt =====
-- #updateExactUsdValueInColls of transaction.tax.report/index.js: the batches, against the list of the
-- transactions.
use bfx_reports_framework.Base.{
  ℕ, ◌+◌, ◌≤◌, ◌<◌, ◌≡◌, refl, sym, ap, subst, ◌∙◌, leb, ◌==◌, if_ind, Bool, true, false, ◌||◌,
  List, [], ◌∷◌, ◌++◌, append_assoc, append-nil, length, length-append, filter, All, All-append,
  arith,
}
use bfx_reports_framework.TaxReport.Remap.{Priced}
use bfx_reports_framework.TaxReport.Stored.{
  Coll, Colls, batch_size, pushed, update_coll, store_trx, store_from, no_updates,
  update_exact_usd_value_in_colls,
}

abbrev pub joined : List (List Priced) → List Priced
joined [] = []
joined (batch ∷ batches) = batch ++ joined batches

joined-append : (xs ys : List (List Priced)) → joined (xs ++ ys) ≡ joined xs ++ joined ys
joined-append [] ys = refl
joined-append (x ∷ xs) ys =
    ap (λ r. x ++ r) (joined-append xs ys) ∙ sym (append_assoc x (joined xs) (joined ys))

-- What a table has and is to get
abbrev taken : Coll → List Priced
taken coll = joined coll.updates ++ coll.waiting

abbrev IsSmall : List Priced → Type 0
IsSmall batch = length batch ≤ batch_size

record Bounded (coll : Coll) : Type 0 where
  waiting_small : length coll.waiting < batch_size
  updates_small : All IsSmall coll.updates

taken-update_coll :
    (is_last : Bool) (trxs : List Priced) (coll : Coll)
    → taken (update_coll is_last trxs coll) ≡ joined coll.updates ++ trxs
unfolding update_coll
taken-update_coll is_last trxs coll = ground (
  arith,
  joined-append coll.updates (trxs ∷ []),
  append-nil trxs,
  append-nil (joined (coll.updates ++ (trxs ∷ []))),
)

taken-pushed :
    (b : Bool) (trx : Priced) (xs ys rest : List Priced)
    → (xs ++ pushed b trx ys) ++ rest ≡ (xs ++ ys) ++ elim b [ true ↦ trx ∷ rest | false ↦ rest ]
taken-pushed true trx xs ys rest =
    ap (λ l. l ++ rest) (sym (append_assoc xs ys (trx ∷ [])))
    ∙ append_assoc (xs ++ ys) (trx ∷ []) rest
taken-pushed false trx xs ys rest = refl

length-pushed :
    (b : Bool) (trx : Priced) (xs : List Priced) → length (pushed b trx xs) ≤ length xs + 1
length-pushed true trx xs = omega (arith, length-append xs (trx ∷ []))
length-pushed false trx xs = omega arith

update_coll-Bounded :
    (is_last : Bool) (trxs : List Priced) (coll : Coll)
    → length trxs ≤ batch_size
    → Bounded coll
    → Bounded (update_coll is_last trxs coll)
unfolding update_coll
update_coll-Bounded is_last trxs coll small bounded =
    if_ind Bounded (leb batch_size (length trxs) || is_last)
      (λ _. record {
        waiting_small = omega arith;
        updates_small =
            All-append IsSmall coll.updates (trxs ∷ []) bounded.updates_small (small, tt);
      })
      (λ e. record { waiting_small = ground (arith, e); updates_small = bounded.updates_small })

-- The updates of a table together are those of the transactions that are the table's, in their order,
-- and none has more than the batch size.
abbrev pub IsStored : (Priced → Bool) → List Priced → Coll → Type 0
IsStored is_in trxs coll =
    (joined coll.updates ≡ filter is_in trxs)
    × All (λ batch. length batch ≤ batch_size) coll.updates

module _ (is_in : Priced → Bool) (count : ℕ) where
  unfoldable store_all : ℕ → List Priced → Coll → Coll
  store_all i [] coll = coll
  store_all i (trx ∷ trxs) coll = store_all (i + 1) trxs (store_trx is_in count i trx coll)

  taken-store_all :
      (i : ℕ) (trxs : List Priced) (coll : Coll)
      → taken (store_all i trxs coll) ≡ taken coll ++ filter is_in trxs
  unfolding store_all store_trx
  taken-store_all i [] coll = sym (append-nil (taken coll))
  taken-store_all i (trx ∷ trxs) coll =
      let here = pushed (is_in trx) trx coll.waiting in
      taken-store_all (i + 1) trxs (update_coll (i + 1 == count) here coll)
      ∙ ap (λ l. l ++ filter is_in trxs) (taken-update_coll (i + 1 == count) here coll)
      ∙ taken-pushed (is_in trx) trx (joined coll.updates) coll.waiting (filter is_in trxs)

  store_all-Bounded :
      (i : ℕ) (trxs : List Priced) (coll : Coll) → Bounded coll → Bounded (store_all i trxs coll)
  unfolding store_all store_trx
  store_all-Bounded i [] coll bounded = bounded
  store_all-Bounded i (trx ∷ trxs) coll bounded = store_all-Bounded (i + 1) trxs _ (
      update_coll-Bounded (i + 1 == count) (pushed (is_in trx) trx coll.waiting) coll
        (omega (arith, length-pushed (is_in trx) trx coll.waiting, bounded.waiting_small)) bounded)

  -- The last transaction leaves nothing that waits.
  waiting-store_all :
      (i : ℕ) (trxs : List Priced) (coll : Coll)
      → i + length trxs ≡ count
      → (length trxs ≡ 0 → coll.waiting ≡ [])
      → (store_all i trxs coll).waiting ≡ []
  unfolding store_all store_trx update_coll
  waiting-store_all i [] coll e h = h refl
  waiting-store_all i (trx ∷ trxs) coll e h =
      waiting-store_all (i + 1) trxs _ (omega (arith, e)) (λ z. ground (arith, z, e))

  store_all-IsStored :
      (trxs : List Priced) → length trxs ≡ count → IsStored is_in trxs (store_all 0 trxs no_updates)
  store_all-IsStored trxs e = (
    sym (append-nil (joined coll.updates))
        ∙ ap (λ l. joined coll.updates ++ l) (sym empty)
        ∙ taken-store_all 0 trxs no_updates,
    (store_all-Bounded 0 trxs no_updates
        (record { waiting_small = omega arith; updates_small = tt })).updates_small,
  )
    where
      coll : Coll
      coll = store_all 0 trxs no_updates

      empty : coll.waiting ≡ []
      empty = waiting-store_all 0 trxs no_updates (omega (arith, e)) (λ _. refl)

-- The loop over the three tables is one loop for each.
store_from-store_all :
    (count i : ℕ) (trxs : List Priced) (colls : Colls)
    → let stored = store_from count i trxs colls in
      (stored.trades ≡ store_all (λ t. t.is_trades) count i trxs colls.trades)
      × (stored.movements ≡ store_all (λ t. t.is_movements) count i trxs colls.movements)
      × (stored.ledgers ≡ store_all (λ t. t.is_ledgers) count i trxs colls.ledgers)
unfolding store_from store_all
store_from-store_all count i [] colls = (refl, refl, refl)
store_from-store_all count i (trx ∷ trxs) colls = store_from-store_all count (i + 1) trxs _

-- Each transaction that comes from a table is written to this table once: the updates of the trades
-- together are the transactions that are trades, in their order, and so are those of the movements and
-- of the ledgers. No update has more than 20,000 rows.
pub update_exact_usd_value_in_colls_lem :
    (trxs : List Priced)
    → let colls = update_exact_usd_value_in_colls trxs in
      IsStored (λ t. t.is_trades) trxs colls.trades
      × IsStored (λ t. t.is_movements) trxs colls.movements
      × IsStored (λ t. t.is_ledgers) trxs colls.ledgers
unfolding update_exact_usd_value_in_colls
update_exact_usd_value_in_colls_lem trxs =
    let (t, m, l) =
      store_from-store_all (length trxs) 0 trxs
        (record { trades = no_updates; movements = no_updates; ledgers = no_updates }) in
    (
      subst (IsStored (λ x. x.is_trades) trxs) (sym t)
          (store_all-IsStored (λ x. x.is_trades) (length trxs) trxs refl),
      subst (IsStored (λ x. x.is_movements) trxs) (sym m)
          (store_all-IsStored (λ x. x.is_movements) (length trxs) trxs refl),
      subst (IsStored (λ x. x.is_ledgers) trxs) (sym l)
          (store_all-IsStored (λ x. x.is_ledgers) (length trxs) trxs refl),
    )
