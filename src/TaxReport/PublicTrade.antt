-- ===== src/TaxReport/PublicTrade.antt =====
-- find-public-trade.js: the search for the public trade at a time, in a list that
-- runs from the newest to the oldest. `stop` is the source's `endIndex + 1`, which is never negative.
-- The loop takes fuel, and `none` means that the fuel ran out.
use bfx_reports_framework.Base.{
  ℕ, zero, suc, ◌+◌, ◌-◌, ◌/◌, ◌<◌, ◌≤◌, ◌≡◌, refl, Option, none, some, List, arith, ltb, ◌==◌,
  length, get_elem?, get_elem?-in_range, get_elem?-out_of_range, if◌then◌else◌, ltb→lt, ==_iff,
  Bool-cases, ◌⊎◌, inl, inr,
}

pub record PubTrade : Type 0 where
  pub mts : ℕ
  pub price : ℕ

-- The body of the loop: stop with an answer, or go on with new bounds.
pub data Probe : Type 0 where
  found stuck newer older : Probe

unfoldable pub probe : List PubTrade → ℕ → ℕ → Probe
probe pub_trades mts middle = elim (get_elem? pub_trades middle) [
  | none ↦ stuck
  | some t ↦ if t.mts == mts then found else if ltb t.mts mts then newer else older
]

unfoldable pub search_trade : ℕ → List PubTrade → ℕ → ℕ → ℕ → Option ℕ → Option (Option ℕ)
unfolding probe
search_trade zero pub_trades mts start stop middle = none
search_trade (suc fuel) pub_trades mts start stop middle =
    let m = (start + stop - 1) / 2 in
    let again = search_trade fuel pub_trades mts start stop (some m) in
    let towards_start = search_trade fuel pub_trades mts start m (some m) in
    let towards_end = search_trade fuel pub_trades mts (m + 1) stop (some m) in
    if ltb start stop
    then (elim (probe pub_trades mts m) [
      | found ↦ some (some m)
      | stuck ↦ again
      | newer ↦ towards_start
      | older ↦ towards_end
    ])
    else some middle

-- `pubTrades[middleIndex]`: `none` for `undefined`.
abbrev element_at : List PubTrade → Option ℕ → Option PubTrade
element_at pub_trades none = none
element_at pub_trades (some m) = get_elem? pub_trades m

abbrev trade_of : List PubTrade → Option (Option ℕ) → Option (Option PubTrade)
trade_of pub_trades none = none
trade_of pub_trades (some middle) = some (element_at pub_trades middle)

unfoldable pub find_public_trade : List PubTrade → ℕ → Option (Option PubTrade)
find_public_trade pub_trades mts =
    trade_of pub_trades
      (search_trade (suc (length pub_trades)) pub_trades mts 0 (length pub_trades) none)

abbrev pub IsNewestFirst : List PubTrade → Type 0
IsNewestFirst pubs =
    (i j : ℕ) (a b : PubTrade)
    → i ≤ j
    → get_elem? pubs i ≡ some a
    → get_elem? pubs j ≡ some b
    → b.mts ≤ a.mts

-- `m` splits the list at the time: no trade before it is older, and none after it is newer. If a
-- trade has the very time, the one at `m` has it.
pub record IsBeside (pubs : List PubTrade) (mts m : ℕ) (t : PubTrade) : Type 0 where
  pub at : get_elem? pubs m ≡ some t
  pub before : (i : ℕ) (a : PubTrade) → i < m → get_elem? pubs i ≡ some a → mts ≤ a.mts
  pub after : (i : ℕ) (a : PubTrade) → m < i → get_elem? pubs i ≡ some a → a.mts ≤ mts
  pub exact : (i : ℕ) (a : PubTrade) → get_elem? pubs i ≡ some a → a.mts ≡ mts → t.mts ≡ mts

module _ (pubs : List PubTrade) (mts : ℕ) (sorted : IsNewestFirst pubs) where
  record Bounds (start stop : ℕ) : Type 0 where
    ordered : start ≤ stop
    inside : stop ≤ length pubs
    left : (i : ℕ) (a : PubTrade) → i < start → get_elem? pubs i ≡ some a → mts < a.mts
    right : (i : ℕ) (a : PubTrade) → stop ≤ i → get_elem? pubs i ≡ some a → a.mts < mts

  abbrev Probed : ℕ → ℕ → Option ℕ → Type 0
  Probed start stop none = start < stop
  Probed start stop (some m) = (m < length pubs) × (((m + 1) ≡ start) ⊎ (m ≡ stop))

  abbrev Answer : Option (Option ℕ) → Type 0
  Answer none = ⊥
  Answer (some none) = ⊥
  Answer (some (some m)) = (t : PubTrade) × IsBeside pubs mts m t

  exhausted-IsBeside :
      (start stop m : ℕ) (t : PubTrade)
      → Bounds start stop
      → stop ≤ start
      → ((m + 1) ≡ start) ⊎ (m ≡ stop)
      → get_elem? pubs m ≡ some t
      → IsBeside pubs mts m t
  exhausted-IsBeside start stop m t b met edge at = record {
    at = at;
    before = λ i a h e. omega (arith, b.left i a (omega (arith, b.ordered)) e);
    after = λ i a h e. omega (arith, b.right i a (omega (arith, b.ordered)) e);
    exact = λ i a e same. elim (Bool-cases (ltb i start)) [
      | inl early ↦ absurd (omega (arith, b.left i a (ltb→lt i start early) e))
      | inr late ↦ absurd (omega (arith, b.right i a (ground arith) e))
    ];
  }

  found-IsBeside :
      (m : ℕ) (t : PubTrade) → get_elem? pubs m ≡ some t → t.mts ≡ mts → IsBeside pubs mts m t
  found-IsBeside m t at same = record {
    at = at;
    before = λ i a h e. omega (arith, sorted i m a t (omega arith) e at);
    after = λ i a h e. omega (arith, sorted m i t a (omega arith) at e);
    exact = λ i a e _. same;
  }

  newer-Bounds :
      (start stop m : ℕ) (t : PubTrade)
      → Bounds start stop
      → start ≤ m
      → m < stop
      → get_elem? pubs m ≡ some t
      → t.mts < mts
      → Bounds start m
  newer-Bounds start stop m t b low high at less = record {
    ordered = low;
    inside = omega (arith, b.inside);
    left = b.left;
    right = λ i a h e. omega (arith, sorted m i t a h at e);
  }

  older-Bounds :
      (start stop m : ℕ) (t : PubTrade)
      → Bounds start stop
      → start ≤ m
      → m < stop
      → get_elem? pubs m ≡ some t
      → mts < t.mts
      → Bounds (m + 1) stop
  older-Bounds start stop m t b low high at more = record {
    ordered = omega arith;
    inside = b.inside;
    left = λ i a h e. omega (arith, sorted i m a t (omega arith) e at);
    right = b.right;
  }

  stopped-Answer :
      (start stop : ℕ) (middle : Option ℕ)
      → Bounds start stop
      → stop ≤ start
      → Probed start stop middle
      → Answer (some middle)
  stopped-Answer start stop none b met p = absurd (omega arith)
  stopped-Answer start stop (some m) b met (inside, edge) =
      let (t, at) = get_elem?-in_range pubs m inside in
      (t, exhausted-IsBeside start stop m t b met edge at)

  search_trade-Answer :
      (fuel start stop : ℕ) (middle : Option ℕ)
      → stop < start + fuel
      → Bounds start stop
      → Probed start stop middle
      → Answer (search_trade fuel pubs mts start stop middle)
  unfolding search_trade
  search_trade-Answer zero start stop middle enough b p = absurd (omega (arith, b.ordered))
  search_trade-Answer (suc fuel) start stop middle enough b p = elim (Bool-cases (ltb start stop)) [
    | inr halted ↦ rw halted (stopped-Answer start stop middle b (ground arith) p)
    | inl going ↦
        let m = (start + stop - 1) / 2 in
        let going' = ltb→lt start stop going in
        let low : start ≤ m = omega arith in
        let high : m < stop = omega arith in
        let within : m < length pubs = omega (arith, b.inside) in
        let (t, at) = get_elem?-in_range pubs m within in
        elim (Bool-cases (t.mts == mts)) [
          | inl same ↦ rw (going, at, same) (t, found-IsBeside m t at ((==_iff _ _).0 same))
          | inr other ↦ elim (Bool-cases (ltb t.mts mts)) [
            | inl less ↦
                rw (going, at, other, less)
                  (search_trade-Answer fuel start m (some m) (omega arith)
                    (newer-Bounds start stop m t b low high at (ltb→lt _ _ less))
                    (within, inr refl))
            | inr more ↦
                rw (going, at, other, more)
                  (search_trade-Answer fuel (m + 1) stop (some m) (omega arith)
                    (older-Bounds start stop m t b low high at (ground arith)) (within, inl refl))
          ]
        ]
  ]

  start-Bounds : Bounds 0 (length pubs)
  start-Bounds = record {
    ordered = omega arith;
    inside = omega arith;
    left = λ i a h e. elim h [ ];
    right = λ i a h e. cc (get_elem?-out_of_range pubs i h);
  }

  search_trade-found :
      (o : Option (Option ℕ))
      → search_trade (suc (length pubs)) pubs mts 0 (length pubs) none ≡ o
      → Answer o
      → (m : ℕ) × (t : PubTrade) × (find_public_trade pubs mts ≡ some (some t))
        × IsBeside pubs mts m t
  unfolding find_public_trade
  search_trade-found none e answer = absurd answer
  search_trade-found (some none) e answer = absurd answer
  search_trade-found (some (some m)) e (t, beside) = (m, t, rw (e, beside.at), beside)

  -- In a list of public trades that is not empty and runs from the newest to the oldest, the search
  -- ends and returns a trade of the list: none before it is older than the wanted time, none after
  -- it is newer, and it has the wanted time itself if any trade of the list has it.
  pub find_public_trade-IsBeside :
      0 < length pubs
      → (m : ℕ) × (t : PubTrade) × (find_public_trade pubs mts ≡ some (some t))
        × IsBeside pubs mts m t
  find_public_trade-IsBeside some_trades = search_trade-found _ refl (
      search_trade-Answer (suc (length pubs)) 0 (length pubs) none (omega arith) start-Bounds
        some_trades)
