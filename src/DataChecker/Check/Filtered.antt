-- ===== src/DataChecker/Check/Filtered.antt =====
-- data.checker/index.js: what a check returns.
use bfx_reports_framework.Base.{ℕ, ◌≡◌, Bool, true, false, ◌&&◌, List, [], ◌∷◌, All, arith}
use bfx_reports_framework.Base.Actions.{pure}
use bfx_reports_framework.Base.ActionRules.{
  Gives, >>=-Gives, >>=-Gives_of, lift-Gives, pure-Gives, if-Gives,
}
use bfx_reports_framework.DataChecker.{
  CollType, CollName, candles, public_trades, tickers_history, status_messages, other_coll,
  is_private_insertable, is_public_insertable, is_public, is_hidden, is_updatable, Auth, Schema,
}
use bfx_reports_framework.DataChecker.Steps.{reset_sync_schema_props}
use bfx_reports_framework.DataChecker.Steps.Marked.{
  has_start, IsMarked, IsMarked-elim, reset-IsMarked, check_item-IsMarked, check_conf-IsMarked,
  check_candles-IsMarked, check_updatable-IsMarked,
}
use bfx_reports_framework.DataChecker.Symbols.{Symb, unique_symbs, candles_pairs}
use bfx_reports_framework.DataChecker.Check.{
  Env, Conf, Check, look, unless_interrupted, auths_or_all, check_item_new_data, check_confs,
  check_new_configurable_public_data, check_pairs, check_new_candles_data, check_candles_of_all,
  check_public, check_public_updatable, check_colls, filter_method_coll_map, check_new_data,
  check_new_public_data,
}

unless-Gives :
    {A : Type 0} (P : A → Type 0) (a : A) (m : Check A)
    → P a
    → Gives P m
    → Gives P (unless_interrupted a m)
unfolding unless_interrupted
unless-Gives P a m p h =
    >>=-Gives P look _
      (λ is_interrupted. if-Gives P is_interrupted (pure a) m (λ _. pure-Gives P a p) (λ _. h))

check_colls-Gives :
    (is_of_type : CollType → Bool) (check : Schema → Check Schema)
    → ((schema : Schema) → IsMarked schema → Gives IsMarked (check schema))
    → (colls : List Schema) → All IsMarked colls
    → Gives (All IsMarked) (check_colls is_of_type check colls)
unfolding check_colls
check_colls-Gives is_of_type check keep [] a = pure-Gives (All IsMarked) [] tt
check_colls-Gives is_of_type check keep (schema ∷ colls) (h, a) =
    unless-Gives (All IsMarked) (schema ∷ colls) _ (h, a)
      (>>=-Gives_of IsMarked (All IsMarked) _ _
        (if-Gives IsMarked (is_of_type schema.coll_type) _ _
          (λ _. keep (reset_sync_schema_props schema) (reset-IsMarked schema))
          (λ _. pure-Gives IsMarked schema h))
        (λ checked g.
          >>=-Gives_of (All IsMarked) (All IsMarked) _ _
            (check_colls-Gives is_of_type check keep colls a)
            (λ rest b. pure-Gives (All IsMarked) (checked ∷ rest) (g, b))))

-- A collection that a check returns
abbrev pub IsToSync : Bool → Schema → Type 0
IsToSync of_public schema =
    (is_hidden schema.coll_type ≡ false)
    × (is_public schema.coll_type ≡ of_public)
    × (has_start schema.start ≡ true)

filter_lem :
    (of_public : Bool) (colls : List Schema)
    → All IsMarked colls
    → All (IsToSync of_public) (filter_method_coll_map of_public colls)
unfolding filter_method_coll_map
filter_lem of_public [] a = tt
filter_lem of_public (schema ∷ colls) a =
    ground (arith, filter_lem of_public colls a.1, IsMarked-elim schema a.0)

module _ (env : Env) where
  check_item_new_data-Gives :
      (auth : Auth) (schema : Schema)
      → IsMarked schema
      → Gives IsMarked (check_item_new_data env auth schema)
  unfolding check_item_new_data
  check_item_new_data-Gives auth schema h = unless-Gives IsMarked schema _ h (
      lift-Gives IsMarked _ _ (λ last. pure-Gives IsMarked _ (
        check_item-IsMarked env.diff env.year env.day_of_year (env.now schema.name) last schema h)))

  check_confs-Gives :
      (confs : List Conf) (schema : Schema)
      → IsMarked schema
      → Gives IsMarked (check_confs env confs schema)
  unfolding check_confs
  check_confs-Gives [] schema h = pure-Gives IsMarked schema h
  check_confs-Gives (conf ∷ confs) schema h = unless-Gives IsMarked schema _ h (
      lift-Gives IsMarked _ _ (λ last. check_confs-Gives confs _ (
        check_conf-IsMarked env.diff env.year env.day_of_year (is_updatable schema.coll_type)
          (env.now schema.name) conf.start last schema h)))

  configurable-Gives :
      (schema : Schema)
      → IsMarked schema
      → Gives IsMarked (check_new_configurable_public_data env schema)
  unfolding check_new_configurable_public_data
  configurable-Gives schema h =
      unless-Gives IsMarked schema _ h
        (lift-Gives IsMarked _ _ (λ confs. check_confs-Gives confs schema h))

  check_pairs-Gives :
      (auth : Auth) (first : ℕ) (symbols : List Symb) (schema : Schema)
      → IsMarked schema
      → Gives IsMarked (check_pairs env auth first symbols schema)
  unfolding check_pairs
  check_pairs-Gives auth first [] schema h = pure-Gives IsMarked schema h
  check_pairs-Gives auth first (symbol ∷ symbols) schema h = unless-Gives IsMarked schema _ h (
      lift-Gives IsMarked _ _ (λ last. check_pairs-Gives auth first symbols _ (
        check_candles-IsMarked env.diff env.year env.day_of_year (env.now schema.name) first auth
          last schema h)))

  check_new_candles_data-Gives :
      (auth : Auth) (schema : Schema)
      → IsMarked schema
      → Gives IsMarked (check_new_candles_data env auth schema)
  unfolding check_new_candles_data
  check_new_candles_data-Gives auth schema h = unless-Gives IsMarked schema _ h (
      lift-Gives IsMarked (env.first_ledger_mts auth) _ (λ first.
        lift-Gives IsMarked (env.ledger_currencies auth) _ (λ currencies.
          check_pairs-Gives auth first
            (candles_pairs (unique_symbs env.synonymous_of [] currencies) env.forex_symbs) schema
            h)))

  check_candles_of_all-Gives :
      (auths : List Auth) (schema : Schema)
      → IsMarked schema
      → Gives IsMarked (check_candles_of_all env auths schema)
  unfolding check_candles_of_all
  check_candles_of_all-Gives [] schema h = pure-Gives IsMarked schema h
  check_candles_of_all-Gives (auth ∷ auths) schema h =
      >>=-Gives_of IsMarked IsMarked _ _ (check_new_candles_data-Gives auth schema h)
        (λ checked g. check_candles_of_all-Gives auths checked g)

  check_public-Gives :
      (auths : List Auth) (name : CollName) (schema : Schema)
      → IsMarked schema
      → Gives IsMarked (check_public env auths name schema)
  unfolding check_public
  check_public-Gives auths candles schema h =
      >>=-Gives_of IsMarked IsMarked _ _ (check_candles_of_all-Gives (auths_or_all auths) schema h)
        configurable-Gives
  check_public-Gives auths public_trades schema h = configurable-Gives schema h
  check_public-Gives auths tickers_history schema h = configurable-Gives schema h
  check_public-Gives auths status_messages schema h = pure-Gives IsMarked schema h
  check_public-Gives auths (other_coll name) schema h = pure-Gives IsMarked schema h

  updatable-Gives :
      (name : CollName) (schema : Schema)
      → IsMarked schema
      → Gives IsMarked (check_public_updatable env name schema)
  unfolding check_public_updatable
  updatable-Gives status_messages schema h = configurable-Gives schema h
  updatable-Gives _ schema h =
      lift-Gives IsMarked _ _ (λ last. pure-Gives IsMarked _ (check_updatable-IsMarked last schema))

  check_new_data-Gives :
      (auth : Auth) (colls : List Schema)
      → All IsMarked colls
      → Gives (All (IsToSync false)) (check_new_data env auth colls)
  unfolding check_new_data
  check_new_data-Gives auth colls a =
      unless-Gives (All (IsToSync false)) _ _ (filter_lem false colls a) (
        >>=-Gives_of (All IsMarked) (All (IsToSync false))
          (check_colls is_private_insertable (check_item_new_data env auth) colls) _
          (check_colls-Gives is_private_insertable (check_item_new_data env auth)
            (check_item_new_data-Gives auth) colls a)
          (λ checked b. pure-Gives (All (IsToSync false)) _ (filter_lem false checked b)))

  check_new_public_data-Gives :
      (auths : List Auth) (colls : List Schema)
      → All IsMarked colls
      → Gives (All (IsToSync true)) (check_new_public_data env auths colls)
  unfolding check_new_public_data
  check_new_public_data-Gives auths colls a =
      unless-Gives (All (IsToSync true)) _ _ (filter_lem true colls a) (
        >>=-Gives_of (All IsMarked) (All (IsToSync true)) _ _
          (check_colls-Gives is_public_insertable
            (λ schema. check_public env auths schema.name schema)
            (λ schema h. check_public-Gives auths schema.name schema h) colls a)
          (λ checked b.
            >>=-Gives_of (All IsMarked) (All (IsToSync true)) _ _
              (check_colls-Gives (λ t. is_updatable t && is_public t)
                (λ schema. check_public_updatable env schema.name schema)
                (λ schema h. updatable-Gives schema.name schema h) checked b)
              (λ updated c. pure-Gives (All (IsToSync true)) _ (filter_lem true updated c))))

  -- Where HAS_NEW_DATA of each collection says at first whether START has steps, the collections that
  -- checkNewData and checkNewPublicData return, whenever they are interrupted, all have steps in
  -- START, none is hidden, and they are private and public, in this order.
  pub check-Gives :
      (auth : Auth) (auths : List Auth) (colls : List Schema)
      → All IsMarked colls
      → Gives (All (IsToSync false)) (check_new_data env auth colls)
        × Gives (All (IsToSync true)) (check_new_public_data env auths colls)
  check-Gives auth auths colls a =
      (check_new_data-Gives auth colls a, check_new_public_data-Gives auths colls a)
