-- ===== src/Stop/Trigger.antt =====
-- src/stop.rs: `collect_triggered`, which takes the stop orders that a trade price triggers.
use rustbook.Prelude.{leb, true, false, if◌then◌else◌, List, [], ◌∷◌, ◌++◌, none, some}
use rustbook.Prelude.HashMap
use rustbook.Prelude.HashMap.{HashMap}
use rustbook.Prelude.BTreeMap
use rustbook.Prelude.BTreeMap.{BTreeMap}
use rustbook.Types.{Price, OrderId}
use rustbook.Stop.{StopOrder, StopBook, triggered, is_pending, pending_in, keep_ids}

abbrev pub keys {ℓ} : {V : Type ℓ} → BTreeMap V → List Price
keys [] = []
keys ((price, v) ∷ rest) = price ∷ keys rest

module _ {F : Type 0} where
  -- The loop over the ids of an entry: the index of orders and the orders triggered so far.
  unfoldable pub trigger_ids :
      List OrderId
      → HashMap (StopOrder F)
      → List (StopOrder F)
      → HashMap (StopOrder F) × List (StopOrder F)
  trigger_ids [] orders found = (orders, found)
  trigger_ids (id ∷ ids) orders found = elim (HashMap.get orders id) [
    | none ↦ trigger_ids ids orders found
    | some o ↦ elim (is_pending o.status) [
      | true ↦
          let o' = record o { status = triggered } in
          trigger_ids ids (HashMap.insert orders id o') (found ++ o' ∷ [])
      | false ↦ trigger_ids ids orders found
    ]
  ]

  -- The loop over the keys: each entry is removed and its orders are triggered.
  unfoldable pub trigger_keys :
      List Price
      → BTreeMap (List OrderId)
      → HashMap (StopOrder F)
      → List (StopOrder F)
      → BTreeMap (List OrderId) × HashMap (StopOrder F) × List (StopOrder F)
  trigger_keys [] m orders found = (m, orders, found)
  trigger_keys (key ∷ rest) m orders found = elim (BTreeMap.get m key) [
    | none ↦ trigger_keys rest m orders found
    | some ids ↦
        let r = trigger_ids ids orders found in trigger_keys rest (BTreeMap.remove m key) r.0 r.1
  ]

  -- `sort_by_key(|o| o.timestamp)`: the sort is stable.
  unfoldable pub insert_sorted : StopOrder F → List (StopOrder F) → List (StopOrder F)
  insert_sorted o [] = o ∷ []
  insert_sorted o (p ∷ ps) =
      if leb o.timestamp p.timestamp then o ∷ p ∷ ps else p ∷ insert_sorted o ps

  unfoldable pub sort_by_timestamp : List (StopOrder F) → List (StopOrder F)
  unfolding insert_sorted
  sort_by_timestamp [] = []
  sort_by_timestamp (o ∷ os) = insert_sorted o (sort_by_timestamp os)

  -- `trailing_ids` without the orders that are no longer pending, if any order was triggered.
  unfoldable pub prune_trailing :
      List (StopOrder F) → HashMap (StopOrder F) → List OrderId → List OrderId
  unfolding keep_ids pending_in
  prune_trailing [] orders ids = ids
  prune_trailing (o ∷ os) orders ids = keep_ids (pending_in orders) ids

  unfoldable pub collect_triggered : StopBook F → Price → StopBook F × List (StopOrder F)
  unfolding trigger_ids trigger_keys sort_by_timestamp prune_trailing
  collect_triggered b trade_price =
      let buys =
        trigger_keys (keys (BTreeMap.range_to b.buy_stops trade_price)) b.buy_stops b.orders [] in
      let sells =
        trigger_keys (keys (BTreeMap.range_from b.sell_stops trade_price)) b.sell_stops buys.1
          buys.2 in
      let found = sort_by_timestamp sells.2 in
      (
        record b {
          buy_stops = buys.0;
          sell_stops = sells.0;
          orders = sells.1;
          trailing_ids = prune_trailing found sells.1 b.trailing_ids;
        },
        found,
      )
