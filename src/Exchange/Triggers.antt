-- ===== src/Exchange/Triggers.antt =====
-- src/exchange.rs: the cascade of stop orders that trades trigger, and the insertion of stop orders.
use rustbook.Prelude.{
  ℕ, zero, suc, leb_ℤ, Bool, true, false, if◌then◌else◌, List, [], ◌∷◌, Option, none, some, Run,
  done, ◌>>=◌,
}
use rustbook.Types.{
  Price, Quantity, OrderId, Side, buy, sell, TimeInForce, ioc, price_max, price_min,
}
use rustbook.Trade.{Trade}
use rustbook.Book.{next_order_id, next_timestamp}
use rustbook.Stop
use rustbook.Stop.{
  FloatOps, TrailMethod, StopStatus, pending, triggered, StopOrder, StopBook, is_trailing,
}
use rustbook.Stop.Trigger.{collect_triggered}
use rustbook.Stop.Trailing.{update_trailing_stops}
use rustbook.Results.{SubmitResult, StopSubmitResult}
use rustbook.Exchange.{Exchange, submit_limit_internal}

-- `trades.last().map(|t| t.price)`, or what there was before.
unfoldable pub last_price_or : Option Price → List Trade → Option Price
last_price_or before [] = before
last_price_or before (t ∷ ts) = last_price_or (some t.price) ts

-- The price of a market order: the worst possible one.
unfoldable pub market_price : Side → Price
market_price buy = price_max
market_price sell = price_min

unfoldable pub should_trigger : Side → Price → Price → Bool
should_trigger buy last_price stop_price = leb_ℤ stop_price last_price
should_trigger sell last_price stop_price = leb_ℤ last_price stop_price

-- `MAX_CASCADE_DEPTH`.
abbrev pub max_cascade_depth : ℕ
max_cascade_depth = 100

module _ {F : Type 0} where
  -- The submission of a triggered stop.
  unfoldable pub submit_triggered : Exchange F → StopOrder F → Run (Exchange F × SubmitResult)
  unfolding market_price
  submit_triggered x stop = elim stop.limit_price [
    | some limit ↦ submit_limit_internal x stop.side limit stop.quantity stop.time_in_force
    | none ↦ submit_limit_internal x stop.side (market_price stop.side) stop.quantity ioc
  ]

  -- The loop over the triggered stops, with the price of the last trade in it so far.
  unfoldable pub submit_all :
      Exchange F → List (StopOrder F) → Option Price → Run (Exchange F × Option Price)
  unfolding submit_triggered last_price_or
  submit_all x [] last_price = done (x, last_price)
  submit_all x (stop ∷ stops) last_price =
      submit_triggered x stop >>= λ r. submit_all r.0 stops (last_price_or last_price r.1.trades)

  -- A round of the cascade: the exchange, and whether there is another round.
  unfoldable pub cascade_round : FloatOps F → Exchange F → Price → Run (Exchange F × Bool)
  unfolding submit_all
  cascade_round fp x trade_price =
      let (stop_book, found) =
        collect_triggered (update_trailing_stops fp x.stop_book trade_price) trade_price in
      let x' = record x { stop_book = stop_book } in
      elim found [
        | [] ↦ done (x', false)
        | stop ∷ stops ↦ submit_all x' (stop ∷ stops) none >>= λ r. elim r.1 [
          | none ↦ done (r.0, false)
          | some price ↦ done (record r.0 { last_trade_price = some price }, true)
        ]
      ]

  unfoldable pub cascade : FloatOps F → ℕ → Exchange F → Run (Exchange F)
  unfolding cascade_round
  cascade fp zero x = done x
  cascade fp (suc depth) x = elim x.last_trade_price [
    | none ↦ done x
    | some trade_price ↦ cascade_round fp x trade_price >>= λ r. elim r.1 [
      | true ↦ cascade fp depth r.0
      | false ↦ done r.0
    ]
  ]

  unfoldable pub process_trade_triggers : FloatOps F → Exchange F → Run (Exchange F)
  unfolding cascade
  process_trade_triggers fp x = cascade fp max_cascade_depth x

  -- The exchange with the stop order in its book.
  unfoldable pub place_stop :
      Exchange F
      → Side
      → Price
      → Option Price
      → Quantity
      → TimeInForce
      → Option (TrailMethod F)
      → Exchange F × StopOrder F
  unfolding next_order_id next_timestamp
  place_stop x side stop_price limit_price quantity tif trail_method =
      let (b, id) = next_order_id x.book in
      let (b', timestamp) = next_timestamp b in
      let order : StopOrder F = record {
        id = id;
        side = side;
        stop_price = stop_price;
        limit_price = limit_price;
        quantity = quantity;
        time_in_force = tif;
        timestamp = timestamp;
        status = pending;
        trail_method = trail_method;
        watermark = none;
      } in
      (record x { book = b'; stop_book = Stop.insert x.stop_book order }, order)

  -- The status of a stop order that may have been triggered.
  unfoldable pub status_of : Exchange F → OrderId → StopStatus
  status_of x id = elim (Stop.get x.stop_book id) [ none ↦ triggered | some o ↦ o.status ]

  -- The triggers that run at once, if the last trade price is through the stop price.
  unfoldable pub trigger_now :
      FloatOps F → Exchange F → StopOrder F → Run (Exchange F × StopSubmitResult)
  unfolding should_trigger process_trade_triggers status_of
  trigger_now fp x o = elim x.last_trade_price [
    | none ↦ done (x, record { order_id = o.id; status = pending })
    | some last_price ↦
        if should_trigger o.side last_price o.stop_price
        then (process_trade_triggers fp x >>= λ x'.
            done (x', record { order_id = o.id; status = status_of x' o.id }))
        else done (x, record { order_id = o.id; status = pending })
  ]

  unfoldable pub insert_stop_order :
      FloatOps F
      → Exchange F
      → Side
      → Price
      → Option Price
      → Quantity
      → TimeInForce
      → Option (TrailMethod F)
      → Run (Exchange F × StopSubmitResult)
  unfolding place_stop trigger_now
  insert_stop_order fp x side stop_price limit_price quantity tif trail_method =
      let (x', o) = place_stop x side stop_price limit_price quantity tif trail_method in
      elim trail_method [
        | none ↦ trigger_now fp x' o
        | some method ↦ done (x', record { order_id = o.id; status = pending })
      ]

  unfoldable pub submit_trailing_stop_internal :
      FloatOps F
      → Exchange F
      → Side
      → Price
      → Option Price
      → Quantity
      → TimeInForce
      → TrailMethod F
      → Run (Exchange F × StopSubmitResult)
  submit_trailing_stop_internal fp x side stop_price limit_price quantity tif trail_method =
      insert_stop_order fp x side stop_price limit_price quantity tif (some trail_method)

  unfoldable pub submit_stop_internal :
      FloatOps F
      → Exchange F
      → Side
      → Price
      → Option Price
      → Quantity
      → TimeInForce
      → Run (Exchange F × StopSubmitResult)
  submit_stop_internal fp x side stop_price limit_price quantity tif =
      insert_stop_order fp x side stop_price limit_price quantity tif none
