-- ===== src/Exchange.antt =====
-- src/exchange.rs: the exchange, and the internal calls that record no event.
pub mod Triggers
pub mod Api
pub mod Replay
pub mod Crossing
pub mod Settling
pub mod Answers
pub mod Entering
pub mod Submission
use rustbook.Prelude.{
  ℕ, ◌==◌, ltb, not, ◌&&◌, Bool, true, false, if◌then◌else◌, List, [], ◌∷◌, ◌++◌, Option, none,
  some, Run, done, panicked, ◌>>=◌,
}
use rustbook.Prelude.HashMap
use rustbook.Types.{Price, Quantity, OrderId, Side, TimeInForce, gtc, ioc, fok}
use rustbook.Order.{Order, OrderStatus, new, partially_filled, filled, is_active}
use rustbook.Trade.{Trade}
use rustbook.Book
use rustbook.Book.{OrderBook, new_book, add_order, cancel_order, create_order, get_order}
use rustbook.Matching.{MatchResult, match_order, can_fully_fill}
use rustbook.Stop
use rustbook.Stop.{StopBook, new_stop_book}
use rustbook.Event.{Event}
use rustbook.Results.{
  SubmitResult, CancelResult, cancel_success, cancel_failure, CancelError, ModifyResult,
  modify_success, modify_failure, ModifyError, invalid_quantity,
}

pub record Exchange (F : Type 0) : Type 0 where
  pub book : OrderBook
  pub trades : List Trade
  pub stop_book : StopBook F
  pub last_trade_price : Option Price
  pub events : List (Event F)

abbrev pub is_fok : TimeInForce → Bool
is_fok gtc = false
is_fok ioc = false
is_fok fok = true

-- The status, the resting and the cancelled quantity of an order with a remainder.
unfoldable pub rest_status : Quantity → OrderStatus
rest_status filled_quantity = if ltb 0 filled_quantity then partially_filled else new

unfoldable pub drop_status : Quantity → OrderStatus
drop_status filled_quantity =
    if ltb 0 filled_quantity then partially_filled else OrderStatus.cancelled

-- `book.orders.insert(order_id, order)`: an order that goes into the index alone.
unfoldable pub index_order : OrderBook → Order → OrderBook
index_order b o = record b { orders = HashMap.insert b.orders o.id o }

-- What the time in force makes of the matched order: the book, the status, the resting and the
-- cancelled quantity.
unfoldable pub settle_order :
    OrderBook → Order → TimeInForce → Run (OrderBook × OrderStatus × Quantity × Quantity)
unfolding rest_status drop_status index_order
settle_order b o tif =
    if o.remaining_quantity == 0
    then done (index_order b (record o { status = filled }), filled, 0, 0)
    else elim tif [
      | gtc ↦
          let status = rest_status o.filled_quantity in
          add_order b (record o { status = status }) >>= λ b'.
          done (b', status, o.remaining_quantity, 0)
      | _ ↦
          let status = drop_status o.filled_quantity in
          done (index_order b (record o { status = status }), status, 0, o.remaining_quantity)
    ]

-- The answer to a fill-or-kill order that cannot be filled.
unfoldable pub rejection : OrderId → Quantity → SubmitResult
rejection order_id quantity = record {
  order_id = order_id;
  status = OrderStatus.cancelled;
  trades = [];
  filled_quantity = 0;
  resting_quantity = 0;
  cancelled_quantity = quantity;
}

module _ {F : Type 0} where
  -- `Exchange::new`.
  unfoldable pub new_exchange : Exchange F
  unfolding new_book new_stop_book
  new_exchange = record {
    book = new_book;
    trades = [];
    stop_book = new_stop_book;
    last_trade_price = none;
    events = [];
  }

  -- An order that has been created, matched and settled.
  unfoldable pub execute :
      Exchange F → OrderBook → Order → TimeInForce → Run (Exchange F × SubmitResult)
  unfolding settle_order
  execute x b o tif = match_order b o >>= λ m. settle_order m.0 m.1 tif >>= λ s. done (
    record x { book = s.0; trades = x.trades ++ m.2.trades },
    record {
      order_id = o.id;
      status = s.1;
      trades = m.2.trades;
      filled_quantity = m.1.filled_quantity;
      resting_quantity = s.2;
      cancelled_quantity = s.3;
    },
  )

  unfoldable pub submit_limit_internal :
      Exchange F → Side → Price → Quantity → TimeInForce → Run (Exchange F × SubmitResult)
  unfolding execute rejection
  submit_limit_internal x side price quantity tif =
      let (b, o) = create_order x.book side price quantity tif in
      if is_fok tif && not (can_fully_fill x.book side price quantity)
      then done (record x { book = b }, rejection o.id quantity)
      else execute x b o tif

  -- The cancellation of an order that is not a pending stop.
  unfoldable pub cancel_resting : Exchange F → OrderId → Run (Exchange F × CancelResult)
  cancel_resting x order_id = elim (get_order x.book order_id) [
    | none ↦ done (x, cancel_failure CancelError.order_not_found)
    | some o ↦
        if is_active o.status
        then (cancel_order x.book order_id >>= λ r. elim r.1 [
          | none ↦ done (record x { book = r.0 }, cancel_failure CancelError.order_not_active)
          | some quantity ↦ done (record x { book = r.0 }, cancel_success quantity)
        ])
        else done (x, cancel_failure CancelError.order_not_active)
  ]

  unfoldable pub cancel_internal : Exchange F → OrderId → Run (Exchange F × CancelResult)
  unfolding cancel_resting
  cancel_internal x order_id =
      if Stop.contains_pending x.stop_book order_id
      then elim (Stop.get x.stop_book order_id) [
        | none ↦ cancel_resting x order_id
        | some stop ↦ done (
          record x { stop_book = (Stop.cancel x.stop_book order_id).0 },
          cancel_success stop.quantity,
        )
      ]
      else cancel_resting x order_id

  -- The cancellation of the active order and the submission of its replacement.
  unfoldable pub replace :
      Exchange F → OrderId → Order → Price → Quantity → Run (Exchange F × ModifyResult)
  unfolding submit_limit_internal
  replace x order_id old new_price new_quantity = cancel_order x.book order_id >>= λ r. elim r.1 [
    | none ↦ done (record x { book = r.0 }, modify_failure order_id ModifyError.order_not_active)
    | some quantity ↦
        submit_limit_internal (record x { book = r.0 }) old.side new_price new_quantity
          old.time_in_force
        >>= λ s. done (s.0, modify_success order_id s.1.order_id quantity s.1.trades)
  ]

  unfoldable pub modify_internal :
      Exchange F → OrderId → Price → Quantity → Run (Exchange F × ModifyResult)
  unfolding replace
  modify_internal x order_id new_price new_quantity =
      if new_quantity == 0
      then done (x, modify_failure order_id invalid_quantity)
      else elim (get_order x.book order_id) [
        | none ↦ done (x, modify_failure order_id ModifyError.order_not_found)
        | some o ↦
            if is_active o.status
            then replace x order_id o new_price new_quantity
            else done (x, modify_failure order_id ModifyError.order_not_active)
      ]
