-- ===== src/Order.antt =====
-- src/order.rs: an order and its lifecycle.
pub mod Lifecycle
use rustbook.Prelude.{ℕ, ◌-◌, Bool, true, false, leb, ◌==◌, if◌then◌else◌, Run, done, panicked}
use rustbook.Types.{Price, Quantity, Timestamp, OrderId, Side, TimeInForce, wrapping_add}

pub data OrderStatus : Type 0 where
  new partially_filled filled cancelled : OrderStatus

unfoldable pub is_active : OrderStatus → Bool
is_active new = true
is_active partially_filled = true
is_active filled = false
is_active cancelled = false

unfoldable pub is_terminal : OrderStatus → Bool
is_terminal new = false
is_terminal partially_filled = false
is_terminal filled = true
is_terminal cancelled = true

pub record Order : Type 0 where
  pub id : OrderId
  pub side : Side
  pub price : Price
  pub original_quantity : Quantity
  pub remaining_quantity : Quantity
  pub filled_quantity : Quantity
  pub timestamp : Timestamp
  pub time_in_force : TimeInForce
  pub status : OrderStatus
  pub position_in_level : ℕ

-- `Order::new`.
unfoldable pub new_order : OrderId → Side → Price → Quantity → Timestamp → TimeInForce → Order
new_order id side price quantity timestamp time_in_force = record {
  id = id;
  side = side;
  price = price;
  original_quantity = quantity;
  remaining_quantity = quantity;
  filled_quantity = 0;
  timestamp = timestamp;
  time_in_force = time_in_force;
  status = new;
  position_in_level = 0;
}

-- The state that a fill which passes its assertion leaves.
unfoldable pub after_fill : Order → Quantity → Order
after_fill o quantity = record o {
  remaining_quantity = o.remaining_quantity - quantity;
  filled_quantity = wrapping_add o.filled_quantity quantity;
  status = if (o.remaining_quantity - quantity) == 0 then filled else partially_filled;
}

-- `Order::fill`, with its `assert!`.
unfoldable pub fill : Order → Quantity → Run Order
unfolding after_fill
fill o quantity =
    if leb quantity o.remaining_quantity then done (after_fill o quantity) else panicked

-- `Order::cancel`: the order and the quantity cancelled.
unfoldable pub cancel : Order → Run (Order × Quantity)
unfolding is_active
cancel o =
    if is_active o.status
    then done (record o { remaining_quantity = 0; status = cancelled }, o.remaining_quantity)
    else panicked
