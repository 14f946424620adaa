-- ===== src/Order/Lifecycle.antt =====
-- src/order.rs: what holds of an order over its life.
use rustbook.Prelude.{◌+◌, ◌^◌, ◌≤◌, ◌<◌, ◌≡◌, ◌≢◌, true, arith, done, panicked}
use rustbook.Types.{Quantity, OrderId, Side, Price, Timestamp, TimeInForce}
use rustbook.Order.{Order, new, cancelled, is_active, is_terminal, fill, cancel, new_order}

-- The accounts of an order: what is filled and what remains add up to what was asked for, and the
-- status says how far it is. A cancelled order keeps what it had filled and has nothing left.
pub record IsValid (o : Order) : Type 0 where
  pub within : o.filled_quantity + o.remaining_quantity ≤ o.original_quantity
  pub in_range : o.original_quantity < 2 ^ 64
  pub complete :
      o.status ≢ cancelled → o.filled_quantity + o.remaining_quantity ≡ o.original_quantity
  pub untouched : o.status ≡ new → o.filled_quantity ≡ 0
  pub exhausted : is_terminal o.status ≡ true → o.remaining_quantity ≡ 0

-- A call on an order.
pub data Call : Type 0 where
  fills : Quantity → Call
  cancels : Call

-- The order after a call that returns.
pub data Step (o : Order) : Order → Type 0 where
  filling : {o' : Order} (q : Quantity) → is_active o.status ≡ true → fill o q ≡ done o' → Step o o'
  cancelling : {o' : Order} (q : Quantity) → cancel o ≡ done (o', q) → Step o o'

-- A fill or a cancellation of an active order that returns keeps its accounts.
pub Step-IsValid : {o o' : Order} → Step o o' → IsValid o → IsValid o'
unfolding fill cancel is_active is_terminal
Step-IsValid (filling q active e) v = ground arith
Step-IsValid (cancelling q e) v = ground arith

-- The orders that calls make of `o`.
pub data Reach (o : Order) : Order → Type 0 where
  here : Reach o o
  next : {p q : Order} → Reach o p → Step p q → Reach o q

Reach-IsValid : {o p : Order} → IsValid o → Reach o p → IsValid p
Reach-IsValid v here = v
Reach-IsValid v (next r s) = Step-IsValid s (Reach-IsValid v r)

new_order-IsValid :
    (id : OrderId) (side : Side) (price : Price) (quantity : Quantity) (time : Timestamp)
    (tif : TimeInForce)
    → quantity < 2 ^ 64
    → IsValid (new_order id side price quantity time tif)
unfolding new_order is_terminal
new_order-IsValid id side price quantity time tif h = ground arith

-- Of a new order whose quantity fits 64 bits, every order that fills of an active order and
-- cancellations reach has its accounts in order: the filled and the remaining quantity never exceed
-- the original one and add up to it unless the order is cancelled, a new order has nothing filled,
-- and a filled or cancelled one has nothing left.
pub Reach-new_order-IsValid :
    (id : OrderId) (side : Side) (price : Price) (quantity : Quantity) (time : Timestamp)
    (tif : TimeInForce) {o : Order}
    → quantity < 2 ^ 64
    → Reach (new_order id side price quantity time tif) o
    → IsValid o
Reach-new_order-IsValid id side price quantity time tif h r =
    Reach-IsValid (new_order-IsValid id side price quantity time tif h) r

-- A filled or cancelled order whose accounts are in order is final: a fill of a positive quantity
-- panics, and so does a cancellation.
pub terminal_refuses :
    (o : Order) (quantity : Quantity)
    → IsValid o
    → is_terminal o.status ≡ true
    → 0 < quantity
    → (fill o quantity ≡ panicked) × (cancel o ≡ panicked)
unfolding fill cancel is_active is_terminal
terminal_refuses o quantity v t h = ground arith
