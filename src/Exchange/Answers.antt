-- ===== src/Exchange/Answers.antt =====
-- src/exchange.rs, src/results.rs: what the answer to a limit order says of the exchange.
use rustbook.Prelude.{◌+◌, ◌≡◌, ◌⊎◌, true, false, ◌++◌, [], none, some, All}
use rustbook.Prelude.HashMap
use rustbook.Types.{Quantity, Price, OrderId, Side, TimeInForce, fok}
use rustbook.Order.{Order}
use rustbook.Trade.{Trade}
use rustbook.Book.{side_of}
use rustbook.Book.WellFormed.{IsWellFormed}
use rustbook.Matching.{can_fully_fill, sum_trades, prices_cross}
use rustbook.Results.{SubmitResult}
use rustbook.Exchange.{Exchange}
use rustbook.Exchange.Settling.{Policy, Rested}

-- A trade of the order of the id, on its side and at a price no worse than its limit.
abbrev pub IsTradeOf : OrderId → Side → Price → Trade → Type 0
IsTradeOf id side price t =
    (t.aggressor_order_id ≡ id)
    × (t.aggressor_side ≡ side)
    × (prices_cross side price t.price ≡ true)

-- The index has the order of an answer, with the answer's filled quantity and status, and with what
-- rests or was cancelled as its remainder.
pub record Indexed {F : Type 0} (side : Side) (price : Price) (x' : Exchange F) (r : SubmitResult)
    : Type 0 where
  pub order : Order
  pub found : HashMap.get x'.book.orders r.order_id ≡ some order
  pub sided : order.side ≡ side
  pub priced : order.price ≡ price
  pub filled : order.filled_quantity ≡ r.filled_quantity
  pub remaining : order.remaining_quantity ≡ r.resting_quantity + r.cancelled_quantity
  pub with_status : order.status ≡ r.status

-- A fill-or-kill order that the book cannot fill: nothing was traded, both sides are as they were
-- and the index does not have the order.
pub record Refused {F : Type 0} (x : Exchange F) (side : Side) (price : Price) (quantity : Quantity)
    (tif : TimeInForce) (x' : Exchange F) (r : SubmitResult) : Type 0 where
  pub fill_or_kill : tif ≡ fok
  pub short : can_fully_fill x.book side price quantity ≡ false
  pub no_trades : r.trades ≡ []
  pub same : (s : Side) → side_of x'.book s ≡ side_of x.book s
  pub absent : HashMap.get x'.book.orders r.order_id ≡ none

-- What the submission of a limit order makes of an exchange, and its answer: the book is well
-- formed, the answer's quantities balance and follow the time in force, its trades are the order's
-- own, and the history has them at its end. The own side of the book is as it was if nothing rests,
-- and the order is at the back of the queue at its price if something does. The index has the order
-- unless it was refused.
pub record Submitted {F : Type 0} (x : Exchange F) (side : Side) (price : Price)
    (quantity : Quantity) (tif : TimeInForce) (x' : Exchange F) (r : SubmitResult) : Type 0 where
  pub well_formed : IsWellFormed x'.book
  pub balanced : r.filled_quantity + (r.resting_quantity + r.cancelled_quantity) ≡ quantity
  pub traded : sum_trades r.trades ≡ r.filled_quantity
  pub owned : All (IsTradeOf r.order_id side price) r.trades
  pub policy : Policy tif r.resting_quantity r.cancelled_quantity
  pub recorded : x'.trades ≡ x.trades ++ r.trades
  pub numbered : r.order_id ≡ x.book.next_order_id
  pub own_side :
      Rested r.resting_quantity (side_of x.book side) price r.order_id (side_of x'.book side)
  pub known : Indexed side price x' r ⊎ Refused x side price quantity tif x' r
