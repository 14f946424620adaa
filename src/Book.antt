-- ===== src/Book.antt =====
-- src/book.rs: both sides of the book, the index of all orders and the counters of ids.
pub mod WellFormed
pub mod Edits
pub mod Sides
pub mod Placement
pub mod Queues
pub mod Pushing
pub mod Adding
pub mod Cancelling
use rustbook.Prelude.{
  ℕ, suc, ◌-◌, Bool, false, if◌then◌else◌, [], ◌∷◌, Option, none, some, Run, done, panicked, ◌>>=◌,
  length, leb_ℤ,
}
use rustbook.Prelude.HashMap
use rustbook.Prelude.HashMap.{HashMap}
use rustbook.Types.{
  Price, Quantity, Timestamp, OrderId, TradeId, Side, buy, sell, opposite, TimeInForce,
  wrapping_add,
}
use rustbook.Order
use rustbook.Order.{Order, new_order, is_active}
use rustbook.PriceLevels
use rustbook.PriceLevels.{PriceLevels, new_levels}

pub record OrderBook : Type 0 where
  pub bids : PriceLevels
  pub asks : PriceLevels
  pub orders : HashMap Order
  pub next_order_id : ℕ
  pub next_trade_id : ℕ
  pub next_timestamp : ℕ

-- `OrderBook::new`.
unfoldable pub new_book : OrderBook
unfolding new_levels
new_book = record {
  bids = new_levels buy;
  asks = new_levels sell;
  orders = [];
  next_order_id = 1;
  next_trade_id = 1;
  next_timestamp = 1;
}

-- The id that each counter gives, and the book with the counter moved on.
unfoldable pub next_order_id : OrderBook → OrderBook × OrderId
next_order_id b = (record b { next_order_id = wrapping_add b.next_order_id 1 }, b.next_order_id)

unfoldable pub next_trade_id : OrderBook → OrderBook × TradeId
next_trade_id b = (record b { next_trade_id = wrapping_add b.next_trade_id 1 }, b.next_trade_id)

unfoldable pub next_timestamp : OrderBook → OrderBook × Timestamp
next_timestamp b = (record b { next_timestamp = wrapping_add b.next_timestamp 1 }, b.next_timestamp)

unfoldable pub peek_next_order_id : OrderBook → OrderId
peek_next_order_id b = b.next_order_id

unfoldable pub get_order : OrderBook → OrderId → Option Order
get_order b order_id = HashMap.get b.orders order_id

unfoldable pub count_active : HashMap Order → ℕ
count_active [] = 0
count_active ((id, o) ∷ rest) =
    if is_active o.status then suc (count_active rest) else count_active rest

unfoldable pub active_order_count : OrderBook → ℕ
unfolding count_active
active_order_count b = count_active b.orders

unfoldable pub side_of : OrderBook → Side → PriceLevels
side_of b buy = b.bids
side_of b sell = b.asks

-- A write through `side_mut`.
unfoldable pub put_side : OrderBook → Side → PriceLevels → OrderBook
put_side b buy ps = record b { bids = ps }
put_side b sell ps = record b { asks = ps }

unfoldable pub opposite_side : OrderBook → Side → PriceLevels
unfolding side_of opposite
opposite_side b side = side_of b (opposite side)

unfoldable pub best_bid : OrderBook → Option Price
best_bid b = b.bids.best_price

unfoldable pub best_ask : OrderBook → Option Price
best_ask b = b.asks.best_price

-- `bid >= ask`, where both are there.
unfoldable pub crosses : Option Price → Option Price → Bool
crosses none ask = false
crosses (some bid) none = false
crosses (some bid) (some ask) = leb_ℤ ask bid

unfoldable pub is_crossed : OrderBook → Bool
unfolding best_bid best_ask crosses
is_crossed b = crosses (best_bid b) (best_ask b)

-- The book with an order put into its side, whose levels and place are given, and into the index.
unfoldable pub store_order : OrderBook → Order → PriceLevels → ℕ → OrderBook
unfolding put_side
store_order b o ps index =
    let placed = put_side b o.side ps in
    record placed { orders = HashMap.insert b.orders o.id (record o { position_in_level = index }) }

-- `add_order`, with its `assert!`.
unfoldable pub add_order : OrderBook → Order → Run OrderBook
unfolding store_order side_of
add_order b o =
    if HashMap.contains_key b.orders o.id
    then panicked
    else PriceLevels.insert_order (side_of b o.side) o.price o.id o.remaining_quantity >>= λ r.
        done (store_order b o r.0 r.1)

-- The book once the order of the id has become `o'` and its slot is marked.
unfoldable pub unlink_order : OrderBook → OrderId → Order → Order → OrderBook
unfolding side_of put_side
unlink_order b order_id o o' =
    let b' = record b { orders = HashMap.insert b.orders order_id o' } in
    put_side b' o.side (
      PriceLevels.mark_tombstone (side_of b' o.side) o.price o.position_in_level
        o.remaining_quantity)

-- `cancel_order`: the book and the quantity cancelled, if the order is there and active.
unfoldable pub cancel_order : OrderBook → OrderId → Run (OrderBook × Option Quantity)
unfolding get_order unlink_order
cancel_order b order_id = elim (get_order b order_id) [
  | none ↦ done (b, none)
  | some o ↦
      if is_active o.status
      then (Order.cancel o >>= λ r. done (unlink_order b order_id o r.0, some o.remaining_quantity))
      else done (b, none)
]

unfoldable pub create_order : OrderBook → Side → Price → Quantity → TimeInForce → OrderBook × Order
unfolding next_order_id next_timestamp new_order
create_order b side price quantity tif =
    let (b', id) = next_order_id b in
    let (b'', timestamp) = next_timestamp b' in
    (b'', new_order id side price quantity timestamp tif)

unfoldable pub clear_history : OrderBook → OrderBook × ℕ
clear_history b =
    let kept = HashMap.retain (λ o. is_active o.status) b.orders in
    (record b { orders = kept }, length b.orders - length kept)

unfoldable pub compact : OrderBook → OrderBook
compact b = record b { bids = PriceLevels.compact b.bids; asks = PriceLevels.compact b.asks }
